-- ===== src/Receive/Answer.antt =====
-- Short replies that `gp_receiv` of src/gp_layer.c takes: acknowledgements, refusals, errors.
mod Tests
use libgate.Base.{
  ℕ, ℤ, ◌≤◌, ◌≡◌, ◌≢◌, refl, ap, ◌∙◌, arith, true, false, none, some, Option, ◌==◌, if◌then◌else◌,
  Status, count, update, inl, inr, Bool-cases, ◌⊎◌,
}
use libgate.World.{World}
use libgate.Gate.{Gate}
use libgate.Gate.Action.{Outcome, done, pure, bind_done, ◌>>=◌, ◌>>◌}
use libgate.Queue.{gp_put_cmd}
use libgate.Queue.Fifo.{give}
use libgate.Queue.Line.{IsReliable, waiting, Sends}
use libgate.Queue.Service.{AllFit, put_cmd_lem}
use libgate.Processor.{App}
use libgate.Processor.Input.{process_port_input, run_handler, plain_reply}
use libgate.Receive.{accept, set_reply}

-- The state in which the next command is taken from the queues: the number of the command that the
-- reply is about, from place `k`, stands for that of the reply.
abbrev named : ℕ → Gate → Gate
named k s = record s {
  receiv_mess = record s.receiv_mess {
    dev = s.receiv_mess.buf 4;
    buf = update s.receiv_mess.buf 5 (s.receiv_mess.buf k);
  };
}

module _ (w : World) (app : App) (stop : ℕ) (good : IsReliable w) where
  put_next :
      (k fd : ℕ) (s : Gate)
      → s.cfg.fd ≡ some fd
      → 3 ≤ fd
      → AllFit (waiting s)
      → (t : Gate) × ((gp_put_cmd w >>= λ put. pure tt) (named k s) ≡ done tt t)
        × Sends (give (waiting s)).0 (give (waiting s)).1 s t
  put_next k fd s is_open usable fit =
      let (r, t, puts, sends) = put_cmd_lem w good (named k s) fd is_open usable fit in
      (
        t,
        bind_done (gp_put_cmd w) (λ put. pure tt) puts,
        record { port = sends.port; queues = sends.queues; line = sends.line },
      )

  -- An acknowledgement of a command without a handler changes nothing else.
  acknowledged :
      (s : Gate)
      → s.send_mess.ev_handler ≡ none
      → s.receiv_mess.buf 7 ≢ 0x09
      → s.receiv_mess.buf 7 ≢ 0x04
      → process_port_input w app 1 (named 7 s) ≡ done (count 0) (named 7 s)
  unfolding process_port_input plain_reply
  acknowledged s handler not_info not_data =
      let info : (s.receiv_mess.buf 7 == 0x09) ≡ false = ground arith in
      let data_read : (s.receiv_mess.buf 7 == 0x04) ≡ false = ground arith in
      ap
        (λ h. elim h [
          | some h' ↦ run_handler w app h' 1 (named 7 s)
          | none ↦ plain_reply w app (named 7 s)
        ])
        handler
      ∙ rw (info, data_read) refl

  -- Whether a device acknowledges a command, refuses it or reports an error, the next command goes
  -- over the line, as the specification of the queues gives it out: a command that was refused is not
  -- sent again. The port is open, line and memory are reliable and the commands fit; a command that is
  -- acknowledged has no handler and reads nothing.
  pub short_reply_next :
      (l : ℤ) (fd : ℕ) (s : Gate)
      → s.cfg.fd ≡ some fd
      → 3 ≤ fd
      → AllFit (waiting s)
      → s.receiv_mess.buf 4 ≡ s.send_mess.dev
      → s.receiv_mess.buf 5 ≡ 0x55
      → (s.receiv_mess.buf 6 ≡ 0x55
          → (s.send_mess.ev_handler ≡ none)
            × (s.receiv_mess.buf 7 ≢ 0x09)
            × (s.receiv_mess.buf 7 ≢ 0x04))
      → (t : Gate) × (accept w app stop l s ≡ done tt t)
        × Sends (give (waiting s)).0 (give (waiting s)).1 s t
  unfolding accept
  short_reply_next l fd s is_open usable fit from short plain =
      let same : (s.send_mess.dev == s.receiv_mess.buf 4) ≡ true = ground arith in
      let reply : (s.receiv_mess.buf 5 == 0x55) ≡ true = ground arith in
      let (t, puts, sends) = put_next 7 fd s is_open usable fit in
      let (u, puts', sends') = put_next 8 fd s is_open usable fit in
      elim (Bool-cases (s.receiv_mess.buf 6 == 0x55)) [
        | inl e ↦
            let (handler, not_info, not_data) = plain (ground arith) in
            (
              t,
              rw (same, reply, e)
                  (bind_done (process_port_input w app 1 >>= λ done'. pure tt)
                      (λ x. gp_put_cmd w >>= λ put. pure tt)
                      (bind_done (process_port_input w app 1) (λ done'. pure tt)
                        (acknowledged s handler not_info not_data))
                    ∙ puts),
              sends,
            )
        | inr e ↦ elim (Bool-cases (s.receiv_mess.buf 6 == 0xAA)) [
          | inl f ↦ (t, rw (same, reply, e, f) puts, sends)
          | inr f ↦ (u, rw (same, reply, e, f) puts', sends')
        ]
      ]
