-- ===== src/Receive/Timeout.antt =====
-- `gp_receiv` of src/gp_layer.c where no reply comes.
use libgate.Base.{
  ℕ, ◌≤◌, ◌≡◌, refl, ap, ◌∙◌, arith, List, ◌∷◌, none, Status, true, Bool-cases, inl, inr, ltb, leb,
}
use libgate.World.{World, History, freed, unreadable}
use libgate.Gate.{Gate, Cmd}
use libgate.Gate.Action.{exited, pure, request, ◌>>=◌, ◌>>◌}
use libgate.Link.Bounds.{gp_send_closed}
use libgate.Port.{is_closed}
use libgate.Port.Retry.{gp_close_lem, reconnect_fails}
use libgate.Queue.{gp_put_cmd, first, send_entry}
use libgate.Queue.Line.{Fits}
use libgate.Processor.{App}
use libgate.Receive.{
  elapsed, count_timeout, after_put, send_next, after_reconnect, timed_out, after_read,
}

count_timeout_keeps :
    (s : Gate) → ((count_timeout s).cfg ≡ s.cfg) × ((count_timeout s).head ≡ s.head)
unfolding count_timeout
count_timeout_keeps s = elim (Bool-cases (ltb 0 s.send_mess.is_expected)) [
  | inl e ↦ rw e (refl, refl)
  | inr e ↦ rw e (refl, refl)
]

module _ (w : World) (app : App) (stop : ℕ) where
  put_closed :
      (z : Cmd) (rest : List Cmd) (s : Gate)
      → s.cfg.fd ≡ none
      → s.head ≡ z ∷ rest
      → Fits z
      → (t : Gate) × (gp_put_cmd w s ≡ exited 99 t)
  unfolding gp_put_cmd first send_entry
  put_closed z rest s is_closed e fits =
      let (t, exits, past) =
        gp_send_closed w z (record s { head = rest }) is_closed fits.0 fits.1 in
      (
        t,
        ap (λ l. first w l s) e
            ∙ ap (λ o. ◌>>=◌ {B = Status} (λ x. o) (λ x. request freed >> pure x.0) s) exits,
      )

  -- While the port is closed and cannot be opened again, a timeout that comes late, with `gp_timeout`
  -- or more gone by since the last frame was sent, ends the process with code 99, where it was to try
  -- again later, if the first queue holds a command whose frame fits into the buffers.
  pub timed_out_closed :
      (now : ℕ) (z : Cmd) (rest : List Cmd) (s : Gate)
      → s.cfg.fd ≡ none
      → ((h : History) → w.open_port h ≡ none)
      → s.cfg.gp_timeout ≤ elapsed now s.send_mess.sent_time
      → s.head ≡ z ∷ rest
      → Fits z
      → (t : Gate) × (timed_out w app stop now s ≡ exited 99 t)
  unfolding timed_out after_reconnect send_next
  timed_out_closed now z rest s shut never late e fits =
      let (t, failed, still, same, message, queue, queue2) = reconnect_fails w s never shut in
      let over : leb t.cfg.gp_timeout (elapsed now t.send_mess.sent_time) ≡ true = ground arith in
      let (cfg, head) = count_timeout_keeps t in
      let (u, exits) =
        put_closed z rest (count_timeout t) (ap (λ c. c.fd) cfg ∙ still) (head ∙ queue ∙ e) fits in
      (
        u,
        ap (λ o. ◌>>=◌ {B = Unit {0}} (λ x. o) (after_reconnect w app stop now) s) failed
            ∙ rw over (
                ap (λ o. ◌>>=◌ {B = Unit {0}} (λ x. o) (after_put w app stop) (count_timeout t))
                  exits),
      )

  -- A failed read closes the port, and with a command in the first queue whose frame fits into the
  -- buffers it then ends the process with code 99.
  pub read_failed :
      (p size : ℕ) (z : Cmd) (rest : List Cmd) (s : Gate)
      → s.head ≡ z ∷ rest
      → Fits z
      → (t : Gate) × (after_read w app stop p size unreadable s ≡ exited 99 t)
  unfolding after_read
  read_failed p size z rest s e fits =
      let (t, closes, shut, head) = gp_close_lem s in
      let (u, exits) = put_closed z rest t shut (head ∙ e) fits in
      (
        u,
        ap (λ o. ◌>>=◌ {B = Unit {0}} (λ x. o) (λ x. gp_put_cmd w >>= λ put. pure tt) s) closes
            ∙ ap (λ o. ◌>>=◌ {B = Unit {0}} (λ x. o) (λ put. pure tt) t) exits,
      )
