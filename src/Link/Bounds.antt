-- ===== src/Link/Bounds.antt =====
-- When `gp_send` of src/gp_layer.c does not return: the port is closed, or a buffer is too small.
use libgate.Base.{
  ◌↔◌, ◌≤◌, ◌<◌, ◌≡◌, ◌≢◌, refl, sym, ap, ◌∙◌, ◌⊎◌, inl, inr, ◌∷◌, arith, length, none, Status,
  dec_lt,
}
use libgate.World.{World, read_clock}
use libgate.Gate.{Cmd, Gate}
use libgate.Gate.Action.{Outcome, done, exited, fault, ◌>>=◌, pure}
use libgate.Codec.Escape.Stuffing.{stuff, length-stuff-le}
use libgate.Port.{gp_close}
use libgate.Link.{with_crc, prepare, store_frame, stamp, gp_resend, gp_send}
use libgate.Link.Frame.{body, frame_count, length-body}
use libgate.Link.Sending.{loaded, gp_send-gp_resend}

gp_resend_closed : (w : World) (s : Gate) → s.cfg.fd ≡ none → gp_resend w s ≡ exited 99 s
unfolding gp_resend
gp_resend_closed w s e = ground arith

-- With the port closed a command that fits ends the process with code 99, and nothing is written.
pub gp_send_closed :
    (w : World) (cmd : Cmd) (s : Gate)
    → s.cfg.fd ≡ none
    → cmd.data_len < 120
    → length (stuff (body cmd)) ≤ 127
    → (t : Gate) × (gp_send w cmd s ≡ exited 99 t) × (t.history ≡ read_clock ∷ s.history)
gp_send_closed w cmd s is_closed small fits = (
  loaded w cmd s,
  gp_send-gp_resend w cmd s small fits
      ∙ ap (λ o. ((λ t. o) >>= λ r. pure (r, with_crc cmd)) (loaded w cmd s))
          (gp_resend_closed w (loaded w cmd s)
            (unfold loaded prepare store_frame stamp in is_closed)),
  unfold loaded stamp in refl,
)

gp_resend_safe :
    (w : World) (s : Gate) (cmd : Cmd)
    → ◌>>=◌ {B = Status × Cmd} (gp_resend w) (λ r. pure (r, cmd)) s ≢ fault
unfolding gp_resend gp_close
gp_resend_safe w s cmd = ground arith

gp_send_overflow :
    (w : World) (cmd : Cmd) (s : Gate)
    → (120 ≤ cmd.data_len) ⊎ (127 < length (stuff (body cmd)))
    → gp_send w cmd s ≡ fault
unfolding gp_send
gp_send_overflow w cmd s h = ground (arith, h, frame_count cmd)

-- `gp_send` writes outside of a buffer exactly where the data do not leave room for the checksum, or
-- the escaped command does not fit between the first two bytes and the last of `send_mess.buf`.
pub gp_send_fault_iff :
    (w : World) (cmd : Cmd) (s : Gate)
    → (gp_send w cmd s ≡ fault) ↔ ((120 ≤ cmd.data_len) ⊎ (127 < length (stuff (body cmd))))
gp_send_fault_iff w cmd s = (only, gp_send_overflow w cmd s)
  where
    only : gp_send w cmd s ≡ fault → (120 ≤ cmd.data_len) ⊎ (127 < length (stuff (body cmd)))
    only e = elim (dec_lt cmd.data_len 120) [
      | no long ↦ inl (omega arith)
      | yes short ↦ elim (dec_lt 127 (length (stuff (body cmd)))) [
        | yes long ↦ inr long
        | no fits ↦ absurd (
            gp_resend_safe w (loaded w cmd s) (with_crc cmd)
              (sym (gp_send-gp_resend w cmd s short (omega arith)) ∙ e))
      ]
    ]

-- 60 bytes of data always fit, whatever they are.
pub gp_send_safe : (w : World) (cmd : Cmd) (s : Gate) → cmd.data_len ≤ 60 → gp_send w cmd s ≢ fault
gp_send_safe w cmd s h e = elim ((gp_send_fault_iff w cmd s).0 e) [
  | inl long ↦ omega arith
  | inr long ↦ omega (arith, length-stuff-le (body cmd), length-body cmd)
]

-- The command that `gp_send` leaves has as many data as before.
pub gp_send_returns :
    (w : World) (cmd : Cmd) (s : Gate) (r : Status) (c : Cmd) (t : Gate)
    → cmd.data_len ≤ 60
    → gp_send w cmd s ≡ done (r, c) t
    → c.data_len ≤ 60
unfolding with_crc
gp_send_returns w cmd s r c t h e = returned (gp_resend w (loaded w cmd s)) (
    sym (
      gp_send-gp_resend w cmd s (omega arith)
        (omega (arith, length-stuff-le (body cmd), length-body cmd)))
    ∙ e)
  where
    returned :
        (o : Outcome Status)
        → ◌>>=◌ {B = Status × Cmd} (λ x. o) (λ r. pure (r, with_crc cmd)) (loaded w cmd s)
          ≡ done (r, c) t
        → c.data_len ≤ 60
    returned (done a u) f = ground (arith, h, f)
    returned (exited a u) f = absurd cc
    returned fault f = absurd cc
