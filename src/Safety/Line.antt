-- ===== src/Safety/Line.antt =====
-- The state of the library behind the functions of src/gp_port.c, and `gp_send` and `gp_send_idle` of
-- src/gp_layer.c.
use libgate.Base.{
  ℕ, ◌≡◌, refl, subst, sym, arith, ◌∷◌, none, some, inl, inr, Bool-cases, ltb, ◌==◌, if◌then◌else◌,
  count, failed, Status, Option, Bool, ◌&&◌, ◌||◌, not, ◌-◌, ◌+◌, slice,
}
use libgate.World.{World, closed, disarmed, opened, armed, asked_time, written}
use libgate.Gate.{Gate, Cmd}
use libgate.Gate.Action.{Action, done, pure, exit, request, modify, ◌>>=◌}
use libgate.Link.{
  gp_send, gp_resend, with_crc, prepare, store_frame, stamp, close_if_broken, send_through,
}
use libgate.Link.Sending.{loaded, gp_send-gp_resend}
use libgate.Link.Idle.{Scan, found, finished, out_of_fuel, poll_cmd, gp_send_idle}
use libgate.Link.Idle.Round.{gp_send_idle_lem, Idles}
use libgate.Port.{gp_close, gp_reconnect, try_open, is_closed}
use libgate.Queue.Line.{Fits-short}
use libgate.Safety.{
  IsSound, Ends, Safe, Short, bind-Ends, bind-Safe, if-Safe, same-IsSound, request-Safe, pure-Safe,
  gets-Safe, modify-Safe,
}

pub gp_close-Safe : Safe gp_close
unfolding gp_close
gp_close-Safe = record { ends = λ s v. go s v s.cfg.fd }
  where
    go :
        (s : Gate)
        → IsSound s
        → (o : Option ℕ)
        → Ends {A = Unit {0}}
            (λ a. Unit)
            (elim o [
              | none ↦ done tt s
              | some fd ↦ done tt (record s {
                cfg = record s.cfg { fd = none };
                history = closed fd ∷ disarmed ∷ s.history;
              })
            ])
    go s v none = (tt, v)
    go s v (some fd) = (tt, same-IsSound s _ v refl refl refl refl)

module _ (w : World) where
  try_open-Safe : Safe (try_open w)
  unfolding try_open
  try_open-Safe = bind-Safe (request opened) _ (request-Safe opened) λ x.
      gets-Safe (λ s. w.open_port s.history) _
        λ fd.
          bind-Safe (modify (λ s. record s { cfg = record s.cfg { fd = fd } })) _
            (modify-Safe _ λ s v. same-IsSound s _ v refl refl refl refl)
            λ y.
              gets-Safe (λ s. s.cfg.timeout_usec) _
                λ usec.
                  if-Safe (is_closed fd) (pure tt) (request (armed usec)) (pure-Safe tt)
                    (request-Safe (armed usec))

  pub gp_reconnect-Safe : (n : ℕ) → Safe (gp_reconnect w n)
  unfolding gp_reconnect
  gp_reconnect-Safe n = bind-Safe (request asked_time) _ (request-Safe asked_time) λ x.
      gets-Safe (λ s. w.time s.history) _
        λ now.
          gets-Safe (λ s. s.last_try) _
            λ last.
              bind-Safe _ _
                (if-Safe (not (n == 0) || ltb last (now - 15)) _ (pure tt)
                  (bind-Safe (modify (λ s. record s { last_try = now })) _
                    (modify-Safe _ λ s v. same-IsSound s _ v refl refl refl refl)
                    λ y.
                      gets-Safe (λ s. s.cfg.fd) _
                        λ fd.
                          if-Safe (is_closed fd) (try_open w) (pure tt) try_open-Safe
                            (pure-Safe tt))
                  (pure-Safe tt))
                λ z.
                  gets-Safe (λ s. s.cfg.fd) _
                    λ fd. pure-Safe {A = ℕ} (if is_closed fd then 0 else 1)

  close_if_broken-Safe : (n : Status) (e : Bool) → Safe (close_if_broken w n e)
  unfolding close_if_broken
  close_if_broken-Safe failed e = gp_close-Safe
  close_if_broken-Safe (count n) e =
      if-Safe (n == 0 && e) gp_close (pure tt) gp_close-Safe (pure-Safe tt)

  send_through-Safe : (fd : ℕ) → Safe (send_through w fd)
  unfolding send_through
  send_through-Safe fd =
      gets-Safe (λ s. s.cfg.timeout_usec) _
        λ usec. bind-Safe (request (armed usec)) _ (request-Safe (armed usec)) λ x.
          gets-Safe (λ s. slice s.send_mess.buf 0 s.send_mess.len) _
            λ bytes. bind-Safe (request (written fd bytes)) _ (request-Safe (written fd bytes)) λ y.
              gets-Safe (λ s. w.write s.history) _
                λ r.
                  bind-Safe (close_if_broken w r.nwritten r.is_epipe) _
                    (close_if_broken-Safe r.nwritten r.is_epipe) λ z. pure-Safe r.nwritten

  gp_resend-Safe : Safe (gp_resend w)
  unfolding gp_resend
  gp_resend-Safe = record { ends = λ s v. go s v s.cfg.fd }
    where
      go :
          (s : Gate)
          → IsSound s
          → (o : Option ℕ)
          → Ends {A = Status}
              (λ a. Unit)
              (elim o [
                | none ↦ exit 99 s
                | some fd ↦ if ltb fd 3 then exit (100 + fd) s else send_through w fd s
              ])
      go s v none = tt
      go s v (some fd) = elim (Bool-cases (ltb fd 3)) [
        | inl e ↦ rw e tt
        | inr e ↦ rw e ((send_through-Safe fd).ends s v)
      ]

  pub gp_send-Ends :
      (z : Cmd) (s : Gate) → Short z → IsSound s → Ends (λ x. x.1 ≡ with_crc z) (gp_send w z s)
  gp_send-Ends z s h v =
      let fits = Fits-short z h in
      subst (Ends (λ x. x.1 ≡ with_crc z)) (sym (gp_send-gp_resend w z s fits.0 fits.1)) (
        bind-Ends (λ a. Unit) (λ x. x.1 ≡ with_crc z) (gp_resend w) (λ r. pure (r, with_crc z))
          (loaded w z s)
          (gp_resend-Safe.ends (loaded w z s)
            (unfold loaded prepare store_frame stamp in same-IsSound s _ v refl refl refl refl))
          (λ r t p u. (refl, u)))

  pub gp_send_then :
      (z : Cmd) (k : Status × Cmd → Action Status)
      → Short z
      → ((r : Status) → Safe (k (r, with_crc z)))
      → Safe (gp_send w z >>= k)
  gp_send_then z k h rest = record {
    ends = λ s v.
        bind-Ends (λ x. x.1 ≡ with_crc z) (λ a. Unit) (gp_send w z) k s (gp_send-Ends z s h v)
          λ (r, c) t same u.
            subst (λ c. Ends (λ a. Unit) (k (r, c) t)) (sym same) ((rest r).ends t u);
  }

  idle-Ends :
      (s : Gate) → IsSound s → (r : Scan) → Idles w s r → Ends (λ a. Unit) (gp_send_idle w s)
  idle-Ends s v (found d after) idles = subst (Ends (λ a. Unit)) (sym idles) (
      bind-Ends (λ x. x.1 ≡ with_crc (poll_cmd d)) (λ a. Unit) (gp_send w (poll_cmd d))
        (λ x. pure x.0) _
        (gp_send-Ends (poll_cmd d) (record s { devices = after; idle_dst = d })
          (unfold poll_cmd in omega arith) (same-IsSound s _ v refl refl refl refl))
        (λ a t p u. (tt, u)))
  idle-Ends s v (finished after) idles =
      subst (Ends (λ a. Unit)) (sym idles) (tt, same-IsSound s _ v refl refl refl refl)
  idle-Ends s v out_of_fuel idles = absurd idles

  pub gp_send_idle-Safe : Safe (gp_send_idle w)
  gp_send_idle-Safe = record {
    ends = λ s v. let (r, scans, idles) = gp_send_idle_lem w s in idle-Ends s v r idles;
  }
