-- ===== src/Safety/Port.antt =====
-- The state of the library behind `gp_receiv` and the scans of src/gp_layer.c.
use libgate.Base.{
  ℕ, refl, arith, ltb, leb, ◌==◌, none, Status, Bool, Bool-cases, inl, inr, is_positive,
}
use libgate.World.{World, read_clock, armed, asked_time, tv2ms}
use libgate.Gate.Action.{pure, request, modify, ◌>>=◌}
use libgate.Clock.{set_rtc_date, rtc_date}
use libgate.Port.{gp_reconnect}
use libgate.Link.Idle.{gp_send_idle}
use libgate.Queue.{gp_put_cmd}
use libgate.Target.Order.{
  perform, tokens_stored, set_date, set_times, set_token_bound, get_info, get_token_bound,
  get_times, get_date,
}
use libgate.Processor.{App}
use libgate.Receive.{
  gp_receiv, data_ready, rearm, mark_alive, count_timeout, after_put, send_next, after_reconnect,
  timed_out, elapsed,
}
use libgate.Receive.Scans.{gp_dev_init}
use libgate.Safety.{
  Safe, bind-Safe, if-Safe, same-IsSound, request-Safe, pure-Safe, gets-Safe, modify-Safe,
}
use libgate.Safety.Line.{gp_reconnect-Safe, gp_send_idle-Safe}
use libgate.Safety.Sending.{gp_put_cmd-Safe}
use libgate.Safety.Commands.{perform-Safe}
use libgate.Safety.Poll.{IsSafe}
use libgate.Base.{zero, suc, ◌+◌, some, ◌&&◌, if◌then◌else◌}
use libgate.World.{scan_timer}
use libgate.Gate.{log_read, Gate}
use libgate.Database.{db_sync}
use libgate.Target.Order.{get_buff_addr}
use libgate.Receive.Scans.{logs_loop, gp_get_dev_logs, gp_all_dev_enable}
use libgate.Safety.Commands.{db_sync-Safe}
use libgate.Safety.Arrival.{started-Ends}

rearm-Safe : Safe rearm
unfolding rearm
rearm-Safe =
    bind-Safe (modify _) _ (modify-Safe _ λ s v. same-IsSound s _ v refl refl refl refl)
      λ x. gets-Safe (λ s. s.cfg.timeout_usec) _ λ usec. request-Safe (armed usec)

module _ (w : World) where
  logs_loop-Safe : (left gp_dst : ℕ) → Safe (logs_loop w left gp_dst)
  unfolding logs_loop perform tokens_stored
  logs_loop-Safe zero gp_dst = pure-Safe tt
  logs_loop-Safe (suc left) gp_dst =
      gets-Safe (λ s. (s.devices gp_dst).activ == 1) _
        λ active.
          if-Safe active _ (logs_loop w left (gp_dst + 1))
            (bind-Safe (perform w 2 gp_dst (get_buff_addr (some log_read))) _
              (perform-Safe w 2 gp_dst (get_buff_addr (some log_read)) (omega arith))
              λ r. logs_loop-Safe left (gp_dst + 1))
            (logs_loop-Safe left (gp_dst + 1))

  pub gp_get_dev_logs-Safe : Safe (gp_get_dev_logs w)
  unfolding gp_get_dev_logs
  gp_get_dev_logs-Safe =
      bind-Safe (request (scan_timer 0)) _ (request-Safe (scan_timer 0))
        λ x. gets-Safe (λ s. s.cfg.max_dev_n) _ λ devs. logs_loop-Safe devs 1

  pub gp_all_dev_enable-Safe : Safe (gp_all_dev_enable w)
  unfolding gp_all_dev_enable
  gp_all_dev_enable-Safe =
      let enable : Gate → Gate = λ s. record s {
        devices = λ i.
            if leb 1 i && leb i 255
            then record (s.devices i) { timeout_count = 0 }
            else s.devices i;
      } in
      bind-Safe (gp_reconnect w 0) _ (gp_reconnect-Safe w 0) λ r.
        bind-Safe (db_sync w) _ (db_sync-Safe w) λ r'.
          bind-Safe (request (scan_timer 1)) _ (request-Safe (scan_timer 1))
            λ x. modify-Safe enable λ s v. same-IsSound s (enable s) v refl refl refl refl

module _ (w : World) (app : App) (calm : IsSafe app) (stop : ℕ) where
  after_put-Safe : (put : Status) → Safe (after_put w app stop put)
  unfolding after_put
  after_put-Safe put = if-Safe (is_positive put) (pure tt) _ (pure-Safe tt) (
      bind-Safe (gp_send_idle w) _ (gp_send_idle-Safe w)
        λ idle. if-Safe (is_positive idle) (pure tt) rearm (pure-Safe tt) rearm-Safe)

  timed_out-Safe : (now : ℕ) → Safe (timed_out w app stop now)
  unfolding timed_out after_reconnect send_next count_timeout
  timed_out-Safe now = bind-Safe (gp_reconnect w 0) _ (gp_reconnect-Safe w 0) λ r.
      gets-Safe (λ s. leb s.cfg.gp_timeout (elapsed now s.send_mess.sent_time)) _
        λ over.
          if-Safe over _ rearm
            (bind-Safe (modify count_timeout) _
              (modify-Safe count_timeout λ s v. elim (Bool-cases (ltb 0 s.send_mess.is_expected)) [
                | inl e ↦ rw e (same-IsSound s _ v refl refl refl refl)
                | inr e ↦ rw e v
              ])
              λ x. bind-Safe (gp_put_cmd w) _ (gp_put_cmd-Safe w) after_put-Safe)
            rearm-Safe

  set_rtc_date-Safe : (dev : ℕ) → Safe (set_rtc_date w stop dev)
  unfolding set_rtc_date perform tokens_stored
  set_rtc_date-Safe dev = bind-Safe (request asked_time) _ (request-Safe asked_time) λ x.
      gets-Safe (λ s. w.time s.history) _
        λ z.
          bind-Safe (modify (λ s. record s { curtime = w.localtime z })) _
            (modify-Safe _ λ s v. same-IsSound s _ v refl refl refl refl)
            λ y.
              gets-Safe (λ s. s.curtime) _
                λ t. perform-Safe w 2 dev (set_date (rtc_date t stop)) (omega arith)

  gp_dev_init-Safe : (dev : ℕ) → Safe (gp_dev_init w stop dev)
  unfolding gp_dev_init perform tokens_stored
  gp_dev_init-Safe dev = bind-Safe (set_rtc_date w stop dev) _ (set_rtc_date-Safe dev) λ a.
      gets-Safe (λ s. s.cfg.times) _
        λ times.
          bind-Safe (perform w 2 dev (set_times times)) _
            (perform-Safe w 2 dev (set_times times) (omega arith))
            λ b.
              gets-Safe (λ s. s.cfg.max_bound_token) _
                λ bound.
                  bind-Safe (perform w 2 dev (set_token_bound bound)) _
                    (perform-Safe w 2 dev (set_token_bound bound) (omega arith))
                    λ c.
                      bind-Safe (perform w 2 dev get_info) _
                        (perform-Safe w 2 dev get_info (omega arith))
                        λ d.
                          bind-Safe (perform w 2 dev (get_token_bound none)) _
                            (perform-Safe w 2 dev (get_token_bound none) (omega arith))
                            λ e.
                              bind-Safe (perform w 2 dev get_times) _
                                (perform-Safe w 2 dev get_times (omega arith))
                                λ f.
                                  bind-Safe (perform w 2 dev get_date) _
                                    (perform-Safe w 2 dev get_date (omega arith))
                                    λ g. record {
                                      ends = λ s v. (tt, same-IsSound s _ v refl refl refl refl);
                                    }

  data_ready-Safe : (fd now : ℕ) → Safe (data_ready w app stop fd now)
  unfolding data_ready mark_alive
  data_ready-Safe fd now = bind-Safe rearm _ rearm-Safe λ x.
      bind-Safe (modify (mark_alive now)) _
        (modify-Safe (mark_alive now) λ s v. same-IsSound s _ v refl refl refl refl)
        λ y.
          gets-Safe (λ s. s.send_mess.dev) _
            λ dev.
              gets-Safe (λ s. (s.devices dev).is_inited) _
                λ inited.
                  bind-Safe _ _
                    (if-Safe (inited == 0) (gp_dev_init w stop dev >>= λ r. pure tt) (pure tt)
                      (bind-Safe (gp_dev_init w stop dev) (λ r. pure tt) (gp_dev_init-Safe dev)
                        λ r. pure-Safe tt)
                      (pure-Safe tt))
                    λ z. record { ends = λ s v. started-Ends w app calm stop fd s v }

  -- Whatever comes in, and whenever.
  pub gp_receiv-Safe : (fd : ℕ) (readable : Bool) → Safe (gp_receiv w app stop fd readable)
  unfolding gp_receiv
  gp_receiv-Safe fd readable = bind-Safe (request read_clock) _ (request-Safe read_clock) λ x.
      gets-Safe (λ s. tv2ms (w.clock s.history)) _
        λ now.
          if-Safe readable (data_ready w app stop fd now) (timed_out w app stop now)
            (data_ready-Safe fd now) (timed_out-Safe now)
