-- ===== src/Receive/Scans.antt =====
-- The functions of src/gp_layer.c that go over the devices: a device is set up when it answers for the
-- first time, and the two scans come back by timers.
pub mod Setup
use libgate.Base.{ℕ, zero, suc, ◌+◌, ◌%◌, ◌^◌, ◌&&◌, none, some, ◌==◌, leb, if◌then◌else◌, update}
use libgate.World.{World, scan_timer}
use libgate.Gate.{Gate, log_read}
use libgate.Gate.Action.{Action, pure, gets, modify, request, ◌>>=◌, ◌>>◌}
use libgate.Clock.{set_rtc_date}
use libgate.Database.{db_sync, db_get_max_addr}
use libgate.Port.{gp_reconnect}
use libgate.Target.Control.{ad_get_info}
use libgate.Target.Memory.{
  ad_set_times, ad_set_token_bound, ad_get_token_bound, ad_get_times, ad_get_date, ad_get_buff_addr,
}

module _ (w : World) where
  -- `stop` is the bit that `set_rtc_date` leaves unset.
  unfoldable pub gp_dev_init : ℕ → ℕ → Action ℕ
  gp_dev_init stop dev = do
    a ← set_rtc_date w stop dev
    times ← gets (λ s. s.cfg.times)
    b ← ad_set_times 2 dev w times
    bound ← gets (λ s. s.cfg.max_bound_token)
    c ← ad_set_token_bound 2 dev w bound
    d ← ad_get_info w 2 dev
    e ← ad_get_token_bound 2 dev w none
    f ← ad_get_times 2 dev w
    g ← ad_get_date 2 dev w
    modify (λ s. record s {
      devices = update s.devices dev (record (s.devices dev) { is_inited = 1 });
    })
    pure 1

  -- The devices that answer, from `gp_dst` on, are asked for the bounds of their logs.
  unfoldable pub logs_loop : ℕ → ℕ → Action (Unit {0})
  logs_loop zero gp_dst = pure tt
  logs_loop (suc left) gp_dst =
      let rest = logs_loop left (gp_dst + 1) in
      do
        active ← gets (λ s. (s.devices gp_dst).activ == 1)
        (if active then (do r ← ad_get_buff_addr 2 gp_dst w (some log_read); rest) else rest)

  unfoldable pub gp_get_dev_logs : Action (Unit {0})
  gp_get_dev_logs = do request (scan_timer 0); devs ← gets (λ s. s.cfg.max_dev_n); logs_loop devs 1

  -- The devices 1 to 255 may time out anew.
  unfoldable pub gp_all_dev_enable : Action (Unit {0})
  gp_all_dev_enable = do
    r ← gp_reconnect w 0
    r' ← db_sync w
    request (scan_timer 1)
    modify (λ s. record s {
      devices = λ i.
          if leb 1 i && leb i 255 then record (s.devices i) { timeout_count = 0 } else s.devices i;
    })

  -- The devices start with an empty memory for tokens, in the first zone.
  unfoldable pub gp_init_state : Gate → Gate
  gp_init_state s = record s {
    devices = λ i.
        if leb 1 i && leb i 255
        then record (s.devices i) { bound_token = 0x00C0; zone_id = 1 }
        else s.devices i;
  }

  unfoldable pub gp_init : Action ℕ
  gp_init = do
    modify gp_init_state
    gp_all_dev_enable
    gp_get_dev_logs
    greatest ← db_get_max_addr w
    modify (λ s. record s { cfg = record s.cfg { max_bound_token = (greatest + 8) % 2 ^ 16 } })
    r ← gp_reconnect w 1
    pure 1
