-- ===== src/Command/Devices.antt =====
-- The functions of src/ad_cmd.c on devices as a whole.
pub mod Vector
use libgate.Base.{
  ◌-◌, ℕ, zero, suc, ◌+◌, ◌*◌, ◌/◌, ◌%◌, ◌^◌, ◌||◌, Option, none, some, zeroed, update, List, [],
  ◌∷◌, ℤ, pos, negsuc, Status, ◌==◌, ltb, if◌then◌else◌, bit_or,
}
use libgate.World.{World, SchedRec}
use libgate.Gate.{Gate, Dev, TimeZone, Handler, log_read}
use libgate.Gate.Action.{Action, pure, ◌>>=◌, ◌>>◌, gets, modify}
use libgate.Codec.Bcd.{int2bcd}
use libgate.Target.Control.{ad_get_info, ad_turn_on, ad_turn_off, ad_exchange, ad_get_regs}
use libgate.Target.Memory.{
  ad_get_sched_table, ad_get_token, ad_get_token_bound, ad_get_buff_addr, ad_get_date,
  ad_reset_token_bound, ad_reset_buff, ad_set_sched_rec,
}
use libgate.Clock.{set_rtc_date}

-- `v |= b; b <<= 1` for each device from `dev` on, with 64 bits.
unfoldable pub bvector_loop : ℕ → (ℕ → Dev) → ℕ → ℕ → ℕ → ℕ
bvector_loop zero devices dev v b = v
bvector_loop (suc left) devices dev v b =
    let v' = if (devices dev).activ == 1 then bit_or v b else v in
    bvector_loop left devices (dev + 1) v' (b * 2 % 2 ^ 64)

unfoldable pub cmd_get_dev_bvector : Gate → ℕ
cmd_get_dev_bvector s = bvector_loop s.cfg.max_dev_n s.devices 1 0 1

-- The text for the log: a digit for a device that answers and a point for one that does not, and a
-- space behind every fourth.
unfoldable pub vector_text : ℕ → ℕ → (ℕ → Dev) → List ℕ
vector_text zero gp_dst devices = []
vector_text (suc left) gp_dst devices =
    let rest = vector_text left (gp_dst + 1) devices in
    let mark = if (devices gp_dst).activ == 1 then b'0' + gp_dst % 10 else b'.' in
    mark ∷ (if gp_dst % 4 == 0 then b' ' ∷ rest else rest)

unfoldable pub cmd_get_dev_vector : Gate → List ℕ
unfolding vector_text
cmd_get_dev_vector s = vector_text s.cfg.max_dev_n 1 s.devices

unfoldable pub cmd_get_max_dev : Action ℕ
cmd_get_max_dev = gets (λ s. s.cfg.max_dev_n)

-- `n` as the application passes it; the stored number is returned.
unfoldable pub max_dev_limit : ℤ → ℕ
max_dev_limit (negsuc n) = 1
max_dev_limit (pos n) = if ltb n 1 then 1 else if ltb 255 n then 255 else n

unfoldable pub cmd_set_max_dev : ℤ → Action ℕ
cmd_set_max_dev n = do
  modify (λ s. record s { cfg = record s.cfg { max_dev_n = max_dev_limit n } })
  pure (max_dev_limit n)

abbrev set_activ : ℕ → ℕ → Gate → Gate
set_activ dev a s = record s {
  devices = update s.devices dev (record (s.devices dev) { activ = a });
}

-- The hours and minutes of a record, as the controllers store them.
unfoldable pub sched_zone : SchedRec → TimeZone
sched_zone r = record {
  wmask = r.wmask;
  begin_hour = int2bcd (r.begin / 60 / 60) % 256;
  begin_min = int2bcd (r.begin / 60 % 60) % 256;
  end_hour = int2bcd (r.stop / 60 / 60) % 256;
  end_min = int2bcd (r.stop / 60 % 60) % 256;
  stub = zeroed;
}

module _ (w : World) where
  pub cmd_get_info : ℕ → Action Status
  cmd_get_info dev = ad_get_info w 1 dev

  pub cmd_open_dev : ℕ → ℕ → Action Status
  cmd_open_dev dev subdev = ad_turn_on w 1 dev subdev

  pub cmd_close_dev : ℕ → Action Status
  cmd_close_dev dev = ad_turn_off w 1 dev

  pub cmd_get_sched : ℕ → Action Status
  cmd_get_sched dev = ad_get_sched_table 1 dev w none

  pub cmd_get_tocken : ℕ → ℕ → Action Status
  cmd_get_tocken dev addr = ad_get_token 1 dev w addr 1

  -- The log is always read with `cb_log_read`.
  pub cmd_log_read : ℕ → Option Handler → Action Status
  cmd_log_read gp_dst handler = ad_get_buff_addr 2 gp_dst w (some log_read)

  unfoldable pub cmd_exchange_dev : ℕ → ℕ → Action Status
  cmd_exchange_dev dev new = do
    r ← ad_exchange w 1 dev new
    modify (set_activ new 1)
    modify (set_activ dev 0)
    pure r

  pub cmd_param_dev : ℕ → Action ℕ
  cmd_param_dev dev = do
    a ← ad_get_info w 1 dev
    b ← ad_get_token_bound 1 dev w none
    c ← ad_get_buff_addr 1 dev w none
    d ← ad_get_regs w 1 dev
    e ← ad_get_date 1 dev w
    pure 1

  -- With the unset bit of `set_rtc_date`.
  pub cmd_reset_dev : ℕ → ℕ → Action ℕ
  cmd_reset_dev stop dev = do
    a ← set_rtc_date w stop dev
    b ← ad_reset_token_bound 1 dev w
    c ← ad_reset_buff 1 dev w
    pure 1

  -- The record goes to each device that answers, from `gp_dst` on.
  unfoldable pub sched_loop : ℕ → ℕ → ℕ → TimeZone → Action (Unit {0})
  sched_loop zero gp_dst n t = pure tt
  sched_loop (suc left) gp_dst n t =
      let rest = sched_loop left (gp_dst + 1) n t in
      do
        active ← gets (λ s. (s.devices gp_dst).activ == 1)
        (if active then (do r ← ad_set_sched_rec 1 gp_dst w n t none; rest) else rest)

  -- The number of a record counts from 1 to 7.
  unfoldable pub cmd_saving_sched_to_all : SchedRec → Action ℕ
  cmd_saving_sched_to_all r = elim r.num [
    | negsuc n ↦ pure 0
    | pos n ↦ if n == 0 || ltb 7 n then pure 0 else (do
      devs ← gets (λ s. s.cfg.max_dev_n)
      sched_loop devs 1 (n - 1) (sched_zone r)
      pure 1)
  ]
