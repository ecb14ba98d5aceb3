-- ===== src/Database/Params.antt =====
-- The parameters of src/db_layer.c: the schedules of a zone, and which of them a rule allows there.
pub mod Kept
use libgate.Base.{ℕ, ◌-◌, ◌%◌, Option, none, some, ℤ, pos, negsuc, not, ltb, if◌then◌else◌}
use libgate.World.{
  World, SchedRec, ParamKey, rule_key, sched_key, ParamValue, rule_value, sched_value, param_put,
}
use libgate.Gate.Action.{Action, pure, ◌>>=◌, ◌>>◌, gets, request}
use libgate.Database.{db_sync}

-- An `int` as a `uint8_t`.
unfoldable pub low_byte : ℤ → ℕ
low_byte (pos n) = n % 256
low_byte (negsuc n) = 255 - n % 256

-- `d->schedule_mask`, which is the first byte of the value; a record of the schedule begins with its
-- number.
unfoldable pub first_byte : ParamValue → ℕ
first_byte (rule_value mask) = mask
first_byte (sched_value r) = low_byte r.num

module _ (w : World) where
  unfoldable pub db_add_param : ParamKey → ParamValue → Action ℕ
  db_add_param rec buff = do
    request (param_put rec buff)
    saved ← gets (λ s. w.put s.history)
    (if not saved then pure 0 else (do r ← db_sync w; pure 1))

  unfoldable pub db_get_param : ParamKey → Action (Option ParamValue)
  db_get_param rec = gets λ s. w.get_param s.history rec

  unfoldable pub db_add_param_rule : ℕ → ℕ → ℕ → Action ℕ
  db_add_param_rule rule_id zone_id schedule_mask =
      db_add_param (rule_key rule_id zone_id) (rule_value schedule_mask)

  -- The rules below 100 allow every schedule; one that is not in the table allows none.
  unfoldable pub db_get_param_rule : ℕ → ℕ → Action ℕ
  db_get_param_rule rule_id zone_id = if ltb rule_id 100 then pure 0xFF else (do
    d ← db_get_param (rule_key rule_id zone_id)
    pure (elim d [ none ↦ 0 | some v ↦ first_byte v ]))

  unfoldable pub db_add_param_sched : ℕ → SchedRec → Action ℕ
  unfolding low_byte
  db_add_param_sched zone_id d = db_add_param (sched_key zone_id (low_byte d.num)) (sched_value d)
