-- ===== src/Command/Schedule.antt =====
-- `cmd_saving_sched` of src/ad_cmd.c: the schedules of a zone go into the database and to the devices.
pub mod Saved
use libgate.Base.{ℕ, List, [], ◌∷◌}
use libgate.World.{World, SchedRec}
use libgate.Gate.Action.{Action, pure, ◌>>=◌, ◌>>◌}
use libgate.Database.Params.{db_add_param_sched, db_add_param_rule}
use libgate.Command.Devices.{cmd_saving_sched_to_all}

module _ (w : World) where
  -- The results of the two calls are not looked at.
  unfoldable pub saving_loop : ℕ → List SchedRec → Action (Unit {0})
  saving_loop zone_id [] = pure tt
  saving_loop zone_id (r ∷ rs) =
      let rest = saving_loop zone_id rs in
      do a ← db_add_param_sched w zone_id r; b ← cmd_saving_sched_to_all w r; rest

  unfoldable pub cmd_saving_sched : ℕ → ℕ → ℕ → List SchedRec → Action ℕ
  cmd_saving_sched rule_id zone_id schedule_mask recs = do
    saving_loop zone_id recs
    r ← db_add_param_rule w rule_id zone_id schedule_mask
    pure 1
