-- ===== src/Safety/Tests.antt =====
-- A run of the library from its initial state.
use libgate.Base.{refl, arith, inl, true, false, [], ◌∷◌, count}
use libgate.Gate.Action.{pure}
use libgate.Samples.{good_world, open_gate}
use libgate.Target.Order.{turn_on, tokens_stored}
use libgate.Processor.{App, default_app, cb_push_new_cid_default, cb_default}
use libgate.Safety.{Ends, pure-Safe}
use libgate.Safety.Commands.{cmd_add_cid_to_all-Safe}
use libgate.Safety.Poll.{IsSafe}
use libgate.Safety.Run.{at_port, scan_logs, scan_devs, ordered, run_all, run_all_safe}

abbrev app : App
app = default_app good_world (λ n r. pure (count 0))

-- The callbacks that the library starts with.
app-IsSafe : IsSafe app
unfolding default_app cb_push_new_cid_default cb_default
app-IsSafe = record {
  custom = λ n reply. pure-Safe (count 0);
  push_new_cid = λ rec. cmd_add_cid_to_all-Safe good_world _;
  push_found_cid = λ rec. pure-Safe 1;
  dev_info = λ rec. pure-Safe 1;
  dev_ev = λ rec. pure-Safe 1;
}

run_all_safe_example :
    Ends
      (λ a. Unit)
      (run_all good_world app 0
        (scan_devs ∷ ordered 2 3 (turn_on 1) ∷ at_port 3 false ∷ at_port 3 true ∷ scan_logs ∷ [])
        open_gate)
unfolding tokens_stored
run_all_safe_example =
    run_all_safe good_world app 0 app-IsSafe
      (scan_devs ∷ ordered 2 3 (turn_on 1) ∷ at_port 3 false ∷ at_port 3 true ∷ scan_logs ∷ [])
      open_gate (tt, (omega arith, (tt, (tt, (tt, tt)))))
      (record { queues = (tt, tt); place = inl refl })
