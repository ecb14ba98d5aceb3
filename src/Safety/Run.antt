-- ===== src/Safety/Run.antt =====
-- What can come to the library from the event loop and from the application: bytes or timeouts at
-- the port (`gp_receiv` of src/gp_layer.c), its two scans, orders of src/ad_target.c, and cards of
-- src/ad_cmd.c.
use libgate.Base.{ℕ, ◌≤◌, Bool, List, [], ◌∷◌, All}
use libgate.World.{World}
use libgate.Gate.{Gate}
use libgate.Gate.Action.{Action, pure, ◌>>=◌, ◌>>◌}
use libgate.Target.Order.{Order, perform, tokens_stored}
use libgate.Command.Tokens.{AddCid, AdToken, cmd_add_cid_to_all, cmd_add_tocken_to_all}
use libgate.Processor.{App}
use libgate.Receive.{gp_receiv}
use libgate.Receive.Scans.{gp_get_dev_logs, gp_all_dev_enable}
use libgate.Safety.{IsSound, Ends, Safe, bind-Safe, pure-Safe}
use libgate.Safety.Commands.{perform-Safe, cmd_add_cid_to_all-Safe, cmd_add_tocken_to_all-Safe}
use libgate.Safety.Poll.{IsSafe}
use libgate.Safety.Port.{gp_receiv-Safe, gp_get_dev_logs-Safe, gp_all_dev_enable-Safe}

pub data Input : Type 0 where
  at_port : ℕ → Bool → Input
  scan_logs scan_devs : Input
  ordered : ℕ → ℕ → Order → Input
  add_card : AddCid → Input
  add_token : AdToken → Input

-- No more than six tokens are stored by one order.
abbrev pub IsFew : Input → Type 0
IsFew (at_port fd readable) = Unit
IsFew scan_logs = Unit
IsFew scan_devs = Unit
IsFew (ordered q dst order) = tokens_stored order ≤ 6
IsFew (add_card rec) = Unit
IsFew (add_token rec) = Unit

module _ (w : World) (app : App) (stop : ℕ) where
  pub handle : Input → Action (Unit {0})
  handle (at_port fd readable) = gp_receiv w app stop fd readable
  handle scan_logs = gp_get_dev_logs w
  handle scan_devs = gp_all_dev_enable w
  handle (ordered q dst order) = do r ← perform w q dst order; pure tt
  handle (add_card rec) = do r ← cmd_add_cid_to_all w rec; pure tt
  handle (add_token rec) = do r ← cmd_add_tocken_to_all w rec; pure tt

  unfoldable pub run_all : List Input → Action (Unit {0})
  unfolding handle
  run_all [] = pure tt
  run_all (i ∷ rest) = handle i >> run_all rest

  module _ (calm : IsSafe app) where
    handle-Safe : (i : Input) → IsFew i → Safe (handle i)
    unfolding handle
    handle-Safe (at_port fd readable) few = gp_receiv-Safe w app calm stop fd readable
    handle-Safe scan_logs few = gp_get_dev_logs-Safe w
    handle-Safe scan_devs few = gp_all_dev_enable-Safe w
    handle-Safe (ordered q dst order) few =
        bind-Safe (perform w q dst order) _ (perform-Safe w q dst order few) λ r. pure-Safe tt
    handle-Safe (add_card rec) few =
        bind-Safe (cmd_add_cid_to_all w rec) _ (cmd_add_cid_to_all-Safe w rec) λ r. pure-Safe tt
    handle-Safe (add_token rec) few =
        bind-Safe (cmd_add_tocken_to_all w rec) _ (cmd_add_tocken_to_all-Safe w rec)
          λ r. pure-Safe tt

    run_all-Safe : (inputs : List Input) → All IsFew inputs → Safe (run_all inputs)
    unfolding run_all
    run_all-Safe [] few = pure-Safe tt
    run_all-Safe (i ∷ rest) few =
        bind-Safe (handle i) _ (handle-Safe i few.0) λ x. run_all-Safe rest few.1

    -- Whatever bytes and timeouts come in at the port, however the operating system answers, and
    -- whatever orders for devices, with no more than 6 tokens in each, and cards for all devices the
    -- application gives in between: from a sound state, and with callbacks that keep the state sound,
    -- nothing is ever written outside of a buffer. A run ends in a sound state, unless the process
    -- exits: each command that waits has room in the buffers of `gp_send`, and the next bytes of a
    -- reply have room behind those before.
    pub run_all_safe :
        (inputs : List Input) (s : Gate)
        → All IsFew inputs
        → IsSound s
        → Ends (λ a. Unit) (run_all inputs s)
    run_all_safe inputs s few v = (run_all-Safe inputs few).ends s v
