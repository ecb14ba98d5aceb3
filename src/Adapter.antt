-- ===== src/Adapter.antt =====
-- src/adapter.c: a program that runs the library. The event library's loop and the functions `sw_init`
-- and `sw_proc_init`, which are not part of the repository, are parameters.
mod Tests
use libgate.Base.{
  ℕ, Bool, true, false, ◌&&◌, ◌||◌, ◌==◌, Option, none, some, List, [], ◌∷◌, not, ltb,
  if◌then◌else◌,
}
use libgate.World.{World, keepalive_timer}
use libgate.Gate.Action.{Action, pure, exit, request, ◌>>=◌, ◌>>◌}
use libgate.Queue.{gp_queue_init}
use libgate.Database.{db_init, db_close}
use libgate.Receive.Scans.{gp_init}
use libgate.Target.Memory.{ad_get_date, ad_reset_buff, ad_get_times}

-- The priorities of the system log.
pub data Priority : Type 0 where
  crit err warning notice info debug : Priority

-- Where a line of the log goes: to the system log or not, to the standard error output or not, and
-- with which priority.
pub record Line : Type 0 where
  pub sys : Bool
  pub std : Bool
  pub priority : Priority

-- The cases of `zprintf`: a level that has none, or that lies above `debug`, is not logged.
unfoldable pub log_line : ℕ → Bool → Bool → ℕ → Option Line
log_line debug_level verbose background lvl =
    let std = verbose && not background in
    if ltb debug_level lvl
    then none
    else if lvl == 1
    then some (record { sys = true; std = std; priority = crit })
    else if lvl == 2
    then some (record { sys = true; std = std; priority = err })
    else if lvl == 3
    then some (record { sys = true; std = std; priority = warning })
    else if lvl == 4
    then some (record { sys = true; std = std; priority = notice })
    else if lvl == 5
    then some (record { sys = false; std = std; priority = notice })
    else if lvl == 6
    then some (record { sys = true; std = std; priority = info })
    else if lvl == 7
    then some (record { sys = false; std = std; priority = info })
    else if lvl == 8 || lvl == 9
    then some (record { sys = false; std = std; priority = debug })
    else none

abbrev pub activ_dev : List ℕ
activ_dev = 7 ∷ 3 ∷ 1 ∷ []

-- The signals that `signal_handler` tells apart.
pub data Signal : Type 0 where
  sighup sigint sigterm sigpipe other_signal : Signal

module _ (w : World) where
  -- The first device is asked for its date, and the timer is set again.
  unfoldable pub keepalive_port : Action (Unit {0})
  keepalive_port = do r ← ad_get_date 2 7 w; request keepalive_timer

  unfoldable pub signal_handler : Signal → Action (Unit {0})
  signal_handler sigint = do r ← db_close w; exit 0
  signal_handler sigterm = do r ← db_close w; exit 0
  signal_handler sighup = pure tt
  signal_handler sigpipe = pure tt
  signal_handler other_signal = pure tt

  unfoldable pub reset_buffs : List ℕ → Action (Unit {0})
  reset_buffs [] = pure tt
  reset_buffs (dev ∷ rest) = ad_reset_buff 2 dev w >>= λ r. reset_buffs rest

  unfoldable pub ask_times : List ℕ → Action (Unit {0})
  ask_times [] = pure tt
  ask_times (dev ∷ rest) = ad_get_times 2 dev w >>= λ r. ask_times rest

  -- The result of `db_init` is not looked at.
  unfoldable pub main : Action (Unit {0}) → Action (Unit {0}) → Action (Unit {0}) → Action ℕ
  unfolding reset_buffs ask_times
  main sw_init sw_proc_init event_dispatch = do
    a ← gp_queue_init
    b ← db_init w
    c ← gp_init w
    sw_init
    sw_proc_init
    reset_buffs activ_dev
    ask_times activ_dev
    event_dispatch
    d ← db_close w
    pure 0
