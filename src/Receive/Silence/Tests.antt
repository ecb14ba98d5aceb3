-- ===== src/Receive/Silence/Tests.antt =====
-- Timeouts of `gp_receiv` of src/gp_layer.c while no device answers.
use libgate.Base.{ℕ, ◌+◌, ◌*◌, ◌≤◌, ◌≡◌, refl, arith, inl, count, length}
use libgate.World.{World}
use libgate.Gate.{Gate}
use libgate.Gate.Action.{done, pure}
use libgate.Samples.{good_world, open_gate}
use libgate.Processor.{App, default_app}
use libgate.Receive.Silence.{asks, timeouts, IsQuiet, Silent}
use libgate.Receive.Silence.Run.{timeouts_lem}

-- A clock that goes on by a second with every request.
abbrev ticking : World
ticking = record good_world { clock = λ h. record { tv_sec = 100007 + length h; tv_usec = 0 } }

abbrev app : App
app = default_app ticking (λ n r. pure (count 0))

timeouts_lem_example :
    (late : ℕ) × (t : Gate) × (timeouts ticking app 0 3 200 open_gate ≡ done late t)
    × IsQuiet 3 7 6 t
    × (asks t ≤ asks open_gate + (6 + 1) * 7)
    × (2 * (6 + 1) * 7 + 2 ≤ late → Silent 7 6 t)
    × (Silent 7 6 open_gate → Silent 7 6 t × (asks t ≡ asks open_gate))
timeouts_lem_example =
    timeouts_lem ticking app 0 (record { memory = λ h. refl; line = λ h. refl }) 3 7 6 (omega arith)
      3 200 open_gate
      (record {
        port = refl;
        last_dev = refl;
        at_most = refl;
        queues = (refl, refl);
        tried = λ d l h. omega arith;
        asked = inl refl;
      })
