-- ===== src/Port/Tests.antt =====
-- Runs of `gp_reconnect` of src/gp_port.c.
use libgate.Base.{◌≡◌, refl, some, [], ◌∷◌}
use libgate.World.{asked_time}
use libgate.Gate.{Gate, initial_gate}
use libgate.Gate.Action.{done}
use libgate.Samples.{good_world}
use libgate.Port.{gp_reconnect}
use libgate.Port.Retry.{Tries, Retries, reconnects, port_flag, reconnects-Retries}

-- The second call finds the port open.
reopened : (t : Gate) × (reconnects good_world 2 initial_gate ≡ done tt t) × (t.cfg.fd ≡ some 4)
unfolding reconnects gp_reconnect libgate.Port.try_open
reopened = (_, refl, refl)

reconnects-Retries_example :
    ((t : Gate) × (gp_reconnect good_world 0 initial_gate ≡ done (port_flag t) t)
      × Tries good_world (good_world.time (asked_time ∷ [])) initial_gate t)
    × ((t : Gate) × (reconnects good_world 5 initial_gate ≡ done tt t)
        × Retries good_world initial_gate t)
reconnects-Retries_example = reconnects-Retries good_world 5 initial_gate
