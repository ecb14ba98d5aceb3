-- ===== src/Port.antt =====
-- src/gp_port.c: closing the port of the controllers and opening it again. The settings that
-- `open_port` makes are in a module of their own.
pub mod Retry
pub mod Terminal
mod Tests
use libgate.Base.{
  ℕ, ◌-◌, Bool, true, false, ◌||◌, Option, none, some, ◌∷◌, ltb, ◌==◌, if◌then◌else◌, not,
}
use libgate.World.{World, disarmed, closed, asked_time, opened, armed}
use libgate.Gate.{Gate}
use libgate.Gate.Action.{Action, done, ◌>>=◌, ◌>>◌, pure, gets, modify, request}

unfoldable pub gp_close : Action (Unit {0})
gp_close s = elim s.cfg.fd [
  | none ↦ done tt s
  | some fd ↦
      done tt
        (record s { cfg = record s.cfg { fd = none }; history = closed fd ∷ disarmed ∷ s.history })
]

abbrev pub port_retry_timeout : ℕ
port_retry_timeout = 15

-- `gp_cfg.fd < 0`
abbrev pub is_closed : Option ℕ → Bool
is_closed none = true
is_closed (some fd) = false

module _ (w : World) where
  -- The event for the port is set up again where it opens.
  unfoldable pub try_open : Action (Unit {0})
  try_open = do
    request opened
    fd ← gets (λ s. w.open_port s.history)
    modify (λ s. record s { cfg = record s.cfg { fd = fd } })
    usec ← gets (λ s. s.cfg.timeout_usec)
    (if is_closed fd then pure tt else request (armed usec))

  unfoldable pub gp_reconnect : ℕ → Action ℕ
  unfolding try_open
  gp_reconnect ignore_timeout = do
    request asked_time
    now ← gets (λ s. w.time s.history)
    last ← gets (λ s. s.last_try)
    (if not (ignore_timeout == 0) || ltb last (now - port_retry_timeout)
        then (do
          modify (λ s. record s { last_try = now })
          fd ← gets (λ s. s.cfg.fd)
          (if is_closed fd then try_open else pure tt))
        else pure tt)
    fd ← gets (λ s. s.cfg.fd)
    pure (if is_closed fd then 0 else 1)
