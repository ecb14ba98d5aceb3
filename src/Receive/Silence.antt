-- ===== src/Receive/Silence.antt =====
-- Timeouts of `gp_receiv` of src/gp_layer.c one behind the other, while no device answers and no
-- command waits.
pub mod Goes
pub mod Round
pub mod Run
mod Tests
use libgate.Base.{
  ℕ, zero, suc, ◌+◌, ◌*◌, ◌≤◌, ◌<◌, ◌≡◌, ◌⊎◌, Bool, [], ◌∷◌, some, false, length, leb, ◌==◌,
  if◌then◌else◌,
}
use libgate.Base.Total.{total}
use libgate.World.{World, read_clock, tv2ms}
use libgate.Gate.{Gate}
use libgate.Gate.Action.{Action, pure, ◌>>=◌, ◌>>◌}
use libgate.Queue.Line.{frames}
use libgate.Processor.{App}
use libgate.Receive.{gp_receiv, elapsed}

-- How often a device let a request time out.
abbrev pub tries : Gate → ℕ → ℕ
tries s d = (s.devices d).timeout_count

-- How many frames are on the line.
abbrev pub asks : Gate → ℕ
asks s = length (frames s.history)

-- Whether a timeout that comes in now lets the request count as not answered.
abbrev pub is_late : World → Gate → Bool
is_late w s =
    leb s.cfg.gp_timeout (elapsed (tv2ms (w.clock (read_clock ∷ s.history))) s.send_mess.sent_time)

-- `n` timeouts, and how many of them are late.
unfoldable pub timeouts : World → App → ℕ → ℕ → ℕ → Action ℕ
timeouts w app stop fd zero s = pure 0 s
timeouts w app stop fd (suc n) s =
    (do
      gp_receiv w app stop fd false
      late ← timeouts w app stop fd n
      pure (if is_late w s then late + 1 else late))
      s

-- An open port and empty queues. Each of the devices up to `last` timed out no more than `limit + 1`
-- times, and the one that is waited for no more than `limit` times.
pub record IsQuiet (fd last limit : ℕ) (s : Gate) : Type 0 where
  pub port : s.cfg.fd ≡ some fd
  pub last_dev : s.cfg.max_dev_n ≡ last
  pub at_most : s.cfg.max_timeout_count ≡ limit
  pub queues : (s.head ≡ []) × (s.head2 ≡ [])
  pub tried : (d : ℕ) → 0 < d → d ≤ last → tries s d ≤ limit + 1
  pub asked :
      (s.send_mess.is_expected ≡ 0)
      ⊎ ((s.send_mess.is_expected ≡ 1)
          × (0 < s.send_mess.dev)
          × (s.send_mess.dev ≤ last)
          × (tries s s.send_mess.dev ≤ limit))

-- Every device timed out too often, and counts as inactive.
abbrev pub Silent : ℕ → ℕ → Gate → Type 0
Silent last limit s = (d : ℕ) → 0 < d → d ≤ last → (limit < tries s d) × ((s.devices d).activ ≡ 0)

-- What rises by one or two with each round: the requests, and the return to the first device.
abbrev pub steps : Gate → ℕ
steps s = 2 * asks s + (if s.idle_dst == 0 then 1 else 0)
