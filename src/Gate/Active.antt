-- ===== src/Gate/Active.antt =====
-- The loops of the library over the devices that answer: `for(gp_dst=1;gp_dst<=gp_cfg.max_dev_n;…)`
-- with a test of `activ`.
use mathlib.Core.Path.{ap₂}
use libgate.Base.{ℕ, zero, suc, ◌+◌, ◌≤◌, ◌≡◌, refl, ap, List, [], ◌++◌, ◌==◌, if◌then◌else◌, arith}
use libgate.Gate.{Gate, Cmd, Dev}

-- The commands for the devices that answer among the `left` ones from `d` on.
unfoldable pub to_active : (ℕ → Dev → List Cmd) → ℕ → ℕ → (ℕ → Dev) → List Cmd
to_active f zero d devices = []
to_active f (suc left) d devices =
    (if (devices d).activ == 1 then f d (devices d) else []) ++ to_active f left (d + 1) devices

-- And among all devices.
abbrev pub to_all : (ℕ → Dev → List Cmd) → Gate → List Cmd
to_all f s = to_active f s.cfg.max_dev_n 1 s.devices

-- Only the devices from `d` on count.
pub to_active_ext :
    (f : ℕ → Dev → List Cmd) (left d : ℕ) (devices devices' : ℕ → Dev)
    → ((e : ℕ) → d ≤ e → devices e ≡ devices' e)
    → to_active f left d devices ≡ to_active f left d devices'
unfolding to_active
to_active_ext f zero d devices devices' same = refl
to_active_ext f (suc left) d devices devices' same =
    ap₂ ◌++◌ (ap (λ (x : Dev). if x.activ == 1 then f d x else []) (same d (omega arith)))
      (to_active_ext f left (d + 1) devices devices' (λ e h. same e (omega arith)))
