-- ===== src/Base/Int.antt =====
-- C integers. `ℤ` where a value can be any negative number; `Status` for the results that are -1 or
-- a count.
use Prim.Native.Nat.{ℕ, ◌-◌, bit_or}
use mathlib.Core.Bool.{Bool, false}
use libgate.Base.Tests.{leb, ltb, if◌then◌else◌}

-- `negsuc n` is -(n + 1).
pub data ℤ : Type 0 where
  pos : ℕ → ℤ
  negsuc : ℕ → ℤ

-- a - b, as an integer.
abbrev pub sub_ℕ : ℕ → ℕ → ℤ
sub_ℕ a b = if leb b a then pos (a - b) else negsuc (b - a - 1)

-- `failed` is -1.
pub data Status : Type 0 where
  failed : Status
  count : ℕ → Status

-- `r > 0`
abbrev pub is_positive : Status → Bool
is_positive failed = false
is_positive (count n) = ltb 0 n

-- `a | b`; every bit of -1 is set.
abbrev pub or_status : Status → Status → Status
or_status failed b = failed
or_status (count a) failed = failed
or_status (count a) (count b) = count (bit_or a b)
