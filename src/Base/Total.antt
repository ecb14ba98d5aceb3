-- ===== src/Base/Total.antt =====
-- Sums over the places from 1 to a last one.
use Prim.Native.Nat.{ℕ, zero, suc, ◌+◌, ◌*◌, ◌≤◌, ◌<◌}
use mathlib.Core.Path.{◌≡◌, refl}
use mathlib.Core.Logic.{inl, inr}
use native.Mathlib.Omega.{arith}
use libgate.Base.Tests.{ltb, Bool-cases}

-- `f 1 + … + f n`
unfoldable pub total : (ℕ → ℕ) → ℕ → ℕ
total f zero = 0
total f (suc n) = total f n + f (suc n)

-- Places behind the last one do not count.
pub total_ext : (f g : ℕ → ℕ) (n : ℕ) → ((i : ℕ) → i ≤ n → g i ≡ f i) → total g n ≡ total f n
unfolding total
total_ext f g zero same = refl
total_ext f g (suc n) same =
    omega (arith, same (suc n) (omega arith), total_ext f g n λ i h. same i (omega (arith, h)))

-- One more at one place is one more in all.
pub total_bump :
    (f g : ℕ → ℕ) (d n : ℕ)
    → 0 < d
    → d ≤ n
    → g d ≡ f d + 1
    → ((i : ℕ) → (i < d → g i ≡ f i) × (d < i → g i ≡ f i))
    → total g n ≡ total f n + 1
unfolding total
total_bump f g d zero low high more same = absurd (omega arith)
total_bump f g d (suc n) low high more same = elim (Bool-cases (ltb n d)) [
  | inl e ↦
      let last : d ≡ suc n = ground arith in
      let before = total_ext f g n λ i h. (same i).0 (omega (arith, h, last)) in
      let here : g (suc n) ≡ f (suc n) + 1 = cc in omega (arith, before, here)
  | inr e ↦
      let below : d ≤ n = ground arith in
      let rest = total_bump f g d n low below more same in
      omega (arith, rest, (same (suc n)).1 (omega (arith, below)))
]

pub total_bound : (f : ℕ → ℕ) (m n : ℕ) → ((i : ℕ) → 0 < i → i ≤ n → f i ≤ m) → total f n ≤ m * n
unfolding total
total_bound f m zero below = omega arith
total_bound f m (suc n) below = omega (
  arith,
  below (suc n) (omega arith) (omega arith),
  total_bound f m n λ i p q. below i p (omega (arith, q)),
)
