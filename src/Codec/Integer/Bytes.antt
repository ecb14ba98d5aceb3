-- ===== src/Codec/Integer/Bytes.antt =====
-- The bytes of an integer in memory, lowest first, and the value of a run of bytes.
use native.Mathlib.Nat.{pow-succ', one-le-pow, add-mul-div_left, div-div-eq-div-mul, div-eq_of_lt}
use mathlib.Core.Path.{ap₂}
use native.Mathlib.Numerals.{towards_suc}
use libgate.Base.{
  ℕ, zero, suc, ◌+◌, ◌*◌, ◌/◌, ◌%◌, ◌^◌, ◌<◌, ◌≡◌, refl, ap, ◌∙◌, sym, List, [], ◌∷◌, ◌++◌, arith,
  length, All, IsByte,
}

unfoldable pub le_value : List ℕ → ℕ
le_value [] = 0
le_value (b ∷ bs) = b + 256 * le_value bs

unfoldable pub le_bytes : ℕ → ℕ → List ℕ
le_bytes zero a = []
le_bytes (suc n) a = a % 256 ∷ le_bytes n (a / 256)

pub length-le_bytes : (n a : ℕ) → length (le_bytes n a) ≡ n
unfolding le_bytes
length-le_bytes zero a = refl
length-le_bytes (suc n) a = ap suc (length-le_bytes n (a / 256))

pub le_bytes-IsByte : (n a : ℕ) → All IsByte (le_bytes n a)
unfolding le_bytes
le_bytes-IsByte zero a = tt
le_bytes-IsByte (suc n) a = (omega arith, le_bytes-IsByte n (a / 256))

pub le_bytes-le_value : (bs : List ℕ) → All IsByte bs → le_bytes (length bs) (le_value bs) ≡ bs
unfolding le_bytes le_value
le_bytes-le_value [] h = refl
le_bytes-le_value (b ∷ bs) h = ground (arith, le_bytes-le_value bs h.1)

pub le_value-lt : (bs : List ℕ) → All IsByte bs → le_value bs < 256 ^ length bs
unfolding le_value
le_value-lt [] h = omega arith
le_value-lt (b ∷ bs) h = omega (arith, le_value-lt bs h.1, pow-succ' 256 (length bs))

pub le_value-append :
    (xs ys : List ℕ) → le_value (xs ++ ys) ≡ le_value xs + 256 ^ length xs * le_value ys
unfolding le_value
le_value-append [] ys = omega arith
le_value-append (x ∷ xs) ys =
    omega (arith, le_value-append xs ys, ap (λ t. t * le_value ys) (pow-succ' 256 (length xs)))

-- Integers that fit are read back from their bytes.
pub le_value-le_bytes : (n a : ℕ) → a < 256 ^ n → le_value (le_bytes n a) ≡ a
unfolding le_value le_bytes
le_value-le_bytes zero a h = omega arith
le_value-le_bytes (suc n) a h =
    omega (arith, le_value-le_bytes n (a / 256) (omega (arith, pow-succ' 256 n)))

quotient : (a m : ℕ) → a / 256 / 256 ^ m ≡ a / 256 ^ suc m
quotient a m = div-div-eq-div-mul a 256 (256 ^ m) ∙ ap (λ t. a / t) (sym (pow-succ' 256 m))

pub le_bytes-add : (m n a : ℕ) → le_bytes (m + n) a ≡ le_bytes m a ++ le_bytes n (a / 256 ^ m)
unfolding le_bytes
le_bytes-add zero n a = ap₂ le_bytes (omega arith) (omega arith)
le_bytes-add (suc m) n a =
    let e : suc m + n ≡ suc (m + n) = omega arith in
    rw e (
      ap (◌∷◌ (a % 256)) (
        le_bytes-add m n (a / 256) ∙ ap (λ t. le_bytes m (a / 256) ++ le_bytes n t) (quotient a m)))

-- Dividing by a power of 256 drops the lowest bytes.
pub le_value_drop :
    (xs ys : List ℕ) → All IsByte xs → le_value (xs ++ ys) / 256 ^ length xs ≡ le_value ys
le_value_drop xs ys h =
    ap (λ t. t / 256 ^ length xs) (le_value-append xs ys)
    ∙ add-mul-div_left (le_value xs) (le_value ys) (one-le-pow (length xs) 256 (omega arith))
    ∙ ap (λ t. t + le_value ys) (div-eq_of_lt (le_value-lt xs h))
    ∙ omega arith

eight_more : (n : ℕ) → 2 ^ (n + 8) ≡ 256 * 2 ^ n
eight_more n = simp towards_suc (omega arith)

pub two-pow-eight : (k : ℕ) → 2 ^ (8 * k) ≡ 256 ^ k
two-pow-eight zero = refl
two-pow-eight (suc k) =
    let e : 8 * suc k ≡ 8 * k + 8 = omega arith in
    rw (e, eight_more (8 * k)) (omega (arith, two-pow-eight k, pow-succ' 256 k))
