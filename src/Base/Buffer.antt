-- ===== src/Base/Buffer.antt =====
-- A byte buffer of C as a function from the index; writes are updates.
use Prim.Native.Nat.{ℕ, zero, suc, ◌+◌, ◌≤◌, ◌<◌}
use mathlib.Core.Path.{◌≡◌, refl, ap, ap₂, ◌∙◌}
use mathlib.Core.Logic.{◌⊎◌, inl}
use mathlib.Core.List.{List, [], ◌∷◌, ◌++◌}
use native.Mathlib.Omega.{arith}
use libgate.Base.Tests.{◌==◌, if◌then◌else◌}
use libgate.Base.Lists.{length}

abbrev pub Buf : Type 0
Buf = ℕ → ℕ

-- `memset(buf, 0, sizeof buf)`
abbrev pub zeroed : Buf
zeroed i = 0

-- `m[i] = v`
abbrev pub update {ℓ} : {A : Type ℓ} → (ℕ → A) → ℕ → A → ℕ → A
update m i v j = if i == j then v else m j

-- The `n` bytes from index `i` on.
abbrev pub slice : Buf → ℕ → ℕ → List ℕ
slice m i zero = []
slice m i (suc n) = m i ∷ slice m (i + 1) n

-- The bytes of a list, written one after the other from index `i` on.
abbrev pub store_list : Buf → ℕ → List ℕ → Buf
store_list m i [] = m
store_list m i (v ∷ vs) = store_list (update m i v) (i + 1) vs

pub length-slice : (m : Buf) (i n : ℕ) → length (slice m i n) ≡ n
length-slice m i zero = refl
length-slice m i (suc n) = ap suc (length-slice m (i + 1) n)

-- A write below a slice leaves it as it is.
pub slice-update_below : (m : Buf) (i v j n : ℕ) → i < j → slice (update m i v) j n ≡ slice m j n
slice-update_below m i v j zero h = refl
slice-update_below m i v j (suc n) h =
    ap₂ ◌∷◌ (ground arith) (slice-update_below m i v (j + 1) n (omega arith))

-- And so does a write above it.
pub slice-update_above :
    (m : Buf) (i v j n : ℕ) → j + n ≤ i → slice (update m i v) j n ≡ slice m j n
slice-update_above m i v j zero h = refl
slice-update_above m i v j (suc n) h =
    ap₂ ◌∷◌ (ground arith) (slice-update_above m i v (j + 1) n (omega arith))

-- Slices with the same bytes are equal.
pub slice_ext :
    (m m' : Buf) (i j n : ℕ)
    → ((k : ℕ) → k < n → m (i + k) ≡ m' (j + k))
    → slice m i n ≡ slice m' j n
slice_ext m m' i j zero h = refl
slice_ext m m' i j (suc n) h =
    ap₂ ◌∷◌ (ap m (omega arith) ∙ h 0 (omega arith) ∙ ap m' (omega arith)) (
      slice_ext m m' (i + 1) (j + 1) n
        (λ k below. ap m (omega arith) ∙ h (suc k) (omega arith) ∙ ap m' (omega arith)))

pub slice-add : (m : Buf) (i a b : ℕ) → slice m i (a + b) ≡ slice m i a ++ slice m (i + a) b
slice-add m i zero b = ap₂ (slice m) (omega arith) (omega arith)
slice-add m i (suc a) b =
    let e : suc a + b ≡ suc (a + b) = omega arith in
    rw e (
      ap (◌∷◌ (m i))
        (slice-add m (i + 1) a b ∙ ap (λ k. slice m (i + 1) a ++ slice m k b) (omega arith)))

-- The last byte of a slice.
pub slice-suc : (m : Buf) (i n : ℕ) → slice m i (n + 1) ≡ slice m i n ++ m (i + n) ∷ []
slice-suc m i n = slice-add m i n 1

-- A list that is stored changes no byte outside of it.
pub store_list_outside :
    (vs : List ℕ) (m : Buf) (i j : ℕ) → (j < i) ⊎ (i + length vs ≤ j) → store_list m i vs j ≡ m j
store_list_outside [] m i j h = refl
store_list_outside (v ∷ vs) m i j h = ground (arith, store_list_outside vs (update m i v) (i + 1) j)

pub slice-store_list_below :
    (vs : List ℕ) (m : Buf) (i j n : ℕ) → j + n ≤ i → slice (store_list m i vs) j n ≡ slice m j n
slice-store_list_below vs m i j zero h = refl
slice-store_list_below vs m i j (suc n) h =
    ap₂ ◌∷◌ (store_list_outside vs m i j (inl (omega arith)))
      (slice-store_list_below vs m i (j + 1) n (omega arith))

-- A list that is stored is read back.
pub slice-store_list :
    (vs : List ℕ) (m : Buf) (i : ℕ) → slice (store_list m i vs) i (length vs) ≡ vs
slice-store_list [] m i = refl
slice-store_list (v ∷ vs) m i =
    ap₂ ◌∷◌ (store_list_outside vs (update m i v) (i + 1) i (inl (omega arith)) ∙ ground arith)
      (slice-store_list vs (update m i v) (i + 1))

pub store_list-append :
    (us vs : List ℕ) (m : Buf) (i : ℕ)
    → store_list m i (us ++ vs) ≡ store_list (store_list m i us) (i + length us) vs
store_list-append [] vs m i = ap (λ k. store_list m k vs) (omega arith)
store_list-append (u ∷ us) vs m i =
    store_list-append us vs (update m i u) (i + 1)
    ∙ ap (λ k. store_list (store_list (update m i u) (i + 1) us) k vs) (omega arith)

-- The first part of what is stored is read back alone.
pub slice-store_list_prefix :
    (us vs : List ℕ) (m : Buf) (i : ℕ) → slice (store_list m i (us ++ vs)) i (length us) ≡ us
slice-store_list_prefix [] vs m i = refl
slice-store_list_prefix (u ∷ us) vs m i =
    ap₂ ◌∷◌
      (store_list_outside (us ++ vs) (update m i u) (i + 1) i (inl (omega arith)) ∙ ground arith)
      (slice-store_list_prefix us vs (update m i u) (i + 1))
