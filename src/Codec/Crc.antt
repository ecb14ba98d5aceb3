-- ===== src/Codec/Crc.antt =====
-- `crc8_xor` of src/gp_util.c: the exclusive or of a run of bytes.
use native.Mathlib.Nat.{le_refl}
use libgate.Base.{
  ℕ, zero, suc, ◌+◌, ◌-◌, ◌≡◌, ◌≢◌, sym, ap, ◌∙◌, List, [], ◌∷◌, ◌++◌, arith, bit_xor, Buf, slice,
  slice-add, slice-update_above, slice-update_below, update, ◌<◌,
}
use libgate.Base.Bits.{bit_xor_self, bit_xor-zero, zero-bit_xor, bit_xor_assoc, bit_xor_comm}

-- `while (l > 1) { r ^= *(++p); l--; }`: the rounds left, the buffer, the index, the value so far.
unfoldable pub crc_loop : ℕ → Buf → ℕ → ℕ → ℕ
crc_loop zero m p r = r
crc_loop (suc left) m p r = crc_loop left m (p + 1) (bit_xor r (m (p + 1)))

-- A length below 2 reads the first byte only.
unfoldable pub crc8_xor : Buf → ℕ → ℕ → ℕ
crc8_xor m p l = crc_loop (l - 1) m p (m p)

-- The exclusive or of a list.
pub xor_all : List ℕ → ℕ
xor_all [] = 0
xor_all (b ∷ bs) = bit_xor b (xor_all bs)

crc_loop-xor_all :
    (n : ℕ) (m : Buf) (p r : ℕ) → crc_loop n m p r ≡ bit_xor r (xor_all (slice m (p + 1) n))
unfolding crc_loop xor_all
crc_loop-xor_all zero m p r = sym (bit_xor-zero r)
crc_loop-xor_all (suc n) m p r =
    crc_loop-xor_all n m (p + 1) (bit_xor r (m (p + 1))) ∙ bit_xor_assoc r (m (p + 1)) _

-- Over at least one byte the loop computes the exclusive or of the bytes.
pub crc8_xor-xor_all : (m : Buf) (p n : ℕ) → crc8_xor m p (suc n) ≡ xor_all (slice m p (suc n))
unfolding crc8_xor xor_all
crc8_xor-xor_all m p n = ap (λ k. crc_loop k m p (m p)) (omega arith) ∙ crc_loop-xor_all n m p (m p)

pub xor_all-append : (xs ys : List ℕ) → xor_all (xs ++ ys) ≡ bit_xor (xor_all xs) (xor_all ys)
unfolding xor_all
xor_all-append [] ys = sym (zero-bit_xor (xor_all ys))
xor_all-append (x ∷ xs) ys =
    ap (bit_xor x) (xor_all-append xs ys) ∙ sym (bit_xor_assoc x (xor_all xs) (xor_all ys))

-- A message followed by its checksum has checksum 0.
pub xor_all_checked : (xs : List ℕ) → xor_all (xs ++ xor_all xs ∷ []) ≡ 0
unfolding xor_all
xor_all_checked xs =
    xor_all-append xs (xor_all xs ∷ [])
    ∙ ap (bit_xor (xor_all xs)) (bit_xor-zero (xor_all xs))
    ∙ bit_xor_self (xor_all xs)

cancel : (a b c : ℕ) → bit_xor a b ≡ bit_xor a c → b ≡ c
cancel a b c e = sym (back b) ∙ ap (bit_xor a) e ∙ back c
  where
    back : (d : ℕ) → bit_xor a (bit_xor a d) ≡ d
    back d = sym (bit_xor_assoc a a d) ∙ rw (bit_xor_self a) (zero-bit_xor d)

-- One byte in place of another changes the checksum, wherever it stands.
pub xor_all_detects :
    (xs ys : List ℕ) (b c : ℕ) → b ≢ c → xor_all (xs ++ b ∷ ys) ≢ xor_all (xs ++ c ∷ ys)
unfolding xor_all
xor_all_detects [] ys b c ne e =
    ne (cancel (xor_all ys) b c (bit_xor_comm _ b ∙ e ∙ bit_xor_comm c _))
xor_all_detects (x ∷ xs) ys b c ne e = xor_all_detects xs ys b c ne (cancel x _ _ e)

-- The bytes of a slice before and behind the byte at distance `k`.
slice_at :
    (m : Buf) (p k n : ℕ)
    → k < suc n
    → slice m p (suc n) ≡ slice m p k ++ m (p + k) ∷ slice m (p + k + 1) (n - k)
slice_at m p k n h =
    ap (slice m p) (let e : suc n ≡ k + suc (n - k) = omega arith in e)
    ∙ slice-add m p k (suc (n - k))

-- One byte of the run in place of another changes the checksum.
pub crc8_xor_detects :
    (m : Buf) (p k n v : ℕ)
    → k < n
    → v ≢ m (p + k)
    → crc8_xor (update m (p + k) v) p n ≢ crc8_xor m p n
crc8_xor_detects m p k zero v h ne e = absurd (omega arith)
crc8_xor_detects m p k (suc n) v h ne e =
    xor_all_detects (slice m p k) (slice m (p + k + 1) (n - k)) v (m (p + k)) ne (
      sym changed
      ∙ sym (crc8_xor-xor_all (update m (p + k) v) p n)
      ∙ e
      ∙ crc8_xor-xor_all m p n
      ∙ ap xor_all (slice_at m p k n h))
  where
    new : slice (update m (p + k) v) p (suc n) ≡ slice m p k ++ v ∷ slice m (p + k + 1) (n - k)
    new =
        slice_at (update m (p + k) v) p k n h
        ∙ ground (
          arith,
          slice-update_above m (p + k) v p k (le_refl _),
          slice-update_below m (p + k) v (p + k + 1) (n - k) (omega arith),
        )

    changed :
        xor_all (slice (update m (p + k) v) p (suc n))
        ≡ xor_all (slice m p k ++ v ∷ slice m (p + k + 1) (n - k))
    changed = ap xor_all new
