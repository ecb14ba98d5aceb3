-- ===== src/Codec/Integer/RoundTrip.antt =====
-- The byte orders of `bin2int` and `int2bin`, and that each undoes the other.
use mathlib.Core.List.{reverse-append, reverse-cons, reverse-reverse}
use libgate.Base.{
  ℕ, ◌-◌, ◌*◌, ◌/◌, ◌^◌, ◌≤◌, ◌<◌, ◌≡◌, refl, ap, ◌∙◌, sym, List, [], ◌∷◌, ◌++◌, arith, length, All,
  All-append, IsByte, reverse, length-append, Buf, slice, store_list, slice-store_list,
  length-slice, ◌==◌, if◌then◌else◌, Bool-cases, inl, inr,
}
use libgate.Codec.Integer.Bytes.{
  le_value, le_bytes, length-le_bytes, le_bytes-IsByte, le_bytes-le_value, le_value-le_bytes,
  le_bytes-add, le_value_drop, two-pow-eight,
}
use libgate.Codec.Integer.{bswap64, bin2int, int2bin}

pub length-reverse {ℓ} : {A : Type ℓ} (xs : List A) → length (reverse xs) ≡ length xs
length-reverse [] = refl
length-reverse (x ∷ xs) = omega (
  arith,
  ap length (reverse-cons x xs),
  length-append {ℓ} (reverse xs) (x ∷ []),
  length-reverse xs,
)

pub All-reverse {ℓ κ} : {A : Type ℓ} (P : A → Type κ) (xs : List A) → All P xs → All P (reverse xs)
All-reverse P [] h = tt
All-reverse P (x ∷ xs) h =
    rw (reverse-cons x xs) (All-append P (reverse xs) (x ∷ []) (All-reverse P xs h.1) (h.0, tt))

-- Swapped and shifted, the low `len` bytes stand in reverse order.
bswap64_shift :
    (a len : ℕ) → len ≤ 8 → bswap64 a / 2 ^ (8 * (8 - len)) ≡ le_value (reverse (le_bytes len a))
unfolding bswap64
bswap64_shift a len h =
    ap (λ t. le_value (reverse t) / 2 ^ (8 * (8 - len))) split
    ∙ ap (λ t. le_value t / 2 ^ (8 * (8 - len))) (reverse-append low high)
    ∙ ap (λ t. le_value (reverse high ++ reverse low) / t) power
    ∙ le_value_drop (reverse high) (reverse low)
        (All-reverse IsByte high (le_bytes-IsByte (8 - len) (a / 256 ^ len)))
  where
    low : List ℕ
    low = le_bytes len a

    high : List ℕ
    high = le_bytes (8 - len) (a / 256 ^ len)

    split : le_bytes 8 a ≡ low ++ high
    split = ap (λ t. le_bytes t a) (omega arith) ∙ le_bytes-add len (8 - len) a

    power : 2 ^ (8 * (8 - len)) ≡ 256 ^ length (reverse high)
    power =
        two-pow-eight (8 - len)
        ∙ ap (λ t. 256 ^ t) (sym (length-reverse high ∙ length-le_bytes (8 - len) (a / 256 ^ len)))

-- The bytes as the code reads them: the other way round for `revert`.
abbrev pub ordered : ℕ → List ℕ → List ℕ
ordered revert bs = if revert == 1 then reverse bs else bs

ordered_twice : (revert : ℕ) (bs : List ℕ) → ordered revert (ordered revert bs) ≡ bs
ordered_twice revert bs = elim (Bool-cases (revert == 1)) [
  | inl e ↦ rw e (reverse-reverse bs)
  | inr e ↦ rw e
]

ordered-IsByte : (revert : ℕ) (bs : List ℕ) → All IsByte bs → All IsByte (ordered revert bs)
ordered-IsByte revert bs h = elim (Bool-cases (revert == 1)) [
  | inl e ↦ rw e (All-reverse IsByte bs h)
  | inr e ↦ rw e h
]

length-ordered : (revert : ℕ) (bs : List ℕ) → length (ordered revert bs) ≡ length bs
length-ordered revert bs = elim (Bool-cases (revert == 1)) [
  | inl e ↦ rw e (length-reverse bs)
  | inr e ↦ rw e
]

-- `bin2int` reads at most 8 bytes, little-endian, or big-endian for `revert`.
pub bin2int-le_value :
    (m : Buf) (s len revert : ℕ)
    → len ≤ 8
    → All IsByte (slice m s len)
    → bin2int m s len revert ≡ le_value (ordered revert (slice m s len))
unfolding bin2int
bin2int-le_value m s len revert h bytes = ground (
  arith,
  bswap64_shift (le_value (slice m s len)) len h,
  ap (λ t. le_bytes t (le_value (slice m s len))) (length-slice m s len),
  le_bytes-le_value (slice m s len) bytes,
)

pub int2bin-le_bytes :
    (dest : Buf) (d a len revert : ℕ)
    → len ≤ 8
    → int2bin dest d a len revert ≡ store_list dest d (ordered revert (le_bytes len a))
unfolding int2bin
int2bin-le_bytes dest d a len revert h = ground (
  arith,
  bswap64_shift a len h,
  ap (λ t. le_bytes t (le_value (reverse (le_bytes len a))))
      (length-reverse (le_bytes len a) ∙ length-le_bytes len a),
  le_bytes-le_value (reverse (le_bytes len a))
      (All-reverse IsByte (le_bytes len a) (le_bytes-IsByte len a)),
)

-- An integer of `len` bytes that `int2bin` writes is what `bin2int` reads, in both byte orders.
pub bin2int-int2bin :
    (dest : Buf) (d a len revert : ℕ)
    → len ≤ 8
    → a < 256 ^ len
    → bin2int (int2bin dest d a len revert) d len revert ≡ a
bin2int-int2bin dest d a len revert h fits =
    bin2int-le_value written d len revert h
      (rw stored (ordered-IsByte revert low (le_bytes-IsByte len a)))
    ∙ rw stored (ap le_value (ordered_twice revert low) ∙ le_value-le_bytes len a fits)
  where
    low : List ℕ
    low = le_bytes len a

    written : Buf
    written = int2bin dest d a len revert

    stored : slice written d len ≡ ordered revert low
    stored =
        ap (λ w. slice w d len) (int2bin-le_bytes dest d a len revert h)
        ∙ ap (slice (store_list dest d (ordered revert low)) d)
            (sym (length-ordered revert low ∙ length-le_bytes len a))
        ∙ slice-store_list (ordered revert low) dest d

-- The bytes that `bin2int` reads are what `int2bin` writes, in both byte orders.
pub int2bin-bin2int :
    (m dest : Buf) (s d len revert : ℕ)
    → len ≤ 8
    → All IsByte (slice m s len)
    → int2bin dest d (bin2int m s len revert) len revert ≡ store_list dest d (slice m s len)
int2bin-bin2int m dest s d len revert h bytes =
    int2bin-le_bytes dest d (bin2int m s len revert) len revert h
    ∙ ap (λ t. store_list dest d (ordered revert (le_bytes len t)))
        (bin2int-le_value m s len revert h bytes)
    ∙ ap (λ t. store_list dest d (ordered revert t)) back
    ∙ ap (store_list dest d) (ordered_twice revert (slice m s len))
  where
    there : List ℕ
    there = ordered revert (slice m s len)

    back : le_bytes len (le_value there) ≡ there
    back =
        ap (λ t. le_bytes t (le_value there))
          (sym (length-ordered revert (slice m s len) ∙ length-slice m s len))
        ∙ le_bytes-le_value there (ordered-IsByte revert (slice m s len) bytes)
