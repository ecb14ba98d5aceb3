-- ===== src/Codec/Hex/Text.antt =====
-- The text that the loops of src/gp_util.c write, and its value as a number.
use mathlib.Core.List.{reverse-cons, reverse-append, reverse-reverse}
use mathlib.Core.Path.{ap₂}
use native.Mathlib.Nat.{pow-succ'}
use libgate.Base.{
  ℕ, zero, suc, ◌+◌, ◌-◌, ◌*◌, ◌/◌, ◌%◌, ◌^◌, ◌<◌, ◌≡◌, refl, ap, ◌∙◌, List, [], ◌∷◌, ◌++◌, arith,
  Buf, zeroed, slice, store_list, slice-store_list, slice-add, ltb, length, All, IsByte, reverse,
  inl, inr, Bool-cases, ◌==◌, if◌then◌else◌,
}
use libgate.Base.Bits.{bit_and_low_nibble}
use libgate.Codec.Integer.Bytes.{
  le_value, le_bytes, le_value-le_bytes, le_value-append, le_bytes-IsByte,
}
use libgate.Codec.Integer.RoundTrip.{ordered, length-reverse, All-reverse}
use libgate.Codec.Hex.{hex_digit, put_hex, hex_up, hex_down, bin2hex, long2hex}

-- Two digits for each byte, the high one first.
pub hex_text : List ℕ → List ℕ
hex_text [] = []
hex_text (b ∷ bs) = hex_digit (b / 16) ∷ hex_digit (b % 16) ∷ hex_text bs

-- The value of a digit, and of a text that starts with the highest digit, on top of `acc`.
pub digit_value : ℕ → ℕ
digit_value c = if ltb c b'A' then c - b'0' else c - b'A' + 10

pub hex_value : ℕ → List ℕ → ℕ
hex_value acc [] = acc
hex_value acc (c ∷ cs) = hex_value (16 * acc + digit_value c) cs

hex_up-hex_text :
    (n : ℕ) (dest : Buf) (d : ℕ) (src : Buf) (s : ℕ)
    → hex_up n dest d src s ≡ store_list dest d (hex_text (slice src s n) ++ 0 ∷ [])
unfolding hex_up hex_text put_hex
hex_up-hex_text zero dest d src s = refl
hex_up-hex_text (suc n) dest d src s = ground (
  arith,
  hex_up-hex_text n (put_hex dest d (src s)) (d + 2) src (s + 1),
  bit_and_low_nibble (src s),
)

reverse-slice-suc :
    (m : Buf) (s n : ℕ) → reverse (slice m s (suc n)) ≡ m (s + n) ∷ reverse (slice m s n)
reverse-slice-suc m s n =
    ap (λ k. reverse (slice m s k)) (let e : suc n ≡ n + 1 = omega arith in e)
    ∙ ap reverse (slice-add m s n 1)
    ∙ reverse-append (slice m s n) (m (s + n) ∷ [])

hex_down-hex_text :
    (n : ℕ) (dest : Buf) (d : ℕ) (src : Buf) (s : ℕ)
    → hex_down n dest d src (s + n)
      ≡ store_list dest d (hex_text (reverse (slice src s n)) ++ 0 ∷ [])
unfolding hex_down hex_text put_hex
hex_down-hex_text zero dest d src s = refl
hex_down-hex_text (suc n) dest d src s =
    let e : s + suc n - 1 ≡ s + n = omega arith in
    rw reverse-slice-suc (
      ap (λ t. hex_down n (put_hex dest d (src t)) (d + 2) src t) e
      ∙ ground (
        arith,
        hex_down-hex_text n (put_hex dest d (src (s + n))) (d + 2) src s,
        bit_and_low_nibble (src (s + n)),
      ))

-- `bin2hex` writes the digits of the bytes in their order, or in reverse order for `revert`, and a
-- zero byte, and returns the number of digits.
bin2hex-hex_text :
    (dest : Buf) (d : ℕ) (src : Buf) (s len revert : ℕ)
    → bin2hex dest d src s len revert
      ≡ (2 * len, store_list dest d (hex_text (ordered revert (slice src s len)) ++ 0 ∷ []))
unfolding bin2hex
bin2hex-hex_text dest d src s len revert = elim (Bool-cases (revert == 1)) [
  | inl e ↦ rw e (ap (λ t. (2 * len, t)) (hex_down-hex_text len dest d src s))
  | inr e ↦ rw e (ap (λ t. (2 * len, t)) (hex_up-hex_text len dest d src s))
]

digit_value-hex_digit : (h : ℕ) → h < 16 → digit_value (hex_digit h) ≡ h
unfolding hex_digit digit_value
digit_value-hex_digit h fits = ground arith

le_value-reverse-cons :
    (b : ℕ) (bs : List ℕ)
    → le_value (reverse (b ∷ bs)) ≡ le_value (reverse bs) + 256 ^ length bs * b
unfolding le_value
le_value-reverse-cons b bs = omega (
  arith,
  ap le_value (reverse-cons b bs),
  le_value-append (reverse bs) (b ∷ []),
  ap (λ t. 256 ^ t * b) (length-reverse bs),
)

hex_value-hex_text :
    (acc : ℕ) (bs : List ℕ)
    → All IsByte bs
    → hex_value acc (hex_text bs) ≡ acc * 256 ^ length bs + le_value (reverse bs)
unfolding hex_value hex_text le_value
hex_value-hex_text acc [] h = omega arith
hex_value-hex_text acc (b ∷ bs) h =
    ap₂ (λ h l. hex_value (16 * (16 * acc + h) + l) (hex_text bs))
      (digit_value-hex_digit (b / 16) (omega arith)) (digit_value-hex_digit (b % 16) (omega arith))
    ∙ (omega (
      arith,
      hex_value-hex_text (16 * (16 * acc + b / 16) + b % 16) bs h.1,
      le_value-reverse-cons b bs,
      pow-succ' 256 (length bs),
      ap (λ t. acc * t) (pow-succ' 256 (length bs)),
      ap (λ t. t * 256 ^ length bs)
          (let e : 16 * (16 * acc + b / 16) + b % 16 ≡ 256 * acc + b = omega arith in e),
    ))

-- `long2hex` writes 16 digits and a zero byte: the digits of the number, the highest first.
long2hex-hex_value :
    (dest : Buf) (d a : ℕ)
    → a < 2 ^ 64
    → (text : List ℕ) × (long2hex dest d a ≡ (16, store_list dest d (text ++ 0 ∷ [])))
      × (length text ≡ 16)
      × (hex_value 0 text ≡ a)
unfolding long2hex hex_text le_bytes
long2hex-hex_value dest d a fits = (
  hex_text (reverse bytes),
  ap (λ t. (16, t))
      (hex_down-hex_text 8 dest d (store_list zeroed 0 bytes) 0
        ∙ ap (λ t. store_list dest d (hex_text (reverse t) ++ 0 ∷ []))
            (slice-store_list bytes zeroed 0)),
  refl,
  hex_value-hex_text 0 (reverse bytes) (All-reverse IsByte bytes (le_bytes-IsByte 8 a))
      ∙ ap (λ t. 0 * 256 ^ 8 + le_value t) (reverse-reverse bytes)
      ∙ omega (arith, le_value-le_bytes 8 a fits),
)
  where
    bytes : List ℕ
    bytes = le_bytes 8 a
