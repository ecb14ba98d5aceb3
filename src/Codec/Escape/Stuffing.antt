-- ===== src/Codec/Escape/Stuffing.antt =====
-- What `memcpy_esc` of src/gp_util.c writes: each byte by itself, against the loop of the code.
use libgate.Base.{
  ℕ, zero, suc, ◌+◌, ◌*◌, ◌≤◌, ◌≡◌, ◌≢◌, ◌∙◌, inl, inr, Option, none, some, List, [], ◌∷◌, ◌++◌,
  arith, length, length-append, All, All-append, Buf, slice, store_list, Option-cases,
}
use libgate.Codec.Escape.{gp_init, gp_end, gp_esc, escape_code, unescape_code, esc_loop, memcpy_esc}

-- The escape sequence of one byte, or the byte itself.
abbrev pub sequence : ℕ → Option ℕ → List ℕ
sequence b none = b ∷ []
sequence b (some k) = gp_esc ∷ k ∷ []

-- A message with every special byte replaced.
unfoldable pub stuff : List ℕ → List ℕ
stuff [] = []
stuff (b ∷ bs) = sequence b (escape_code b) ++ stuff bs

abbrev pub one_if_some : Option ℕ → ℕ
one_if_some none = 0
one_if_some (some k) = 1

-- The number of special bytes of a message.
unfoldable pub specials : List ℕ → ℕ
specials [] = 0
specials (b ∷ bs) = one_if_some (escape_code b) + specials bs

pub length-stuff : (xs : List ℕ) → length (stuff xs) ≡ length xs + specials xs
unfolding stuff specials
length-stuff [] = omega arith
length-stuff (b ∷ bs) =
    ground (arith, length-stuff bs, length-append (sequence b (escape_code b)) (stuff bs))

pub escape_code-none : (b : ℕ) → escape_code b ≡ none → (b ≢ gp_init) × (b ≢ gp_end) × (b ≢ gp_esc)
unfolding escape_code
escape_code-none b e = (λ p. cc (rw p at e), λ p. cc (rw p at e), λ p. cc (rw p at e))

pub unescape-escape_code : (b k : ℕ) → escape_code b ≡ some k → unescape_code k ≡ some b
unfolding escape_code unescape_code
unescape-escape_code b k e = ground arith

pub escape_code-le : (b k : ℕ) → escape_code b ≡ some k → k ≤ 3
unfolding escape_code
escape_code-le b k e = ground arith

pub esc_loop-stuff :
    (n : ℕ) (dest : Buf) (d : ℕ) (src : Buf) (s c : ℕ)
    → esc_loop n dest d src s c
      ≡ (c + length (stuff (slice src s n)), store_list dest d (stuff (slice src s n) ++ 0 ∷ []))
unfolding esc_loop stuff
esc_loop-stuff zero dest d src s c = ground arith
esc_loop-stuff (suc n) dest d src s c = elim (Option-cases (escape_code (src s))) [
  | inl e ↦ rw (e, esc_loop) (esc_loop-stuff n _ (d + 1) src (s + 1) (c + 1) ∙ ground arith)
  | inr (k, e) ↦ rw (e, esc_loop) (esc_loop-stuff n _ (d + 2) src (s + 1) (c + 2) ∙ ground arith)
]

-- `memcpy_esc` writes the stuffed message and a zero byte from `d` on, changes nothing else, and
-- returns the length of the stuffed message.
pub memcpy_esc-stuff :
    (dest : Buf) (d : ℕ) (src : Buf) (s l : ℕ)
    → memcpy_esc dest d src s l
      ≡ (length (stuff (slice src s l)), store_list dest d (stuff (slice src s l) ++ 0 ∷ []))
unfolding memcpy_esc
memcpy_esc-stuff dest d src s l = esc_loop-stuff l dest d src s 0 ∙ ground arith

abbrev pub IsPlain : ℕ → Type 0
IsPlain b = (b ≢ gp_init) × (b ≢ gp_end)

sequence-IsPlain : (b : ℕ) → All IsPlain (sequence b (escape_code b))
sequence-IsPlain b = elim (Option-cases (escape_code b)) [
  | inl e ↦ rw e (((escape_code-none b e).0, (escape_code-none b e).1), tt)
  | inr (k, e) ↦ let h : k ≤ 3 = escape_code-le b k e in rw e (omega arith)
]

-- No byte of a stuffed message is a frame delimiter.
pub stuff-IsPlain : (xs : List ℕ) → All IsPlain (stuff xs)
unfolding stuff
stuff-IsPlain [] = tt
stuff-IsPlain (b ∷ bs) =
    All-append IsPlain (sequence b (escape_code b)) (stuff bs) (sequence-IsPlain b)
      (stuff-IsPlain bs)

pub length-stuff-le : (xs : List ℕ) → length (stuff xs) ≤ 2 * length xs
unfolding stuff
length-stuff-le [] = omega arith
length-stuff-le (b ∷ bs) =
    ground (arith, length-stuff-le bs, length-append (sequence b (escape_code b)) (stuff bs))
