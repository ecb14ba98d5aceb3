-- ===== src/Codec/Escape/RoundTrip.antt =====
-- `memcpy_unesc` of src/gp_util.c against the stuffed messages of `memcpy_esc`. The loop counts its
-- rounds by the length of the stuffed text, though each round of an escape sequence reads two
-- bytes: it reads on behind the message, as many bytes as the message has escape sequences.
use libgate.Base.{
  ℕ, zero, suc, ◌+◌, ◌-◌, ◌≤◌, ◌<◌, ◌≡◌, ◌≢◌, sym, subst, ap, ◌∙◌, inl, inr, none, some,
  Option-cases, List, [], ◌∷◌, ◌++◌, arith, length, length-append, append_assoc, length-slice,
  slice-add, slice-store_list_prefix, All, Buf, slice, store_list, update, slice-update_below,
}
use libgate.Codec.Escape.{gp_esc, escape_code, unescape_code, unesc_loop, memcpy_unesc, memcpy_esc}
use libgate.Codec.Escape.Stuffing.{
  stuff, specials, length-stuff, memcpy_esc-stuff, escape_code-none, unescape-escape_code,
}

-- `src` decodes to `out`, by `k` escape sequences.
pub data Decodes : List ℕ → List ℕ → ℕ → Type 0 where
  done : Decodes [] [] 0
  plain :
      {b k : ℕ} {src out : List ℕ} → b ≢ gp_esc → Decodes src out k → Decodes (b ∷ src) (b ∷ out) k
  escaped :
      {c b k : ℕ} {src out : List ℕ}
      → unescape_code c ≡ some b
      → Decodes src out k
      → Decodes (gp_esc ∷ c ∷ src) (b ∷ out) (suc k)

Decodes-eq : {src out : List ℕ} {j k : ℕ} → j ≡ k → Decodes src out j → Decodes src out k
Decodes-eq {src} {out} e h = subst (Decodes src out) e h

-- A text with no escape byte decodes to itself.
pub plain-Decodes : (xs : List ℕ) → All (λ b. b ≢ gp_esc) xs → Decodes xs xs 0
plain-Decodes [] h = done
plain-Decodes (x ∷ xs) h = plain h.0 (plain-Decodes xs h.1)

stuff-Decodes :
    (xs : List ℕ) {src out : List ℕ} {k : ℕ}
    → Decodes src out k
    → Decodes (stuff xs ++ src) (xs ++ out) (specials xs + k)
unfolding stuff specials
stuff-Decodes [] h = Decodes-eq (omega arith) h
stuff-Decodes (b ∷ bs) h = elim (Option-cases (escape_code b)) [
  | inl e ↦ rw e (Decodes-eq (omega arith) (plain (escape_code-none b e).2 (stuff-Decodes bs h)))
  | inr (k, e) ↦
      rw e (Decodes-eq (omega arith) (escaped (unescape-escape_code b k e) (stuff-Decodes bs h)))
]

-- From where the memory holds a text that decodes, the loop writes what it decodes to.
unesc_loop-Decodes :
    {src out : List ℕ} {k : ℕ} (m : Buf) (d s l : ℕ)
    → Decodes src out k
    → d ≤ s
    → slice m s (length src) ≡ src
    → unesc_loop (length out) m d s l ≡ (l - k, store_list m d (out ++ 0 ∷ []))
unfolding unesc_loop
unesc_loop-Decodes m d s l done h e = ground arith
unesc_loop-Decodes {src = b ∷ src} m d s l (plain ne r) h e = ground (
  arith,
  unesc_loop-Decodes (update m d b) (d + 1) (s + 1) l r (omega arith),
  slice-update_below m d b (s + 1) (length src),
)
unesc_loop-Decodes {src = x ∷ c ∷ src} {out = b ∷ out} m d s l (escaped u r) h e = ground (
  arith,
  unesc_loop-Decodes (update m d b) (d + 1) (s + 2) (l - 1) r (omega arith),
  slice-update_below m d b (s + 2) (length src),
)

-- Decoding in place the stuffed `xs`, behind which the memory holds `rest`, as many bytes as the
-- escape sequences of `xs` take up once decoded: the bytes of `xs` are written in their place, and
-- the length returned is short by each escape sequence that the loop meets in `rest`.
pub memcpy_unesc-stuff :
    {rest out : List ℕ} {k : ℕ} (xs : List ℕ) (m : Buf) (d s : ℕ)
    → Decodes rest out k
    → length out ≡ specials xs
    → d ≤ s
    → slice m s (length (stuff xs ++ rest)) ≡ stuff xs ++ rest
    → memcpy_unesc m d s (length (stuff xs)) ≡ (length xs - k, store_list m d (xs ++ out ++ 0 ∷ []))
unfolding memcpy_unesc
memcpy_unesc-stuff {rest} {out} {k} xs m d s h size below holds =
    let e : length (stuff xs) ≡ length (xs ++ out) =
      omega (arith, length-stuff xs, length-append {0} xs out) in
    ground (
      arith,
      unesc_loop-Decodes m d s (length (stuff xs)) (stuff-Decodes xs h) below holds,
      e,
      length-stuff xs,
      append_assoc xs out (0 ∷ []),
    )

-- With no escape byte in what the loop reads behind the stuffed `xs`, its length and bytes come back.
pub memcpy_unesc_clean :
    (xs : List ℕ) (m : Buf) (p : ℕ)
    → slice m p (length (stuff xs)) ≡ stuff xs
    → All (λ b. b ≢ gp_esc) (slice m (p + length (stuff xs)) (specials xs))
    → ((memcpy_unesc m p p (length (stuff xs))).0 ≡ length xs)
      × (slice (memcpy_unesc m p p (length (stuff xs))).1 p (length xs) ≡ xs)
memcpy_unesc_clean xs m p copy behind = (omega (arith, ap (λ r. r.0) decoded), rw decoded bytes)
  where
    rest : List ℕ
    rest = slice m (p + length (stuff xs)) (specials xs)

    room : length (stuff xs ++ rest) ≡ length (stuff xs) + specials xs
    room = omega (
      arith,
      length-append {0} (stuff xs) rest,
      length-slice m (p + length (stuff xs)) (specials xs),
    )

    holds : slice m p (length (stuff xs ++ rest)) ≡ stuff xs ++ rest
    holds =
        ap (slice m p) room
        ∙ slice-add m p (length (stuff xs)) (specials xs)
        ∙ ap (λ t. t ++ rest) copy

    decoded :
        memcpy_unesc m p p (length (stuff xs))
        ≡ (length xs - 0, store_list m p (xs ++ rest ++ 0 ∷ []))
    decoded =
        memcpy_unesc-stuff xs m p p (plain-Decodes rest behind)
          (length-slice m (p + length (stuff xs)) (specials xs)) (omega arith) holds

    bytes : slice (store_list m p (xs ++ rest ++ 0 ∷ [])) p (length xs) ≡ xs
    bytes =
        ap (λ t. slice (store_list m p t) p (length xs)) (append_assoc xs rest (0 ∷ []))
        ∙ slice-store_list_prefix xs (rest ++ 0 ∷ []) m p

-- A message stuffed by `memcpy_esc`, copied anywhere with no escape byte among the bytes behind it
-- that the loop reads, comes back from `memcpy_unesc` with its length and its bytes.
pub memcpy_unesc-memcpy_esc :
    (dest src m w : Buf) (d s p l c : ℕ)
    → memcpy_esc dest d src s l ≡ (c, w)
    → slice m p c ≡ slice w d c
    → All (λ b. b ≢ gp_esc) (slice m (p + c) (specials (slice src s l)))
    → ((memcpy_unesc m p p c).0 ≡ l) × (slice (memcpy_unesc m p p c).1 p l ≡ slice src s l)
memcpy_unesc-memcpy_esc dest src m w d s p l c sends copied behind =
    subst
      (λ n. ((memcpy_unesc m p p c).0 ≡ n) × (slice (memcpy_unesc m p p c).1 p n ≡ slice src s l))
      (length-slice src s l)
      (subst
        (λ n.
          ((memcpy_unesc m p p n).0 ≡ length xs)
          × (slice (memcpy_unesc m p p n).1 p (length xs) ≡ xs))
        (sym sizes)
        (memcpy_unesc_clean xs m p (subst (λ n. slice m p n ≡ stuff xs) sizes copy)
          (subst (λ n. All (λ b. b ≢ gp_esc) (slice m (p + n) (specials xs))) sizes behind)))
  where
    xs : List ℕ
    xs = slice src s l

    sizes : c ≡ length (stuff xs)
    sizes = cc (memcpy_esc-stuff dest d src s l)

    copy : slice m p c ≡ stuff xs
    copy =
        copied
        ∙ ground (
          arith,
          memcpy_esc-stuff dest d src s l,
          slice-store_list_prefix (stuff xs) (0 ∷ []) dest d,
        )

-- An escape byte with a second byte that is no code makes the loop give up with 0.
unesc_loop-bad :
    {src out : List ℕ} {k : ℕ} (n : ℕ) (m : Buf) (d s l c : ℕ)
    → Decodes src out k
    → unescape_code c ≡ none
    → d ≤ s
    → slice m s (length (src ++ gp_esc ∷ c ∷ [])) ≡ src ++ gp_esc ∷ c ∷ []
    → length out < n
    → (unesc_loop n m d s l).0 ≡ 0
unfolding unesc_loop
unesc_loop-bad zero m d s l c r u h e more = absurd (omega arith)
unesc_loop-bad (suc n) m d s l c done u h e more = ground arith
unesc_loop-bad {src = b ∷ src} {out = x ∷ out} (suc n) m d s l c (plain ne r) u h e more = ground (
  arith,
  unesc_loop-bad n (update m d b) (d + 1) (s + 1) l c r u (omega arith),
  slice-update_below m d b (s + 1) (length (src ++ gp_esc ∷ c ∷ [])),
)
unesc_loop-bad {src = x ∷ y ∷ src} {out = b ∷ out} (suc n) m d s l c (escaped v r) u h e more =
    ground (
      arith,
      unesc_loop-bad n (update m d b) (d + 1) (s + 2) (l - 1) c r u (omega arith),
      slice-update_below m d b (s + 2) (length (src ++ gp_esc ∷ c ∷ [])),
    )

-- An escape byte in the stuffed text that no code follows makes `memcpy_unesc` return 0.
pub memcpy_unesc_rejects :
    {src out : List ℕ} {k : ℕ} (m : Buf) (d s len c : ℕ)
    → Decodes src out k
    → unescape_code c ≡ none
    → d ≤ s
    → slice m s (length (src ++ gp_esc ∷ c ∷ [])) ≡ src ++ gp_esc ∷ c ∷ []
    → length out < len
    → (memcpy_unesc m d s len).0 ≡ 0
unfolding memcpy_unesc
memcpy_unesc_rejects m d s len c r u below holds more =
    unesc_loop-bad len m d s len c r u below holds more
