-- ===== src/Receive/Reply/Stored.antt =====
-- The buffer of `gp_receiv` of src/gp_layer.c with a whole reply in it, and a zero byte behind that.
use libgate.Base.{
  ℕ, zero, suc, ◌+◌, ◌≤◌, ◌<◌, ◌≡◌, ◌≢◌, refl, sym, ap, ◌∙◌, subst, arith, List, [], ◌∷◌, ◌++◌, All,
  length, length-append, some, Buf, slice, update, store_list, store_list_outside,
  slice-update_above, slice-store_list_prefix, store_list-append, true, false, ◌==◌, leb, inl, inr,
  dec_lt,
}
use libgate.Codec.Escape.{gp_init, gp_end, gp_esc}
use libgate.Codec.Escape.Stuffing.{stuff, specials, IsPlain, stuff-IsPlain}
use libgate.Receive.{find_end}

abbrev pub whole_reply : ℕ → ℕ → List ℕ → List ℕ
whole_reply main dst ys = gp_init ∷ main ∷ dst ∷ (stuff ys ++ gp_end ∷ [])

-- The buffer `m` with the reply from its start on.
abbrev pub with_reply : ℕ → ℕ → List ℕ → Buf → Buf
with_reply main dst ys m =
    update (store_list m 0 (whole_reply main dst ys)) (0 + length (whole_reply main dst ys)) 0

find_end-append :
    (xs rest : List ℕ)
    → All (λ b. b ≢ gp_end) xs
    → find_end (xs ++ gp_end ∷ rest) ≡ some (length xs)
unfolding find_end
find_end-append [] rest h = refl
find_end-append (x ∷ xs) rest (n, h) =
    let e : (x == gp_end) ≡ false = ground arith in
    rw (e, find_end-append xs rest h) (ap some (omega arith))

plain_ends : (xs : List ℕ) → All IsPlain xs → All (λ b. b ≢ gp_end) xs
plain_ends [] h = tt
plain_ends (x ∷ xs) (p, h) = (p.1, plain_ends xs h)

All-slice :
    (P : ℕ → Type 0) (m : Buf) (a n : ℕ)
    → ((j : ℕ) → a ≤ j → j < a + n → P (m j))
    → All P (slice m a n)
All-slice P m a zero h = tt
All-slice P m a (suc n) h = (
  h a (omega arith) (omega arith),
  All-slice P m (a + 1) n λ j low high. h j (omega arith) (omega arith),
)

module _ (main dst : ℕ) (ys : List ℕ) where
  reply_size : length (whole_reply main dst ys) ≡ 4 + length (stuff ys)
  reply_size = omega (arith, length-append (stuff ys) (gp_end ∷ []))

  pub reply_fits :
      4 + length (stuff ys) ≤ 134 → leb (0 + length (whole_reply main dst ys)) 134 ≡ true
  reply_fits short = ground (arith, reply_size)

  pub reply_ends :
      main ≢ gp_end
      → dst ≢ gp_end
      → find_end (whole_reply main dst ys) ≡ some (3 + length (stuff ys))
  reply_ends main_ok dst_ok =
      find_end-append (gp_init ∷ main ∷ dst ∷ stuff ys) []
        ((λ e. omega arith), (main_ok, (dst_ok, plain_ends (stuff ys) (stuff-IsPlain ys))))
      ∙ ap some (omega arith)

  module _ (m : Buf) where
    pub reply_begins : (with_reply main dst ys m 0 == gp_init) ≡ true
    reply_begins = ground (
      arith,
      reply_size,
      store_list_outside (main ∷ dst ∷ (stuff ys ++ gp_end ∷ [])) (update m 0 gp_init) 1 0
          (inl (omega arith)),
    )

    pub reply_holds : slice (with_reply main dst ys m) 3 (length (stuff ys)) ≡ stuff ys
    reply_holds =
        slice-update_above (store_list m 0 (whole_reply main dst ys))
          (0 + length (whole_reply main dst ys)) 0 3 (length (stuff ys)) (omega (arith, reply_size))
        ∙ slice-store_list_prefix (stuff ys) (gp_end ∷ [])
            (update (update (update m 0 gp_init) 1 main) 2 dst) 3

    far_value : (j : ℕ) → 4 + length (stuff ys) < j → with_reply main dst ys m j ≡ m j
    far_value j far = ground (
      arith,
      reply_size,
      store_list_outside (whole_reply main dst ys) m 0 j (inr (omega (arith, reply_size))),
    )

    last_value : store_list m 0 (whole_reply main dst ys) (3 + length (stuff ys)) ≡ gp_end
    last_value =
        ap (λ f. f (3 + length (stuff ys)))
          (store_list-append (stuff ys) (gp_end ∷ [])
            (update (update (update m 0 gp_init) 1 main) 2 dst) 3)
        ∙ ground arith

    -- The closing byte and the zero byte are no escapes.
    near_value :
        (j : ℕ)
        → 3 + length (stuff ys) ≤ j
        → j ≤ 4 + length (stuff ys)
        → with_reply main dst ys m j ≤ 0xF5
    near_value j low high = elim (dec_lt j (4 + length (stuff ys))) [
      | yes first ↦
          let e : j ≡ 3 + length (stuff ys) = omega arith in
          subst (λ i. with_reply main dst ys m i ≤ 0xF5) (sym e)
            (ground (arith, reply_size, last_value))
      | no second ↦
          let e : j ≡ 4 + length (stuff ys) = omega arith in
          subst (λ i. with_reply main dst ys m i ≤ 0xF5) (sym e) (ground (arith, reply_size))
    ]

    pub reply_behind :
        ((j : ℕ)
          → 4 + length (stuff ys) < j
          → j < 3 + length (stuff ys) + specials ys
          → m j ≢ gp_esc)
        → All
            (λ b. b ≢ gp_esc)
            (slice (with_reply main dst ys m) (3 + length (stuff ys)) (specials ys))
    reply_behind clean =
        All-slice (λ b. b ≢ gp_esc) (with_reply main dst ys m) (3 + length (stuff ys)) (specials ys)
          λ j low high. elim (dec_lt (4 + length (stuff ys)) j) [
            | yes far ↦ λ e. clean j far high (sym (far_value j far) ∙ e)
            | no near ↦ λ e. omega (arith, near_value j low (omega arith), e)
          ]
