-- ===== src/Receive/Pieces/Filled.antt =====
-- The buffer of `gp_receiv` of src/gp_layer.c as it is filled piece by piece, and the search for the
-- closing byte in the last piece.
use mathlib.Core.Path.{fun_ext}
use libgate.Base.{
  ℕ, ◌+◌, ◌≤◌, ◌≡◌, refl, sym, ap, ◌∙◌, arith, List, [], ◌∷◌, ◌++◌, length, length-append, none,
  some, Buf, update, store_list, store_list-append, store_list_outside, ◌==◌, inl, Bool-cases, inr,
  Option-cases,
}
use libgate.Codec.Escape.{gp_end}
use libgate.Receive.{find_end}

-- The buffer `m` with bytes from its start on and a zero byte behind them.
abbrev pub filled : List ℕ → Buf → Buf
filled q m = update (store_list m 0 q) (0 + length q) 0

-- The next piece is written over the zero byte.
pub filled-append :
    (q : List ℕ) (x : ℕ) (xs : List ℕ) (m : Buf)
    → update (store_list (filled q m) (length q) (x ∷ xs)) (length q + length (x ∷ xs)) 0
      ≡ filled (q ++ x ∷ xs) m
filled-append q x xs m =
    ap (λ b. update (store_list b (length q + 1) xs) (length q + length (x ∷ xs)) 0) over
    ∙ ap (λ b. update b (length q + length (x ∷ xs)) 0)
        (ap (λ k. store_list (store_list m 0 q) k (x ∷ xs))
            (let e : length q ≡ 0 + length q = omega arith in e)
          ∙ sym (store_list-append q (x ∷ xs) m 0))
    ∙ ap (λ k. update (store_list m 0 (q ++ x ∷ xs)) k 0) (omega (arith, length-append q (x ∷ xs)))
  where
    over : update (filled q m) (length q) x ≡ update (store_list m 0 q) (length q) x
    over = fun_ext λ j. ground arith

pub filled_first : (b : ℕ) (q : List ℕ) (m : Buf) → filled (b ∷ q) m 0 ≡ b
filled_first b q m = ground (arith, store_list_outside q (update m 0 b) 1 0 (inl (omega arith)))

-- Where the closing byte lies in the second of two parts, it is found there.
pub find_end-parts :
    (a b : List ℕ) (j : ℕ)
    → find_end (a ++ b) ≡ some j
    → length a ≤ j
    → (i : ℕ) × (find_end a ≡ none) × (find_end b ≡ some i) × (length a + i ≡ j)
unfolding find_end
find_end-parts [] b j e h = (j, refl, e, omega arith)
find_end-parts (x ∷ a) b j e h = elim (Bool-cases (x == gp_end)) [
  | inl f ↦ absurd (ground arith)
  | inr f ↦ elim (Option-cases (find_end (a ++ b))) [
    | inl n ↦ absurd (ground arith)
    | inr (k, s) ↦
        let (i, none_there, found, sum) = find_end-parts a b k s (ground arith) in
        (i, rw (f, none_there) refl, found, ground arith)
  ]
]
