-- ===== src/Database/Cursor.antt =====
-- What the database library behind src/db_layer.c documents of the cursor of `db_get_next_token`.
use libgate.Base.{
  ℕ, ◌+◌, ◌≡◌, ◌⊎◌, refl, ap, ◌∙◌, arith, inl, inr, Bool, true, false, Bool-cases, Option, none,
  some, List, [], ◌∷◌, get_elem?, not, ◌==◌, if◌then◌else◌,
}
use libgate.World.{World, History, Effect, Token, token_put, cursor_made, cursor_read}
use libgate.Gate.{Gate}
use libgate.Gate.Action.{done}
use libgate.Database.{db_get_next_token}

abbrev pub puts_token : Effect → Bool
puts_token (token_put t) = true
puts_token e = false

-- How many tokens the cursor has passed since it was last taken to the first one, as long as the table
-- was left alone.
unfoldable pub place : History → Option ℕ
place [] = none
place (cursor_read true ∷ h) = some 0
place (cursor_read false ∷ h) = elim (place h) [ none ↦ none | some n ↦ some (n + 1) ]
place (e ∷ h) = if puts_token e then none else place h

-- The cursor goes over the tokens of the table, which `listing` has in the order of their keys, and
-- finds nothing behind the last one.
pub record IsCursor (w : World) (listing : History → List Token) : Type 0 where
  pub stable : (e : Effect) (h : History) → puts_token e ≡ false → listing (e ∷ h) ≡ listing h
  pub first : (h : History) → w.c_get (cursor_read true ∷ h) ≡ get_elem? (listing h) 0
  pub next :
      (h : History) (n : ℕ)
      → place h ≡ some n
      → w.c_get (cursor_read false ∷ h) ≡ get_elem? (listing h) (n + 1)

-- The state in which the cursor has read.
abbrev pub read_on : Bool → History → Gate → Gate
read_on first h s = record s { cursor = true; history = cursor_read first ∷ h }

-- The cursor reads once, and it is made before if there is none.
pub db_get_next_token_lem :
    (w : World) (fisrt : ℕ) (s : Gate)
    → let first = not (fisrt == 0) in
      (h : History) × (db_get_next_token w fisrt s
        ≡ done (w.c_get (cursor_read first ∷ h)) (read_on first h s))
      × ((h ≡ s.history) ⊎ (h ≡ cursor_made ∷ s.history))
unfolding db_get_next_token
db_get_next_token_lem w fisrt s = elim (Bool-cases s.cursor) [
  | inl e ↦ (s.history, ground arith, inl refl)
  | inr e ↦ (cursor_made ∷ s.history, ground arith, inr refl)
]

-- Making the cursor moves nothing.
pub made_keeps :
    {w : World} {listing : History → List Token} {g h : History}
    → IsCursor w listing
    → (h ≡ g) ⊎ (h ≡ cursor_made ∷ g)
    → (place h ≡ place g) × (listing h ≡ listing g)
unfolding place
made_keeps {w} {listing} {g} cursor (inl e) = (ap place e, ap listing e)
made_keeps {w} {listing} {g} cursor (inr e) =
    (ap place e, ap listing e ∙ cursor.stable cursor_made g refl)
