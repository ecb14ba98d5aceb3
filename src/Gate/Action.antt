-- ===== src/Gate/Action.antt =====
-- An action of the library changes the state and returns a value, ends the process by `exit`, or
-- runs into undefined behaviour of C (a write outside of an array), which is `fault`.
use libgate.Base.{ap, ℕ, Bool, true, false, ◌∷◌, ◌≡◌, ◌≢◌, ◌⊎◌, inl, inr, refl, sym, subst}
use libgate.World.{Effect}
use libgate.Gate.{Gate}

pub data Outcome (A : Type 0) : Type 0 where
  done : A → Gate → Outcome A
  exited : ℕ → Gate → Outcome A
  fault : Outcome A

abbrev pub Action : Type 0 → Type 0
Action A = Gate → Outcome A

abbrev pub pure : {A : Type 0} → A → Action A
pure a s = done a s

abbrev pub exit : {A : Type 0} → ℕ → Action A
exit code s = exited code s

abbrev pub undefined : {A : Type 0} → Action A
undefined s = fault

infixl 5 ◌>>=◌ ◌>>◌
abbrev pub ◌>>=◌ : {A B : Type 0} → Action A → (A → Action B) → Action B
◌>>=◌ m f s = elim (m s) [ done a t ↦ f a t | exited code t ↦ exited code t | fault ↦ fault ]

abbrev pub ◌>>◌ : {B : Type 0} → Action (Unit {0}) → Action B → Action B
m >> k = m >>= λ _. k

abbrev pub modify : (Gate → Gate) → Action (Unit {0})
modify f s = done tt (f s)

abbrev pub gets : {A : Type 0} → (Gate → A) → Action A
gets f s = done (f s) s

-- Runs the rest only where the test holds.
abbrev pub require : Bool → Action (Unit {0})
require true s = done tt s
require false s = fault

-- A request to the operating system.
abbrev pub request : Effect → Action (Unit {0})
request e s = done tt (record s { history = e ∷ s.history })

-- What an outcome can be.
pub Outcome-cases :
    {A : Type 0} (o : Outcome A)
    → ((a : A) × (t : Gate) × (o ≡ done a t))
      ⊎ (((c : ℕ) × (t : Gate) × (o ≡ exited c t)) ⊎ (o ≡ fault))
Outcome-cases (done a t) = inl (a, t, refl)
Outcome-cases (exited c t) = inr (inl (c, t, refl))
Outcome-cases fault = inr (inr refl)

pub bind_safe :
    {A B : Type 0} (m : Action A) (f : A → Action B) (s : Gate)
    → m s ≢ fault
    → ((a : A) (t : Gate) → m s ≡ done a t → f a t ≢ fault)
    → (m >>= f) s ≢ fault
bind_safe {A} {B} m f s safe rest = elim (Outcome-cases (m s)) [
  | inl (a, t, e) ↦ subst OkAfter (sym e) (rest a t e)
  | inr (inl (c, t, e)) ↦ subst OkAfter (sym e) (λ h. cc)
  | inr (inr e) ↦ absurd (safe e)
]
  where
    OkAfter : Outcome A → Type 0
    OkAfter o = ((λ x. o) >>= f) s ≢ fault

-- A first part that returns is followed by the rest.
pub bind_done :
    {A B : Type 0} (m : Action A) (f : A → Action B) {s : Gate} {a : A} {t : Gate}
    → m s ≡ done a t
    → (m >>= f) s ≡ f a t
bind_done {A} {B} m f {s} {a} {t} e = ap (λ o. ◌>>=◌ {A = A} {B = B} (λ x. o) f s) e

-- What follows a first part matters where that returns.
pub bind_congr :
    {A B : Type 0} (m : Action A) (f g : A → Action B) (s : Gate)
    → ((a : A) (t : Gate) → m s ≡ done a t → f a t ≡ g a t)
    → (m >>= f) s ≡ (m >>= g) s
bind_congr {A} {B} m f g s same = go (m s) refl
  where
    go : (o : Outcome A) → m s ≡ o → ◌>>=◌ {B = B} (λ x. o) f s ≡ ◌>>=◌ {B = B} (λ x. o) g s
    go (done a t) e = same a t e
    go (exited c t) e = refl
    go fault e = refl
