-- ===== src/Safety.antt =====
-- What it means for the state of src/gp_layer.h to be in order, and for an action to keep it so.
pub mod Line
pub mod Sending
pub mod Commands
pub mod Poll
pub mod Log
pub mod Replies
pub mod Arrival
pub mod Port
pub mod Run
mod Tests
use libgate.Base.{
  ℕ, ◌≤◌, ◌≡◌, ◌⊎◌, refl, inl, inr, sym, subst, ◌∙◌, Bool, true, false, All, Option, none, some,
  pos, if◌then◌else◌, ◌∷◌,
}
use libgate.World.{Effect}
use libgate.Gate.{Gate, Cmd}
use libgate.Gate.Action.{Action, Outcome, done, exited, fault, pure, gets, modify, request, ◌>>=◌}

-- The command has room in the buffers of `gp_send`, whatever its bytes are.
abbrev pub Short : Cmd → Type 0
Short z = z.data_len ≤ 60

-- The commands that wait are short, and the next bytes that come in have room behind those before.
pub record IsSound (s : Gate) : Type 0 where
  pub queues : All Short s.head × All Short s.head2
  pub place :
      (s.receiv_buf_p ≡ none)
      ⊎ ((p : ℕ) × (s.receiv_buf_p ≡ some p) × (s.receiv_mess.len ≡ pos p) × (p ≤ 134))

-- The outcome is no fault, and where the action returns the state is sound.
abbrev pub Ends : {A : Type 0} → (A → Type 0) → Outcome A → Type 0
Ends P (done a t) = P a × IsSound t
Ends P (exited c t) = Unit
Ends P fault = ⊥

-- From every sound state.
pub record Safe {A : Type 0} (m : Action A) : Type 0 where
  pub ends : (s : Gate) → IsSound s → Ends (λ a. Unit) (m s)

module _ {A B : Type 0} where
  pub bind-Ends :
      (P : A → Type 0) (Q : B → Type 0) (m : Action A) (f : A → Action B) (s : Gate)
      → Ends P (m s)
      → ((a : A) (t : Gate) → P a → IsSound t → Ends Q (f a t))
      → Ends Q ((m >>= f) s)
  bind-Ends P Q m f s h k = go (m s) h
    where
      go : (o : Outcome A) → Ends P o → Ends Q (◌>>=◌ {B = B} (λ x. o) f s)
      go (done a t) (p, v) = k a t p v
      go (exited c t) h = tt
      go fault h = h

  pub bind-Safe :
      (m : Action A) (f : A → Action B) → Safe m → ((a : A) → Safe (f a)) → Safe (m >>= f)
  bind-Safe m f h k = record {
    ends = λ s v. bind-Ends (λ a. Unit) (λ b. Unit) m f s (h.ends s v) λ a t p u. (k a).ends t u;
  }

pub if-Safe : {A : Type 0} (b : Bool) (m k : Action A) → Safe m → Safe k → Safe (if b then m else k)
if-Safe true m k h h' = h
if-Safe false m k h h' = h'

-- Nothing that counts is changed.
pub same-IsSound :
    (s t : Gate)
    → IsSound s
    → t.head ≡ s.head
    → t.head2 ≡ s.head2
    → t.receiv_buf_p ≡ s.receiv_buf_p
    → t.receiv_mess.len ≡ s.receiv_mess.len
    → IsSound t
same-IsSound s t v e f g h = record {
  queues =
      (subst (λ l. All Short l) (sym e) v.queues.0, subst (λ l. All Short l) (sym f) v.queues.1);
  place = elim v.place [ inl n ↦ inl (g ∙ n) | inr (p, a, b, c) ↦ inr (p, g ∙ a, h ∙ b, c) ];
}

pub request-Safe : (e : Effect) → Safe (request e)
request-Safe e = record { ends = λ s v. (tt, record { queues = v.queues; place = v.place }) }

pub pure-Safe : {A : Type 0} (a : A) → Safe (pure a)
pure-Safe a = record { ends = λ s v. (tt, v) }

pub gets-Safe :
    {A B : Type 0} (g : Gate → A) (k : A → Action B) → ((a : A) → Safe (k a)) → Safe (gets g >>= k)
gets-Safe g k h = record { ends = λ s v. (h (g s)).ends s v }

pub modify-Safe : (f : Gate → Gate) → ((s : Gate) → IsSound s → IsSound (f s)) → Safe (modify f)
modify-Safe f h = record { ends = λ s v. (tt, h s v) }
