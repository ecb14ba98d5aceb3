-- ===== src/Database/Quiet.antt =====
-- Requests that leave the tables of src/db_layer.c as they are; `db_sync` makes no others.
use libgate.Base.{
  [], ℕ, ◌≡◌, refl, sym, ◌∙◌, ◌∷◌, Option, if◌then◌else◌, Bool-cases, inl, inr, arith,
}
use libgate.World.{World, History, Token, ParamKey, ParamValue, synced, allocated}
use libgate.Gate.{Gate}
use libgate.Gate.Action.{done}
use libgate.Database.{db_sync}
use libgate.Database.Tables.{IsParamStore, IsStore, last_token, last_addr, last_param}

-- A history that goes on with requests to sync and for memory only.
pub data QuietOn (h : History) : History → Type 0 where
  here : QuietOn h h
  sync : (n : ℕ) {g : History} → QuietOn h g → QuietOn h (synced n ∷ g)
  alloc : {g : History} → QuietOn h g → QuietOn h (allocated ∷ g)

pub QuietOn-trans : {f g h : History} → QuietOn f g → QuietOn g h → QuietOn f h
QuietOn-trans a here = a
QuietOn-trans a (sync n b) = sync n (QuietOn-trans a b)
QuietOn-trans a (alloc b) = alloc (QuietOn-trans a b)

pub last_param-QuietOn :
    (w : World) (old : ParamKey → Option ParamValue) {h g : History}
    → QuietOn h g
    → (k : ParamKey) → last_param w.put old g k ≡ last_param w.put old h k
unfolding last_param
last_param-QuietOn w old here k = refl
last_param-QuietOn w old (sync n d) k = last_param-QuietOn w old d k
last_param-QuietOn w old (alloc d) k = last_param-QuietOn w old d k

last_token-QuietOn :
    (w : World) (old : ℕ → Option Token) {h g : History}
    → QuietOn h g
    → (c : ℕ) → last_token w.put old g c ≡ last_token w.put old h c
unfolding last_token
last_token-QuietOn w old here c = refl
last_token-QuietOn w old (sync n d) c = last_token-QuietOn w old d c
last_token-QuietOn w old (alloc d) c = last_token-QuietOn w old d c

last_addr-QuietOn :
    (w : World) (old : ℕ → Option ℕ) {h g : History}
    → QuietOn h g
    → (a : ℕ) → last_addr w.put old g a ≡ last_addr w.put old h a
unfolding last_addr
last_addr-QuietOn w old here a = refl
last_addr-QuietOn w old (sync n d) a = last_addr-QuietOn w old d a
last_addr-QuietOn w old (alloc d) a = last_addr-QuietOn w old d a

module _ (w : World) (store : IsStore w) {h g : History} (quiet : QuietOn h g) where
  -- Cards are found as before.
  pub quiet_token : (c : ℕ) → w.get_token g c ≡ w.get_token h c
  quiet_token c =
      store.tokens g c ∙ last_token-QuietOn w (w.get_token []) quiet c ∙ sym (store.tokens h c)

  pub quiet_addr : (a : ℕ) → w.get_addr g a ≡ w.get_addr h a
  quiet_addr a =
      store.addrs g a ∙ last_addr-QuietOn w (w.get_addr []) quiet a ∙ sym (store.addrs h a)

-- And so are parameters.
pub quiet_param :
    (w : World) (store : IsParamStore w) {h g : History}
    → QuietOn h g
    → (k : ParamKey) → w.get_param g k ≡ w.get_param h k
quiet_param w store {h} {g} quiet k =
    store.params g k ∙ last_param-QuietOn w (w.get_param []) quiet k ∙ sym (store.params h k)

-- `db_sync` always returns.
pub db_sync-QuietOn :
    (w : World) (s : Gate)
    → (r : ℕ) × (g : History) × (db_sync w s ≡ done r (record s { history = g }))
      × QuietOn s.history g
unfolding db_sync
db_sync-QuietOn w s =
    let h1 : History = synced 0 ∷ s.history in
    let h2 : History = synced 1 ∷ h1 in
    let h3 : History = synced 2 ∷ h2 in
    elim (Bool-cases (w.sync h1)) [
      | inr e ↦ (0, h1, ground arith, sync 0 here)
      | inl e ↦ elim (Bool-cases (w.sync h2)) [
        | inr f ↦ (0, h2, ground arith, sync 1 (sync 0 here))
        | inl f ↦ (if w.sync h3 then 1 else 0, h3, ground arith, sync 2 (sync 1 (sync 0 here)))
      ]
    ]
