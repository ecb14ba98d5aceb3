-- ===== src/Processor/Log/Told.antt =====
-- Which events `cb_log_read` of src/gp_processor.c tells the application.
use libgate.Base.{
  ℕ, zero, suc, ◌+◌, ◌≡◌, refl, ap, ◌∙◌, arith, Bool, true, ◌&&◌, Buf, List, [], ◌∷◌, ◌==◌,
  if◌then◌else◌, Bool-cases, inl, inr, Status,
}
use libgate.World.{World}
use libgate.Gate.{Gate}
use libgate.Gate.Action.{Action, done, pure, bind_congr, ◌>>=◌, ◌>>◌}
use libgate.Clock.{get_ev_date, get_ev_time}
use libgate.Database.{db_get_cid_by_a}
use libgate.Processor.{App, Event, reply_dev, reply_src, modify_dev}
use libgate.Target.Memory.{ad_set_buff_addr_down}
use libgate.Processor.Log.{same_event, push_event, event_loop, event_count, next_bound, events_read}

-- The code and the address of the event at `i` are those of `before`.
abbrev repeats : Buf → Buf → ℕ → Bool
repeats before m i = before 0 == m i && before 1 == m (i + 1) && before 2 == m (i + 2)

-- Of `n` events from place `i` on, behind the event `before`, those whose code or address is another
-- one than that of the event right before them, with the number of the others that come first.
unfoldable pub new_events : Buf → Buf → ℕ → ℕ → ℕ → List (ℕ × ℕ)
new_events before m zero i c = []
new_events before m (suc n) i c =
    let rest : ℕ → List (ℕ × ℕ) = new_events (λ k. m (i + k)) m n (i + 8) in
    if repeats before m i then rest (c + 1) else (i, c) ∷ rest c

module _ (w : World) (app : App) where
  -- The application is told of the events at these places.
  unfoldable pub tell_all : List (ℕ × ℕ) → Action (Unit {0})
  tell_all [] = pure tt
  tell_all ((i, c) ∷ rest) = do told ← push_event w app i c; tell_all rest

-- The callback for an event leaves the reply and the device's last event alone.
abbrev pub LeavesReply : App → Type 0
LeavesReply app =
    (rec : Event) (a : ℕ) (s t : Gate)
    → app.dev_ev rec s ≡ done a t
    → (t.receiv_mess ≡ s.receiv_mess) × ((reply_dev t).last_ev_rec ≡ (reply_dev s).last_ev_rec)

-- Two events with the same code and address.
abbrev SameKey : Buf → Buf → Type 0
SameKey x y = (x 0 ≡ y 0) × (x 1 ≡ y 1) × (x 2 ≡ y 2)

same_event-key : (x y m : Buf) (i : ℕ) → SameKey x y → same_event x m i ≡ repeats y m i
unfolding same_event
same_event-key x y m i (e, f, g) = rw (e, f, g) refl

same_key : (x m : Buf) (i : ℕ) → repeats x m i ≡ true → SameKey x (λ k. m (i + k))
same_key x m i h = (ground arith, ground arith, ground arith)

module _ (w : World) (app : App) (leaves : LeavesReply app) where
  push_leaves :
      (i c a : ℕ) (s t : Gate)
      → push_event w app i c s ≡ done a t
      → (t.receiv_mess ≡ s.receiv_mess)
        × ((reply_dev t).last_ev_rec ≡ (λ k. s.receiv_mess.buf (i + k)))
  unfolding push_event modify_dev get_ev_time get_ev_date db_get_cid_by_a
  push_leaves i c a s t e =
      let (same, last) = leaves _ a _ t e in
      let here : (s.receiv_mess.dev == s.receiv_mess.dev) ≡ true = ground arith in
      (same, last ∙ rw here refl)

  told_loop :
      (n i c : ℕ) (before m : Buf) (s : Gate)
      → s.receiv_mess.buf ≡ m
      → SameKey (reply_dev s).last_ev_rec before
      → event_loop w app n i c s ≡ tell_all w app (new_events before m n i c) s
  unfolding event_loop new_events tell_all
  told_loop zero i c before m s bytes keys = refl
  told_loop (suc n) i c before m s bytes keys =
      let test : same_event (reply_dev s).last_ev_rec s.receiv_mess.buf i ≡ repeats before m i =
        ap (λ b. same_event (reply_dev s).last_ev_rec b i) bytes
        ∙ same_event-key (reply_dev s).last_ev_rec before m i keys in
      elim (Bool-cases (repeats before m i)) [
        | inl e ↦
            let (k0, k1, k2) = same_key before m i e in
            rw (test ∙ e, e)
              (told_loop n (i + 8) (c + 1) (λ k. m (i + k)) m s bytes
                (keys.0 ∙ k0, keys.1 ∙ k1, keys.2 ∙ k2))
        | inr e ↦
            rw (test ∙ e, e)
              (bind_congr (push_event w app i c) (λ told. event_loop w app n (i + 8) c)
                (λ told. tell_all w app (new_events (λ k. m (i + k)) m n (i + 8) c)) s
                (λ a t h.
                  let (same, last) = push_leaves i c a s t h in
                  told_loop n (i + 8) c (λ k. m (i + k)) m t (ap (λ r. r.buf) same ∙ bytes)
                    (let at : (k : ℕ) → (reply_dev t).last_ev_rec k ≡ m (i + k) =
                        λ k. ap (λ f. f k) last ∙ ap (λ b. b (i + k)) bytes in
                      (at 0, at 1, at 2))))
      ]

  pub events_read_lem :
      (s : Gate)
      → let told =
          new_events
            (reply_dev s).last_ev_rec
            s.receiv_mess.buf
            (event_count s.receiv_mess.len)
            6
            0 in
        let bound = next_bound (reply_dev s).bound_down (event_count s.receiv_mess.len) in
        events_read w app s
        ≡ (tell_all w app told >> ad_set_buff_addr_down 0 (reply_src s) w bound) s
  unfolding events_read
  events_read_lem s =
      let n = event_count s.receiv_mess.len in
      ap
        (λ o.
          ◌>>=◌ {B = Status} (λ x. o)
            (λ x. ad_set_buff_addr_down 0 (reply_src s) w (next_bound (reply_dev s).bound_down n))
            s)
        (told_loop n 6 0 (reply_dev s).last_ev_rec s.receiv_mess.buf s refl (refl, refl, refl))
