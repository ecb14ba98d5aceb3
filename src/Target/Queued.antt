-- ===== src/Target/Queued.antt =====
-- What the commands of src/ad_target.c come to that are given a queue: the queues grow at their ends,
-- and nothing else changes.
use libgate.Base.{
  append_assoc, append-nil, ℕ, ◌+◌, ◌*◌, ◌≤◌, ◌≡◌, ◌≢◌, sym, subst, ap, ◌∙◌, arith, true, false,
  List, [], ◌∷◌, ◌++◌, Buf, count, ◌==◌, leb, Bool-cases, inl, inr, bit_or,
}
use libgate.World.{World, History, allocated}
use libgate.Gate.{Gate, Cmd}
use libgate.Gate.Action.{Outcome, Action, done, pure, ◌>>=◌, bind_done}
use libgate.Queue.{is_first, gp_in_cmd, insert_tail}
use libgate.Queue.Fifo.{of_class, of_class-append}
use libgate.Target.{in_both_banks, second_bank, queued, sent_or_queued, request}
use libgate.Target.Memory.{ad_set_token, ad_set_token_bound, set_token_cmd, set_token_bound_cmd}

-- `s` with commands at the ends of their queues, behind a history `h`.
abbrev pub adding : List Cmd → History → Gate → Gate
adding zs h s = record s {
  head = s.head ++ of_class true zs;
  head2 = s.head2 ++ of_class false zs;
  history = h;
}

pub adding-append :
    (ys zs : List Cmd) (g h : History) (s : Gate)
    → adding zs h (adding ys g s) ≡ adding (ys ++ zs) h s
adding-append ys zs g h s =
    ap
      (λ l. record (adding ys g s) {
        head = l;
        head2 = (s.head2 ++ of_class false ys) ++ of_class false zs;
        history = h;
      })
      (append_assoc s.head (of_class true ys) (of_class true zs)
        ∙ ap (◌++◌ s.head) (sym (of_class-append true ys zs)))
    ∙ ap (λ l. record (adding (ys ++ zs) h s) { head2 = l })
        (append_assoc s.head2 (of_class false ys) (of_class false zs)
          ∙ ap (◌++◌ s.head2) (sym (of_class-append false ys zs)))

pub adding_three :
    (xs ys zs : List Cmd) (f g h : History) (s : Gate)
    → adding zs h (adding ys g (adding xs f s)) ≡ adding (xs ++ (ys ++ zs)) h s
adding_three xs ys zs f g h s =
    adding-append ys zs g h (adding xs f s) ∙ adding-append xs (ys ++ zs) f h s

pub adding-nil : (s : Gate) → adding [] s.history s ≡ s
unfolding of_class
adding-nil s =
    ap (λ l. record s { head = l; head2 = s.head2 ++ [] }) (append-nil s.head)
    ∙ ap (λ l. record s { head2 = l }) (append-nil s.head2)

-- The two commands that a command for both banks comes to.
abbrev pub banks : Cmd → List Cmd
banks z = z ∷ second_bank z ∷ []

-- Two requests for memory.
abbrev pub twice : History → History
twice h = allocated ∷ allocated ∷ h

module _ (w : World) (enough : (h : History) → w.malloc h ≡ true) where
  in_cmd_adds :
      (z : Cmd) (s : Gate) → gp_in_cmd w z s ≡ done 1 (adding (z ∷ []) (allocated ∷ s.history) s)
  unfolding gp_in_cmd insert_tail of_class
  in_cmd_adds z s = rw (enough (allocated ∷ s.history)) (elim (Bool-cases (is_first z)) [
    | inl e ↦ rw e (
        ap
          (λ l.
            done 1
              (record s { head = s.head ++ z ∷ []; head2 = l; history = allocated ∷ s.history }))
          (sym (append-nil s.head2)))
    | inr e ↦ rw e (
        ap
          (λ l.
            done 1
              (record s { head = l; head2 = s.head2 ++ z ∷ []; history = allocated ∷ s.history }))
          (sym (append-nil s.head)))
  ])

  pub queued_adds :
      (z : Cmd) (s : Gate)
      → queued w z s ≡ done (count 1) (adding (z ∷ []) (allocated ∷ s.history) s)
  unfolding queued
  queued_adds z s = bind_done (gp_in_cmd w z) (λ r. pure (count r)) (in_cmd_adds z s)

  pub sent_or_queued_adds :
      (z : Cmd) (s : Gate)
      → z.queue ≢ 0
      → sent_or_queued w z s ≡ done (count 1) (adding (z ∷ []) (allocated ∷ s.history) s)
  unfolding sent_or_queued
  sent_or_queued_adds z s h =
      let long : (z.queue == 0) ≡ false = ground arith in rw long (queued_adds z s)

  pub both_adds :
      (z : Cmd) (s : Gate)
      → z.queue ≢ 0
      → in_both_banks w z s ≡ done (count 1) (adding (banks z) (twice s.history) s)
  unfolding in_both_banks
  both_adds z s h =
      let t : Gate = adding (z ∷ []) (allocated ∷ s.history) s in
      let long : (z.queue == 0) ≡ false = ground arith in
      rw long (
        bind_done (gp_in_cmd w z)
          (λ r. gp_in_cmd w (second_bank z) >>= λ r'. pure (count (bit_or r r'))) (in_cmd_adds z s)
        ∙ bind_done (gp_in_cmd w (second_bank z)) (λ r'. pure (count (bit_or 1 r')))
            (in_cmd_adds (second_bank z) t)
        ∙ ap (done (count 1)) (
            adding-append (z ∷ []) (second_bank z ∷ []) (allocated ∷ s.history) (twice s.history)
              s))

  module _ (q dev : ℕ) (long : q ≢ 0) where
    pub set_token_adds :
        (addr : ℕ) (records : Buf) (n : ℕ) (s : Gate)
        → n ≤ 14
        → ad_set_token q dev w addr records n s
          ≡ done (count 1) (adding (banks (set_token_cmd q dev addr records n)) (twice s.history) s)
    unfolding ad_set_token
    set_token_adds addr records n s few =
        let room : leb (5 + 8 * n) 120 ≡ true = ground arith in
        rw room
          (both_adds (set_token_cmd q dev addr records n) s (unfold set_token_cmd request in long))

    pub set_token_bound_adds :
        (addr : ℕ) (s : Gate)
        → ad_set_token_bound q dev w addr s
          ≡ done (count 1) (adding (banks (set_token_bound_cmd q dev addr)) (twice s.history) s)
    unfolding ad_set_token_bound
    set_token_bound_adds addr s =
        both_adds (set_token_bound_cmd q dev addr) s (unfold set_token_bound_cmd request in long)

-- The action returns, and adds these commands.
abbrev pub QueuesAt : {A : Type 0} → Action A → List Cmd → Gate → Type 0
QueuesAt {A} m zs s = (a : A) × (g : History) × (m s ≡ done a (adding zs g s))

-- A part that adds commands behind others, and then the rest.
pub then_queues :
    {A B : Type 0} (P : Outcome B → Type 0) (m : Action A) (f : A → Action B) (xs ys : List Cmd)
    (g : History) (s : Gate)
    → QueuesAt m ys (adding xs g s)
    → ((a : A) (h : History) → P (f a (adding (xs ++ ys) h s)))
    → P ((m >>= f) (adding xs g s))
then_queues P m f xs ys g s (a, h, e) rest =
    subst P (sym (bind_done m f (e ∙ ap (done a) (adding-append xs ys g h s)))) (rest a h)
