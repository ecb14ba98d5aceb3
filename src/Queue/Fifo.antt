-- ===== src/Queue/Fifo.antt =====
-- The specification of the command queues of src/gp_queue.c: two first-in first-out classes, the
-- second of which is served only while the first is empty.
use libgate.Base.{
  ◌≡◌, refl, ap, ◌∙◌, List, [], ◌∷◌, ◌++◌, append_assoc, All, All-append, Bool, true, false,
  Bool-cases, inl, inr, arith, if◌then◌else◌, sym, append-nil,
}
use libgate.Gate.{Cmd}
use libgate.Queue.{is_first}

-- What the queues are asked: to take a command in, or to give one out.
pub data Call : Type 0 where
  enqueue : Cmd → Call
  transmit : Call

pub record Waiting : Type 0 where
  pub first : List Cmd
  pub second : List Cmd

unfoldable pub give : Waiting → List Cmd × Waiting
give q = elim q.first [
  | z ∷ rest ↦ (z ∷ [], record q { first = rest })
  | [] ↦ elim q.second [ z ∷ rest ↦ (z ∷ [], record q { second = rest }) | [] ↦ ([], q) ]
]

unfoldable pub take_in : Cmd → Waiting → Waiting
take_in z q =
    if is_first z
    then record q { first = q.first ++ z ∷ [] }
    else record q { second = q.second ++ z ∷ [] }

-- The commands given out in a run of calls, the oldest first, and what still waits.
unfoldable pub serve : List Call → Waiting → List Cmd × Waiting
serve [] q = ([], q)
serve (enqueue z ∷ calls) q = serve calls (take_in z q)
serve (transmit ∷ calls) q =
    let (out, q') = give q in let (more, q'') = serve calls q' in (out ++ more, q'')

-- The commands of one class.
unfoldable pub of_class : Bool → List Cmd → List Cmd
of_class b [] = []
of_class true (z ∷ zs) = if is_first z then z ∷ of_class true zs else of_class true zs
of_class false (z ∷ zs) = if is_first z then of_class false zs else z ∷ of_class false zs

unfoldable pub enqueued : List Call → List Cmd
enqueued [] = []
enqueued (enqueue z ∷ calls) = z ∷ enqueued calls
enqueued (transmit ∷ calls) = enqueued calls

abbrev pub waiting_of : Bool → Waiting → List Cmd
waiting_of true q = q.first
waiting_of false q = q.second

-- Each command waits in the queue of its class.
pub record IsSplit (q : Waiting) : Type 0 where
  pub firsts : All (λ z. is_first z ≡ true) q.first
  pub seconds : All (λ z. is_first z ≡ false) q.second

pub of_class-nil : (b : Bool) → of_class b [] ≡ []
unfolding of_class
of_class-nil true = refl
of_class-nil false = refl

pub of_class-append :
    (b : Bool) (xs ys : List Cmd) → of_class b (xs ++ ys) ≡ of_class b xs ++ of_class b ys
unfolding of_class
of_class-append true [] ys = refl
of_class-append false [] ys = refl
of_class-append true (z ∷ xs) ys = ground (arith, of_class-append true xs ys)
of_class-append false (z ∷ xs) ys = ground (arith, of_class-append false xs ys)

give-IsSplit : (q : Waiting) → IsSplit q → IsSplit (give q).1
unfolding give
give-IsSplit q v = ground arith

take_in-IsSplit : (z : Cmd) (q : Waiting) → IsSplit q → IsSplit (take_in z q)
unfolding take_in
take_in-IsSplit z q v = elim (Bool-cases (is_first z)) [
  | inl e ↦
      rw e (record { firsts = All-append _ q.first (z ∷ []) v.firsts (e, tt); seconds = v.seconds })
  | inr e ↦
      rw e
        (record { firsts = v.firsts; seconds = All-append _ q.second (z ∷ []) v.seconds (e, tt) })
]

give_class :
    (b : Bool) (q : Waiting)
    → IsSplit q
    → of_class b (give q).0 ++ waiting_of b (give q).1 ≡ waiting_of b q
unfolding give of_class
give_class true q v = ground arith
give_class false q v = ground arith

take_in_class :
    (b : Bool) (z : Cmd) (q : Waiting)
    → waiting_of b (take_in z q) ≡ waiting_of b q ++ of_class b (z ∷ [])
unfolding take_in of_class
take_in_class true z q = ground (arith, append-nil q.first)
take_in_class false z q = ground (arith, append-nil q.second)

-- In each class the commands given out, and then those that still wait, are those that waited at
-- first and then those that were taken in, in this order: none is lost, doubled or overtaken.
pub serve_fifo :
    (b : Bool) (calls : List Call) (q : Waiting)
    → IsSplit q
    → of_class b (serve calls q).0 ++ waiting_of b (serve calls q).1
      ≡ waiting_of b q ++ of_class b (enqueued calls)
unfolding serve enqueued
serve_fifo b [] q v = rw (of_class-nil b) (sym (append-nil (waiting_of b q)))
serve_fifo b (enqueue z ∷ calls) q v =
    serve_fifo b calls (take_in z q) (take_in-IsSplit z q v)
    ∙ ap (λ t. t ++ of_class b (enqueued calls)) (take_in_class b z q)
    ∙ append_assoc (waiting_of b q) (of_class b (z ∷ [])) (of_class b (enqueued calls))
    ∙ ap (◌++◌ (waiting_of b q)) (sym (of_class-append b (z ∷ []) (enqueued calls)))
serve_fifo b (transmit ∷ calls) q v =
    ap (λ t. t ++ waiting_of b (serve calls (give q).1).1)
      (of_class-append b (give q).0 (serve calls (give q).1).0)
    ∙ append_assoc (of_class b (give q).0) _ _
    ∙ ap (◌++◌ (of_class b (give q).0)) (serve_fifo b calls (give q).1 (give-IsSplit q v))
    ∙ sym (append_assoc (of_class b (give q).0) _ _)
    ∙ ap (λ t. t ++ of_class b (enqueued calls)) (give_class b q v)
