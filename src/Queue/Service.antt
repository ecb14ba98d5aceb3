-- ===== src/Queue/Service.antt =====
-- The commands of src/gp_queue.c on a working line, against the specification of the queues.
use mathlib.Core.Path.{ap₂}
use libgate.Base.{
  ℕ, ◌≤◌, ◌≡◌, refl, sym, subst, ap, ◌∙◌, List, [], ◌∷◌, ◌++◌, map, reverse, Bool, some, arith, All,
  All-append, Status, count, Bool-cases, inl, inr,
}
use libgate.World.{World, freed}
use libgate.Gate.{Gate, Cmd}
use libgate.Gate.Action.{Action, done, pure, request, ◌>>=◌, ◌>>◌}
use libgate.Link.Frame.{frame}
use libgate.Queue.{is_first, gp_in_cmd, gp_put_cmd, send_entry, first, second}
use libgate.Queue.Line.{
  frames, IsReliable, Fits, waiting, Sends, Sends-trans, pair, gp_send-Sends, gp_in_cmd-Sends,
}
use libgate.Queue.Fifo.{
  Call, enqueue, transmit, Waiting, give, take_in, serve, IsSplit, of_class, waiting_of, enqueued,
  serve_fifo,
}

pub call : World → Call → Action (Unit {0})
call w (enqueue z) = do taken ← gp_in_cmd w z; pure tt
call w transmit = do sent ← gp_put_cmd w; pure tt

pub run : World → List Call → Action (Unit {0})
run w [] = pure tt
run w (c ∷ cs) = call w c >> run w cs

abbrev pub CallFits : Call → Type 0
CallFits (enqueue z) = Fits z
CallFits transmit = Unit

abbrev pub AllFit : Waiting → Type 0
AllFit q = All Fits q.first × All Fits q.second

take_in-AllFit : (z : Cmd) (q : Waiting) → Fits z → AllFit q → AllFit (take_in z q)
unfolding take_in
take_in-AllFit z q h v = elim (Bool-cases (is_first z)) [
  | inl e ↦ rw e (All-append Fits q.first (z ∷ []) v.0 (h, tt), v.1)
  | inr e ↦ rw e (v.0, All-append Fits q.second (z ∷ []) v.1 (h, tt))
]

give-AllFit : (q : Waiting) → AllFit q → AllFit (give q).1
unfolding give
give-AllFit q v = ground arith

module _ (w : World) (good : IsReliable w) where
  send_entry_lem :
      (z : Cmd) (s : Gate) (fd : ℕ)
      → s.cfg.fd ≡ some fd
      → 3 ≤ fd
      → Fits z
      → (r : Status) × (t : Gate) × (send_entry w z s ≡ done r t) × Sends (z ∷ []) (waiting s) s t
  unfolding send_entry frames
  send_entry_lem z s fd is_open usable fits =
      let (r, t, sends, v) = gp_send-Sends w good z s fd is_open usable fits in
      (
        r,
        record t { history = freed ∷ t.history },
        ap (λ o. ◌>>=◌ {B = Status} (λ x. o) (λ x. request freed >> pure x.0) s) sends,
        record { port = v.port; queues = v.queues; line = v.line },
      )

  second_lem :
      (l2 : List Cmd) (s : Gate) (fd : ℕ)
      → s.cfg.fd ≡ some fd
      → 3 ≤ fd
      → s.head ≡ []
      → s.head2 ≡ l2
      → All Fits l2
      → let q = give (record { first = []; second = l2 }) in
        (r : Status) × (t : Gate) × (second w l2 s ≡ done r t) × Sends q.0 q.1 s t
  unfolding second give
  second_lem [] s fd is_open usable e e2 fits =
      (count 0, s, refl, record { port = refl; queues = ap₂ pair e e2; line = refl })
  second_lem (z ∷ rest) s fd is_open usable e e2 fits =
      let (r, t, runs, sends) =
        send_entry_lem z (record s { head2 = rest }) fd is_open usable fits.0 in
      (
        r,
        t,
        runs,
        record {
          port = sends.port;
          queues = sends.queues ∙ ap (λ l. pair l rest) e;
          line = sends.line;
        },
      )

  first_lem :
      (l l2 : List Cmd) (s : Gate) (fd : ℕ)
      → s.cfg.fd ≡ some fd
      → 3 ≤ fd
      → s.head ≡ l
      → s.head2 ≡ l2
      → All Fits l
      → All Fits l2
      → let q = give (record { first = l; second = l2 }) in
        (r : Status) × (t : Gate) × (first w l s ≡ done r t) × Sends q.0 q.1 s t
  unfolding first give
  first_lem [] l2 s fd is_open usable e e2 fits fits2 =
      let (r, t, runs, sends) = second_lem l2 s fd is_open usable e e2 fits2 in
      (r, t, ap (λ l. second w l s) e2 ∙ runs, sends)
  first_lem (z ∷ rest) l2 s fd is_open usable e e2 fits fits2 =
      let (r, t, runs, sends) =
        send_entry_lem z (record s { head = rest }) fd is_open usable fits.0 in
      (
        r,
        t,
        runs,
        record { port = sends.port; queues = sends.queues ∙ ap (pair rest) e2; line = sends.line },
      )

  -- What `gp_put_cmd` sends, and what it leaves, is what the specification gives out and leaves.
  pub put_cmd_lem :
      (s : Gate) (fd : ℕ)
      → s.cfg.fd ≡ some fd
      → 3 ≤ fd
      → AllFit (waiting s)
      → (r : Status) × (t : Gate) × (gp_put_cmd w s ≡ done r t)
        × Sends (give (waiting s)).0 (give (waiting s)).1 s t
  unfolding gp_put_cmd
  put_cmd_lem s fd is_open usable fits =
      first_lem s.head s.head2 s fd is_open usable refl refl fits.0 fits.1

  -- One call, and then the rest.
  call_then :
      (c : Call) (cs : List Call) (s t : Gate) (out : List Cmd) (q : Waiting)
      → call w c s ≡ done tt t
      → Sends out q s t
      → ((u : Gate) × (run w cs t ≡ done tt u)
          × Sends (serve cs (waiting t)).0 (serve cs (waiting t)).1 t u)
      → (u : Gate) × (run w (c ∷ cs) s ≡ done tt u)
        × Sends (out ++ (serve cs q).0) (serve cs q).1 s u
  unfolding run
  call_then c cs s t out q runs sends (u, rest, more) = (
    u,
    ap (λ o. ◌>>=◌ {B = Unit {0}} (λ x. o) (λ x. run w cs) s) runs ∙ rest,
    Sends-trans sends (subst (λ p. Sends (serve cs p).0 (serve cs p).1 t u) sends.queues more),
  )

-- A run of calls on a reliable line ends: the frames that go over the line are those of the commands
-- that the specification gives out, in its order, and the queues hold what it leaves waiting.
pub run_refines :
    (w : World) (calls : List Call) (s : Gate) (fd : ℕ)
    → IsReliable w
    → s.cfg.fd ≡ some fd
    → 3 ≤ fd
    → AllFit (waiting s)
    → All CallFits calls
    → (t : Gate) × (run w calls s ≡ done tt t)
      × Sends (serve calls (waiting s)).0 (serve calls (waiting s)).1 s t
unfolding run serve call
run_refines w [] s fd good is_open usable fits all =
    (s, refl, record { port = refl; queues = refl; line = refl })
run_refines w (enqueue z ∷ cs) s fd good is_open usable fits all =
    let (t, runs, sends) = gp_in_cmd-Sends w good z s in
    call_then w good (enqueue z) cs s t [] (take_in z (waiting s))
      (ap (λ o. ◌>>=◌ {B = Unit {0}} (λ x. o) (λ x. pure tt) s) runs) sends
      (run_refines w cs t fd good (sends.port ∙ is_open) usable
        (subst AllFit (sym sends.queues) (take_in-AllFit z (waiting s) all.0 fits)) all.1)
run_refines w (transmit ∷ cs) s fd good is_open usable fits all =
    let (r, t, runs, sends) = put_cmd_lem w good s fd is_open usable fits in
    call_then w good transmit cs s t (give (waiting s)).0 (give (waiting s)).1
      (ap (λ o. ◌>>=◌ {B = Unit {0}} (λ x. o) (λ x. pure tt) s) runs) sends
      (run_refines w cs t fd good (sends.port ∙ is_open) usable
        (subst AllFit (sym sends.queues) (give-AllFit (waiting s) fits)) all.1)

-- A run of calls on a reliable line sends commands such that in each class those sent, oldest first,
-- and then those left in the queue of `t` are those that waited in `s` and then those that were taken
-- in: none is lost, doubled or overtaken.
pub run_fifo :
    (w : World) (calls : List Call) (s : Gate) (fd : ℕ)
    → IsReliable w
    → s.cfg.fd ≡ some fd
    → 3 ≤ fd
    → AllFit (waiting s)
    → All CallFits calls
    → IsSplit (waiting s)
    → (t : Gate) × (out : List Cmd) × (run w calls s ≡ done tt t)
      × (frames t.history ≡ reverse (map frame out) ++ frames s.history)
      × ((b : Bool)
          → of_class b out ++ waiting_of b (waiting t)
            ≡ waiting_of b (waiting s) ++ of_class b (enqueued calls))
run_fifo w calls s fd good is_open usable fits all split =
    let (t, runs, sends) = run_refines w calls s fd good is_open usable fits all in
    (
      t,
      (serve calls (waiting s)).0,
      runs,
      sends.line,
      λ b.
          ap (λ q. of_class b (serve calls (waiting s)).0 ++ waiting_of b q) sends.queues
          ∙ serve_fifo b calls (waiting s) split,
    )
