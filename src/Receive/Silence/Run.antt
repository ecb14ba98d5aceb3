-- ===== src/Receive/Silence/Run.antt =====
-- Any number of timeouts of `gp_receiv` of src/gp_layer.c while the line is quiet.
use libgate.Base.{
  Bool, update, ℕ, zero, suc, ◌+◌, ◌*◌, ◌-◌, ◌≤◌, ◌≡◌, inl, inr, refl, ap, ◌∙◌, arith, true, false,
  ltb, leb, Bool-cases, Status, count, is_positive, some, [], ◌∷◌, if◌then◌else◌,
}
use libgate.Base.Total.{total, total_bump, total_bound}
use libgate.World.{World, asked_time, read_clock, armed, tv2ms}
use libgate.Gate.{Gate}
use libgate.Gate.Action.{done, pure, bind_done, ◌>>=◌}
use libgate.Link.Idle.{gp_send_idle}
use libgate.Port.{gp_reconnect}
use libgate.Queue.{gp_put_cmd, first, second}
use libgate.Queue.Line.{IsReliable, frames}
use libgate.Processor.{App}
use libgate.Receive.{
  gp_receiv, timed_out, after_reconnect, send_next, after_put, rearm, count_timeout, elapsed,
}
use libgate.Receive.Silence.{tries, asks, is_late, timeouts, IsQuiet, Silent}
use libgate.Receive.Silence.Goes.{Goes, Goes-trans, Goes-refl, waits-Goes, count_timeout-Goes}
use libgate.Receive.Silence.Round.{gp_send_idle-Goes}

-- An open port stays as it is.
reconnect_open :
    (w : World) (s : Gate) (fd : ℕ)
    → s.cfg.fd ≡ some fd
    → (l : ℕ) × (gp_reconnect w 0 s
        ≡ done 1 (record s { last_try = l; history = asked_time ∷ s.history }))
unfolding gp_reconnect
reconnect_open w s fd is_open =
    elim (Bool-cases (ltb s.last_try (w.time (asked_time ∷ s.history) - 15))) [
      | inl e ↦ (w.time (asked_time ∷ s.history), rw (e, is_open) refl)
      | inr e ↦ (s.last_try, rw (e, is_open) refl)
    ]

put_nothing :
    (w : World) (s : Gate) → s.head ≡ [] → s.head2 ≡ [] → gp_put_cmd w s ≡ done (count 0) s
unfolding gp_put_cmd first second
put_nothing w s e f = ap (λ l. first w l s) e ∙ ap (λ l. second w l s) f

module _ (w : World) (app : App) (stop : ℕ) (good : IsReliable w) (fd last limit : ℕ) where
  rearm-Goes :
      (s : Gate)
      → IsQuiet fd last limit s
      → (t : Gate) × (rearm s ≡ done tt t) × Goes fd last limit 0 s t
  unfolding rearm frames
  rearm-Goes s q = (
    _,
    refl,
    waits-Goes s.last_try (s.cfg.gp_timeout * 1000) (armed (s.cfg.gp_timeout * 1000) ∷ s.history) s
        q refl,
  )

  module _ (usable : 3 ≤ fd) where
    after_idle :
        (c : Status) (n : ℕ) (s t : Gate)
        → gp_send_idle w s ≡ done c t
        → Goes fd last limit n s t
        → (u : Gate) × ((do idle ← gp_send_idle w; (if is_positive idle then pure tt else rearm)) s
            ≡ done tt u)
          × Goes fd last limit n s u
    after_idle c n s t idles v = elim (Bool-cases (is_positive c)) [
      | inl e ↦ (t, first_part ∙ rw e refl, v)
      | inr e ↦
          let (u, rearms, v') = rearm-Goes t v.quiet in
          (u, first_part ∙ rw e rearms, Goes-trans v v' (omega arith))
    ]
      where
        first_part :
            (do idle ← gp_send_idle w; (if is_positive idle then pure tt else rearm)) s
            ≡ (if is_positive c then pure tt else rearm) t
        first_part =
            bind_done (gp_send_idle w) (λ idle. if is_positive idle then pure tt else rearm) idles

    send_next-Goes :
        (s : Gate)
        → IsQuiet fd last limit s
        → s.send_mess.is_expected ≡ 0
        → (t : Gate) × (send_next w app stop s ≡ done tt t) × Goes fd last limit 1 s t
    unfolding send_next after_put
    send_next-Goes s q e =
        let (c, t, idles, v) = gp_send_idle-Goes w good fd last limit usable s q e in
        let (u, ends, v') = after_idle c 1 s t idles v in
        (
          u,
          bind_done (gp_put_cmd w) (after_put w app stop) (put_nothing w s q.queues.0 q.queues.1)
              ∙ ends,
          v',
        )

    late-Goes :
        (now l : ℕ) (s : Gate)
        → IsQuiet fd last limit s
        → (b : Bool) → leb s.cfg.gp_timeout (elapsed now s.send_mess.sent_time) ≡ b
        → (t : Gate) × (after_reconnect w app stop now l s ≡ done tt t)
          × Goes fd last limit (if b then 1 else 0) s t
    unfolding after_reconnect
    late-Goes now l s q true e =
        let (v, off) = count_timeout-Goes s q in
        let (t, sends, v') = send_next-Goes (count_timeout s) v.quiet off in
        (t, rw e sends, Goes-trans v v' (omega arith))
    late-Goes now l s q false e = let (t, rearms, v) = rearm-Goes s q in (t, rw e rearms, v)

    gp_receiv-Goes :
        (p : ℕ) (s : Gate)
        → IsQuiet fd last limit s
        → (t : Gate) × (gp_receiv w app stop p false s ≡ done tt t)
          × Goes fd last limit (if is_late w s then 1 else 0) s t
    unfolding gp_receiv timed_out after_reconnect frames
    gp_receiv-Goes p s q =
        let now = tv2ms (w.clock (read_clock ∷ s.history)) in
        let (l, again) =
          reconnect_open w (record s { history = read_clock ∷ s.history }) fd q.port in
        let v = waits-Goes l s.cfg.timeout_usec (asked_time ∷ read_clock ∷ s.history) s q refl in
        let (t, ends, v') = late-Goes now 1 _ v.quiet (is_late w s) refl in
        (
          t,
          bind_done (gp_reconnect w 0) (after_reconnect w app stop now) again ∙ ends,
          Goes-trans v v' (omega arith),
        )

    -- The device that is waited for has a timeout left.
    bounded :
        (s : Gate)
        → IsQuiet fd last limit s
        → total (tries s) last + s.send_mess.is_expected ≤ (limit + 1) * last
    bounded s q = elim q.asked [
      | inl e ↦ omega (arith, e, total_bound (tries s) (limit + 1) last q.tried)
      | inr (e, low, high, below) ↦
          let more : ℕ → ℕ = update (tries s) s.send_mess.dev (tries s s.send_mess.dev + 1) in
          let sum =
            total_bump (tries s) more s.send_mess.dev last low high (ground arith)
              (λ i. (λ h. ground arith, λ h. ground arith)) in
          let most =
            total_bound more (limit + 1) last λ i l h. ground (arith, q.tried i l h, below) in
          omega (arith, e, sum, most)
    ]

    run-Goes :
        (p n : ℕ) (s : Gate)
        → IsQuiet fd last limit s
        → (late : ℕ) × (t : Gate) × (timeouts w app stop p n s ≡ done late t)
          × Goes fd last limit late s t
    unfolding timeouts
    run-Goes p zero s q = (0, s, refl, Goes-refl q)
    run-Goes p (suc n) s q =
        let (t, receives, v) = gp_receiv-Goes p s q in
        let (late, u, more, v') = run-Goes p n t v.quiet in
        let sum : ℕ → ℕ = λ n. if is_late w s then n + 1 else n in
        (
          sum late,
          u,
          bind_done (gp_receiv w app stop p false)
                (λ x. timeouts w app stop p n >>= λ m. pure (sum m)) receives
              ∙ bind_done (timeouts w app stop p n) (λ m. pure (sum m)) more,
          Goes-trans v v' (ground arith),
        )

    -- While no device answers on a reliable line and no command waits, `n` timeouts, `late` of them
    -- behind the time for the reply, send no more than `max_timeout_count + 1` requests for each device
    -- up to the last one. Once twice that many timeouts and two more are late, every device counts as
    -- inactive; and where all of them do, no request goes out.
    pub timeouts_lem :
        (p n : ℕ) (s : Gate)
        → IsQuiet fd last limit s
        → (late : ℕ) × (t : Gate) × (timeouts w app stop p n s ≡ done late t)
          × IsQuiet fd last limit t
          × (asks t ≤ asks s + (limit + 1) * last)
          × (2 * (limit + 1) * last + 2 ≤ late → Silent last limit t)
          × (Silent last limit s → Silent last limit t × (asks t ≡ asks s))
    timeouts_lem p n s q =
        let (late, t, runs, v) = run-Goes p n s q in
        let most = bounded t v.quiet in
        (
          late,
          t,
          runs,
          v.quiet,
          omega (arith, v.balance, most),
          λ enough. elim v.progress [
            | inr h ↦ h
            | inl steady ↦ absurd (ground (arith, v.balance, most, steady, enough))
          ],
          v.silent,
        )
