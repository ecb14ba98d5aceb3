-- ===== src/Receive/Silence/Round.antt =====
-- One timeout of `gp_receiv` of src/gp_layer.c while the line is quiet.
use libgate.Base.{
  ℕ, ◌+◌, ◌≤◌, ◌<◌, ◌≡◌, inl, inr, refl, ap, subst, ◌∙◌, arith, length, ◌==◌, Bool-cases, Status,
  count, update,
}
use libgate.Base.Total.{total_ext}
use libgate.World.{World}
use libgate.Gate.{Gate, Dev}
use libgate.Gate.Action.{done, pure, bind_done}
use libgate.Link.{gp_send}
use libgate.Link.Idle.{Scan, found, finished, out_of_fuel, poll_cmd, gp_send_idle}
use libgate.Link.Idle.Round.{Scans, Idles, switched_off, gp_send_idle_lem}
use libgate.Link.Sending.{sending, gp_send_writes}
use libgate.Queue.Line.{IsReliable, Fits-short, frames}
use libgate.Receive.Silence.{tries, asks, IsQuiet}
use libgate.Receive.Silence.Goes.{Goes}

module _ (w : World) (good : IsReliable w) (fd last limit : ℕ) (usable : 3 ≤ fd) where
  sent_tries :
      (s t : Gate) (d n : ℕ) (after : ℕ → Dev)
      → ((e : ℕ) → after e ≡ switched_off s.idle_dst d s.devices e)
      → t.devices ≡ update after d (record (after d) { last_sent = n })
      → (e : ℕ) → tries t e ≡ tries s e
  sent_tries s t d n after changed devices e =
      let kept : (after e).timeout_count ≡ tries s e =
        ap (λ x. x.timeout_count) (changed e) ∙ ground arith in
      let other : tries t e ≡ (after e).timeout_count =
        ap (λ f. (f e).timeout_count) devices ∙ ground arith in
      other ∙ kept

  sent-Goes :
      (s t : Gate) (d : ℕ)
      → IsQuiet fd last limit s
      → s.send_mess.is_expected ≡ 0
      → s.idle_dst < d
      → d ≤ last
      → tries s d ≤ limit
      → IsQuiet fd last limit t
      → t.send_mess.is_expected ≡ 1
      → ((e : ℕ) → tries t e ≡ tries s e)
      → asks t ≡ asks s + 1
      → t.idle_dst ≡ d
      → Goes fd last limit 1 s t
  sent-Goes s t d q e far near below q' e' same more next = record {
    quiet = q';
    balance = omega (arith, e, e', more, total_ext (tries s) (tries t) last λ i h. same i);
    silent = λ h. absurd (omega (arith, below, (h d (omega (arith, far)) near).0));
    progress = inl (ground (arith, more));
  }

  asked-Goes :
      (s : Gate) (d : ℕ) (after : ℕ → Dev)
      → IsQuiet fd last limit s
      → s.send_mess.is_expected ≡ 0
      → Scans last limit s.devices s.idle_dst (found d after)
      → Idles w s (found d after)
      → (r : Status) × (t : Gate) × (gp_send_idle w s ≡ done r t) × Goes fd last limit 1 s t
  unfolding frames poll_cmd
  asked-Goes s d after q e (far, near, below, between, changed) idles =
      let z = poll_cmd d in
      let s' : Gate = record s { devices = after; idle_dst = d } in
      let fits = Fits-short z (omega arith) in
      let (t, sends, sent, port, past) = gp_send_writes w z s' fd q.port usable fits.0 fits.1 in
      let whole = good.line (sending fd z s') in
      let same = sent_tries s t d _ after changed sent.devices in
      (
        _,
        t,
        idles ∙ bind_done (gp_send w z) (λ x. pure x.0) sends,
        sent-Goes s t d q e far near below
            (record {
              port = ground arith;
              last_dev = sent.settings.0 ∙ q.last_dev;
              at_most = sent.settings.1 ∙ q.at_most;
              queues = (sent.queues.0 ∙ q.queues.0, sent.queues.1 ∙ q.queues.1);
              tried = λ i l h. omega (arith, same i, q.tried i l h);
              asked = inr (
                sent.expected,
                omega (arith, sent.dev, far),
                omega (arith, sent.dev, near),
                ground (arith, sent.dev, same d),
              );
            })
            sent.expected same (ap (λ h. length (frames h)) past ∙ rw whole (omega arith))
            sent.next_idle,
      )

  finished-Goes :
      (s : Gate) (after : ℕ → Dev)
      → IsQuiet fd last limit s
      → s.send_mess.is_expected ≡ 0
      → Scans last limit s.devices s.idle_dst (finished after)
      → Goes fd last limit 1 s (record s { devices = after; idle_dst = 0 })
  finished-Goes s after q e (between, changed) =
      let kept : (i : ℕ) → (after i).timeout_count ≡ tries s i =
        λ i. ap (λ x. x.timeout_count) (changed i) ∙ ground arith in
      record {
        quiet = record {
          port = q.port;
          last_dev = q.last_dev;
          at_most = q.at_most;
          queues = q.queues;
          tried = λ i l h. omega (arith, kept i, q.tried i l h);
          asked = inl e;
        };
        balance =
            omega (arith, total_ext (tries s) (λ i. (after i).timeout_count) last λ i h. kept i);
        silent = λ h. (
          λ d l n. (
            omega (arith, kept d, (h d l n).0),
            ap (λ x. x.activ) (changed d) ∙ ground (arith, (h d l n).1),
          ),
          refl,
        );
        progress = elim (Bool-cases (s.idle_dst == 0)) [
          | inr f ↦ inl (rw f (omega arith))
          | inl f ↦ inr λ d l n. (
            omega (arith, kept d, between d (ground arith) (omega (arith, n))),
            ap (λ x. x.activ) (changed d) ∙ ground arith,
          )
        ];
      }

  idle-Goes :
      (s : Gate)
      → IsQuiet fd last limit s
      → s.send_mess.is_expected ≡ 0
      → (r : Scan) → Scans last limit s.devices s.idle_dst r
      → Idles w s r
      → (c : Status) × (t : Gate) × (gp_send_idle w s ≡ done c t) × Goes fd last limit 1 s t
  idle-Goes s q e (found d after) scans idles = asked-Goes s d after q e scans idles
  idle-Goes s q e (finished after) scans idles =
      (count 0, record s { devices = after; idle_dst = 0 }, idles, finished-Goes s after q e scans)
  idle-Goes s q e out_of_fuel scans idles = absurd idles

  pub gp_send_idle-Goes :
      (s : Gate)
      → IsQuiet fd last limit s
      → s.send_mess.is_expected ≡ 0
      → (c : Status) × (t : Gate) × (gp_send_idle w s ≡ done c t) × Goes fd last limit 1 s t
  gp_send_idle-Goes s q e =
      let (r, scans, idles) = gp_send_idle_lem w s in
      idle-Goes s q e r
        (subst (λ l. Scans l limit s.devices s.idle_dst r) q.last_dev
          (subst (λ m. Scans s.cfg.max_dev_n m s.devices s.idle_dst r) q.at_most scans))
        idles
