-- ===== src/Receive/Silence/Goes.antt =====
-- What the parts of a timeout of `gp_receiv` of src/gp_layer.c do while the line is quiet.
use libgate.Base.{
  ℕ, ◌+◌, ◌≤◌, ◌<◌, ◌≡◌, ◌⊎◌, inl, inr, refl, ap, ◌∙◌, arith, length, ltb, true, false, update,
}
use libgate.Base.Total.{total, total_bump}
use libgate.World.{History}
use libgate.Gate.{Gate}
use libgate.Queue.Line.{frames}
use libgate.Receive.{count_timeout}
use libgate.Receive.Silence.{tries, asks, IsQuiet, Silent, steps}

-- What `n` late timeouts do on the way from `s` to `t`: each request that was sent has timed out, but
-- for one that is waited for; silent devices get no request; and every late timeout is a step
-- unless all devices are silent.
pub record Goes (fd last limit n : ℕ) (s t : Gate) : Type 0 where
  pub quiet : IsQuiet fd last limit t
  pub balance :
      asks t + total (tries s) last + s.send_mess.is_expected
      ≡ asks s + total (tries t) last + t.send_mess.is_expected
  pub silent : Silent last limit s → Silent last limit t × (asks t ≡ asks s)
  pub progress : (steps s + n ≤ steps t) ⊎ Silent last limit t

module _ {fd last limit : ℕ} where
  pub Goes-trans :
      {n m k : ℕ} {s t u : Gate}
      → Goes fd last limit n s t
      → Goes fd last limit m t u
      → k ≡ n + m
      → Goes fd last limit k s u
  Goes-trans a b sum = record {
    quiet = b.quiet;
    balance = omega (arith, a.balance, b.balance);
    silent = λ h. let (h', e) = a.silent h in let (h'', e') = b.silent h' in (h'', e' ∙ e);
    progress = elim b.progress [
      | inr h ↦ inr h
      | inl more ↦ elim a.progress [
        | inl before ↦ inl (omega (arith, before, more, sum))
        | inr h ↦ inr (b.silent h).0
      ]
    ];
  }

  -- Requests to clock and port leave the line quiet.
  pub waits-Goes :
      (l usec : ℕ) (h : History) (s : Gate)
      → IsQuiet fd last limit s
      → frames h ≡ frames s.history
      → Goes fd last limit 0 s
          (record s { cfg = record s.cfg { timeout_usec = usec }; last_try = l; history = h })
  waits-Goes l usec h s q e =
      let same : length (frames h) ≡ length (frames s.history) = ap length e in
      record {
        quiet = record {
          port = q.port;
          last_dev = q.last_dev;
          at_most = q.at_most;
          queues = q.queues;
          tried = q.tried;
          asked = q.asked;
        };
        balance = omega (arith, same);
        silent = λ a. (a, same);
        progress = inl (omega (arith, same));
      }

  pub Goes-refl : {s : Gate} → IsQuiet fd last limit s → Goes fd last limit 0 s s
  Goes-refl q = record {
    quiet = q;
    balance = refl;
    silent = λ a. (a, refl);
    progress = inl (omega arith);
  }

  counted-Goes :
      (s : Gate)
      → IsQuiet fd last limit s
      → s.send_mess.is_expected ≡ 1
      → 0 < s.send_mess.dev
      → s.send_mess.dev ≤ last
      → tries s s.send_mess.dev ≤ limit
      → Goes fd last limit 0 s (record s {
        send_mess = record s.send_mess { is_expected = 0 };
        devices = update s.devices s.send_mess.dev (record (s.devices s.send_mess.dev) {
          timeout_count = (s.devices s.send_mess.dev).timeout_count + 1;
        });
      })
  counted-Goes s q e low high below = record {
    quiet = record {
      port = q.port;
      last_dev = q.last_dev;
      at_most = q.at_most;
      queues = q.queues;
      tried = λ d l h. ground (arith, q.tried d l h);
      asked = inl refl;
    };
    balance =
        let more =
          total_bump (tries s)
            (tries (record s {
              devices = update s.devices s.send_mess.dev (record (s.devices s.send_mess.dev) {
                timeout_count = (s.devices s.send_mess.dev).timeout_count + 1;
              });
            }))
            s.send_mess.dev last low high (ground arith)
            (λ i. (λ h. ground arith, λ h. ground arith)) in
        omega (arith, more, e);
    silent = λ a. (λ d l h. (ground (arith, (a d l h).0), ground (arith, (a d l h).1)), refl);
    progress = inl (omega arith);
  }

  -- The device that is waited for timed out once more.
  pub count_timeout-Goes :
      (s : Gate)
      → IsQuiet fd last limit s
      → Goes fd last limit 0 s (count_timeout s) × ((count_timeout s).send_mess.is_expected ≡ 0)
  unfolding count_timeout
  count_timeout-Goes s q = elim q.asked [
    | inl e ↦
        let off : ltb 0 s.send_mess.is_expected ≡ false = ground arith in rw off (Goes-refl q, e)
    | inr (e, low, high, below) ↦
        let on : ltb 0 s.send_mess.is_expected ≡ true = ground arith in
        rw on (counted-Goes s q e low high below, refl)
  ]
