-- ===== src/Port/Retry.antt =====
-- How often `gp_reconnect` of src/gp_port.c tries to open the port.
pub mod Spaced
use libgate.Base.{
  leb, false, ◌&&◌, ℕ, zero, suc, ◌+◌, ◌-◌, ◌≤◌, ◌≡◌, refl, arith, none, some, ◌∷◌, [], ltb,
  if◌then◌else◌, Bool-cases, Option-cases, inl, inr, ap, ◌∙◌, ◌++◌, List, true, sym, append_assoc,
}
use libgate.World.{World, History, armed, disarmed, closed, asked_time, opened}
use libgate.Gate.{Gate}
use libgate.Gate.Action.{Action, done, pure, ◌>>=◌}
use libgate.Port.{gp_close, try_open, gp_reconnect, is_closed}
use libgate.Port.Retry.Spaced.{tried_at, latest, IsSpaced, latest-append, IsSpaced-append}

-- What one call or several may change on the way from `s` to `t`: the port may open, and the times at
-- which it was tried are spaced; `last_try` is not before the last of them.
pub record Retries (w : World) (s t : Gate) : Type 0 where
  pub new : List ℕ
  pub tried : tried_at w t.history ≡ new ++ tried_at w s.history
  pub spaced : IsSpaced s.last_try new
  pub since : latest s.last_try new ≤ t.last_try
  pub kept : (fd : ℕ) → s.cfg.fd ≡ some fd → t.cfg.fd ≡ some fd
  pub queues : (t.head ≡ s.head) × (t.head2 ≡ s.head2)
  pub messages : (t.send_mess ≡ s.send_mess) × (t.receiv_mess ≡ s.receiv_mess)

-- What one call does at the time `now` on the way from `s` to `t`: from 16 seconds behind `last_try`
-- on the time is kept and a closed port is tried, and not else.
pub record Tries (w : World) (now : ℕ) (s t : Gate) : Type 0 where
  pub last : t.last_try ≡ (if leb (s.last_try + 16) now then now else s.last_try)
  pub tried : tried_at w t.history ≡ (
      if leb (s.last_try + 16) now && is_closed s.cfg.fd
      then now ∷ tried_at w s.history
      else tried_at w s.history)

-- The test of the code, where it subtracts from the time.
is_late : (last now : ℕ) → ltb last (now - 15) ≡ true → leb (last + 16) now ≡ true
is_late last now e = ground arith

is_early : (last now : ℕ) → ltb last (now - 15) ≡ false → leb (last + 16) now ≡ false
is_early last now e = ground arith

abbrev pub port_flag : Gate → ℕ
port_flag s = if is_closed s.cfg.fd then 0 else 1

-- Closing the port leaves it closed, and leaves messages and queues alone.
pub gp_close_lem :
    (s : Gate) → (t : Gate) × (gp_close s ≡ done tt t) × (t.cfg.fd ≡ none) × (t.head ≡ s.head)
unfolding gp_close
gp_close_lem s = elim (Option-cases s.cfg.fd) [
  | inl e ↦ (s, ground arith, e, refl)
  | inr (fd, e) ↦ (
    record s { cfg = record s.cfg { fd = none }; history = closed fd ∷ disarmed ∷ s.history },
    ground arith,
    refl,
    refl,
  )
]

Retries-trans : (w : World) (s t u : Gate) → Retries w s t → Retries w t u → Retries w s u
Retries-trans w s t u v v' = record {
  new = v'.new ++ v.new;
  tried =
      v'.tried
      ∙ ap (λ l. v'.new ++ l) v.tried
      ∙ sym (append_assoc v'.new v.new (tried_at w s.history));
  spaced = IsSpaced-append s.last_try t.last_try v'.new v.new v.spaced v.since v'.spaced;
  since = omega (arith, v'.since, latest-append s.last_try t.last_try v'.new v.new v.since);
  kept = λ fd h. v'.kept fd (v.kept fd h);
  queues = (v'.queues.0 ∙ v.queues.0, v'.queues.1 ∙ v.queues.1);
  messages = (v'.messages.0 ∙ v.messages.0, v'.messages.1 ∙ v.messages.1);
}

module _ (w : World) where
  module _ (s : Gate) where
    abbrev asked_at : ℕ
    asked_at = w.time (asked_time ∷ s.history)

    -- The port was not tried.
    untried :
        (t : Gate)
        → tried_at w t.history ≡ tried_at w s.history
        → s.last_try ≤ t.last_try
        → ((fd : ℕ) → s.cfg.fd ≡ some fd → t.cfg.fd ≡ some fd)
        → (t.head ≡ s.head) × (t.head2 ≡ s.head2)
        → (t.send_mess ≡ s.send_mess) × (t.receiv_mess ≡ s.receiv_mess)
        → Retries w s t
    unfolding latest IsSpaced
    untried t same more kept queues messages = record {
      new = [];
      tried = same;
      spaced = tt;
      since = more;
      kept = kept;
      queues = queues;
      messages = messages;
    }

    -- A closed port was tried at a time that is late enough.
    retried_once :
        (t : Gate)
        → ltb s.last_try (asked_at - 15) ≡ true
        → s.cfg.fd ≡ none
        → tried_at w t.history ≡ asked_at ∷ tried_at w s.history
        → t.last_try ≡ asked_at
        → (t.head ≡ s.head) × (t.head2 ≡ s.head2)
        → (t.send_mess ≡ s.send_mess) × (t.receiv_mess ≡ s.receiv_mess)
        → Tries w asked_at s t × Retries w s t
    unfolding latest IsSpaced
    retried_once t e shut tried last queues messages = (
      record { last = rw (is_late _ _ e) last; tried = rw (is_late _ _ e, shut) tried },
      record {
        new = asked_at ∷ [];
        tried = tried;
        spaced = (ground arith, tt);
        since = omega (arith, last);
        kept = λ fd h. absurd cc;
        queues = queues;
        messages = messages;
      },
    )

    reconnect_once :
        (t : Gate) × (gp_reconnect w 0 s ≡ done (port_flag t) t)
        × Tries w asked_at s t
        × Retries w s t
    unfolding gp_reconnect try_open tried_at
    reconnect_once = elim (Bool-cases (ltb s.last_try (asked_at - 15))) [
      | inr e ↦ (
        record s { history = asked_time ∷ s.history },
        rw e,
        record { last = rw (is_early _ _ e) refl; tried = rw (is_early _ _ e) refl },
        untried (record s { history = asked_time ∷ s.history }) refl (omega arith) (λ fd h. h)
            (refl, refl) (refl, refl),
      )
      | inl e ↦ elim (Option-cases s.cfg.fd) [
        | inr (fd, f) ↦
            let t : Gate = record s { last_try = asked_at; history = asked_time ∷ s.history } in
            (
              t,
              rw (e, f),
              record { last = rw (is_late _ _ e) refl; tried = rw (is_late _ _ e, f) refl },
              untried t refl (ground arith) (λ fd' h. h) (refl, refl) (refl, refl),
            )
        | inl f ↦ elim (Option-cases (w.open_port (opened ∷ asked_time ∷ s.history))) [
          | inl g ↦
              let t : Gate = record s {
                cfg = record s.cfg { fd = none };
                last_try = asked_at;
                history = opened ∷ asked_time ∷ s.history;
              } in
              let (once, many) = retried_once t e f refl refl (refl, refl) (refl, refl) in
              (t, ground arith, once, many)
          | inr (fd, g) ↦
              let t : Gate = record s {
                cfg = record s.cfg { fd = some fd };
                last_try = asked_at;
                history = armed s.cfg.timeout_usec ∷ opened ∷ asked_time ∷ s.history;
              } in
              let (once, many) = retried_once t e f refl refl (refl, refl) (refl, refl) in
              (t, ground arith, once, many)
        ]
      ]
    ]

  -- A number of calls, one behind the other.
  unfoldable pub reconnects : ℕ → Action (Unit {0})
  reconnects zero = pure tt
  reconnects (suc n) = gp_reconnect w 0 >>= λ r. reconnects n

  -- One call of `gp_reconnect` without `ignore_timeout`, by the time that it reads: from 16 seconds
  -- behind `last_try` on it keeps that time in `last_try` and tries to open a closed port; before that
  -- it leaves `last_try` and makes no try; an open port is never tried. It returns 1 where the port is open
  -- behind it, else 0. However many such calls come one behind the other, and whatever the clock
  -- shows, the times that it shows at their tries are each 16 seconds or more behind the one before,
  -- and the first of them behind `last_try`; an open port stays open, and queues and messages stay as
  -- they are.
  pub reconnects-Retries :
      (n : ℕ) (s : Gate)
      → ((t : Gate) × (gp_reconnect w 0 s ≡ done (port_flag t) t)
          × Tries w (w.time (asked_time ∷ s.history)) s t)
        × ((t : Gate) × (reconnects n s ≡ done tt t) × Retries w s t)
  unfolding reconnects
  reconnects-Retries zero s =
      let (t, once, now, v) = reconnect_once s in
      (
        (t, once, now),
        (s, refl, untried s s refl (omega arith) (λ fd h. h) (refl, refl) (refl, refl)),
      )
  reconnects-Retries (suc n) s =
      let (t, once, now, v) = reconnect_once s in
      let (u, more, v') = (reconnects-Retries n t).1 in
      (
        (t, once, now),
        (
          u,
          ap (λ o. ◌>>=◌ {B = Unit {0}} (λ x. o) (λ r. reconnects n) s) once ∙ more,
          Retries-trans w s t u v v',
        ),
      )

  -- While the port cannot be opened, a call leaves it closed, and leaves messages and queues alone.
  pub reconnect_fails :
      (s : Gate)
      → ((h : History) → w.open_port h ≡ none)
      → s.cfg.fd ≡ none
      → (t : Gate) × (gp_reconnect w 0 s ≡ done 0 t)
        × (t.cfg.fd ≡ none)
        × (t.cfg.gp_timeout ≡ s.cfg.gp_timeout)
        × (t.send_mess ≡ s.send_mess)
        × (t.head ≡ s.head)
        × (t.head2 ≡ s.head2)
  unfolding gp_reconnect try_open
  reconnect_fails s never is_closed =
      let asked : History = asked_time ∷ s.history in
      let no : w.open_port (opened ∷ asked) ≡ none = never (opened ∷ asked) in
      elim (Bool-cases (ltb s.last_try (w.time asked - 15))) [
        | inr e ↦ (record s { history = asked }, ground arith, is_closed, refl, refl, refl, refl)
        | inl e ↦ (
          record s {
            cfg = record s.cfg { fd = none };
            last_try = w.time asked;
            history = opened ∷ asked;
          },
          ground arith,
          refl,
          refl,
          refl,
          refl,
          refl,
        )
      ]
