-- ===== src/Link/Idle/Round.antt =====
-- The rounds of `gp_send_idle` of src/gp_layer.c over the devices.
use libgate.Base.{
  ℕ, zero, suc, ◌+◌, ◌-◌, ◌≤◌, ◌<◌, ◌≡◌, refl, arith, ◌&&◌, update, ltb, if◌then◌else◌, count, inl,
  inr, Bool-cases, ap,
}
use libgate.World.{World}
use libgate.Gate.{Gate, Dev}
use libgate.Gate.Action.{done, pure, ◌>>=◌}
use libgate.Link.{gp_send}
use libgate.Link.Idle.{
  Scan, found, finished, out_of_fuel, idle_scan, poll_cmd, after_scan, gp_send_idle,
}

-- The devices behind `dst` and before `stop` are inactive; no other changes.
abbrev pub switched_off : ℕ → ℕ → (ℕ → Dev) → ℕ → Dev
switched_off dst stop devices e =
    if ltb dst e && ltb e stop then record (devices e) { activ = 0 } else devices e

-- Every device behind `dst` and before `stop` timed out too often.
abbrev pub AllSilent : ℕ → (ℕ → Dev) → ℕ → ℕ → Type 0
AllSilent limit devices dst stop = (e : ℕ) → dst < e → e < stop → limit < (devices e).timeout_count

-- What a scan from `dst` over the devices up to `last` has to come to.
abbrev pub Scans : ℕ → ℕ → (ℕ → Dev) → ℕ → Scan → Type 0
Scans last limit devices dst (found d after) =
    (dst < d)
    × (d ≤ last)
    × ((devices d).timeout_count ≤ limit)
    × AllSilent limit devices dst d
    × ((e : ℕ) → after e ≡ switched_off dst d devices e)
Scans last limit devices dst (finished after) =
    AllSilent limit devices dst (suc last)
    × ((e : ℕ) → after e ≡ switched_off dst (suc last) devices e)
Scans last limit devices dst out_of_fuel = ⊥

Scans-step :
    (last limit : ℕ) (devices : ℕ → Dev) (dst : ℕ) (r : Scan)
    → dst + 1 ≤ last
    → limit < (devices (dst + 1)).timeout_count
    → Scans last limit
        (update devices (dst + 1) (record (devices (dst + 1)) { activ = 0 }))
        (dst + 1)
        r
    → Scans last limit devices dst r
Scans-step last limit devices dst (found d after) below silent
      (far, near, answers, between, changed) =
    (
      omega arith,
      near,
      ground arith,
      λ e p q. ground (arith, between e),
      λ e. ground (arith, changed e),
    )
Scans-step last limit devices dst (finished after) below silent (between, changed) =
    (λ e p q. ground (arith, between e), λ e. ground (arith, changed e))
Scans-step last limit devices dst out_of_fuel below silent h = h

idle_scan-Scans :
    (fuel last limit : ℕ) (devices : ℕ → Dev) (dst : ℕ)
    → last - dst < fuel
    → Scans last limit devices dst (idle_scan fuel last limit devices dst)
unfolding idle_scan
idle_scan-Scans zero last limit devices dst h = absurd (omega arith)
idle_scan-Scans (suc fuel) last limit devices dst h = elim (Bool-cases (ltb last (dst + 1))) [
  | inl e ↦ rw (e, Scans) (λ d p q. absurd (ground arith), λ d. ground arith)
  | inr e ↦ elim (Bool-cases (ltb limit (devices (dst + 1)).timeout_count)) [
    | inl f ↦
        rw (e, f, Scans)
          (Scans-step last limit devices dst _ (ground arith) (ground arith)
            (idle_scan-Scans fuel last limit _ (dst + 1) (ground arith)))
    | inr f ↦
        rw (e, f, Scans)
          (
            omega arith,
            ground arith,
            ground arith,
            λ d p q. absurd (omega arith),
            λ d. ground arith,
          )
  ]
]

-- What `gp_send_idle` has to do for the outcome of a scan.
abbrev pub Idles : World → Gate → Scan → Type 0
Idles w s (found d after) =
    gp_send_idle w s
    ≡ (do (r, sent) ← gp_send w (poll_cmd d); pure r) (record s { devices = after; idle_dst = d })
Idles w s (finished after) =
    gp_send_idle w s ≡ done (count 0) (record s { devices = after; idle_dst = 0 })
Idles w s out_of_fuel = ⊥

Scans-Idles :
    (w : World) (s : Gate) (r : Scan)
    → idle_scan (suc s.cfg.max_dev_n) s.cfg.max_dev_n s.cfg.max_timeout_count s.devices s.idle_dst
      ≡ r
    → Scans s.cfg.max_dev_n s.cfg.max_timeout_count s.devices s.idle_dst r
    → Idles w s r
unfolding gp_send_idle after_scan
Scans-Idles w s (found d after) e h = ap (λ r. after_scan w r s) e
Scans-Idles w s (finished after) e h = ap (λ r. after_scan w r s) e
Scans-Idles w s out_of_fuel e h = h

-- `gp_send_idle` goes on to the next device behind the last one that it asked, over those that timed
-- out too often, which it marks as inactive: it asks that device for a card, or it starts again at
-- the first device and returns 0 where none is left.
pub gp_send_idle_lem :
    (w : World) (s : Gate)
    → (r : Scan) × Scans s.cfg.max_dev_n s.cfg.max_timeout_count s.devices s.idle_dst r
      × Idles w s r
gp_send_idle_lem w s =
    let r : Scan =
      idle_scan (suc s.cfg.max_dev_n) s.cfg.max_dev_n s.cfg.max_timeout_count s.devices
        s.idle_dst in
    let scans =
      idle_scan-Scans (suc s.cfg.max_dev_n) s.cfg.max_dev_n s.cfg.max_timeout_count s.devices
        s.idle_dst (omega arith) in
    (r, scans, Scans-Idles w s r refl scans)
