-- ===== src/Processor/Log/Progress.antt =====
-- Reading the log of a device: the bounds that `cb_log_read` of src/gp_processor.c computes from block
-- to block.
use libgate.Base.{
  ℕ, ◌+◌, ◌-◌, ◌*◌, ◌/◌, ◌%◌, ◌≤◌, ◌<◌, ◌≡◌, ◌≢◌, ◌↔◌, arith, ltb, ◌==◌, refl, ap, ◌∙◌,
  if◌then◌else◌, [], ◌∷◌, Status, count, true, false, pos,
}
use libgate.World.{World}
use libgate.Gate.{Gate}
use libgate.Gate.Action.{Action, pure, ◌>>◌}
use libgate.Target.{request, be16, sent_or_queued}
use libgate.Target.Memory.{ad_get_buff_data, ad_set_buff_addr_down}
use libgate.Processor.{App, be16toh, modify_dev, reply_src, reply_dev}
use libgate.Processor.Log.{
  gp_max_log_bound, log_length, next_bound, event_count, event_loop, bounds_read, events_read,
  cb_log_read,
}

-- How many bytes of the log are not read yet.
unfoldable pub behind : ℕ → ℕ → ℕ
behind up down = if ltb up down then 0x8000 - down + up else up - down

-- A place in the memory of the log at which an event can start.
pub record IsPlace (a : ℕ) : Type 0 where
  pub aligned : a % 8 ≡ 0
  pub inside : a < 0x8000

log_length_lem :
    (up down block : ℕ)
    → IsPlace up
    → IsPlace down
    → block % 8 ≡ 0
    → 0 < block
    → (log_length up down block % 8 ≡ 0)
      × (down + log_length up down block ≤ 0x8000)
      × (log_length up down block ≤ block)
      × (log_length up down block ≤ behind up down)
      × (up ≢ down → 0 < log_length up down block)
unfolding log_length behind
log_length_lem up down block u d a some_block =
    (ground arith, ground arith, ground arith, ground arith, λ n. ground arith)

moved :
    (up down l : ℕ)
    → IsPlace up
    → IsPlace down
    → l % 8 ≡ 0
    → down + l ≤ 0x8000
    → l ≤ behind up down
    → let next = next_bound down (l / 8) in IsPlace next × (behind up next + l ≡ behind up down)
unfolding behind next_bound
moved up down l u d a inside few =
    let e : 8 * (l / 8) ≡ l = omega arith in
    rw e (record { aligned = ground arith; inside = ground arith }, ground arith)

log_length_le : (up down block : ℕ) → log_length up down block ≤ block
unfolding log_length
log_length_le up down block = ground arith

up_to_date : (up down : ℕ) → IsPlace up → IsPlace down → (behind up down ≡ 0) ↔ (up ≡ down)
unfolding behind
up_to_date up down u d = (λ e. ground arith, λ e. ground arith)

empty_block :
    (up down block : ℕ)
    → IsPlace up
    → IsPlace down
    → 0 < block
    → (log_length up down block ≡ 0) ↔ (up ≡ down)
unfolding log_length
empty_block up down block u d some_block = (λ e. ground arith, λ e. ground arith)

-- The bounds that came in are stored, and `l` bytes from `down` on are asked for, unless `l` is 0.
unfoldable pub asks_for : World → ℕ → ℕ → ℕ → ℕ → Action Status
asks_for w src up down l =
    modify_dev (λ d. record d { bound_down = down; bound_up = up })
    >> (if l == 0
        then pure (count 0)
        else sent_or_queued w
            (request 0 src 104 0x04 5 (0x02 ∷ 0xA0 ∷ l ∷ down / 256 ∷ down % 256 ∷ [])))

module _ (w : World) (app : App) where
  bounds_read_asks :
      (s : Gate)
      → let up = be16toh s.receiv_mess.buf 6 in
        let down = be16toh s.receiv_mess.buf 8 in
        IsPlace up
        → IsPlace down
        → s.cfg.ev_block_size * 8 < 256
        → bounds_read w app s
          ≡ asks_for w (reply_src s) up down (log_length up down (s.cfg.ev_block_size * 8)) s
  unfolding bounds_read asks_for ad_get_buff_data be16
  bounds_read_asks s u d short =
      let up : ℕ = be16toh s.receiv_mess.buf 6 in
      let down : ℕ = be16toh s.receiv_mess.buf 8 in
      let l : ℕ = log_length up down (s.cfg.ev_block_size * 8) in
      let low : ltb gp_max_log_bound down ≡ false = ground (arith, d.inside) in
      let low' : ltb gp_max_log_bound up ≡ false = ground (arith, u.inside) in
      let one_byte : l % 256 ≡ l = omega (arith, log_length_le up down (s.cfg.ev_block_size * 8)) in
      let high : down / 256 % 256 ≡ down / 256 = omega (arith, d.inside) in
      rw (low, low', one_byte, high) refl

  -- One round of reading a log, of a device with the bounds `up` and `down` in its reply to the
  -- question for them (target 102), both multiples of 8 below 0x8000, with a block of 1 to 31 events:
  -- `cb_log_read` stores the bounds and asks for the `l` bytes from `down` on, or for nothing where
  -- `l` is 0, which is so exactly where the log is read to its end. `l` is a multiple of 8, not above
  -- the block nor above what is left of the log, and does not go beyond the memory. When the device
  -- answers that (target 104) with as many bytes, and fewer than 8 more around them, `cb_log_read`
  -- goes through `l / 8` events and then tells the device a bound `next`, again a multiple of 8 below
  -- 0x8000, behind which exactly `l` bytes fewer are left of the log.
  pub cb_log_read-progress :
      (reply extra : ℕ) (s t : Gate)
      → let up = be16toh s.receiv_mess.buf 6 in
        let down = be16toh s.receiv_mess.buf 8 in
        let block = s.cfg.ev_block_size * 8 in
        let l = log_length up down block in
        s.send_mess.target ≡ 102
        → IsPlace up
        → IsPlace down
        → 0 < s.cfg.ev_block_size
        → s.cfg.ev_block_size < 32
        → t.send_mess.target ≡ 104
        → (reply_dev t).bound_down ≡ down
        → t.receiv_mess.len ≡ pos (l + extra)
        → extra < 8
        → (cb_log_read w app reply s ≡ asks_for w (reply_src s) up down l s)
          × ((l ≡ 0) ↔ (up ≡ down))
          × (l % 8 ≡ 0)
          × (l ≤ block)
          × (l ≤ behind up down)
          × (down + l ≤ 0x8000)
          × (next : ℕ) × (cb_log_read w app reply t
              ≡ (event_loop w app (l / 8) 6 0 >> ad_set_buff_addr_down 0 (reply_src t) w next) t)
          × IsPlace next
          × (behind up next + l ≡ behind up down)
          × ((behind up next ≡ 0) ↔ (up ≡ next))
  unfolding cb_log_read events_read event_count
  cb_log_read-progress reply extra s t asked u d some_block few answered at_down comes small =
      let up : ℕ = be16toh s.receiv_mess.buf 6 in
      let down : ℕ = be16toh s.receiv_mess.buf 8 in
      let block : ℕ = s.cfg.ev_block_size * 8 in
      let l : ℕ = log_length up down block in
      let (whole, inside, short, rest, more) =
        log_length_lem up down block u d (omega arith) (omega arith) in
      let (place, less) = moved up down l u d whole inside rest in
      let bounds_came : (s.send_mess.target == 102) ≡ true = ground arith in
      let not_bounds : (t.send_mess.target == 102) ≡ false = ground arith in
      let block_came : (t.send_mess.target == 104) ≡ true = ground arith in
      let events : event_count t.receiv_mess.len ≡ l / 8 =
        ap event_count comes ∙ omega (arith, whole) in
      (
        rw bounds_came (bounds_read_asks s u d (omega arith)),
        empty_block up down block u d (omega arith),
        whole,
        short,
        rest,
        inside,
        next_bound down (l / 8),
        rw (not_bounds, block_came, at_down, events) refl,
        place,
        less,
        up_to_date up (next_bound down (l / 8)) u place,
      )
