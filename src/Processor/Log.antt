-- ===== src/Processor/Log.antt =====
-- `cb_log_read` of src/gp_processor.c: the log of a device is read block by block.
pub mod Progress
pub mod Told
use libgate.Base.{
  ℕ, zero, suc, ◌+◌, ◌-◌, ◌*◌, ◌/◌, ◌%◌, Bool, true, false, ◌&&◌, ◌||◌, Buf, ℤ, pos, negsuc, Status,
  count, ◌==◌, ltb, leb, if◌then◌else◌,
}
use libgate.World.{World}
use libgate.Gate.{Gate, Dev}
use libgate.Gate.Action.{Action, pure, gets, ◌>>=◌, ◌>>◌}
use libgate.Database.{db_get_cid_by_a}
use libgate.Target.Memory.{ad_get_buff_data, ad_set_buff_addr_down}
use libgate.Clock.{EventDate, get_ev_date, get_ev_time}
use libgate.Processor.{App, Event, reply_src, reply_dev, cmd_buff_offset, be16toh, modify_dev}

abbrev pub gp_max_log_bound : ℕ
gp_max_log_bound = 0x8000

-- How many bytes of the log are read next: up to the end, or up to the end of the memory where the
-- log goes on at its start, and at most a block.
unfoldable pub log_length : ℕ → ℕ → ℕ → ℕ
log_length up down block =
    let l = if ltb up down then gp_max_log_bound - down else up - down in
    if ltb l block then l else block

-- The date of the event at `i`, behind its code and its address.
abbrev event_date : Buf → ℕ → EventDate
event_date m i = record {
  mon = m (i + 3);
  day = m (i + 4);
  hour = m (i + 5);
  min = m (i + 6);
  sec = m (i + 7);
}

-- `memcmp` of the code and the address with those of the last event.
unfoldable pub same_event : Buf → Buf → ℕ → Bool
same_event last m i = last 0 == m i && last 1 == m (i + 1) && last 2 == m (i + 2)

-- `receiv_mess.len/sizeof(gp_event_t)`, which the loop takes for nothing where `len` is negative.
unfoldable pub event_count : ℤ → ℕ
event_count (pos n) = n / 8
event_count (negsuc n) = 0

-- The end of the log behind `n` events from `down` on.
unfoldable pub next_bound : ℕ → ℕ → ℕ
next_bound down n = if leb gp_max_log_bound (down + 8 * n) then 0 else down + 8 * n

module _ (w : World) (app : App) where
  -- The bounds of the log have come in.
  unfoldable pub bounds_read : Action Status
  bounds_read = do
    up ← gets (λ s. be16toh s.receiv_mess.buf cmd_buff_offset)
    down ← gets (λ s. be16toh s.receiv_mess.buf (cmd_buff_offset + 2))
    block ← gets (λ s. s.cfg.ev_block_size * 8)
    src ← gets reply_src
    (if ltb gp_max_log_bound down || ltb gp_max_log_bound up then pure (count 0) else (do
      modify_dev (λ d. record d { bound_down = down; bound_up = up })
      (if log_length up down block == 0
          then pure (count 0)
          else ad_get_buff_data 0 src w down (log_length up down block))))

  -- A new event is told to the application.
  unfoldable pub push_event : ℕ → ℕ → Action ℕ
  push_event i c = do
    m ← gets (λ s. s.receiv_mess.buf)
    modify_dev (λ d. record d { last_ev_rec = λ k. m (i + k) })
    cid ← db_get_cid_by_a w (be16toh m (i + 1))
    ts ← get_ev_time w (event_date m i)
    ct ← get_ev_date (event_date m i)
    dev ← gets (λ s. s.receiv_mess.dev)
    app.dev_ev (record {
      dev = dev;
      subdev = m i % 2;
      ev = m i;
      addr = be16toh m (i + 1);
      cid = cid;
      ts = ts;
      ct = ct;
      dup = c;
    })

  -- The events from place `i` on; `c` counts those that repeat the one before.
  unfoldable pub event_loop : ℕ → ℕ → ℕ → Action (Unit {0})
  event_loop zero i c = pure tt
  event_loop (suc left) i c = do
    m ← gets (λ s. s.receiv_mess.buf)
    last ← gets (λ s. (reply_dev s).last_ev_rec)
    (if same_event last m i
        then event_loop left (i + 8) (c + 1)
        else (do told ← push_event i c; event_loop left (i + 8) c))

  -- A block of events has come in.
  unfoldable pub events_read : Action Status
  events_read = do
    down ← gets (λ s. (reply_dev s).bound_down)
    n ← gets (λ s. event_count s.receiv_mess.len)
    src ← gets reply_src
    event_loop n cmd_buff_offset 0
    ad_set_buff_addr_down 0 src w (next_bound down n)

  unfoldable pub cb_log_read : ℕ → Action Status
  cb_log_read reply s =
      (if s.send_mess.target == 102
          then bounds_read
          else if s.send_mess.target == 104
          then events_read
          else if s.send_mess.target == 103
          then pure (count 1)
          else pure (count 0))
        s
