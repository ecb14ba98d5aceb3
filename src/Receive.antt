-- ===== src/Receive.antt =====
-- `gp_receiv` of src/gp_layer.c: what comes in at the port, or that nothing does.
pub mod Scans
pub mod Reply
pub mod Timeout
pub mod Arrival
pub mod Full
pub mod Pieces
pub mod Silence
pub mod Swipe
pub mod Answer
mod Tests
use libgate.Base.{
  ℕ, zero, suc, ◌+◌, ◌-◌, ◌*◌, ◌%◌, ◌^◌, Bool, true, false, ◌&&◌, Option, none, some, List, [], ◌∷◌,
  Buf, update, store_list, length, take, ℤ, pos, negsuc, sub_ℕ, Status, is_positive, ◌==◌, ltb, leb,
  if◌then◌else◌, not,
}
use libgate.World.{World, ReadResult, unreadable, bytes_read, read_clock, armed, received, tv2ms}
use libgate.Gate.{Gate, Dev, ReceivMess}
use libgate.Gate.Action.{Action, pure, gets, modify, require, request, ◌>>=◌, ◌>>◌}
use libgate.Codec.Crc.{crc8_xor}
use libgate.Codec.Escape.{gp_init, gp_end, memcpy_unesc}
use libgate.Port.{gp_close, gp_reconnect}
use libgate.Link.Idle.{gp_send_idle}
use libgate.Queue.{gp_put_cmd}
use libgate.Target.Control.{ad_soft_reset}
use libgate.Processor.{App}
use libgate.Processor.Input.{process_port_input}
use libgate.Receive.Scans.{gp_dev_init}

-- The last place of `receiv_mess.buf`, of `GP_PORT_READ_BUF_LENGTH` bytes.
abbrev pub read_buf_last : ℕ
read_buf_last = 134

-- `current_time - since`, as a `uint32_t`.
unfoldable pub elapsed : ℕ → ℕ → ℕ
elapsed now since = (now + 2 ^ 32 - since) % 2 ^ 32

-- `GP_PORT_READ_BUF_LENGTH - 1 - receiv_mess.len`, as the `size_t` that `read` takes.
unfoldable pub room : ℤ → ℕ
room (pos n) = if leb n read_buf_last then read_buf_last - n else 2 ^ 64 + read_buf_last - n
room (negsuc n) = read_buf_last + n + 1

unfoldable pub add_count : ℤ → ℕ → ℤ
add_count (pos n) k = pos (n + k)
add_count (negsuc n) k = sub_ℕ k (n + 1)

-- `memchr` for the closing byte.
unfoldable pub find_end : List ℕ → Option ℕ
find_end [] = none
find_end (b ∷ bs) =
    if b == gp_end then some 0 else elim (find_end bs) [ none ↦ none | some i ↦ some (i + 1) ]

-- `memcpy_unesc` from the device type on, where the closing byte stands at `stop`; before the fourth
-- byte the length is negative, and the loop does not run.
unfoldable pub unesc_reply : Buf → ℕ → ℤ × Buf
unesc_reply m stop =
    if leb 3 stop
    then (let (l, m') = memcpy_unesc m 3 3 (stop - 3) in (pos l, m'))
    else (sub_ℕ stop 3, update m 3 0)

-- The checksum over `l` bytes; for less than two it is the first byte.
unfoldable pub crc_reply : Buf → ℤ → ℕ
crc_reply m (pos l) = crc8_xor m 3 l
crc_reply m (negsuc l) = crc8_xor m 3 0

unfoldable pub sub_four : ℤ → ℤ
sub_four (pos l) = sub_ℕ l 4
sub_four (negsuc l) = negsuc (l + 4)

abbrev pub gp_reply : ℕ
gp_reply = 0x55

abbrev pub set_reply : (ReceivMess → ReceivMess) → Action (Unit {0})
set_reply f = modify λ s. record s { receiv_mess = f s.receiv_mess }

-- The timeout of the port is set again.
unfoldable pub rearm : Action (Unit {0})
rearm = do
  modify (λ s. record s { cfg = record s.cfg { timeout_usec = s.cfg.gp_timeout * 1000 } })
  usec ← gets (λ s. s.cfg.timeout_usec)
  request (armed usec)

-- A reply that is waited for did not come.
unfoldable pub count_timeout : Gate → Gate
count_timeout s =
    if ltb 0 s.send_mess.is_expected
    then record s {
      send_mess = record s.send_mess { is_expected = 0 };
      devices = update s.devices s.send_mess.dev (record (s.devices s.send_mess.dev) {
        timeout_count = (s.devices s.send_mess.dev).timeout_count + 1;
      });
    }
    else s

-- Something came in at `now`: the device is there.
unfoldable pub mark_alive : ℕ → Gate → Gate
mark_alive now s = record s {
  send_mess = record s.send_mess { is_expected = 0 };
  receiv_mess = record s.receiv_mess { last_read = now };
  devices =
      update s.devices s.send_mess.dev
        (record (s.devices s.send_mess.dev) { last_read = now; activ = 1; timeout_count = 0 });
}

-- A first chunk goes to the start of the buffer.
unfoldable pub start_frame : Gate → Gate
start_frame s = elim s.receiv_buf_p [
  | none ↦ record s { receiv_buf_p = some 0; receiv_mess = record s.receiv_mess { len = pos 0 } }
  | some p ↦ s
]

module _ (w : World) (app : App) (stop : ℕ) where
  -- The next command goes out, or the next device is asked; if neither, the timeout is set again.
  unfoldable pub after_put : Status → Action (Unit {0})
  after_put put =
      if is_positive put
      then pure tt
      else (do idle ← gp_send_idle w; (if is_positive idle then pure tt else rearm))

  unfoldable pub send_next : Action (Unit {0})
  send_next = gp_put_cmd w >>= after_put

  unfoldable pub after_reconnect : ℕ → ℕ → Action (Unit {0})
  after_reconnect now r = do
    over ← gets (λ s. leb s.cfg.gp_timeout (elapsed now s.send_mess.sent_time))
    (if over then (do modify count_timeout; send_next) else rearm)

  unfoldable pub timed_out : ℕ → Action (Unit {0})
  timed_out now = gp_reconnect w 0 >>= after_reconnect now

  -- The reply of a device to which nothing was asked is passed over. An acknowledgement stands for
  -- the command that it names.
  unfoldable pub accept : ℤ → Action (Unit {0})
  accept l s =
      (if not (s.send_mess.dev == s.receiv_mess.buf 4) then pure tt else (do
        set_reply (λ r. record r { dev = r.buf 4 })
        (if s.receiv_mess.buf 5 == gp_reply
            then (do
              (if s.receiv_mess.buf 6 == 0x55
                  then (do
                    set_reply (λ r. record r { buf = update r.buf 5 (r.buf 7) })
                    done' ← process_port_input w app 1
                    pure tt)
                  else if s.receiv_mess.buf 6 == 0xAA
                  then set_reply (λ r. record r { buf = update r.buf 5 (r.buf 7) })
                  else set_reply (λ r. record r { buf = update r.buf 5 (r.buf 8) }))
              put ← gp_put_cmd w
              pure tt)
            else (do
              set_reply (λ r. record r { len = sub_four l })
              r ← process_port_input w app 1
              (if is_positive r then pure tt else (do put ← gp_put_cmd w; pure tt))))))
        s

  -- The frame whose closing byte stands at `place` is complete.
  unfoldable pub frame_complete : ℕ → Action (Unit {0})
  frame_complete place = do
    modify (λ s. record s { receiv_buf_p = none })
    (l, m) ← gets (λ s. unesc_reply s.receiv_mess.buf place)
    set_reply (λ r. record r { buf = m })
    (if ltb 0 (crc_reply m l) then pure tt else accept l)

  -- The bytes that came in are stored at `p`, with a zero byte behind them.
  unfoldable pub chunk : ℕ → List ℕ → Action (Unit {0})
  chunk p bs = do
    require (leb (p + length bs) read_buf_last)
    set_reply (λ r. record r { buf = update (store_list r.buf p bs) (p + length bs) 0 })
    first ← gets (λ s. s.receiv_mess.buf 0)
    (if not (first == gp_init) then (do r ← gp_reconnect w 0; pure tt) else (elim (find_end bs) [
      | some i ↦ frame_complete (p + i)
      | none ↦ modify (λ s. record s {
        receiv_mess = record s.receiv_mess { len = add_count s.receiv_mess.len (length bs) };
        receiv_buf_p = some (p + length bs);
      })
    ]))

  -- No bytes are the end of the file: the device is reset and the port closed.
  unfoldable pub bytes_in : ℕ → List ℕ → Action (Unit {0})
  bytes_in p [] = do dev ← gets (λ s. s.send_mess.dev); r ← ad_soft_reset w 0 dev; gp_close
  bytes_in p (b ∷ rest) = chunk p (b ∷ rest)

  -- `read` takes no more bytes than it was asked for.
  unfoldable pub after_read : ℕ → ℕ → ReadResult → Action (Unit {0})
  after_read p size unreadable = do gp_close; put ← gp_put_cmd w; pure tt
  after_read p size (bytes_read bs) = bytes_in p (take size bs)

  -- The bytes go to the place behind those that came before.
  unfoldable pub read_port : ℕ → Action (Unit {0})
  read_port fd = do
    p ← gets (λ s. elim s.receiv_buf_p [ none ↦ 0 | some p ↦ p ])
    size ← gets (λ s. room s.receiv_mess.len)
    request (received fd size)
    result ← gets (λ s. w.read s.history)
    after_read p size result

  unfoldable pub data_ready : ℕ → ℕ → Action (Unit {0})
  data_ready fd now = do
    rearm
    modify (mark_alive now)
    dev ← gets (λ s. s.send_mess.dev)
    inited ← gets (λ s. (s.devices dev).is_inited)
    (if inited == 0 then (do r ← gp_dev_init w stop dev; pure tt) else pure tt)
    modify start_frame
    read_port fd

  -- `event` says whether there is something to read.
  unfoldable pub gp_receiv : ℕ → Bool → Action (Unit {0})
  gp_receiv fd readable = do
    request read_clock
    now ← gets (λ s. tv2ms (w.clock s.history))
    (if readable then data_ready fd now else timed_out now)
