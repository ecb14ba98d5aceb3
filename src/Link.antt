-- ===== src/Link.antt =====
-- `gp_resend` and `gp_send` of src/gp_layer.c: a command becomes a frame on the port.
pub mod Frame
pub mod Sending
pub mod Bounds
pub mod Idle
mod Tests
use libgate.Base.{
  ℕ, ◌+◌, ◌-◌, ◌*◌, Bool, true, false, ◌&&◌, Option, none, some, ◌∷◌, Buf, update, zeroed, slice,
  Status, failed, count, ltb, leb, ◌==◌, if◌then◌else◌,
}
use libgate.World.{World, Effect, read_clock, armed, written, tv2ms}
use libgate.Gate.{Gate, Cmd, SendMess, Dev, Handler, cmd_bytes}
use libgate.Gate.Action.{Action, pure, exit, ◌>>=◌, ◌>>◌, modify, gets, require, request}
use libgate.Codec.Crc.{crc8_xor}
use libgate.Codec.Escape.{gp_init, gp_end, memcpy_esc}
use libgate.Port.{gp_close}

abbrev pub gp_ctrl : ℕ
gp_ctrl = 0x01

abbrev pub send_buf_length : ℕ
send_buf_length = 130

abbrev pub cmd_buff_length : ℕ
cmd_buff_length = 120

abbrev pub ad_q_short : ℕ
ad_q_short = 0

-- `send_mess.ev_handler` once `cmd` is sent: a short command without a handler keeps the old one.
unfoldable pub next_handler : Cmd → Option Handler → Option Handler
next_handler cmd old = elim cmd.ev_handler [
  | some h ↦ some h
  | none ↦ if cmd.queue == ad_q_short then old else none
]

-- The command with its checksum behind the data: `cmd->cmd_buff[cmd_len] = crc8_xor(…)`.
unfoldable pub with_crc : Cmd → Cmd
with_crc cmd = record cmd {
  cmd_buff = update cmd.cmd_buff cmd.data_len (crc8_xor (cmd_bytes cmd) 1 (cmd.data_len + 1));
}

-- The cleared buffer with the first two bytes, and the escaped command behind them.
pub escaped_frame : Cmd → ℕ × Buf
escaped_frame cmd =
    memcpy_esc (update (update (update (update zeroed 0 gp_init) 1 gp_ctrl) 2 cmd.dst) 3 cmd.cmd_n)
      2 (cmd_bytes cmd) 0 (cmd.data_len + 3)

-- The fields that are set before the buffer is filled.
unfoldable pub prepare : Cmd → Gate → Gate
prepare cmd s = record s {
  cfg = record s.cfg { timeout_usec = s.cfg.gp_timeout * 1000; polling = cmd.polling };
  send_mess = record s.send_mess {
    is_expected = 1;
    bank = cmd.bank;
    target = cmd.target_n;
    ev_handler = next_handler cmd s.send_mess.ev_handler;
    dev = cmd.dst;
  };
}

-- `send_mess.len = len_esc; send_mess.buf[len_esc - 1] = GP_END`, with `len_esc` 3 above the count.
unfoldable pub store_frame : ℕ × Buf → Gate → Gate
store_frame (c, buf) s = record s {
  send_mess = record s.send_mess { len = c + 3; buf = update buf (c + 3 - 1) gp_end };
}

-- `devices[send_mess.dev].last_sent = send_mess.sent_time = ms`
unfoldable pub stamp : ℕ → Gate → Gate
stamp ms s = record s {
  send_mess = record s.send_mess { sent_time = ms };
  devices =
      update s.devices s.send_mess.dev (record (s.devices s.send_mess.dev) { last_sent = ms });
}

module _ (w : World) where
  -- `write` returned 0 on a broken pipe, or it failed: the port is closed.
  unfoldable pub close_if_broken : Status → Bool → Action (Unit {0})
  unfolding gp_close
  close_if_broken failed epipe = gp_close
  close_if_broken (count n) epipe = if n == 0 && epipe then gp_close else pure tt

  unfoldable pub send_through : ℕ → Action Status
  unfolding close_if_broken
  send_through fd = do
    usec ← gets (λ s. s.cfg.timeout_usec)
    request (armed usec)
    bytes ← gets (λ s. slice s.send_mess.buf 0 s.send_mess.len)
    request (written fd bytes)
    result ← gets (λ s. w.write s.history)
    close_if_broken result.nwritten result.is_epipe
    pure result.nwritten

  -- A descriptor below 3 ends the process, with code 99 for a closed port.
  unfoldable pub gp_resend : Action Status
  unfolding send_through
  gp_resend s = elim s.cfg.fd [
    | none ↦ exit 99 s
    | some fd ↦ if ltb fd 3 then exit (100 + fd) s else send_through fd s
  ]

  -- Returns the command as it leaves it, with the checksum written into its buffer.
  unfoldable pub gp_send : Cmd → Action (Status × Cmd)
  gp_send cmd = do
    modify (prepare cmd)
    require (ltb cmd.data_len cmd_buff_length)
    let sealed = with_crc cmd
    let frame = escaped_frame sealed
    require (leb (frame.0 + 3) send_buf_length)
    modify (store_frame frame)
    request read_clock
    ms ← gets (λ s. tv2ms (w.clock s.history))
    modify (stamp ms)
    r ← gp_resend
    pure (r, sealed)
