-- ===== src/Processor/Input.antt =====
-- `process_port_input` of src/gp_processor.c.
use libgate.Base.{ℕ, ◌+◌, ◌/◌, ◌%◌, none, some, Status, count, ◌==◌, ltb, leb, if◌then◌else◌}
use libgate.World.{World}
use libgate.Gate.{Gate, Dev, Handler, poll_result, log_read, custom}
use libgate.Gate.Action.{Action, pure, gets, ◌>>=◌, ◌>>◌}
use libgate.Processor.{App, Info, reply_cmd_n, cmd_buff_offset, be16toh, modify_dev}
use libgate.Processor.Poll.{cb_get_poll_result}
use libgate.Processor.Log.{gp_max_log_bound, cb_log_read}

-- The bits of a `gp_info_t`.
unfoldable pub info_of : Gate → Info
info_of s =
    let b0 = s.receiv_mess.buf cmd_buff_offset in
    let b1 = s.receiv_mess.buf (cmd_buff_offset + 1) in
    let b2 = s.receiv_mess.buf (cmd_buff_offset + 2) in
    record {
      dev = s.receiv_mess.dev;
      ver = b0 % 16;
      model = b0 / 16;
      release = s.receiv_mess.buf (cmd_buff_offset + 3);
      if_type = if b2 / 8 % 2 == 0 then b1 % 16 else b1 / 16;
    }

-- What the kind of a device says of the order of its bytes and of its memory.
unfoldable pub with_info : Info → Dev → Dev
with_info rec d =
    let d' = record d { cid_revert = if ltb 0 rec.if_type then 1 else 0 } in
    if leb 0x0C rec.model
    then record d' { max_bound_token = 0xFFF0; max_bound_log = gp_max_log_bound }
    else d'

module _ (w : World) (app : App) where
  unfoldable pub run_handler : Handler → ℕ → Action Status
  run_handler poll_result reply = cb_get_poll_result w app reply
  run_handler log_read reply = cb_log_read w app reply
  run_handler (custom n) reply = app.custom n reply

  -- A reply to a command without a handler.
  unfoldable pub plain_reply : Action Status
  plain_reply s =
      (if reply_cmd_n s == 0x09
          then (do
            rec ← gets info_of
            modify_dev (with_info rec)
            told ← app.dev_info rec
            pure (count 0))
          else if reply_cmd_n s == 0x04
          then (if s.send_mess.target == 112
              then (do
                bound ← gets (λ s. be16toh s.receiv_mess.buf cmd_buff_offset)
                modify_dev (λ d. record d { bound_token = bound })
                pure (count 0))
              else pure (count 0))
          else pure (count 0))
        s

  unfoldable pub process_port_input : ℕ → Action Status
  process_port_input reply s = elim s.send_mess.ev_handler [
    | some h ↦ run_handler h reply s
    | none ↦ plain_reply s
  ]
