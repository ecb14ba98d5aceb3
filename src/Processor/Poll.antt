-- ===== src/Processor/Poll.antt =====
-- `cb_get_poll_result` of src/gp_processor.c: the answer of a device that was asked for a card.
pub mod Door
use libgate.Base.{
  ℕ, ◌+◌, ◌*◌, ◌/◌, ◌%◌, true, false, ◌&&◌, ◌||◌, Option, none, some, Status, count, ◌==◌,
  if◌then◌else◌,
}
use libgate.World.{World, Token}
use libgate.Gate.{Gate}
use libgate.Gate.Action.{Action, pure, gets, ◌>>=◌, ◌>>◌}
use libgate.Codec.Integer.{bin2int}
use libgate.Database.{db_get_token_by_c}
use libgate.Target.Control.{ad_get_regs, ad_turn_on}
use libgate.Command.Tokens.{AddCid, cmd_add_cid, cmd_add_cid_to_all}
use libgate.Processor.{App, reply_src, reply_cmd_n, reply_dev, cmd_buff_offset, to_size, modify_dev}

-- The record for the device that replied, with no token yet.
abbrev pub add_cid : Gate → ℕ → AddCid
add_cid s ev = record {
  dev = s.receiv_mess.dev;
  subdev = ev % 2;
  token = record { cid = 0; attr = 0; schedule_mask = 0; addr = 0; zone_mask = 0 };
  ev = ev;
}

module _ (w : World) (app : App) where
  -- A device that cannot take the token at its address gets it at a new one, like all others.
  unfoldable pub after_add : AddCid → Token → ℕ → Action ℕ
  after_add tt' token added =
      if added == 0
      then cmd_add_cid_to_all w (record tt' { token = record token { addr = 0 } })
      else pure 0

  -- A card is held up that is not known to the device: the door opens if the database knows it.
  unfoldable pub new_card : AddCid → ℕ → Option Token → Action ℕ
  new_card tt' cid (some token) = do
    opened ← ad_turn_on w 2 tt'.dev tt'.subdev
    added ← cmd_add_cid w (record tt' { token = token })
    after_add tt' token added
  new_card tt' cid none = app.push_new_cid (record tt' { token = record tt'.token { cid = cid } })

  -- The events 2 and 3 are a card that the device does not know, 4 and 5 one that it does.
  unfoldable pub card_event : ℕ → Action ℕ
  card_event ev = do
    rec ← gets (λ s. add_cid s ev)
    cid ← gets (λ s. (reply_dev s).last_cid)
    (if ev / 2 * 2 == 0x02
        then (do token ← db_get_token_by_c w cid; new_card rec cid token)
        else if ev / 2 * 2 == 0x04
        then app.push_found_cid (record rec { token = record rec.token { cid = cid } })
        else pure 0)

  -- The card that the device read is kept, and the device is asked what happened to it.
  unfoldable pub card_read : Action Status
  card_read = do
    a ← gets (λ s.
        bin2int s.receiv_mess.buf cmd_buff_offset (to_size s.receiv_mess.len)
          (reply_dev s).cid_revert)
    modify_dev (λ d. if d.last_cid == a then d else record d { last_cid = a; new_cid_flag = 1 })
    src ← gets reply_src
    ad_get_regs w 0 src

  -- `ev` is the 21st byte of the registers.
  unfoldable pub regs_read : Action Status
  regs_read = do
    ev ← gets (λ s. s.receiv_mess.buf (cmd_buff_offset + 20))
    dev ← gets reply_dev
    handled ←
        (if dev.new_cid_flag == 1 || (if dev.last_ev == ev then false else true)
          then card_event ev
          else pure 0)
    modify_dev (λ d. record d { last_ev = ev; new_cid_flag = 0 })
    pure (count 1)

  unfoldable pub cb_get_poll_result : ℕ → Action Status
  cb_get_poll_result reply s =
      (if s.send_mess.target == 101 && reply_cmd_n s == 0x04
          then card_read
          else if s.send_mess.target == 10 && reply_cmd_n s == 0x06
          then regs_read
          else pure (count 0))
        s
