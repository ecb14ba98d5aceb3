-- ===== src/Safety/Poll.antt =====
-- The state of the library behind `cb_get_poll_result` of src/gp_processor.c.
use libgate.Base.{
  ℕ, ◌+◌, ◌*◌, ◌/◌, refl, arith, true, false, count, ◌==◌, none, some, ◌&&◌, ◌||◌, if◌then◌else◌,
  Option,
}
use libgate.World.{World, Token}
use libgate.Gate.{Dev}
use libgate.Gate.Action.{pure}
use libgate.Codec.Integer.{bin2int}
use libgate.Database.{db_get_token_by_c}
use libgate.Target.Control.{ad_get_regs, ad_turn_on}
use libgate.Target.Order.{perform, tokens_stored, get_regs, turn_on}
use libgate.Command.Tokens.{AddCid, cmd_add_cid}
use libgate.Processor.{
  App, Event, Info, modify_dev, reply_src, reply_cmd_n, reply_dev, cmd_buff_offset, to_size,
}
use libgate.Processor.Poll.{
  after_add, new_card, card_event, card_read, regs_read, cb_get_poll_result, add_cid,
}
use libgate.Safety.{Safe, bind-Safe, if-Safe, same-IsSound, pure-Safe, gets-Safe, modify-Safe}
use libgate.Safety.Commands.{perform-Safe, cmd_add_cid-Safe, cmd_add_cid_to_all-Safe}

-- The functions of the application keep the state sound.
pub record IsSafe (app : App) : Type 0 where
  pub custom : (n reply : ℕ) → Safe (app.custom n reply)
  pub push_new_cid : (rec : AddCid) → Safe (app.push_new_cid rec)
  pub push_found_cid : (rec : AddCid) → Safe (app.push_found_cid rec)
  pub dev_info : (rec : Info) → Safe (app.dev_info rec)
  pub dev_ev : (rec : Event) → Safe (app.dev_ev rec)

-- A change of the device that replied.
pub modify_dev-Safe : (f : Dev → Dev) → Safe (modify_dev f)
unfolding modify_dev
modify_dev-Safe f = modify-Safe _ λ s v. same-IsSound s _ v refl refl refl refl

module _ (w : World) (q dst : ℕ) where
  turn_on-Safe : (subdev : ℕ) → Safe (ad_turn_on w q dst subdev)
  unfolding perform tokens_stored
  turn_on-Safe subdev = perform-Safe w q dst (turn_on subdev) (omega arith)

  get_regs-Safe : Safe (ad_get_regs w q dst)
  unfolding perform tokens_stored
  get_regs-Safe = perform-Safe w q dst get_regs (omega arith)

module _ (w : World) (app : App) (calm : IsSafe app) where
  new_card-Safe :
      (rec : AddCid) (cid : ℕ) (token : Option Token) → Safe (new_card w app rec cid token)
  unfolding new_card after_add
  new_card-Safe rec cid (some token) =
      bind-Safe (ad_turn_on w 2 rec.dev rec.subdev) _ (turn_on-Safe w 2 rec.dev rec.subdev)
        λ opened.
          bind-Safe (cmd_add_cid w (record rec { token = token })) _
            (cmd_add_cid-Safe w (record rec { token = token }))
            λ added.
              if-Safe (added == 0) _ (pure 0) (cmd_add_cid_to_all-Safe w _) (pure-Safe {A = ℕ} 0)
  new_card-Safe rec cid none = calm.push_new_cid _

  card_event-Safe : (ev : ℕ) → Safe (card_event w app ev)
  unfolding card_event db_get_token_by_c
  card_event-Safe ev =
      gets-Safe (λ s. add_cid s ev) _
        λ rec.
          gets-Safe (λ s. (reply_dev s).last_cid) _
            λ cid.
              if-Safe (ev / 2 * 2 == 0x02) _ _
                (bind-Safe (db_get_token_by_c w cid) _ (record { ends = λ s v. (tt, v) })
                  λ token. new_card-Safe rec cid token)
                (if-Safe (ev / 2 * 2 == 0x04) _ (pure 0)
                  (calm.push_found_cid (record rec { token = record rec.token { cid = cid } }))
                  (pure-Safe {A = ℕ} 0))

  card_read-Safe : Safe (card_read w app)
  unfolding card_read
  card_read-Safe =
      gets-Safe
        (λ s.
          bin2int s.receiv_mess.buf cmd_buff_offset (to_size s.receiv_mess.len)
            (reply_dev s).cid_revert)
        _
        λ a.
          bind-Safe
            (modify_dev
              (λ d. if d.last_cid == a then d else record d { last_cid = a; new_cid_flag = 1 }))
            _ (modify_dev-Safe _) λ x. gets-Safe reply_src _ λ src. get_regs-Safe w 0 src

  regs_read-Safe : Safe (regs_read w app)
  unfolding regs_read
  regs_read-Safe =
      gets-Safe (λ s. s.receiv_mess.buf (cmd_buff_offset + 20)) _
        λ ev. gets-Safe reply_dev _ λ dev.
          bind-Safe _ _
            (if-Safe (dev.new_cid_flag == 1 || (if dev.last_ev == ev then false else true))
              (card_event w app ev) (pure 0) (card_event-Safe ev) (pure-Safe {A = ℕ} 0))
            λ handled.
              bind-Safe (modify_dev (λ d. record d { last_ev = ev; new_cid_flag = 0 })) _
                (modify_dev-Safe _) λ x. pure-Safe (count 1)

  pub poll_result-Safe : (reply : ℕ) → Safe (cb_get_poll_result w app reply)
  unfolding cb_get_poll_result
  poll_result-Safe reply = record {
    ends = λ s v.
        (if-Safe (s.send_mess.target == 101 && reply_cmd_n s == 0x04) (card_read w app) _
            card_read-Safe
            (if-Safe (s.send_mess.target == 10 && reply_cmd_n s == 0x06) (regs_read w app)
              (pure (count 0)) regs_read-Safe (pure-Safe (count 0)))).ends
          s v;
  }
