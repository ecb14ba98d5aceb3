-- ===== src/Receive/Swipe/Door.antt =====
-- The reply to the question what happened to a card, as `gp_receiv` of src/gp_layer.c takes it.
use libgate.Base.{
  ℕ, ◌/◌, ◌%◌, ◌≡◌, ◌≢◌, ◌⊎◌, inl, inr, refl, arith, update, true, false, ◌∷◌, ◌++◌, ◌||◌, some,
  pos, ◌==◌, count, if◌then◌else◌,
}
use libgate.World.{World, History, Token}
use libgate.Gate.{Gate, Dev, poll_result}
use libgate.Gate.Action.{done, pure, bind_done, ◌>>◌}
use libgate.Database.RoundTrip.{card_at}
use libgate.Command.Tokens.{token_addr}
use libgate.Command.Tokens.Bounds.{token_cmds}
use libgate.Processor.{App, modify_dev}
use libgate.Processor.Poll.{card_event, regs_read, cb_get_poll_result}
use libgate.Processor.Poll.Door.{opening, held_up, with_opening, card_event_known}
use libgate.Receive.{accept}
use libgate.Receive.Swipe.{taken, handled}

-- The code of the last event is the 21st byte of the registers.
abbrev pub reported : Gate → ℕ
reported s = s.receiv_mess.buf 26

-- The card or the event is another one than the last.
abbrev pub IsNews : Gate → Type 0
IsNews s =
    let d = s.devices (s.receiv_mess.buf 4) in (d.new_cid_flag ≡ 1) ⊎ (d.last_ev ≢ reported s)

module _ (w : World) (app : App) (stop : ℕ) (enough : (h : History) → w.malloc h ≡ true) where
  is_news :
      (s : Gate)
      → IsNews s
      → let d = s.devices (s.receiv_mess.buf 4) in
        (d.new_cid_flag == 1 || (if d.last_ev == reported s then false else true)) ≡ true
  is_news s (inl e) = ground arith
  is_news s (inr e) =
      let other : ((s.devices (s.receiv_mess.buf 4)).last_ev == reported s) ≡ false =
        ground arith in
      rw other (ground arith)

  -- While memory is not short (`malloc` never fails), the registers come in at `accept`, as the answer
  -- of the device that was asked to the question for them, with the handler of the poll: on event 2
  -- or 3 for a card, or an event, that the device did not report last, the door that the event names
  -- is opened, if the database knows the card and has no other card at its address; the opening is
  -- queued at the end of the second queue, before the commands that give the device the card's token,
  -- and the first queue stays as it is.
  pub door_opens :
      (n : ℕ) (token : Token) (s : Gate)
      → s.receiv_mess.buf 4 ≡ s.send_mess.dev
      → s.receiv_mess.buf 5 ≡ 0x06
      → s.send_mess.target ≡ 10
      → s.send_mess.ev_handler ≡ some poll_result
      → IsNews s
      → reported s / 2 ≡ 1
      → let d = s.devices (s.receiv_mess.buf 4) in
        w.get_token s.history d.last_cid ≡ some token
        → let s' = taken n s in
          let addr = token_addr token.addr d in
          let opens = with_opening (reported s) s' in
          (card_at w opens addr ≡ 0) ⊎ (card_at w opens addr ≡ token.cid)
          → (t : Gate) × (accept w app stop (pos n) s ≡ done tt t)
            × (t.head ≡ s.head)
            × (t.head2
                ≡ s.head2
                  ++ opening (s.receiv_mess.buf 4) (reported s % 2)
                    ∷ token_cmds (held_up (reported s) token s') addr opens)
  unfolding cb_get_poll_result regs_read modify_dev
  door_opens n token s from cmd_n target handler news event known free =
      let ev = reported s in
      let asked : (s.send_mess.target == 101) ≡ false = ground arith in
      let regs : (s.send_mess.target == 10) ≡ true = ground arith in
      let named : (s.receiv_mess.buf 5 == 0x06) ≡ true = ground arith in
      let (t, runs, first, second) =
        card_event_known w app enough ev token (taken n s) event known free in
      let store : Dev → Dev = λ d. record d { last_ev = ev; new_cid_flag = 0 } in
      let stored : Gate = record t {
        devices = update t.devices t.receiv_mess.dev (store (t.devices t.receiv_mess.dev));
      } in
      (
        stored,
        handled w app stop n s stored (count 1) from (ground arith) handler
            (rw (asked, regs, named, is_news s news)
              (bind_done (card_event w app ev) (λ r. modify_dev store >> pure (count 1)) runs))
            refl,
        first,
        second,
      )
