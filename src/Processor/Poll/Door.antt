-- ===== src/Processor/Poll/Door.antt =====
-- What `cb_get_poll_result` of src/gp_processor.c does at a door for a card that the database knows.
use libgate.Base.{
  ℕ, ◌*◌, ◌/◌, ◌%◌, ◌≡◌, ◌⊎◌, refl, ap, ◌∙◌, arith, true, [], ◌∷◌, ◌++◌, append_assoc, some, Status,
  count, ◌==◌, inl, inr,
}
use libgate.World.{World, History, Token, allocated}
use libgate.Gate.{Gate, Cmd}
use libgate.Gate.Action.{done, pure, ◌>>=◌}
use libgate.Database.{db_get_token_by_c}
use libgate.Database.RoundTrip.{card_at}
use libgate.Target.{request, queued}
use libgate.Target.Control.{ad_turn_on}
use libgate.Command.Tokens.{AddCid, cmd_add_cid, token_addr}
use libgate.Command.Tokens.Bounds.{with_queued, token_cmds, in_cmd_second, cmd_add_cid_lem}
use libgate.Processor.{App, reply_dev}
use libgate.Processor.Poll.{add_cid, after_add, new_card, card_event}

-- The command that opens a door of a device.
abbrev pub opening : ℕ → ℕ → Cmd
opening dev subdev = request 2 dev 4 0x07 1 (subdev % 256 ∷ [])

-- What `cmd_add_cid` is called with for a card with this token.
abbrev pub held_up : ℕ → Token → Gate → AddCid
held_up ev token s = record (add_cid s ev) { token = token }

-- The state in which the door's command waits.
abbrev pub with_opening : ℕ → Gate → Gate
with_opening ev s = with_queued (opening s.receiv_mess.dev (ev % 2) ∷ []) (allocated ∷ s.history) s

module _ (w : World) (app : App) (enough : (h : History) → w.malloc h ≡ true) where
  turn_on_queued :
      (dev subdev : ℕ) (s : Gate)
      → ad_turn_on w 2 dev subdev s
        ≡ done (count 1) (with_queued (opening dev subdev ∷ []) (allocated ∷ s.history) s)
  unfolding ad_turn_on queued
  turn_on_queued dev subdev s =
      ap (λ o. ◌>>=◌ {B = Status} (λ x. o) (λ r. pure (count r)) s)
        (in_cmd_second w enough (opening dev subdev) s (unfold request in refl))

  -- A card that a device does not know, on event 2 or 3, is in the database, and no other card is at
  -- its address there: the door that the event names is opened, before anything else is queued, and
  -- the device is sent the card's token, for both banks and with a new bound if it needs one.
  pub card_event_known :
      (ev : ℕ) (token : Token) (s : Gate)
      → ev / 2 ≡ 1
      → w.get_token s.history (reply_dev s).last_cid ≡ some token
      → let addr = token_addr token.addr (reply_dev s) in
        (card_at w (with_opening ev s) addr ≡ 0) ⊎ (card_at w (with_opening ev s) addr ≡ token.cid)
        → (t : Gate) × (card_event w app ev s ≡ done 0 t)
          × (t.head ≡ s.head)
          × (t.head2
              ≡ s.head2
                ++ opening s.receiv_mess.dev (ev % 2)
                  ∷ token_cmds (held_up ev token s) addr (with_opening ev s))
  unfolding card_event new_card db_get_token_by_c after_add
  card_event_known ev token s event known free =
      let rec = held_up ev token s in
      let s' = with_opening ev s in
      let new : (ev / 2 * 2 == 0x02) ≡ true = ground arith in
      elim (cmd_add_cid_lem w enough rec s') [
        | inl (taken, other, e) ↦ absurd (elim free [ inl a ↦ taken a | inr b ↦ other b ])
        | inr (mine, t, e, gives) ↦ (
          t,
          rw (new, known)
              (ap
                  (λ o.
                    ◌>>=◌ {B = ℕ} (λ x. o)
                      (λ r. cmd_add_cid w rec >>= after_add w app (add_cid s ev) token) s)
                  (turn_on_queued s.receiv_mess.dev (ev % 2) s)
                ∙ ap (λ o. ◌>>=◌ {B = ℕ} (λ x. o) (after_add w app (add_cid s ev) token) s') e),
          gives.queued.0,
          gives.queued.1 ∙ append_assoc s.head2 _ _,
        )
      ]
