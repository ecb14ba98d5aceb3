-- ===== src/Receive/Swipe/Tests.antt =====
-- A card is held up at a door: runs of `gp_receiv` of src/gp_layer.c behind the checksum.
use libgate.Base.{
  ℕ, ◌≡◌, refl, arith, List, [], ◌∷◌, ◌++◌, some, pos, count, inl, inr, if◌then◌else◌, ◌==◌,
  store_list, zeroed,
}
use libgate.World.{World, Token}
use libgate.Gate.{Gate, poll_result}
use libgate.Gate.Action.{done, pure}
use libgate.Samples.{good_world, open_gate}
use libgate.Codec.Escape.{gp_init}
use libgate.Codec.Integer.{bin2int}
use libgate.Link.Frame.{frame}
use libgate.Database.Tables.{last_addr}
use libgate.Command.Tokens.{token_addr}
use libgate.Command.Tokens.Bounds.{token_cmds}
use libgate.Queue.Line.{frames}
use libgate.Processor.{default_app, App}
use libgate.Processor.Poll.Door.{opening, held_up, with_opening}
use libgate.Receive.{accept}
use libgate.Receive.Swipe.{regs_cmd, taken, card_answer}
use libgate.Receive.Swipe.Door.{door_opens}

-- What is in the buffer behind the reply of device 2 to the command `cmd_n`.
abbrev reply : ℕ → List ℕ → Gate → Gate
reply cmd_n bytes s = record s {
  receiv_mess = record s.receiv_mess {
    buf = store_list zeroed 0 (gp_init ∷ 0x7F ∷ 0 ∷ 0x01 ∷ 2 ∷ cmd_n ∷ bytes);
  };
}

abbrev app : App
app = default_app good_world (λ n r. pure (count 0))

-- Device 2 was asked for a card.
abbrev card_gate : Gate
card_gate = reply 0x04 (0x0A ∷ 0x0B ∷ 0x0C ∷ 0x0D ∷ 0x0E ∷ 0x0F ∷ []) (record open_gate {
  send_mess = record open_gate.send_mess { dev = 2; target = 101; ev_handler = some poll_result };
})

card_answer_example :
    (t : Gate) × (accept good_world app 0 (pos 10) card_gate ≡ done tt t)
    × (frames t.history ≡ frame (regs_cmd 2) ∷ frames card_gate.history)
    × (t.send_mess.is_expected ≡ 1)
    × (t.send_mess.dev ≡ 2)
    × (t.send_mess.target ≡ 10)
    × (t.send_mess.ev_handler ≡ some poll_result)
    × ((t.devices 2).last_cid ≡ bin2int card_gate.receiv_mess.buf 6 6 0)
    × ((t.devices 2).new_cid_flag ≡ (if 0 == bin2int card_gate.receiv_mess.buf 6 6 0 then 0 else 1))
    × (t.cfg.fd ≡ some 3)
    × (t.head ≡ [])
    × (t.head2 ≡ [])
card_answer_example =
    card_answer good_world app 0 10 3 card_gate (λ h. refl) refl (omega arith) (omega arith) refl
      refl refl refl

abbrev known_token : Token
known_token = record {
  cid = 0x0102030405;
  attr = 0;
  schedule_mask = 255;
  addr = 0x00C0;
  zone_mask = 1;
}

-- The database knows every card.
abbrev knowing_world : World
knowing_world = record good_world { get_token = λ h c. some known_token }

-- Device 2 was asked for its registers, and names event 3.
abbrev door_gate : Gate
door_gate =
    reply 0x06
      (0 ∷ 0 ∷ 0 ∷ 0 ∷ 0 ∷ 0 ∷ 0 ∷ 0 ∷ 0 ∷ 0 ∷ 0 ∷ 0 ∷ 0 ∷ 0 ∷ 0 ∷ 0 ∷ 0 ∷ 0 ∷ 0 ∷ 0 ∷ 3 ∷ [])
      (record open_gate {
        send_mess = record open_gate.send_mess {
          dev = 2;
          target = 10;
          ev_handler = some poll_result;
        };
      })

door_opens_example :
    (t : Gate) × (accept knowing_world app 0 (pos 44) door_gate ≡ done tt t)
    × (t.head ≡ [])
    × (t.head2
        ≡ []
          ++ opening 2 1
            ∷ token_cmds
                (held_up 3 known_token (taken 44 door_gate))
                0x00C0
                (with_opening 3 (taken 44 door_gate)))
unfolding last_addr token_addr
door_opens_example =
    door_opens knowing_world app 0 (λ h. refl) 44 known_token door_gate refl refl refl refl
      (inr λ e. omega arith) refl refl (inl refl)
