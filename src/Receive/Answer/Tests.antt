-- ===== src/Receive/Answer/Tests.antt =====
-- Short replies that `gp_receiv` of src/gp_layer.c takes.
use libgate.Base.{◌≡◌, refl, arith, [], ◌∷◌, pos, count, store_list, zeroed}
use libgate.Gate.{Gate}
use libgate.Gate.Action.{done, pure}
use libgate.Samples.{good_world, open_gate}
use libgate.Queue.Fifo.{give}
use libgate.Queue.Line.{Sends, Fits-short, waiting}
use libgate.Target.{request}
use libgate.Processor.{App, default_app}
use libgate.Receive.{accept}
use libgate.Receive.Answer.{short_reply_next}

abbrev app : App
app = default_app good_world (λ n r. pure (count 0))

-- Device 2 refuses a command, and another one waits.
abbrev refused : Gate
refused = record open_gate {
  send_mess = record open_gate.send_mess { dev = 2; target = 5 };
  receiv_mess = record open_gate.receiv_mess {
    buf = store_list zeroed 0 (0xFE ∷ 0x7F ∷ 0 ∷ 0x01 ∷ 2 ∷ 0x55 ∷ 0xAA ∷ 8 ∷ []);
  };
  head2 = request 2 3 5 0x08 0 [] ∷ [];
}

short_reply_next_example :
    (t : Gate) × (accept good_world app 0 (pos 6) refused ≡ done tt t)
    × Sends (give (waiting refused)).0 (give (waiting refused)).1 refused t
short_reply_next_example =
    short_reply_next good_world app 0 (record { memory = λ h. refl; line = λ h. refl }) (pos 6) 3
      refused refl (omega arith)
      (tt, (Fits-short (request 2 3 5 0x08 0 []) (unfold request in omega arith), tt)) refl refl
      λ e. absurd (omega arith)
