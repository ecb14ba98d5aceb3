-- ===== src/Receive/Tests.antt =====
-- Runs of `gp_receiv` of src/gp_layer.c.
use libgate.Base.{some}
use libgate.World.{History, ReadResult, allocated, scan_timer}
use libgate.Base.{ℕ}
use libgate.Gate.Active.{to_active}
use libgate.Target.Queued.{adding}
use libgate.Receive.Scans.{gp_dev_init, gp_get_dev_logs}
use libgate.Receive.Scans.Setup.{
  setup_cmds, inited, log_question, allocations, gp_dev_init_lem, gp_get_dev_logs_lem,
}
use libgate.Receive.Full.{full_buffer_closes}
use libgate.Receive.Pieces.Whole.{receive_times, last_reading, first_taken, gp_receiv_pieces}
use libgate.Base.{
  true, update, ℕ, ◌≡◌, refl, arith, List, [], ◌∷◌, none, pos, Buf, slice, count, ltb,
  if◌then◌else◌, zeroed,
}
use libgate.World.{World, unreadable, bytes_read}
use libgate.Gate.{Gate, Cmd, initial_gate, fresh_dev}
use libgate.Gate.Action.{done, exited, pure}
use libgate.Samples.{good_world, open_gate}
use libgate.Codec.Crc.{xor_all}
use libgate.Codec.Escape.{gp_init, gp_end, escape_code}
use libgate.Codec.Escape.Stuffing.{stuff}
use libgate.Queue.Line.{Fits-short, frames}
use libgate.Link.Frame.{frame}
use libgate.Processor.{App, default_app}
use libgate.Receive.{gp_receiv, accept, timed_out, after_read, elapsed}
use libgate.Receive.Reply.{decoded}
use libgate.Receive.Arrival.{reading, answered, gp_receiv_reply}
use libgate.Receive.Timeout.{timed_out_closed, read_failed}

abbrev app : App
app = default_app good_world (λ n r. pure (count 0))

-- An acknowledgement of `ad_turn_off` by device 2.
abbrev ack : List ℕ
ack = 0x01 ∷ 2 ∷ 0x55 ∷ 0x55 ∷ 8 ∷ 0x0B ∷ []

-- The second device answers the read of an idle port.
abbrev answering : World
answering = record good_world {
  read = λ h. bytes_read (gp_init ∷ 0x7F ∷ 0 ∷ 0x01 ∷ 2 ∷ 0x55 ∷ 0x55 ∷ 8 ∷ 0x0B ∷ gp_end ∷ []);
}

abbrev asked : Gate
asked = record open_gate {
  send_mess = record open_gate.send_mess { dev = 2; target = 5; is_expected = 1 };
  devices = update open_gate.devices 2 (record fresh_dev { is_inited = 1 });
}

gp_receiv_reply_example :
    (m' : Buf) × (gp_receiv answering app 0 3 true asked ≡ (
      if ltb 0 (xor_all ack)
      then done tt (decoded m' (reading 3 (answered answering asked)))
      else accept answering app 0 (pos 6) (decoded m' (reading 3 (answered answering asked)))))
    × (slice m' 3 6 ≡ ack)
unfolding stuff escape_code
gp_receiv_reply_example =
    gp_receiv_reply answering app 0 3 0x7F 0 0x01 (2 ∷ 0x55 ∷ 0x55 ∷ 8 ∷ 0x0B ∷ []) asked refl
      (λ e. omega arith) refl (λ e. omega arith) (λ e. omega arith) (omega arith)
      λ j low high e. omega arith

abbrev turn_off : Cmd
turn_off = record {
  target_n = 5;
  ev_handler = none;
  bank = 0;
  set_timeout = 100;
  polling = 0;
  queue = 1;
  data_len = 0;
  dst = 2;
  cmd_n = 8;
  cmd_buff = zeroed;
}

-- A port that cannot be opened, with a command that waits.
abbrev no_port : World
no_port = record good_world { open_port = λ h. none }

abbrev waiting_gate : Gate
waiting_gate = record initial_gate { head = turn_off ∷ [] }

timed_out_closed_example : (t : Gate) × (timed_out no_port app 0 7005 waiting_gate ≡ exited 99 t)
unfolding elapsed
timed_out_closed_example =
    timed_out_closed no_port app 0 7005 turn_off [] waiting_gate refl (λ h. refl) (omega arith) refl
      (Fits-short turn_off (omega arith))

read_failed_example :
    (t : Gate) × (after_read good_world app 0 0 134 unreadable
        (record open_gate { head = turn_off ∷ [] })
      ≡ exited 99 t)
read_failed_example =
    read_failed good_world app 0 0 134 turn_off [] (record open_gate { head = turn_off ∷ [] }) refl
      (Fits-short turn_off (omega arith))

-- The same acknowledgement in three pieces.
three_pieces : History → ReadResult
three_pieces (a ∷ b ∷ c ∷ []) = bytes_read (gp_init ∷ 0x7F ∷ [])
three_pieces (a ∷ b ∷ c ∷ d ∷ e ∷ f ∷ []) = bytes_read (0 ∷ 0x01 ∷ 2 ∷ 0x55 ∷ 0x55 ∷ [])
three_pieces h = bytes_read (8 ∷ 0x0B ∷ gp_end ∷ [])

abbrev slow_world : World
slow_world = record good_world { read = three_pieces }

abbrev last_state : Gate
last_state =
    last_reading slow_world 3 (gp_init ∷ 0x7F ∷ []) ((0 ∷ 0x01 ∷ 2 ∷ 0x55 ∷ 0x55 ∷ []) ∷ [])
      (first_taken slow_world 3 (gp_init ∷ 0x7F ∷ []) asked)

gp_receiv_pieces_example :
    (m' : Buf) × (receive_times slow_world app 0 3 2 asked ≡ (
      if ltb 0 (xor_all ack)
      then done tt (decoded m' last_state)
      else accept slow_world app 0 (pos 6) (decoded m' last_state)))
    × (slice m' 3 6 ≡ ack)
unfolding stuff escape_code three_pieces
gp_receiv_pieces_example =
    gp_receiv_pieces slow_world app 0 3 0x7F 0 0x01 (2 ∷ 0x55 ∷ 0x55 ∷ 8 ∷ 0x0B ∷ []) (0x7F ∷ [])
      ((0 ∷ 0x01 ∷ 2 ∷ 0x55 ∷ 0x55 ∷ []) ∷ []) 8 (0x0B ∷ gp_end ∷ []) asked refl (λ e. omega arith)
      ((λ e. cc), tt) refl (refl, (refl, (refl, tt))) (λ e. omega arith) (λ e. omega arith)
      (omega arith) λ j low high e. omega arith

abbrev full_buffer : Gate
full_buffer = record asked {
  receiv_buf_p = some 134;
  receiv_mess = record asked.receiv_mess { len = pos 134 };
}

full_buffer_closes_example :
    (z : Cmd) × (t : Gate) × (gp_receiv answering app 0 3 true full_buffer ≡ done tt t)
    × (t.cfg.fd ≡ none)
    × ((z.dst ≡ 2) × (z.cmd_n ≡ 0x0B) × (z.data_len ≡ 0))
    × (frames t.history ≡ frame z ∷ frames full_buffer.history)
full_buffer_closes_example =
    full_buffer_closes answering app 0 3 3 _ full_buffer refl refl (λ e. omega arith) refl
      (omega arith) refl

gp_dev_init_lem_example :
    (g : History) × (gp_dev_init good_world 0 5 open_gate
      ≡ done 1 (
          inited 5 (
            adding
              (setup_cmds 0 5 (good_world.localtime 100007) open_gate.cfg.times 0x00C0)
              g
              (record open_gate { curtime = good_world.localtime 100007 }))))
gp_dev_init_lem_example = gp_dev_init_lem good_world (λ h. refl) 0 5 open_gate

abbrev answering_gate : Gate
answering_gate = record open_gate {
  devices = update open_gate.devices 2 (record fresh_dev { activ = 1 });
}

gp_get_dev_logs_lem_example :
    gp_get_dev_logs good_world answering_gate
    ≡ done tt (adding (log_question 2 ∷ []) (allocated ∷ scan_timer 0 ∷ []) answering_gate)
unfolding to_active allocations
gp_get_dev_logs_lem_example = gp_get_dev_logs_lem good_world (λ h. refl) answering_gate
