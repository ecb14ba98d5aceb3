-- ===== src/Link/Tests.antt =====
-- Runs of the sending functions of src/gp_layer.c on concrete commands.
use libgate.Base.{
  ◌-◌, ◌≤◌, ◌<◌, ◌≡◌, ◌↔◌, ◌⊎◌, refl, arith, All, [], ◌∷◌, length, true, none, some, Buf, zeroed,
  store_list, update, slice, count,
}
use libgate.Samples.{good_world, open_gate}
use libgate.World.{World}
use libgate.Gate.{Cmd, Gate, fresh_dev}
use libgate.Gate.Action.{done, fault}
use libgate.Codec.Crc.{crc8_xor, crc_loop}
use libgate.Codec.Escape.{memcpy_unesc, escape_code}
use libgate.Codec.Escape.Stuffing.{stuff, specials, IsPlain}
use libgate.Link.{gp_send, with_crc}
use libgate.Link.Frame.{frame, body, frame_received}
use libgate.Link.Sending.{sending, IsSent, gp_send_writes}
use libgate.Link.Bounds.{gp_send_fault_iff}
use libgate.Link.Idle.{poll_cmd}
use libgate.Link.Idle.Round.{Scans, Idles, gp_send_idle_lem}
use libgate.Link.Idle.{Scan}

abbrev broken_world : World
broken_world = record good_world { write = λ h. record { nwritten = count 0; is_epipe = true } }

-- `ad_turn_on` for lock 4 of device 2.
abbrev turn_on : Cmd
turn_on = record {
  target_n = 4;
  ev_handler = none;
  bank = 0;
  set_timeout = 100;
  polling = 0;
  queue = 1;
  data_len = 1;
  dst = 2;
  cmd_n = 7;
  cmd_buff = update zeroed 0 4;
}

-- A command of 63 data bytes that all have to be escaped.
abbrev long_cmd : Cmd
long_cmd = record turn_on { data_len = 63; cmd_buff = λ i. 0xFA }

turn_on-frame : frame turn_on ≡ 0xFA ∷ 0x01 ∷ 2 ∷ 7 ∷ 4 ∷ 3 ∷ 0xF5 ∷ []
unfolding stuff escape_code with_crc crc8_xor crc_loop
turn_on-frame = refl

-- The frame of a poll carries its checksum 0xDE.
poll_frame :
    frame (poll_cmd 1) ≡ 0xFA ∷ 0x01 ∷ 1 ∷ 4 ∷ 0x00 ∷ 0xD0 ∷ 6 ∷ 0x00 ∷ 0x0C ∷ 0xDE ∷ 0xF5 ∷ []
unfolding stuff escape_code with_crc crc8_xor crc_loop poll_cmd
poll_frame = refl

broken_close :
    (t : Gate) × (gp_send broken_world turn_on open_gate ≡ done (count 0, with_crc turn_on) t)
    × (t.cfg.fd ≡ none)
broken_close =
    let (t, runs, sent, port, past) =
      gp_send_writes broken_world turn_on open_gate 3 refl (omega arith) (omega arith)
        (unfold stuff escape_code with_crc crc8_xor crc_loop in omega arith) in
    (t, runs, port)

gp_send_writes_example :
    (t : Gate) × (gp_send good_world turn_on open_gate ≡ done (count 10, with_crc turn_on) t)
    × IsSent good_world turn_on open_gate t
    × (t.cfg.fd ≡ some 3)
    × (t.history ≡ sending 3 turn_on open_gate)
unfolding stuff escape_code with_crc crc8_xor crc_loop
gp_send_writes_example =
    gp_send_writes good_world turn_on open_gate 3 refl (omega arith) (omega arith) (omega arith)

gp_send_fault_iff_example :
    (gp_send good_world long_cmd open_gate ≡ fault)
    ↔ ((120 ≤ 63) ⊎ (127 < length (stuff (body long_cmd))))
gp_send_fault_iff_example = gp_send_fault_iff good_world long_cmd open_gate

-- 63 bytes that all have to be escaped are too long.
long_fault : 127 < length (stuff (body long_cmd))
unfolding stuff escape_code with_crc crc8_xor crc_loop
long_fault = omega arith

abbrev received : Buf
received = store_list zeroed 2 (stuff (body turn_on))

frame_received_example :
    All IsPlain (stuff (body turn_on))
    × ((memcpy_unesc received 2 2 (length (stuff (body turn_on)))).0 ≡ 4)
    × (slice
          (memcpy_unesc received 2 2 (length (stuff (body turn_on)))).1
          2
          (memcpy_unesc received 2 2 (length (stuff (body turn_on)))).0
        ≡ body turn_on)
    × (crc8_xor
          (memcpy_unesc received 2 2 (length (stuff (body turn_on)))).1
          3
          ((memcpy_unesc received 2 2 (length (stuff (body turn_on)))).0 - 1)
        ≡ 0)
unfolding stuff escape_code with_crc crc8_xor crc_loop specials
frame_received_example = frame_received turn_on received 2 refl tt

-- The first device is silent, the second answers.
abbrev silent_gate : Gate
silent_gate = record open_gate {
  devices = update open_gate.devices 1 (record fresh_dev { timeout_count = 7 });
}

gp_send_idle_lem_example :
    (r : Scan) × Scans 7 6 silent_gate.devices 0 r × Idles good_world silent_gate r
gp_send_idle_lem_example = gp_send_idle_lem good_world silent_gate
