-- ===== src/Processor/Tests.antt =====
-- Runs of the handlers of src/gp_processor.c.
use libgate.Base.{[], ◌∷◌, count, pos, store_list, zeroed}
use libgate.Gate.{Gate, fresh_dev}
use libgate.Gate.Action.{pure, ◌>>◌}
use libgate.Samples.{good_world, open_gate}
use libgate.Target.Memory.{ad_set_buff_addr_down}
use libgate.Processor.{App, default_app}
use libgate.Processor.Log.{same_event, event_count, events_read}
use libgate.Processor.Log.Told.{new_events, tell_all, events_read_lem}
use libgate.Base.{ℕ, ◌+◌, ◌≤◌, ◌≡◌, refl, arith, ◌↔◌, ◌/◌, ◌%◌, update}
use libgate.Processor.Log.{log_length, next_bound, event_loop, cb_log_read}
use libgate.Processor.{be16toh}
use libgate.Processor.Log.Progress.{behind, IsPlace, asks_for, cb_log_read-progress}

-- Two events are left before the end of the memory, and the log goes on at its start.
wrapped : (log_length 0x0038 0x7FF0 64 ≡ 16) × (next_bound 0x7FF0 2 ≡ 0)
unfolding next_bound log_length
wrapped = (refl, refl)

-- Device 2 has its log from 0x7FF0 to 0x0038, and blocks have 8 events.
abbrev bounds_gate : Gate
bounds_gate = record open_gate {
  cfg = record open_gate.cfg { ev_block_size = 8 };
  send_mess = record open_gate.send_mess { target = 102 };
  receiv_mess = record open_gate.receiv_mess {
    dev = 2;
    buf = store_list zeroed 4 (2 ∷ 0x04 ∷ 0x00 ∷ 0x38 ∷ 0x7F ∷ 0xF0 ∷ []);
  };
}

-- It sends the two events that lie before the end of the memory.
abbrev block_gate : Gate
block_gate = record open_gate {
  send_mess = record open_gate.send_mess { target = 104 };
  receiv_mess = record open_gate.receiv_mess {
    dev = 2;
    len = pos 20;
    buf = store_list zeroed 4 (2 ∷ 0x04 ∷ []);
  };
  devices = update open_gate.devices 2 (record fresh_dev { bound_down = 0x7FF0 });
}

abbrev log_end : ℕ
log_end = 0x0038

abbrev log_start : ℕ
log_start = 0x7FF0

cb_log_read-progress_example :
    let app = default_app good_world (λ n r. pure (count 0)) in
    (cb_log_read good_world app 1 bounds_gate
      ≡ asks_for good_world 2 log_end log_start (log_length log_end log_start 64) bounds_gate)
    × ((log_length log_end log_start 64 ≡ 0) ↔ (log_end ≡ log_start))
    × (log_length log_end log_start 64 % 8 ≡ 0)
    × (log_length log_end log_start 64 ≤ 64)
    × (log_length log_end log_start 64 ≤ behind log_end log_start)
    × (log_start + log_length log_end log_start 64 ≤ 0x8000)
    × (next : ℕ) × (cb_log_read good_world app 1 block_gate
        ≡ (event_loop good_world app (log_length log_end log_start 64 / 8) 6 0
              >> ad_set_buff_addr_down 0 2 good_world next)
            block_gate)
    × IsPlace next
    × (behind log_end next + log_length log_end log_start 64 ≡ behind log_end log_start)
    × ((behind log_end next ≡ 0) ↔ (log_end ≡ next))
unfolding be16toh log_length
cb_log_read-progress_example =
    cb_log_read-progress good_world (default_app good_world (λ n r. pure (count 0))) 1 4 bounds_gate
      block_gate refl (record { aligned = refl; inside = omega arith })
      (record { aligned = refl; inside = omega arith }) (omega arith) (omega arith) refl refl refl
      (omega arith)

-- Three events of device 2: the second one repeats the first.
abbrev log_gate : Gate
log_gate = record open_gate {
  receiv_mess = record open_gate.receiv_mess {
    dev = 2;
    len = pos 24;
    buf = store_list zeroed 4 (
        2 ∷ 0 ∷ 4 ∷ 0 ∷ 0xC0 ∷ 0x11 ∷ 0x01 ∷ 0x09 ∷ 0x30 ∷ 0x15 ∷ 4 ∷ 0 ∷ 0xC0 ∷ 0x11 ∷ 0x01 ∷ 0x09
        ∷ 0x31 ∷ 0x15 ∷ 5 ∷ 0 ∷ 0xC8 ∷ 0x11 ∷ 0x01 ∷ 0x09 ∷ 0x32 ∷ 0x15 ∷ []);
  };
}

-- An application that takes note of each event.
abbrev noting : App
noting = record (default_app good_world (λ n r. pure (count 0))) { dev_ev = λ rec. pure 1 }

events_read_lem_example :
    events_read good_world noting log_gate
    ≡ (tell_all good_world noting ((6, 0) ∷ (22, 1) ∷ [])
          >> ad_set_buff_addr_down 0 2 good_world 24)
        log_gate
unfolding new_events same_event event_count next_bound
events_read_lem_example = events_read_lem good_world noting (λ rec a s t h. (cc, cc)) log_gate
