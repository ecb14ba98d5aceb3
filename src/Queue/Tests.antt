-- ===== src/Queue/Tests.antt =====
-- Runs of the queues of src/gp_queue.c on concrete commands.
use libgate.Base.{◌≡◌, refl, arith, List, [], ◌∷◌, ◌++◌, reverse, map, Bool, none, zeroed, update}
use libgate.Samples.{good_world, open_gate}
use libgate.Gate.{Cmd, Gate}
use libgate.Gate.Action.{done}
use libgate.Link.Frame.{frame}
use libgate.Queue.Fifo.{Call, enqueue, transmit, serve, of_class, enqueued, waiting_of}
use libgate.Queue.Line.{IsReliable, Fits-short, waiting, frames, Sends}
use libgate.Queue.Service.{run, run_refines, run_fifo}

reliable : IsReliable good_world
reliable = record { memory = λ h. refl; line = λ h. refl }

-- `ad_turn_on` for lock 4, and `ad_turn_off`, of device 2.
abbrev turn_on : Cmd
turn_on = record {
  target_n = 4;
  ev_handler = none;
  bank = 0;
  set_timeout = 100;
  polling = 0;
  queue = 2;
  data_len = 1;
  dst = 2;
  cmd_n = 7;
  cmd_buff = update zeroed 0 4;
}

abbrev turn_off : Cmd
turn_off = record {
  target_n = 5;
  ev_handler = none;
  bank = 0;
  set_timeout = 100;
  polling = 0;
  queue = 1;
  data_len = 0;
  dst = 2;
  cmd_n = 8;
  cmd_buff = zeroed;
}

-- The second command is in the class that goes first.
abbrev calls : List Call
calls = enqueue turn_on ∷ enqueue turn_off ∷ transmit ∷ []

served : (serve calls (waiting open_gate)).0 ≡ turn_off ∷ []
unfolding serve libgate.Queue.Fifo.give libgate.Queue.Fifo.take_in
served = refl

run_refines_example :
    (t : Gate) × (run good_world calls open_gate ≡ done tt t)
    × Sends (serve calls (waiting open_gate)).0 (serve calls (waiting open_gate)).1 open_gate t
run_refines_example =
    run_refines good_world calls open_gate 3 reliable refl (omega arith) (tt, tt)
      (Fits-short turn_on (omega arith), (Fits-short turn_off (omega arith), (tt, tt)))

run_fifo_example :
    (t : Gate) × (out : List Cmd) × (run good_world calls open_gate ≡ done tt t)
    × (frames t.history ≡ reverse (map frame out) ++ frames open_gate.history)
    × ((b : Bool)
        → of_class b out ++ waiting_of b (waiting t)
          ≡ waiting_of b (waiting open_gate) ++ of_class b (enqueued calls))
run_fifo_example =
    run_fifo good_world calls open_gate 3 reliable refl (omega arith) (tt, tt)
      (Fits-short turn_on (omega arith), (Fits-short turn_off (omega arith), (tt, tt)))
      (record { firsts = tt; seconds = tt })
