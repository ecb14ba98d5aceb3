-- ===== src/Safety/Replies.antt =====
-- The state of the library behind `process_port_input` of src/gp_processor.c.
use libgate.Base.{ℕ, count, ◌==◌, none, some, Option, Status}
use libgate.World.{World}
use libgate.Gate.{Gate, Handler, poll_result, log_read, custom}
use libgate.Gate.Action.{pure}
use libgate.Processor.{App, modify_dev, reply_cmd_n, be16toh, cmd_buff_offset}
use libgate.Processor.Input.{run_handler, plain_reply, process_port_input, info_of, with_info}
use libgate.Safety.{IsSound, Ends, Safe, bind-Safe, if-Safe, pure-Safe, gets-Safe}
use libgate.Safety.Poll.{IsSafe, modify_dev-Safe, poll_result-Safe}
use libgate.Safety.Log.{log_read-Safe}

module _ (w : World) (app : App) (calm : IsSafe app) where
  run_handler-Safe : (h : Handler) (reply : ℕ) → Safe (run_handler w app h reply)
  unfolding run_handler
  run_handler-Safe poll_result reply = poll_result-Safe w app calm reply
  run_handler-Safe log_read reply = log_read-Safe w app calm reply
  run_handler-Safe (custom n) reply = calm.custom n reply

  plain_reply-Safe : Safe (plain_reply w app)
  unfolding plain_reply
  plain_reply-Safe = record {
    ends = λ s v.
        (if-Safe (reply_cmd_n s == 0x09) _ _
            (gets-Safe info_of _ λ rec.
              bind-Safe (modify_dev (with_info rec)) _ (modify_dev-Safe (with_info rec))
                λ x. bind-Safe (app.dev_info rec) _ (calm.dev_info rec) λ told. pure-Safe (count 0))
            (if-Safe (reply_cmd_n s == 0x04) _ (pure (count 0))
              (if-Safe (s.send_mess.target == 112) _ (pure (count 0))
                (gets-Safe (λ s. be16toh s.receiv_mess.buf cmd_buff_offset) _
                  λ bound.
                    bind-Safe (modify_dev (λ d. record d { bound_token = bound })) _
                      (modify_dev-Safe _) λ x. pure-Safe (count 0))
                (pure-Safe (count 0)))
              (pure-Safe (count 0)))).ends
          s v;
  }

  -- Whatever comes in for whatever command.
  pub process_port_input-Safe : (reply : ℕ) → Safe (process_port_input w app reply)
  unfolding process_port_input
  process_port_input-Safe reply = record { ends = λ s v. go s v s.send_mess.ev_handler }
    where
      go :
          (s : Gate)
          → IsSound s
          → (h : Option Handler)
          → Ends {A = Status}
              (λ a. Unit)
              (elim h [ some h ↦ run_handler w app h reply s | none ↦ plain_reply w app s ])
      go s v (some h) = (run_handler-Safe h reply).ends s v
      go s v none = plain_reply-Safe.ends s v
