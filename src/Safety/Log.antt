-- ===== src/Safety/Log.antt =====
-- The state of the library behind `cb_log_read` of src/gp_processor.c.
use libgate.Base.{ℕ, zero, suc, ◌+◌, ◌*◌, refl, arith, ltb, count, ◌==◌, ◌||◌}
use libgate.World.{World}
use libgate.Gate.Action.{pure}
use libgate.Clock.{get_ev_date, get_ev_time, EventDate}
use libgate.Database.{db_get_cid_by_a}
use libgate.Target.Memory.{ad_get_buff_data, ad_set_buff_addr_down}
use libgate.Target.Order.{perform, tokens_stored, get_buff_data, set_buff_addr_down}
use libgate.Processor.{App, modify_dev, reply_src, reply_dev, be16toh, cmd_buff_offset}
use libgate.Processor.Log.{
  gp_max_log_bound, log_length, same_event, event_count, next_bound, bounds_read, push_event,
  event_loop, events_read, cb_log_read,
}
use libgate.Safety.{Safe, bind-Safe, if-Safe, same-IsSound, pure-Safe, gets-Safe}
use libgate.Safety.Commands.{perform-Safe, db_get_cid_by_a-Safe}
use libgate.Safety.Poll.{IsSafe, modify_dev-Safe}

module _ (w : World) (q dst : ℕ) where
  get_buff_data-Safe : (addr l : ℕ) → Safe (ad_get_buff_data q dst w addr l)
  unfolding perform tokens_stored
  get_buff_data-Safe addr l = perform-Safe w q dst (get_buff_data addr l) (omega arith)

  set_buff_addr_down-Safe : (addr : ℕ) → Safe (ad_set_buff_addr_down q dst w addr)
  unfolding perform tokens_stored
  set_buff_addr_down-Safe addr = perform-Safe w q dst (set_buff_addr_down addr) (omega arith)

module _ (w : World) (app : App) (calm : IsSafe app) where
  bounds_read-Safe : Safe (bounds_read w app)
  unfolding bounds_read
  bounds_read-Safe =
      gets-Safe (λ s. be16toh s.receiv_mess.buf cmd_buff_offset) _
        λ up.
          gets-Safe (λ s. be16toh s.receiv_mess.buf (cmd_buff_offset + 2)) _
            λ down.
              gets-Safe (λ s. s.cfg.ev_block_size * 8) _
                λ block. gets-Safe reply_src _ λ src.
                  if-Safe (ltb gp_max_log_bound down || ltb gp_max_log_bound up) (pure (count 0)) _
                    (pure-Safe (count 0))
                    (bind-Safe (modify_dev (λ d. record d { bound_down = down; bound_up = up })) _
                      (modify_dev-Safe _)
                      λ x.
                        if-Safe (log_length up down block == 0) (pure (count 0)) _
                          (pure-Safe (count 0))
                          (get_buff_data-Safe w 0 src down (log_length up down block)))

  get_ev_date-Safe : (d : EventDate) → Safe (get_ev_date d)
  unfolding get_ev_date
  get_ev_date-Safe d = record { ends = λ s v. (tt, same-IsSound s _ v refl refl refl refl) }

  get_ev_time-Safe : (d : EventDate) → Safe (get_ev_time w d)
  unfolding get_ev_time
  get_ev_time-Safe d =
      bind-Safe (get_ev_date d) _ (get_ev_date-Safe d)
        λ t. record { ends = λ s v. (tt, same-IsSound s _ v refl refl refl refl) }

  push_event-Safe : (i c : ℕ) → Safe (push_event w app i c)
  unfolding push_event
  push_event-Safe i c =
      gets-Safe (λ s. s.receiv_mess.buf) _
        λ m. bind-Safe (modify_dev _) _ (modify_dev-Safe _) λ x.
          bind-Safe (db_get_cid_by_a w (be16toh m (i + 1))) _
            (db_get_cid_by_a-Safe w (be16toh m (i + 1)))
            λ cid. bind-Safe (get_ev_time w _) _ (get_ev_time-Safe _) λ ts.
              bind-Safe (get_ev_date _) _ (get_ev_date-Safe _)
                λ ct. gets-Safe (λ s. s.receiv_mess.dev) _ λ dev. calm.dev_ev _

  event_loop-Safe : (left i c : ℕ) → Safe (event_loop w app left i c)
  unfolding event_loop
  event_loop-Safe zero i c = pure-Safe tt
  event_loop-Safe (suc left) i c =
      gets-Safe (λ s. s.receiv_mess.buf) _
        λ m.
          gets-Safe (λ s. (reply_dev s).last_ev_rec) _
            λ last.
              if-Safe (same_event last m i) (event_loop w app left (i + 8) (c + 1)) _
                (event_loop-Safe left (i + 8) (c + 1))
                (bind-Safe (push_event w app i c) _ (push_event-Safe i c)
                  λ told. event_loop-Safe left (i + 8) c)

  events_read-Safe : Safe (events_read w app)
  unfolding events_read
  events_read-Safe =
      gets-Safe (λ s. (reply_dev s).bound_down) _
        λ down.
          gets-Safe (λ s. event_count s.receiv_mess.len) _
            λ n. gets-Safe reply_src _ λ src.
              bind-Safe (event_loop w app n cmd_buff_offset 0) _
                (event_loop-Safe n cmd_buff_offset 0)
                λ x. set_buff_addr_down-Safe w 0 src (next_bound down n)

  pub log_read-Safe : (reply : ℕ) → Safe (cb_log_read w app reply)
  unfolding cb_log_read
  log_read-Safe reply = record {
    ends = λ s v.
        (if-Safe (s.send_mess.target == 102) (bounds_read w app) _ bounds_read-Safe (
            if-Safe (s.send_mess.target == 104) (events_read w app) _ events_read-Safe (
              if-Safe (s.send_mess.target == 103) (pure (count 1)) (pure (count 0))
                (pure-Safe (count 1)) (pure-Safe (count 0))))).ends
          s v;
  }
