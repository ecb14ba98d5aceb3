-- ===== src/Safety/Sending.antt =====
-- The state of the library behind the functions of src/gp_queue.c, and behind the ways in which
-- src/ad_target.c sends a command.
use libgate.Base.{
  ℕ, All, All-append, List, [], ◌∷◌, inl, inr, Bool-cases, ◌==◌, count, bit_or, or_status,
  or_status,
}
use libgate.World.{World, allocated, freed}
use libgate.Gate.{Gate, Cmd}
use libgate.Gate.Action.{pure, request, modify}
use libgate.Link.{with_crc, ad_q_short}
use libgate.Queue.{gp_in_cmd, gp_put_cmd, send_entry, first, second, insert_tail, is_first}
use libgate.Target.{queued, sent_or_queued, in_both_banks, second_bank}
use libgate.Safety.{
  IsSound, Ends, Safe, Short, bind-Safe, if-Safe, request-Safe, pure-Safe, gets-Safe, modify-Safe,
}
use libgate.Safety.Line.{gp_send_then}

module _ (w : World) where
  insert_tail-IsSound : (z : Cmd) (s : Gate) → Short z → IsSound s → IsSound (insert_tail z s)
  unfolding insert_tail
  insert_tail-IsSound z s h v = elim (Bool-cases (is_first z)) [
    | inl e ↦ rw e (record {
      queues = (All-append Short s.head (z ∷ []) v.queues.0 (h, tt), v.queues.1);
      place = v.place;
    })
    | inr e ↦ rw e (record {
      queues = (v.queues.0, All-append Short s.head2 (z ∷ []) v.queues.1 (h, tt));
      place = v.place;
    })
  ]

  pub gp_in_cmd-Safe : (z : Cmd) → Short z → Safe (gp_in_cmd w z)
  unfolding gp_in_cmd
  gp_in_cmd-Safe z h = bind-Safe (request allocated) _ (request-Safe allocated) λ x.
      gets-Safe (λ s. w.malloc s.history) _
        λ enough.
          if-Safe enough _ (pure 0)
            (bind-Safe (modify (insert_tail z)) _ (modify-Safe _ λ s v. insert_tail-IsSound z s h v)
              λ y. pure-Safe {A = ℕ} 1)
            (pure-Safe {A = ℕ} 0)

  pub queued-Safe : (z : Cmd) → Short z → Safe (queued w z)
  unfolding queued
  queued-Safe z h = bind-Safe (gp_in_cmd w z) _ (gp_in_cmd-Safe z h) λ r. pure-Safe (count r)

  pub sent_or_queued-Safe : (z : Cmd) → Short z → Safe (sent_or_queued w z)
  unfolding sent_or_queued
  sent_or_queued-Safe z h =
      if-Safe (z.queue == ad_q_short) _ (queued w z) (gp_send_then w z _ h λ r. pure-Safe r)
        (queued-Safe z h)

  pub in_both_banks-Safe : (z : Cmd) → Short z → Safe (in_both_banks w z)
  unfolding in_both_banks second_bank with_crc
  in_both_banks-Safe z h =
      if-Safe (z.queue == ad_q_short) _ _
        (gp_send_then w z _ h
          λ r. gp_send_then w (second_bank (with_crc z)) _ h λ r'. pure-Safe (or_status r r'))
        (bind-Safe (gp_in_cmd w z) _ (gp_in_cmd-Safe z h) λ r.
          bind-Safe (gp_in_cmd w (second_bank z)) _ (gp_in_cmd-Safe (second_bank z) h)
            λ r'. pure-Safe (count (bit_or r r')))

  send_entry-Safe : (z : Cmd) → Short z → Safe (send_entry w z)
  unfolding send_entry
  send_entry-Safe z h =
      gp_send_then w z _ h λ r. bind-Safe (request freed) _ (request-Safe freed) λ x. pure-Safe r

  second-Ends :
      (l : List Cmd) (s : Gate) → IsSound s → All Short l → Ends (λ a. Unit) (second w l s)
  unfolding second
  second-Ends [] s v h = (tt, v)
  second-Ends (z ∷ rest) s v h =
      (send_entry-Safe z h.0).ends (record s { head2 = rest })
        (record { queues = (v.queues.0, h.1); place = v.place })

  first-Ends : (l : List Cmd) (s : Gate) → IsSound s → All Short l → Ends (λ a. Unit) (first w l s)
  unfolding first
  first-Ends [] s v h = second-Ends s.head2 s v v.queues.1
  first-Ends (z ∷ rest) s v h =
      (send_entry-Safe z h.0).ends (record s { head = rest })
        (record { queues = (h.1, v.queues.1); place = v.place })

  pub gp_put_cmd-Safe : Safe (gp_put_cmd w)
  unfolding gp_put_cmd
  gp_put_cmd-Safe = record { ends = λ s v. first-Ends s.head s v v.queues.0 }
