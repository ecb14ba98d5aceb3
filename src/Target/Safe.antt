-- ===== src/Target/Safe.antt =====
-- The buffers that the functions of src/ad_target.c write to.
use libgate.Base.{
  ◌↔◌, refl, ◌<◌, ltb, leb, true, false, ℕ, ◌+◌, ◌*◌, ◌≤◌, ◌≡◌, ◌≢◌, arith, Bool-cases, inl, inr,
  ◌==◌, Buf,
}
use libgate.World.{World}
use libgate.Gate.{Gate, Cmd}
use libgate.Gate.Action.{fault, bind_safe}
use libgate.Link.{gp_send, ad_q_short}
use libgate.Link.Bounds.{gp_send_safe, gp_send_returns}
use libgate.Queue.{gp_in_cmd}
use libgate.Target.{request, second_bank, sent_or_queued, queued, in_both_banks}
use libgate.Target.Control.{
  ad_get_info, ad_soft_reset, ad_hard_reset, ad_turn_on, ad_turn_off, ad_exchange, ad_get_regs,
  ad_prep_load,
}
use libgate.Target.Memory.{
  ad_get_date, ad_set_date, ad_get_cid, ad_get_buff_addr, ad_get_buff_data, ad_set_buff_addr_down,
  ad_reset_buff, ad_get_token_bound, ad_set_token_bound, ad_reset_token_bound, ad_get_token,
  ad_set_token, ad_get_times, ad_set_times, ad_get_sched_table, ad_set_sched_rec, set_date_cmd,
  set_buff_addr_down_cmd, reset_buff_cmd, set_token_bound_cmd, set_token_cmd, set_times_cmd,
  set_sched_cmd,
}
use libgate.Target.Order.{
  Order, perform, tokens_stored, get_info, soft_reset, hard_reset, turn_off, get_regs, get_date,
  reset_buff, reset_token_bound, get_times, turn_on, exchange, prep_load, set_buff_addr_down,
  set_token_bound, set_date, get_cid, get_buff_addr, get_token_bound, get_sched_table,
  get_buff_data, get_token, set_token, set_times, set_sched_rec,
}

module _ (w : World) where
  gp_in_cmd_safe : (z : Cmd) (s : Gate) → gp_in_cmd w z s ≢ fault
  unfolding gp_in_cmd
  gp_in_cmd_safe z s = ground arith

  queued_safe : (z : Cmd) (s : Gate) → queued w z s ≢ fault
  unfolding queued
  queued_safe z s = bind_safe (gp_in_cmd w z) _ s (gp_in_cmd_safe z s) λ a t e h. cc

  sent_or_queued_safe : (z : Cmd) (s : Gate) → z.data_len ≤ 60 → sent_or_queued w z s ≢ fault
  unfolding sent_or_queued
  sent_or_queued_safe z s h = elim (Bool-cases (z.queue == ad_q_short)) [
    | inl e ↦ rw e (bind_safe (gp_send w z) _ s (gp_send_safe w z s h) λ a t r f. cc)
    | inr e ↦ rw e (queued_safe z s)
  ]

  both_queued_safe : (z : Cmd) (s : Gate) → z.queue ≢ 0 → in_both_banks w z s ≢ fault
  unfolding in_both_banks
  both_queued_safe z s h =
      let long : (z.queue == ad_q_short) ≡ false = ground arith in
      rw long (
        bind_safe (gp_in_cmd w z) _ s (gp_in_cmd_safe z s) λ a t x.
          bind_safe (gp_in_cmd w (second_bank z)) _ t (gp_in_cmd_safe (second_bank z) t)
            λ b u y f. cc)

  in_both_banks_safe : (z : Cmd) (s : Gate) → z.data_len ≤ 60 → in_both_banks w z s ≢ fault
  unfolding in_both_banks second_bank
  in_both_banks_safe z s h = elim (Bool-cases (z.queue == ad_q_short)) [
    | inl e ↦ rw e (
        bind_safe (gp_send w z) _ s (gp_send_safe w z s h) λ (r, c) t ret.
          bind_safe (gp_send w (second_bank c)) _ t
            (gp_send_safe w (second_bank c) t (gp_send_returns w z s r c t h ret)) λ a u x f. cc)
    | inr e ↦ both_queued_safe z s (λ f. absurd (ground arith))
  ]

  module _ (q gp_dst : ℕ) where
    exchange_safe : (a : ℕ) (s : Gate) → ad_exchange w q gp_dst a s ≢ fault
    unfolding ad_exchange ad_soft_reset request libgate.Target.Control.reset
    exchange_safe a s = bind_safe (gp_in_cmd w _) _ s (gp_in_cmd_safe _ s) λ r t e.
        elim (Bool-cases (ltb 0 r)) [
          | inl f ↦ rw f (sent_or_queued_safe _ t (omega arith))
          | inr f ↦ rw f (λ h. cc)
        ]

    set_token_safe :
        (a n : ℕ) (records : Buf) (s : Gate) → n ≤ 6 → ad_set_token q gp_dst w a records n s ≢ fault
    unfolding ad_set_token set_token_cmd request
    set_token_safe a n records s h =
        let room : leb (5 + 8 * n) 120 ≡ true = ground arith in
        rw room (in_both_banks_safe (set_token_cmd q gp_dst a records n) s (omega arith))

    -- Whatever is asked of a device, in whatever state: nothing is written outside of a buffer, if
    -- no more than 6 tokens are stored at once.
    pub perform_safe :
        (order : Order) (s : Gate) → tokens_stored order ≤ 6 → perform w q gp_dst order s ≢ fault
    unfolding perform tokens_stored ad_get_info ad_soft_reset ad_hard_reset ad_turn_on ad_turn_off
        ad_get_regs ad_prep_load ad_get_date ad_set_date ad_get_cid ad_get_buff_addr
        ad_get_buff_data ad_set_buff_addr_down ad_reset_buff ad_get_token_bound ad_set_token_bound
        ad_reset_token_bound ad_get_token ad_get_times ad_set_times ad_get_sched_table
        ad_set_sched_rec set_date_cmd set_buff_addr_down_cmd reset_buff_cmd set_token_bound_cmd
        set_times_cmd set_sched_cmd request libgate.Target.Control.reset
    perform_safe get_info s few = sent_or_queued_safe _ s (omega arith)
    perform_safe soft_reset s few = sent_or_queued_safe _ s (omega arith)
    perform_safe get_regs s few = sent_or_queued_safe _ s (omega arith)
    perform_safe reset_buff s few = sent_or_queued_safe _ s (omega arith)
    perform_safe (prep_load a) s few = sent_or_queued_safe _ s (omega arith)
    perform_safe (set_buff_addr_down a) s few = sent_or_queued_safe _ s (omega arith)
    perform_safe (get_cid h) s few = sent_or_queued_safe _ s (omega arith)
    perform_safe (get_buff_data a l) s few = sent_or_queued_safe _ s (omega arith)
    perform_safe hard_reset s few = queued_safe _ s
    perform_safe turn_off s few = queued_safe _ s
    perform_safe (turn_on a) s few = queued_safe _ s
    perform_safe get_date s few = queued_safe _ s
    perform_safe (set_date d) s few = queued_safe _ s
    perform_safe (get_buff_addr h) s few = queued_safe _ s
    perform_safe reset_token_bound s few = in_both_banks_safe _ s (omega arith)
    perform_safe get_times s few = in_both_banks_safe _ s (omega arith)
    perform_safe (set_token_bound a) s few = in_both_banks_safe _ s (omega arith)
    perform_safe (get_token_bound h) s few = in_both_banks_safe _ s (omega arith)
    perform_safe (get_sched_table h) s few = in_both_banks_safe _ s (omega arith)
    perform_safe (get_token a n) s few = in_both_banks_safe _ s (omega arith)
    perform_safe (set_times t) s few = in_both_banks_safe _ s (omega arith)
    perform_safe (set_sched_rec num rec h) s few = in_both_banks_safe _ s (omega arith)
    perform_safe (exchange a) s few = exchange_safe a s
    perform_safe (set_token a records n) s few = set_token_safe a n records s few

    -- Queueing tokens overruns the command's buffer exactly where they are more than 14.
    pub ad_set_token_fault_iff :
        (a n : ℕ) (records : Buf) (s : Gate)
        → q ≢ 0
        → (ad_set_token q gp_dst w a records n s ≡ fault) ↔ (14 < n)
    unfolding ad_set_token in_both_banks set_token_cmd request
    ad_set_token_fault_iff a n records s h = elim (Bool-cases (leb (5 + 8 * n) 120)) [
      | inl e ↦ rw e (
        (λ f. absurd (both_queued_safe (set_token_cmd q gp_dst a records n) s h f)),
        λ long. absurd (ground arith),
      )
      | inr e ↦ rw e ((λ f. ground arith), λ long. refl)
    ]
