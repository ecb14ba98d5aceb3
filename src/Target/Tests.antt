-- ===== src/Target/Tests.antt =====
-- Runs of the commands of src/ad_target.c.
use libgate.Base.{◌+◌, ◌*◌, ◌<◌, ◌≡◌, ◌≢◌, ◌↔◌, refl, arith, [], ◌∷◌, none, zeroed, slice, Status}
use libgate.Gate.{Gate, Rtc, TimeZone}
use libgate.Gate.Action.{done, fault}
use libgate.Samples.{good_world, open_gate}
use libgate.Queue.Line.{IsReliable, Fits-short, waiting, Sends}
use libgate.Target.{request, be16, second_bank, in_both_banks}
use libgate.Target.Memory.{
  rtc_bytes, set_date_cmd, set_buff_addr_down_cmd, reset_buff_cmd, set_token_bound_cmd,
  set_token_cmd, set_sched_cmd, ad_set_token,
}
use libgate.Target.Layout.{Writes, commands-Writes}
use libgate.Target.Banks.{in_both_banks_sent}
use libgate.Target.Order.{perform, set_token}
use libgate.Target.Safe.{perform_safe, ad_set_token_fault_iff}

reliable : IsReliable good_world
reliable = record { memory = λ h. refl; line = λ h. refl }

-- Half past nine on the first of November 2012, a Thursday.
abbrev moment : Rtc
moment = record {
  sec = 0x15;
  stop = 0;
  min = 0x30;
  hour = 0x09;
  wday = 4;
  day = 0x01;
  mon = 0x11;
  year = 0x12;
  ctrl = 0x10;
}

abbrev always : TimeZone
always = record {
  wmask = 0x7F;
  begin_hour = 0;
  begin_min = 0;
  end_hour = 0x23;
  end_min = 0x59;
  stub = zeroed;
}

date_bytes :
    slice (set_date_cmd 2 1 moment).cmd_buff 0 13
    ≡ 0x00 ∷ 0xD0 ∷ 8 ∷ 0x00 ∷ 0x00 ∷ 0x15 ∷ 0x30 ∷ 0x09 ∷ 4 ∷ 0x01 ∷ 0x11 ∷ 0x12 ∷ 0x10 ∷ []
unfolding set_date_cmd request rtc_bytes
date_bytes = refl

commands-Writes_example :
    Writes 1 0xD0 0
      (0x15 ∷ 0x30 ∷ 0x09 ∷ 4 ∷ 0x01 ∷ 0x11 ∷ 0x12 ∷ 0x10 ∷ [])
      (set_date_cmd 2 1 moment)
    × Writes 1 0xD0 0x0A (0x7F ∷ 0x90 ∷ []) (set_buff_addr_down_cmd 2 1 0x7F90)
    × Writes 1 0xD0 0x08 (0 ∷ 0 ∷ 0 ∷ 0 ∷ []) (reset_buff_cmd 2 1)
    × Writes 1 0xA0 0xBE (0x7F ∷ 0x90 ∷ []) (set_token_bound_cmd 2 1 0x7F90)
    × Writes 1 0xA0 0x7F90 (slice (λ i. i) 0 (8 * 2)) (set_token_cmd 2 1 0x7F90 (λ i. i) 2)
    × Writes 1 0xA0
        (0x0078 + 8 * 3)
        (0x7F ∷ 0 ∷ 0 ∷ 0x23 ∷ 0x59 ∷ 0 ∷ 0 ∷ 0 ∷ [])
        (set_sched_cmd 2 1 3 always none)
commands-Writes_example =
    commands-Writes 2 1 moment 0x7F90 2 3 (λ i. i) always none (omega arith) (omega arith)
      (omega arith)

in_both_banks_sent_example :
    (r : Status) × (t : Gate) × (in_both_banks good_world (set_token_bound_cmd 0 1 0x00C0) open_gate
      ≡ done r t)
    × Sends
        (set_token_bound_cmd 0 1 0x00C0 ∷ second_bank (set_token_bound_cmd 0 1 0x00C0) ∷ [])
        (waiting open_gate)
        open_gate
        t
unfolding set_token_bound_cmd request second_bank
in_both_banks_sent_example =
    in_both_banks_sent good_world reliable (set_token_bound_cmd 0 1 0x00C0) open_gate 3 refl
      (omega arith) refl (omega arith) (Fits-short _ (omega arith)) (Fits-short _ (omega arith))

perform_safe_example : perform good_world 0 1 (set_token 0x00C0 (λ i. 0xFA) 6) open_gate ≢ fault
unfolding libgate.Target.Order.tokens_stored
perform_safe_example =
    perform_safe good_world 0 1 (set_token 0x00C0 (λ i. 0xFA) 6) open_gate (omega arith)

ad_set_token_fault_iff_example :
    (ad_set_token 2 1 good_world 0x00C0 zeroed 15 open_gate ≡ fault) ↔ (14 < 15)
ad_set_token_fault_iff_example =
    ad_set_token_fault_iff good_world 2 1 0x00C0 15 zeroed open_gate λ e. omega arith
