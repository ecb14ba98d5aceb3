-- ===== src/Target/Control.antt =====
-- The commands of src/ad_target.c that ask a controller to do something.
use libgate.Base.{ℕ, ◌%◌, [], ◌∷◌, ◌==◌, Status, count, ltb, if◌then◌else◌}
use libgate.World.{World}
use libgate.Gate.{Cmd}
use libgate.Gate.Action.{Action, pure, ◌>>=◌}
use libgate.Queue.{gp_in_cmd}
use libgate.Target.{request, queued, sent_or_queued}

-- A reset has a timeout of its own.
unfoldable pub reset : ℕ → ℕ → ℕ → ℕ → Cmd
reset q gp_dst target_n cmd_n = record (request q gp_dst target_n cmd_n 0 []) { set_timeout = 999 }

module _ (w : World) (q gp_dst : ℕ) where
  unfoldable pub ad_get_info : Action Status
  ad_get_info = sent_or_queued w (request q gp_dst 1 0x09 0 [])

  unfoldable pub ad_soft_reset : Action Status
  unfolding reset
  ad_soft_reset = sent_or_queued w (reset q gp_dst 2 0x0B)

  unfoldable pub ad_hard_reset : Action Status
  unfolding reset
  ad_hard_reset = queued w (reset q gp_dst 3 0x0D)

  unfoldable pub ad_turn_on : ℕ → Action Status
  ad_turn_on subdev = queued w (request q gp_dst 4 0x07 1 (subdev % 256 ∷ []))

  unfoldable pub ad_turn_off : Action Status
  ad_turn_off = queued w (request q gp_dst 5 0x08 0 [])

  -- A new address for the controller, which it takes up by a reset.
  unfoldable pub ad_exchange : ℕ → Action Status
  ad_exchange new_dst = do
    r ← gp_in_cmd w (request q gp_dst 6 0x05 6 (0x00 ∷ 0xC0 ∷ 1 ∷ 0x00 ∷ 0x01 ∷ new_dst % 256 ∷ []))
    (if ltb 0 r then ad_soft_reset else pure (count 0))

  unfoldable pub ad_get_regs : Action Status
  ad_get_regs =
      sent_or_queued w (record (request q gp_dst 10 0x06 2 (0x15 ∷ 0x28 ∷ [])) { polling = 1 })

  unfoldable pub ad_prep_load : ℕ → Action Status
  ad_prep_load enable =
      sent_or_queued w (request q gp_dst 12 0x66 1 ((if enable == 0 then 0 else 0x73) ∷ []))
