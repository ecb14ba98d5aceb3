-- ===== src/Command/Tests.antt =====
-- Runs of src/ad_cmd.c.
use libgate.Base.{
  ℕ, ◌+◌, ◌*◌, ◌≤◌, ◌<◌, List, [], ◌∷◌, ◌++◌, Option, none, some, true, false, get_elem?, arith,
  inr, ap,
}
use libgate.World.{World, History, Token, SchedRec, ParamKey, rule_key, rule_value, cursor_read}
use libgate.Database.Cursor.{IsCursor, place}
use libgate.Database.Tables.{IsStore, IsParamStore, last_token, last_addr, last_param}
use libgate.Target.Memory.{set_token_cmd}
use libgate.Target.Queued.{adding}
use libgate.Gate.Active.{to_all}
use libgate.Command.Devices.{vector_text, cmd_get_dev_vector}
use libgate.Command.Devices.Vector.{bit, cmd_get_dev_bvector_lem}
use libgate.Command.Memory.{cleared, fill_bounds, cmd_clear_dev, cmd_reload_dev}
use libgate.Command.Memory.Clear.{clear_cmds, closing_cmds, cmd_clear_dev_lem}
use libgate.Command.Memory.Reload.{reload_cmds, prep_cmd, cmd_reload_dev_lem}
use libgate.Command.Schedule.{cmd_saving_sched}
use libgate.Command.Schedule.Saved.{records_cmds, with_param, with_records, cmd_saving_sched_lem}
use libgate.Command.Tokens.{AdToken, cmd_add_tocken_to_all}
use libgate.Command.Tokens.Everywhere.{device_cmds, granted, cmd_add_tocken_to_all_lem}
use libgate.Base.{◌≡◌, ◌≢◌, ◌⊎◌, refl, pos, negsuc, update}
use libgate.Gate.{Gate, fresh_dev}
use libgate.Gate.Action.{done}
use libgate.Samples.{good_world, open_gate}
use libgate.Database.RoundTrip.{card_at}
use libgate.Command.Devices.{bvector_loop, cmd_get_dev_bvector, max_dev_limit}
use libgate.Command.Tokens.{AddCid, cmd_add_cid, token_addr}
use libgate.Command.Tokens.Bounds.{Gives, cmd_add_cid_lem}

-- The first and the third device answer.
abbrev two_devices : Gate
two_devices = record open_gate {
  devices =
      update (update open_gate.devices 1 (record fresh_dev { activ = 1; bound_token = 0x00C0 })) 3
        (record fresh_dev { activ = 1; bound_token = 0x00C8 });
}

vector : cmd_get_dev_bvector two_devices ≡ 5
unfolding cmd_get_dev_bvector bvector_loop
vector = refl

limits :
    (max_dev_limit (negsuc 3) ≡ 1) × (max_dev_limit (pos 300) ≡ 255) × (max_dev_limit (pos 9) ≡ 9)
unfolding max_dev_limit
limits = (refl, refl, refl)

abbrev card : AddCid
card = record {
  dev = 1;
  subdev = 0;
  ev = 2;
  token = record { cid = 0x0102030405; attr = 0; schedule_mask = 255; addr = 0; zone_mask = 1 };
}

cmd_add_cid_lem_example :
    ((card_at good_world two_devices (token_addr 0 (two_devices.devices 1)) ≢ 0)
      × (card_at good_world two_devices (token_addr 0 (two_devices.devices 1)) ≢ 0x0102030405)
      × (cmd_add_cid good_world card two_devices ≡ done 0 two_devices))
    ⊎ (((card_at good_world two_devices (token_addr 0 (two_devices.devices 1)) ≡ 0)
          ⊎ (card_at good_world two_devices (token_addr 0 (two_devices.devices 1)) ≡ 0x0102030405))
        × (t : Gate) × (cmd_add_cid good_world card two_devices ≡ done 1 t)
        × Gives card (token_addr 0 (two_devices.devices 1)) two_devices t)
cmd_add_cid_lem_example = cmd_add_cid_lem good_world (λ h. refl) card two_devices

text : cmd_get_dev_vector two_devices ≡ b'1' ∷ b'.' ∷ b'3' ∷ b'.' ∷ b' ' ∷ b'.' ∷ b'.' ∷ b'.' ∷ []
unfolding cmd_get_dev_vector vector_text
text = refl

cmd_get_dev_bvector_lem_example : bit 2 (cmd_get_dev_bvector two_devices) ≡ 1
cmd_get_dev_bvector_lem_example = cmd_get_dev_bvector_lem two_devices 2

tables : IsStore good_world
unfolding last_token last_addr
tables = record { tokens = λ h c. refl; addrs = λ h a. refl }

params : IsParamStore good_world
unfolding last_param
params = record { params = λ h k. refl }

abbrev new_card : AdToken
new_card = record { cid = 0x0A0B0C; attr = 0; schedule_mask = 3 }

abbrev new_token : Token
new_token = record { cid = 0x0A0B0C; attr = 0; schedule_mask = 3; addr = 0x00C0; zone_mask = 1 }

cmd_add_tocken_to_all_lem_example :
    (t : Gate) × (cmd_add_tocken_to_all good_world new_card two_devices ≡ done 1 t)
    × (t.head ≡ [])
    × (t.head2 ≡ [] ++ to_all (device_cmds new_token 0x00C0) two_devices)
    × (good_world.get_token t.history 0x0A0B0C ≡ some new_token)
unfolding granted last_token last_addr
cmd_add_tocken_to_all_lem_example =
    cmd_add_tocken_to_all_lem good_world (λ h. refl) tables (λ h. refl) new_card two_devices
      (omega arith) (omega arith) (inr (refl, refl))

-- A cursor over two tokens.
abbrev two_tokens : List Token
two_tokens = new_token ∷ record new_token { cid = 0x010203; addr = 0x00C8 } ∷ []

reads_two : History → Option Token
reads_two (cursor_read true ∷ h) = some new_token
reads_two (cursor_read false ∷ h) = elim (place h) [
  | none ↦ none
  | some n ↦ get_elem? two_tokens (n + 1)
]
reads_two h = none

abbrev full_world : World
full_world = record good_world { c_get = reads_two }

cursor : IsCursor full_world (λ h. two_tokens)
unfolding reads_two
cursor = record {
  stable = λ e h q. refl;
  first = λ h. refl;
  next = λ h n e. ap (λ o. elim o [ none ↦ none | some k ↦ get_elem? two_tokens (k + 1) ]) e;
}

cmd_reload_dev_lem_example :
    (g : History) × (cmd_reload_dev full_world 3 1 two_devices
      ≡ done 1
          (record (adding
            (prep_cmd 1 0x73 ∷ (reload_cmds 1 0 two_tokens ++ prep_cmd 1 0 ∷ []))
            g
            two_devices) { cursor = true }))
cmd_reload_dev_lem_example =
    cmd_reload_dev_lem full_world (λ h. two_tokens) cursor (λ h. refl) 3 1 two_devices (omega arith)

cmd_clear_dev_lem_example :
    ((g : History) × (cmd_clear_dev good_world 1 two_devices
        ≡ done 1 (
            adding
              (prep_cmd 1 0x73 ∷ (clear_cmds 1 340 0xC0 ++ closing_cmds 1))
              g
              (fill_bounds 1 two_devices))))
    × ((a : ℕ)
        → 0xC0 ≤ a
        → a < 0x8040
        → (k : ℕ) × (get_elem? (clear_cmds 1 340 0xC0) (2 * k)
            ≡ some (set_token_cmd 1 1 (0xC0 + 96 * k) cleared 12))
          × (0xC0 + 96 * k ≤ a)
          × (a < 0xC0 + 96 * k + 96))
cmd_clear_dev_lem_example = cmd_clear_dev_lem good_world (λ h. refl) 1 two_devices

abbrev mornings : List SchedRec
mornings = record { num = pos 2; wmask = 31; begin = 28800; stop = 43200 } ∷ []

cmd_saving_sched_lem_example :
    (g : History) × (cmd_saving_sched good_world 120 1 3 mornings two_devices
      ≡ done 1 (adding (records_cmds two_devices mornings) g two_devices))
    × ((k : ParamKey)
        → good_world.get_param g k
          ≡ with_param
              (rule_key 120 1)
              (rule_value 3)
              (with_records 1 mornings (good_world.get_param []))
              k)
cmd_saving_sched_lem_example =
    cmd_saving_sched_lem good_world (λ h. refl) params (λ h. refl) 120 1 3 mornings two_devices
