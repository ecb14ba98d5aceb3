-- ===== src/Database/Tests.antt =====
-- Runs of src/db_layer.c on tables that keep what is put into them.
use libgate.Base.{[], ◌∷◌, none, pos}
use libgate.World.{sched_key, SchedRec}
use libgate.Database.Params.{db_get_param, db_get_param_rule}
use libgate.Database.Params.Kept.{
  mask, record_of, save_all, save_all_lem, mask_behind, record_behind,
}
use libgate.Database.Tables.{IsParamStore, last_param}
use libgate.Base.{◌≡◌, ◌≢◌, ◌⊎◌, refl, arith, some}
use libgate.World.{Token}
use libgate.Gate.{Gate}
use libgate.Gate.Action.{done}
use libgate.Samples.{good_world, open_gate}
use libgate.Database.{db_add_token, db_get_token_by_a}
use libgate.Database.Tables.{IsStore, last_token, last_addr}
use libgate.Database.RoundTrip.{card_at, Added, db_add_token_lem}

store : IsStore good_world
unfolding last_token last_addr
store = record { tokens = λ h c. refl; addrs = λ h a. refl }

abbrev sample : Token
sample = record { cid = 0x0102030405; attr = 0; schedule_mask = 255; addr = 0x00C0; zone_mask = 0 }

db_add_token_lem_example :
    ((card_at good_world open_gate 0x00C0 ≢ 0)
      × (card_at good_world open_gate 0x00C0 ≢ 0x0102030405)
      × (db_add_token good_world sample open_gate ≡ done (0, sample) open_gate))
    ⊎ (((card_at good_world open_gate 0x00C0 ≡ 0)
          ⊎ (card_at good_world open_gate 0x00C0 ≡ 0x0102030405))
        × (t : Gate) × (db_add_token good_world sample open_gate
            ≡ done (1, record sample { zone_mask = 1 }) t)
        × Added good_world (record sample { zone_mask = 1 }) open_gate t
        × (db_get_token_by_a good_world 0x00C0 t ≡ done (some (record sample { zone_mask = 1 })) t))
db_add_token_lem_example =
    db_add_token_lem good_world store (λ h. refl) sample open_gate (omega arith)

params : IsParamStore good_world
unfolding last_param
params = record { params = λ h k. refl }

abbrev morning : SchedRec
morning = record { num = pos 2; wmask = 31; begin = 28800; stop = 43200 }

-- A rule is saved twice, with a schedule between.
save_all_lem_example :
    (t : Gate) × (save_all good_world
        (mask 120 1 3 ∷ record_of 1 morning ∷ mask 120 1 7 ∷ [])
        open_gate
      ≡ done tt t)
    × (db_get_param_rule good_world 120 1 t
        ≡ done (mask_behind 120 1 (mask 120 1 3 ∷ record_of 1 morning ∷ mask 120 1 7 ∷ []) 0) t)
    × (db_get_param good_world (sched_key 1 2) t
        ≡ done (record_behind 1 2 (mask 120 1 3 ∷ record_of 1 morning ∷ mask 120 1 7 ∷ []) none) t)
unfolding last_param
save_all_lem_example =
    save_all_lem good_world params (λ h. refl)
      (mask 120 1 3 ∷ record_of 1 morning ∷ mask 120 1 7 ∷ []) open_gate 120 1 2
