-- ===== src/Database/Params/Kept.antt =====
-- What the table of parameters of src/db_layer.c keeps.
use libgate.Base.{
  ℕ, ◌≡◌, refl, sym, ap, ◌∙◌, arith, true, ◌&&◌, Option, none, some, List, [], ◌∷◌, ◌==◌, ltb,
  if◌then◌else◌,
}
use libgate.World.{
  World, History, SchedRec, ParamKey, rule_key, sched_key, ParamValue, rule_value, sched_value,
  param_put,
}
use libgate.Gate.{Gate}
use libgate.Gate.Action.{Action, done, pure, ◌>>=◌, bind_done}
use libgate.Database.Quiet.{db_sync-QuietOn, last_param-QuietOn}
use libgate.Database.Tables.{IsParamStore, last_param, same_key}
use libgate.Database.{db_sync}
use libgate.Database.Params.{
  low_byte, first_byte, db_add_param, db_get_param, db_add_param_rule, db_get_param_rule,
  db_add_param_sched,
}

-- What is saved: a mask for a rule and a zone, or a record of a zone's schedule.
pub data Saving : Type 0 where
  mask : ℕ → ℕ → ℕ → Saving
  record_of : ℕ → SchedRec → Saving

unfoldable pub save : World → Saving → Action ℕ
save w (mask rule zone m) = db_add_param_rule w rule zone m
save w (record_of zone r) = db_add_param_sched w zone r

unfoldable pub save_all : World → List Saving → Action (Unit {0})
save_all w [] = pure tt
save_all w (x ∷ xs) = save w x >>= λ r. save_all w xs

-- The mask that counts for a rule and a zone behind a run of savings, `old` before it.
unfoldable pub mask_behind : ℕ → ℕ → List Saving → ℕ → ℕ
mask_behind rule zone [] old = old
mask_behind rule zone (mask rule' zone' m ∷ xs) old =
    mask_behind rule zone xs (if rule' == rule && zone' == zone then m else old)
mask_behind rule zone (record_of zone' r ∷ xs) old = mask_behind rule zone xs old

-- And the record for a zone and a number.
unfoldable pub record_behind : ℕ → ℕ → List Saving → Option ParamValue → Option ParamValue
record_behind zone n [] old = old
record_behind zone n (mask rule' zone' m ∷ xs) old = record_behind zone n xs old
record_behind zone n (record_of zone' r ∷ xs) old =
    record_behind zone n xs
      (if zone' == zone && low_byte r.num == n then some (sched_value r) else old)

-- The mask that a rule above 100 has in a table.
abbrev pub mask_in : World → Gate → ℕ → ℕ → ℕ
mask_in w s rule zone = elim (w.get_param s.history (rule_key rule zone)) [
  | none ↦ 0
  | some v ↦ first_byte v
]

-- One value is put into the table between two histories, whatever it held before.
abbrev pub Puts : World → ParamKey → ParamValue → History → History → Type 0
Puts w k v h g =
    (j : ParamKey) → w.get_param g j ≡ (if same_key k j then some v else w.get_param h j)

module _ (w : World) (store : IsParamStore w) (works : (h : History) → w.put h ≡ true) where
  pub db_add_param_lem :
      (k : ParamKey) (v : ParamValue) (s : Gate)
      → (g : History) × (db_add_param w k v s ≡ done 1 (record s { history = g }))
        × Puts w k v s.history g
  unfolding db_add_param last_param
  db_add_param_lem k v s =
      let h : History = param_put k v ∷ s.history in
      let (r, g, runs, grown) = db_sync-QuietOn w (record s { history = h }) in
      (
        g,
        rw (works h) (bind_done (db_sync w) (λ r. pure 1) runs),
        λ j.
            store.params g j
            ∙ last_param-QuietOn w (w.get_param []) grown j
            ∙ rw (works h)
                (ap (λ o. if same_key k j then some v else o) (sym (store.params s.history j))),
      )

  -- While every `put` succeeds and the table of parameters works as documented, however masks and
  -- schedules are saved, one after the other: a rule from 100 on has the mask that
  -- was saved last for it and the zone, or the one from before, and a rule below 100 has 0xFF; and
  -- each record of a schedule is the one that was saved last under its zone and number.
  pub save_all_lem :
      (xs : List Saving) (s : Gate) (rule zone n : ℕ)
      → (t : Gate) × (save_all w xs s ≡ done tt t)
        × (db_get_param_rule w rule zone t
            ≡ done
                (if ltb rule 100 then 0xFF else mask_behind rule zone xs (mask_in w s rule zone))
                t)
        × (db_get_param w (sched_key zone n) t
            ≡ done (record_behind zone n xs (w.get_param s.history (sched_key zone n))) t)
  unfolding save_all save mask_behind record_behind db_get_param db_get_param_rule db_add_param_rule
      db_add_param_sched first_byte
  save_all_lem [] s rule zone n = (s, refl, ground arith, refl)
  save_all_lem (mask rule' zone' m ∷ xs) s rule zone n =
      let (g, runs, puts) = db_add_param_lem (rule_key rule' zone') (rule_value m) s in
      let (u, rest, rules, records) = save_all_lem xs (record s { history = g }) rule zone n in
      (
        u,
        bind_done (db_add_param w (rule_key rule' zone') (rule_value m)) (λ r. save_all w xs) runs
            ∙ rest,
        ground (arith, rules, puts (rule_key rule zone)),
        ground (arith, records, puts (sched_key zone n)),
      )
  save_all_lem (record_of zone' d ∷ xs) s rule zone n =
      let (g, runs, puts) = db_add_param_lem (sched_key zone' (low_byte d.num)) (sched_value d) s in
      let (u, rest, rules, records) = save_all_lem xs (record s { history = g }) rule zone n in
      (
        u,
        bind_done (db_add_param w (sched_key zone' (low_byte d.num)) (sched_value d))
              (λ r. save_all w xs) runs
            ∙ rest,
        ground (arith, rules, puts (rule_key rule zone)),
        ground (arith, records, puts (sched_key zone n)),
      )
