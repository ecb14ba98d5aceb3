-- ===== src/Command/Schedule/Saved.antt =====
-- What `cmd_saving_sched` of src/ad_cmd.c leaves in the database and sends to the devices.
use mathlib.Core.Path.{fun_ext}
use libgate.Base.{
  ℕ, zero, suc, ◌+◌, ◌-◌, ◌≡◌, refl, sym, ap, ◌∙◌, arith, true, ◌||◌, List, [], ◌∷◌, ◌++◌, Option,
  none, some, ℤ, pos, negsuc, ◌==◌, ltb, if◌then◌else◌, Bool-cases, inl, inr,
}
use libgate.World.{
  World, History, SchedRec, ParamKey, ParamValue, rule_key, sched_key, rule_value, sched_value,
}
use libgate.Gate.{Gate, Cmd, Dev, TimeZone}
use libgate.Gate.Action.{done, pure, ◌>>=◌, bind_done}
use libgate.Gate.Active.{to_active, to_all}
use libgate.Target.{request}
use libgate.Target.Memory.{ad_set_sched_rec, set_sched_cmd}
use libgate.Target.Queued.{adding, adding-append, adding-nil, banks, twice, both_adds}
use libgate.Database.Tables.{IsParamStore, same_key}
use libgate.Database.Quiet.{QuietOn, QuietOn-trans, here, alloc, quiet_param}
use libgate.Database.Params.{low_byte, db_add_param, db_add_param_sched, db_add_param_rule}
use libgate.Database.Params.Kept.{db_add_param_lem}
use libgate.Command.Devices.{sched_zone, sched_loop, cmd_saving_sched_to_all}
use libgate.Command.Schedule.{saving_loop, cmd_saving_sched}

-- The commands for a device that store the `n`-th record of the schedule, which counts from 0.
abbrev pub sched_cmds : ℕ → TimeZone → ℕ → Dev → List Cmd
sched_cmds n t dev d = banks (set_sched_cmd 1 dev n t none)

-- What is sent for a record: its number counts from 1 to 7, and any other is not sent.
abbrev pub record_cmds : Gate → SchedRec → List Cmd
record_cmds s r = elim r.num [
  | negsuc n ↦ []
  | pos n ↦ if n == 0 || ltb 7 n then [] else to_all (sched_cmds (n - 1) (sched_zone r)) s
]

unfoldable pub records_cmds : Gate → List SchedRec → List Cmd
records_cmds s [] = []
records_cmds s (r ∷ rs) = record_cmds s r ++ records_cmds s rs

-- A table of parameters with one value put in.
abbrev pub with_param :
    ParamKey → ParamValue → (ParamKey → Option ParamValue) → ParamKey → Option ParamValue
with_param k v table j = if same_key k j then some v else table j

-- And with the records of a schedule, one after the other.
unfoldable pub with_records :
    ℕ → List SchedRec → (ParamKey → Option ParamValue) → ParamKey → Option ParamValue
with_records zone [] table = table
with_records zone (r ∷ rs) table =
    with_records zone rs (with_param (sched_key zone (low_byte r.num)) (sched_value r) table)

module _ (w : World) (enough : (h : History) → w.malloc h ≡ true) where
  sched_loop_lem :
      (left d n : ℕ) (t : TimeZone) (s : Gate)
      → (g : History) × (sched_loop w left d n t s
          ≡ done tt (adding (to_active (sched_cmds n t) left d s.devices) g s))
        × QuietOn s.history g
  unfolding sched_loop to_active ad_set_sched_rec
  sched_loop_lem zero d n t s = (s.history, ap (done tt) (sym (adding-nil s)), here)
  sched_loop_lem (suc left) d n t s = elim (Bool-cases ((s.devices d).activ == 1)) [
    | inl e ↦
        let z : Cmd = set_sched_cmd 1 d n t none in
        let s1 : Gate = adding (banks z) (twice s.history) s in
        let (g, runs, quiet) = sched_loop_lem left (d + 1) n t s1 in
        (
          g,
          rw e (
              bind_done (ad_set_sched_rec 1 d w n t none) (λ r. sched_loop w left (d + 1) n t)
                (both_adds w enough z s (unfold set_sched_cmd request in λ f. omega arith))
              ∙ runs
              ∙ ap (done tt) (
                  adding-append (banks z) (to_active (sched_cmds n t) left (d + 1) s.devices)
                    (twice s.history) g s)),
          QuietOn-trans (alloc (alloc here)) quiet,
        )
    | inr e ↦ let (g, runs, quiet) = sched_loop_lem left (d + 1) n t s in (g, rw e runs, quiet)
  ]

  to_all_lem :
      (r : SchedRec) (s : Gate)
      → (a : ℕ) × (g : History) × (cmd_saving_sched_to_all w r s
          ≡ done a (adding (record_cmds s r) g s))
        × QuietOn s.history g
  unfolding cmd_saving_sched_to_all sched_zone
  to_all_lem r s = by_num r.num refl
    where
      by_num :
          (num : ℤ)
          → r.num ≡ num
          → (a : ℕ) × (g : History) × (cmd_saving_sched_to_all w r s
              ≡ done a (adding (record_cmds s r) g s))
            × QuietOn s.history g
      by_num (negsuc n) e = (0, s.history, rw e (ap (done 0) (sym (adding-nil s))), here)
      by_num (pos n) e = elim (Bool-cases (n == 0 || ltb 7 n)) [
        | inl f ↦ (0, s.history, rw e (rw f (ap (done 0) (sym (adding-nil s)))), here)
        | inr f ↦
            let (g, runs, quiet) = sched_loop_lem s.cfg.max_dev_n 1 (n - 1) (sched_zone r) s in
            (
              1,
              g,
              rw e (
                  rw f (
                    bind_done (sched_loop w s.cfg.max_dev_n 1 (n - 1) (sched_zone r)) (λ x. pure 1)
                      runs)),
              quiet,
            )
      ]

module _ (w : World) (enough : (h : History) → w.malloc h ≡ true) (store : IsParamStore w)
    (works : (h : History) → w.put h ≡ true) where
  add_param_table :
      (k : ParamKey) (v : ParamValue) (s : Gate)
      → (g : History) × (db_add_param w k v s ≡ done 1 (record s { history = g }))
        × (w.get_param g ≡ with_param k v (w.get_param s.history))
  add_param_table k v s =
      let (g, runs, puts) = db_add_param_lem w store works k v s in (g, runs, fun_ext puts)

  saving_loop_lem :
      (zone : ℕ) (rs : List SchedRec) (s : Gate)
      → (g : History) × (saving_loop w zone rs s ≡ done tt (adding (records_cmds s rs) g s))
        × (w.get_param g ≡ with_records zone rs (w.get_param s.history))
  unfolding saving_loop records_cmds with_records db_add_param_sched
  saving_loop_lem zone [] s = (s.history, ap (done tt) (sym (adding-nil s)), refl)
  saving_loop_lem zone (r ∷ rs) s =
      let k : ParamKey = sched_key zone (low_byte r.num) in
      let (g1, saves, table1) = add_param_table k (sched_value r) s in
      let s1 : Gate = record s { history = g1 } in
      let (a, g2, sends, quiet) = to_all_lem w enough r s1 in
      let s2 : Gate = adding (record_cmds s1 r) g2 s1 in
      let (g3, rest, table3) = saving_loop_lem zone rs s2 in
      (
        g3,
        bind_done (db_add_param w k (sched_value r))
              (λ a. cmd_saving_sched_to_all w r >>= λ b. saving_loop w zone rs) saves
            ∙ bind_done (cmd_saving_sched_to_all w r) (λ b. saving_loop w zone rs) sends
            ∙ rest
            ∙ ap (done tt) (adding-append (record_cmds s r) (records_cmds s rs) g2 g3 s),
        table3 ∙ ap (with_records zone rs) (fun_ext (quiet_param w store quiet) ∙ table1),
      )

  -- While memory is not short and the tables take every value, `cmd_saving_sched` ends with 1. The
  -- first queue gets, for each record in its order and for each device that answers, the commands that
  -- store the record in the two banks; a record with a number other than 1 to 7 is sent to no device.
  -- The table of parameters then has every record under its zone and number, whatever the number, the
  -- last one where several have the same, and the rule's mask for the zone; all else in it is as before.
  pub cmd_saving_sched_lem :
      (rule zone mask : ℕ) (recs : List SchedRec) (s : Gate)
      → (g : History) × (cmd_saving_sched w rule zone mask recs s
          ≡ done 1 (adding (records_cmds s recs) g s))
        × ((k : ParamKey)
            → w.get_param g k
              ≡ with_param
                  (rule_key rule zone)
                  (rule_value mask)
                  (with_records zone recs (w.get_param s.history))
                  k)
  unfolding cmd_saving_sched db_add_param_rule
  cmd_saving_sched_lem rule zone mask recs s =
      let (g1, sends, table1) = saving_loop_lem zone recs s in
      let s1 : Gate = adding (records_cmds s recs) g1 s in
      let (g2, saves, table2) = add_param_table (rule_key rule zone) (rule_value mask) s1 in
      (
        g2,
        bind_done (saving_loop w zone recs)
              (λ x. db_add_param w (rule_key rule zone) (rule_value mask) >>= λ r. pure 1) sends
            ∙ bind_done (db_add_param w (rule_key rule zone) (rule_value mask)) (λ r. pure 1) saves,
        λ k. ap (λ f. f k) (table2 ∙ ap (with_param (rule_key rule zone) (rule_value mask)) table1),
      )
