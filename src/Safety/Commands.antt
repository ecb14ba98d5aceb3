-- ===== src/Safety/Commands.antt =====
-- The state of the library behind the functions of src/ad_target.c, and those of src/db_layer.c and
-- src/ad_cmd.c that a reply can call.
use libgate.Base.{
  Option, some, none, ℕ, zero, suc, ◌+◌, ◌*◌, ◌≤◌, ◌≡◌, refl, arith, Buf, true, ltb, leb, count,
  ◌==◌, not, ◌&&◌, if◌then◌else◌,
}
use libgate.World.{World, Token, synced, token_put, addr_put}
use libgate.Gate.Action.{pure, request, modify, require}
use libgate.Queue.{gp_in_cmd}
use libgate.Target.{queued, sent_or_queued, in_both_banks}
use libgate.Target.Control.{
  ad_get_info, ad_soft_reset, ad_hard_reset, ad_turn_on, ad_turn_off, ad_exchange, ad_get_regs,
  ad_prep_load,
}
use libgate.Target.Memory.{
  ad_get_date, ad_set_date, ad_get_cid, ad_get_buff_addr, ad_get_buff_data, ad_set_buff_addr_down,
  ad_reset_buff, ad_get_token_bound, ad_set_token_bound, ad_reset_token_bound, ad_get_token,
  ad_set_token, ad_get_times, ad_set_times, ad_get_sched_table, ad_set_sched_rec, set_date_cmd,
  set_buff_addr_down_cmd, reset_buff_cmd, set_token_bound_cmd, set_token_cmd, set_times_cmd,
  set_sched_cmd,
}
use libgate.Target.Order.{
  Order, perform, tokens_stored, get_info, soft_reset, hard_reset, turn_off, get_regs, get_date,
  reset_buff, reset_token_bound, get_times, turn_on, exchange, prep_load, set_buff_addr_down,
  set_token_bound, set_date, get_cid, get_buff_addr, get_token_bound, get_sched_table,
  get_buff_data, get_token, set_token, set_times, set_sched_rec,
}
use libgate.Database.{db_get_token_by_c, db_add_token, put_both, db_sync, db_get_cid_by_a}
use libgate.Command.Tokens.{
  AddCid, AdToken, token_for, cmd_add_tocken_to_all, token_addr, cmd_add_cid, write_token,
  move_bound, add_loop, cmd_add_cid_to_all, token_bytes, raise_bound,
}
use libgate.Safety.{
  Safe, bind-Safe, if-Safe, same-IsSound, request-Safe, pure-Safe, gets-Safe, modify-Safe,
}
use libgate.Safety.Sending.{gp_in_cmd-Safe, queued-Safe, sent_or_queued-Safe, in_both_banks-Safe}

module _ (w : World) where
  module _ (q gp_dst : ℕ) where
    exchange-Safe : (a : ℕ) → Safe (ad_exchange w q gp_dst a)
    unfolding ad_exchange ad_soft_reset libgate.Target.request libgate.Target.Control.reset
    exchange-Safe a = bind-Safe (gp_in_cmd w _) _ (gp_in_cmd-Safe w _ (omega arith)) λ r.
        if-Safe (ltb 0 r) _ (pure (count 0)) (sent_or_queued-Safe w _ (omega arith))
          (pure-Safe (count 0))

    set_token-Safe : (a n : ℕ) (records : Buf) → n ≤ 6 → Safe (ad_set_token q gp_dst w a records n)
    unfolding ad_set_token set_token_cmd libgate.Target.request
    set_token-Safe a n records h =
        let room : leb (5 + 8 * n) 120 ≡ true = ground arith in
        bind-Safe (require (leb (5 + 8 * n) 120)) _ (record { ends = λ s v. rw room (tt, v) })
          λ x. in_both_banks-Safe w (set_token_cmd q gp_dst a records n) (omega arith)

    -- What a caller can ask of a device.
    pub perform-Safe : (order : Order) → tokens_stored order ≤ 6 → Safe (perform w q gp_dst order)
    unfolding perform tokens_stored ad_get_info ad_soft_reset ad_hard_reset ad_turn_on ad_turn_off
        ad_get_regs ad_prep_load ad_get_date ad_set_date ad_get_cid ad_get_buff_addr
        ad_get_buff_data ad_set_buff_addr_down ad_reset_buff ad_get_token_bound ad_set_token_bound
        ad_reset_token_bound ad_get_token ad_get_times ad_set_times ad_get_sched_table
        ad_set_sched_rec set_date_cmd set_buff_addr_down_cmd reset_buff_cmd set_token_bound_cmd
        set_times_cmd set_sched_cmd libgate.Target.request libgate.Target.Control.reset
    perform-Safe get_info few = sent_or_queued-Safe w _ (omega arith)
    perform-Safe soft_reset few = sent_or_queued-Safe w _ (omega arith)
    perform-Safe get_regs few = sent_or_queued-Safe w _ (omega arith)
    perform-Safe reset_buff few = sent_or_queued-Safe w _ (omega arith)
    perform-Safe (prep_load a) few = sent_or_queued-Safe w _ (omega arith)
    perform-Safe (set_buff_addr_down a) few = sent_or_queued-Safe w _ (omega arith)
    perform-Safe (get_cid h) few = sent_or_queued-Safe w _ (omega arith)
    perform-Safe (get_buff_data a l) few = sent_or_queued-Safe w _ (omega arith)
    perform-Safe hard_reset few = queued-Safe w _ (omega arith)
    perform-Safe turn_off few = queued-Safe w _ (omega arith)
    perform-Safe (turn_on a) few = queued-Safe w _ (omega arith)
    perform-Safe get_date few = queued-Safe w _ (omega arith)
    perform-Safe (set_date d) few = queued-Safe w _ (omega arith)
    perform-Safe (get_buff_addr h) few = queued-Safe w _ (omega arith)
    perform-Safe reset_token_bound few = in_both_banks-Safe w _ (omega arith)
    perform-Safe get_times few = in_both_banks-Safe w _ (omega arith)
    perform-Safe (set_token_bound a) few = in_both_banks-Safe w _ (omega arith)
    perform-Safe (get_token_bound h) few = in_both_banks-Safe w _ (omega arith)
    perform-Safe (get_sched_table h) few = in_both_banks-Safe w _ (omega arith)
    perform-Safe (get_token a n) few = in_both_banks-Safe w _ (omega arith)
    perform-Safe (set_times t) few = in_both_banks-Safe w _ (omega arith)
    perform-Safe (set_sched_rec num rec h) few = in_both_banks-Safe w _ (omega arith)
    perform-Safe (exchange a) few = exchange-Safe a
    perform-Safe (set_token a records n) few = set_token-Safe a n records few

  -- Requests to the database change nothing that counts.
  pub db_sync-Safe : Safe (db_sync w)
  unfolding db_sync
  db_sync-Safe = bind-Safe (request (synced 0)) _ (request-Safe (synced 0)) λ x.
      gets-Safe (λ s. w.sync s.history) _
        λ tokens. if-Safe (not tokens) (pure 0) _ (pure-Safe {A = ℕ} 0) (
          bind-Safe (request (synced 1)) _ (request-Safe (synced 1)) λ y.
            gets-Safe (λ s. w.sync s.history) _
              λ addrs. if-Safe (not addrs) (pure 0) _ (pure-Safe {A = ℕ} 0) (
                bind-Safe (request (synced 2)) _ (request-Safe (synced 2)) λ z.
                  gets-Safe (λ s. w.sync s.history) _
                    λ params. pure-Safe {A = ℕ} (if params then 1 else 0)))

  put_both-Safe : (rec : Token) → Safe (put_both w rec)
  unfolding put_both
  put_both-Safe rec = bind-Safe (request (token_put rec)) _ (request-Safe (token_put rec)) λ x.
      gets-Safe (λ s. w.put s.history) _
        λ saved. if-Safe (not saved) (pure 0) _ (pure-Safe {A = ℕ} 0) (
          bind-Safe (request (addr_put rec.addr rec.cid)) _
            (request-Safe (addr_put rec.addr rec.cid))
            λ y.
              gets-Safe (λ s. w.put s.history) _
                λ mapped.
                  if-Safe (not mapped) (pure 0) _ (pure-Safe {A = ℕ} 0)
                    (bind-Safe (db_sync w) _ db_sync-Safe λ z. pure-Safe {A = ℕ} 1))

  pub db_get_cid_by_a-Safe : (addr : ℕ) → Safe (db_get_cid_by_a w addr)
  unfolding db_get_cid_by_a
  db_get_cid_by_a-Safe addr = record { ends = λ s v. (tt, v) }

  db_add_token-Safe : (rec : Token) → Safe (db_add_token w rec)
  unfolding db_add_token
  db_add_token-Safe rec =
      bind-Safe (db_get_cid_by_a w rec.addr) _ (db_get_cid_by_a-Safe rec.addr) λ cid.
        if-Safe (not (cid == 0) && not (cid == rec.cid)) (pure (0, rec)) _ (pure-Safe (0, rec)) (
          bind-Safe (put_both w (record rec { zone_mask = 1 })) _
            (put_both-Safe (record rec { zone_mask = 1 }))
            λ r. pure-Safe (r, record rec { zone_mask = 1 }))

  move_bound-Safe : (dev addr : ℕ) → Safe (move_bound w dev addr)
  unfolding move_bound raise_bound ad_set_token_bound set_token_bound_cmd libgate.Target.request
  move_bound-Safe dev addr =
      gets-Safe (λ s. (s.devices dev).bound_token) _
        λ bound.
          if-Safe (leb bound addr) _ (pure 1)
            (bind-Safe (modify (raise_bound dev addr)) _
              (modify-Safe _ λ s v. same-IsSound s _ v refl refl refl refl)
              λ x.
                gets-Safe (λ s. (s.devices dev).bound_token) _
                  λ raised.
                    bind-Safe (ad_set_token_bound 2 dev w raised) _
                      (in_both_banks-Safe w _ (omega arith)) λ r. pure-Safe {A = ℕ} 1)
            (pure-Safe {A = ℕ} 1)

  write_token-Safe : (rec : AddCid) (addr : ℕ) → Safe (write_token w rec addr)
  unfolding write_token
  write_token-Safe rec addr =
      gets-Safe (λ s. (s.devices rec.dev).cid_revert) _
        λ revert.
          bind-Safe (ad_set_token 2 rec.dev w addr (token_bytes rec.token revert) 1) _
            (set_token-Safe 2 rec.dev addr 1 (token_bytes rec.token revert) (omega arith))
            λ r. move_bound-Safe rec.dev addr

  pub cmd_add_cid-Safe : (rec : AddCid) → Safe (cmd_add_cid w rec)
  unfolding cmd_add_cid
  cmd_add_cid-Safe rec =
      gets-Safe (λ s. token_addr rec.token.addr (s.devices rec.dev)) _
        λ addr. bind-Safe (db_get_cid_by_a w addr) _ (db_get_cid_by_a-Safe addr) λ cid.
          if-Safe (not (cid == 0) && not (cid == rec.token.cid)) (pure 0) (write_token w rec addr)
            (pure-Safe {A = ℕ} 0) (write_token-Safe rec addr)

  add_loop-Safe : (left gp_dst : ℕ) (rec : AddCid) → Safe (add_loop w left gp_dst rec)
  unfolding add_loop
  add_loop-Safe zero gp_dst rec = pure-Safe {A = ℕ} 1
  add_loop-Safe (suc left) gp_dst rec =
      gets-Safe (λ s. (s.devices gp_dst).activ == 1) _
        λ active.
          if-Safe active _ (add_loop w left (gp_dst + 1) rec)
            (bind-Safe (cmd_add_cid w (record rec { dev = gp_dst })) _
              (cmd_add_cid-Safe (record rec { dev = gp_dst }))
              λ r.
                if-Safe (r == 0) (pure 0) (add_loop w left (gp_dst + 1) rec) (pure-Safe {A = ℕ} 0)
                  (add_loop-Safe left (gp_dst + 1) rec))
            (add_loop-Safe left (gp_dst + 1) rec)

  pub cmd_add_cid_to_all-Safe : (rec : AddCid) → Safe (cmd_add_cid_to_all w rec)
  unfolding cmd_add_cid_to_all
  cmd_add_cid_to_all-Safe rec =
      gets-Safe (λ s. s.cfg.max_bound_token) _
        λ free. bind-Safe (db_add_token w _) _ (db_add_token-Safe _) λ (r, token).
          gets-Safe (λ s. s.cfg.max_dev_n) _
            λ devs. add_loop-Safe devs 1 (record rec { token = token })

  token_for-Safe : (rec : AdToken) (known : Option Token) → Safe (token_for w rec known)
  unfolding token_for
  token_for-Safe rec (some known) = pure-Safe _
  token_for-Safe rec none =
      gets-Safe (λ s. s.cfg.max_bound_token) _
        λ free. bind-Safe (db_add_token w _) _ (db_add_token-Safe _) λ (r, token). pure-Safe token

  pub cmd_add_tocken_to_all-Safe : (rec : AdToken) → Safe (cmd_add_tocken_to_all w rec)
  unfolding cmd_add_tocken_to_all
  cmd_add_tocken_to_all-Safe rec =
      bind-Safe (db_get_token_by_c w rec.cid) _
        (unfold db_get_token_by_c in record { ends = λ s v. (tt, v) })
        λ known.
          bind-Safe (token_for w rec known) _ (token_for-Safe rec known)
            λ token. gets-Safe (λ s. s.cfg.max_dev_n) _ λ devs. add_loop-Safe devs 1 _
