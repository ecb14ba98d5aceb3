-- ===== src/Receive/Scans/Setup.antt =====
-- What a device is sent when it answers for the first time, and what the scan of the logs asks, by
-- `gp_dev_init` and `gp_get_dev_logs` of src/gp_layer.c.
use libgate.Base.{
  ℕ, zero, suc, ◌+◌, ◌≡◌, refl, sym, subst, ap, ◌∙◌, arith, true, List, [], ◌∷◌, ◌++◌, none, some,
  update, Status, ◌==◌, Bool-cases, inl, inr,
}
use libgate.World.{World, History, Tm, asked_time, allocated, scan_timer}
use libgate.Gate.{Gate, Cmd, Dev, Times, log_read}
use libgate.Gate.Action.{Outcome, Action, done, pure, ◌>>=◌, ◌>>◌, gets, modify, bind_done}
use libgate.Gate.Active.{to_active, to_all}
use libgate.Clock.{set_rtc_date, rtc_date}
use libgate.Target.{request}
use libgate.Target.Control.{ad_get_info}
use libgate.Target.Memory.{
  ad_set_date, ad_set_times, ad_set_token_bound, ad_get_token_bound, ad_get_times, ad_get_date,
  ad_get_buff_addr, set_date_cmd, set_times_cmd, set_token_bound_cmd,
}
use libgate.Target.Queued.{
  adding, adding-append, adding-nil, banks, queued_adds, both_adds, sent_or_queued_adds,
  set_token_bound_adds, then_queues,
}
use libgate.Receive.Scans.{gp_dev_init, logs_loop, gp_get_dev_logs}

abbrev pub question : ℕ → ℕ → ℕ → ℕ → List ℕ → Cmd
question dev target kind n addr = request 2 dev target 0x04 5 (0x00 ∷ kind ∷ n ∷ addr)

-- The commands that set a device up for a time, door times and a bound of its tokens.
unfoldable pub setup_cmds : ℕ → ℕ → Tm → Times → ℕ → List Cmd
setup_cmds stop dev now times bound =
    set_date_cmd 2 dev (rtc_date now stop)
    ∷ (banks (set_times_cmd 2 dev times)
        ++ (banks (set_token_bound_cmd 2 dev bound)
            ++ request 2 dev 1 0x09 0 []
              ∷ (banks (question dev 112 0xA0 2 (0x00 ∷ 0xBE ∷ []))
                  ++ (banks (question dev 201 0xA0 2 (0x00 ∷ 0x00 ∷ []))
                      ++ question dev 121 0xD0 7 (0x00 ∷ 0x00 ∷ []) ∷ []))))

unfoldable pub inited : ℕ → Gate → Gate
inited dev s = record s {
  devices = update s.devices dev (record (s.devices dev) { is_inited = 1 });
}

-- The question for the bounds of a device's log.
abbrev pub log_question : ℕ → Cmd
log_question dev = record (question dev 102 0xD0 4 (0x00 ∷ 0x08 ∷ [])) {
  ev_handler = some log_read;
}

-- The requests for memory, one for each of these commands.
unfoldable pub allocations : List Cmd → History → History
allocations [] h = h
allocations (z ∷ zs) h = allocations zs (allocated ∷ h)

allocations-append :
    (ys zs : List Cmd) (h : History) → allocations (ys ++ zs) h ≡ allocations zs (allocations ys h)
unfolding allocations
allocations-append [] zs h = refl
allocations-append (y ∷ ys) zs h = allocations-append ys zs (allocated ∷ h)

abbrev pub bounds_question : ℕ → Dev → List Cmd
bounds_question dev d = log_question dev ∷ []

module _ (w : World) (enough : (h : History) → w.malloc h ≡ true) where
  -- While memory is not short, a device that answers for the first time gets these commands at the end
  -- of the second queue, in this order: its clock, the times of its door, and the greatest bound of
  -- all tokens, then questions for its kind, its own bound, its times and its clock; nothing goes to
  -- the first queue. It counts as set up then, and nothing else changes but `curtime`.
  pub gp_dev_init_lem :
      (stop dev : ℕ) (s : Gate)
      → let now = w.localtime (w.time (asked_time ∷ s.history)) in
        (g : History) × (gp_dev_init w stop dev s
          ≡ done 1 (
              inited dev (
                adding
                  (setup_cmds stop dev now s.cfg.times s.cfg.max_bound_token)
                  g
                  (record s { curtime = now }))))
  unfolding gp_dev_init set_rtc_date ad_set_date ad_set_times ad_get_info ad_get_token_bound
      ad_get_times ad_get_date setup_cmds inited request
  gp_dev_init_lem stop dev s =
      let now : Tm = w.localtime (w.time (asked_time ∷ s.history)) in
      let s0 : Gate = record s { curtime = now } in
      let z0 : Cmd = set_date_cmd 2 dev (rtc_date now stop) in
      let z1 : Cmd = set_times_cmd 2 dev s.cfg.times in
      let z2 : Cmd = set_token_bound_cmd 2 dev s.cfg.max_bound_token in
      let z3 : Cmd = request 2 dev 1 0x09 0 [] in
      let z4 : Cmd = question dev 112 0xA0 2 (0x00 ∷ 0xBE ∷ []) in
      let z5 : Cmd = question dev 201 0xA0 2 (0x00 ∷ 0x00 ∷ []) in
      let z6 : Cmd = question dev 121 0xD0 7 (0x00 ∷ 0x00 ∷ []) in
      let f6 : Status → Action ℕ = λ a. modify (inited dev) >> pure 1 in
      let f5 : Status → Action ℕ = λ a. ad_get_date 2 dev w >>= f6 in
      let f4 : Status → Action ℕ = λ a. ad_get_times 2 dev w >>= f5 in
      let f3 : Status → Action ℕ = λ a. ad_get_token_bound 2 dev w none >>= f4 in
      let f2 : Status → Action ℕ = λ a. ad_get_info w 2 dev >>= f3 in
      let f1 : Status → Action ℕ =
        λ a. gets (λ x. x.cfg.max_bound_token) >>= λ b. ad_set_token_bound 2 dev w b >>= f2 in
      let f0 : Status → Action ℕ =
        λ a. gets (λ x. x.cfg.times) >>= λ t. ad_set_times 2 dev w t >>= f1 in
      let P : Outcome ℕ → Type 0 = λ o.
        (g : History) × (o
          ≡ done 1 (
              inited dev
                (adding (setup_cmds stop dev now s.cfg.times s.cfg.max_bound_token) g s0))) in
      let started : Gate = record s0 { history = asked_time ∷ s.history } in
      subst P
        (sym (
          bind_done (ad_set_date 2 dev w (rtc_date now stop)) f0 (queued_adds w enough z0 started)))
        (then_queues P (ad_set_times 2 dev w s.cfg.times) f1 (z0 ∷ []) (banks z1) _ s0
          (_, _, both_adds w enough z1 _ (unfold set_times_cmd in λ e. omega arith))
          λ a1 h1.
            then_queues P (ad_set_token_bound 2 dev w s.cfg.max_bound_token) f2 _ (banks z2) h1 s0
              (_, _, set_token_bound_adds w enough 2 dev (omega arith) s.cfg.max_bound_token _)
              λ a2 h2.
                then_queues P (ad_get_info w 2 dev) f3 _ (z3 ∷ []) h2 s0
                  (_, _, sent_or_queued_adds w enough z3 _ (λ e. omega arith))
                  λ a3 h3.
                    then_queues P (ad_get_token_bound 2 dev w none) f4 _ (banks z4) h3 s0
                      (_, _, both_adds w enough z4 _ (λ e. omega arith))
                      λ a4 h4.
                        then_queues P (ad_get_times 2 dev w) f5 _ (banks z5) h4 s0
                          (_, _, both_adds w enough z5 _ (λ e. omega arith))
                          λ a5 h5.
                            then_queues P (ad_get_date 2 dev w) f6 _ (z6 ∷ []) h5 s0
                              (_, _, queued_adds w enough z6 _) λ a6 h6. (h6, refl))

  logs_loop_lem :
      (left d : ℕ) (s : Gate)
      → let zs = to_active bounds_question left d s.devices in
        logs_loop w left d s ≡ done tt (adding zs (allocations zs s.history) s)
  unfolding logs_loop to_active ad_get_buff_addr request allocations
  logs_loop_lem zero d s = ap (done tt) (sym (adding-nil s))
  logs_loop_lem (suc left) d s = elim (Bool-cases ((s.devices d).activ == 1)) [
    | inl e ↦
        let zs : List Cmd = bounds_question d (s.devices d) in
        let s1 : Gate = adding zs (allocated ∷ s.history) s in
        let more : List Cmd = to_active bounds_question left (d + 1) s.devices in
        rw e (
          bind_done (ad_get_buff_addr 2 d w (some log_read)) (λ r. logs_loop w left (d + 1))
            (queued_adds w enough (log_question d) s)
          ∙ logs_loop_lem left (d + 1) s1
          ∙ ap (done tt) (
              adding-append zs more (allocated ∷ s.history)
                (allocations more (allocated ∷ s.history)) s))
    | inr e ↦ rw e (logs_loop_lem left (d + 1) s)
  ]

  -- While memory is not short, the scan of the logs first sets its timer again and then asks every
  -- device that answers, in their order and at the end of the second queue, for the bounds of its log,
  -- with `cb_log_read` for the reply; of the operating system it asks, beyond the timer, for the memory
  -- of each command, and nothing else changes.
  pub gp_get_dev_logs_lem :
      (s : Gate)
      → let zs = to_all bounds_question s in
        gp_get_dev_logs w s ≡ done tt (adding zs (allocations zs (scan_timer 0 ∷ s.history)) s)
  unfolding gp_get_dev_logs
  gp_get_dev_logs_lem s =
      logs_loop_lem s.cfg.max_dev_n 1 (record s { history = scan_timer 0 ∷ s.history })
