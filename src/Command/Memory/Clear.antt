-- ===== src/Command/Memory/Clear.antt =====
-- What `cmd_clear_dev` of src/ad_cmd.c sends to a device.
use libgate.Base.{
  ℕ, zero, suc, ◌+◌, ◌-◌, ◌*◌, ◌/◌, ◌%◌, ◌^◌, ◌≤◌, ◌<◌, ◌≡◌, sym, ap, ◌∙◌, arith, true, false, List,
  [], ◌∷◌, ◌++◌, none, some, get_elem?, ltb,
}
use libgate.World.{World, History, allocated}
use libgate.Gate.{Gate, Cmd}
use libgate.Gate.Action.{done, pure, ◌>>=◌, ◌>>◌, modify, bind_done}
use libgate.Target.{request}
use libgate.Target.Control.{ad_prep_load}
use libgate.Target.Memory.{
  ad_set_token, ad_set_token_bound, ad_get_token_bound, ad_get_date, set_token_cmd,
  set_token_bound_cmd,
}
use libgate.Target.Queued.{
  adding, adding-append, adding_three, adding-nil, banks, twice, queued_adds, both_adds,
  sent_or_queued_adds, set_token_adds, set_token_bound_adds,
}
use libgate.Command.Memory.{cleared, fill_bounds, clear_loop, end_clear, cmd_clear_dev}
use libgate.Command.Memory.Reload.{prep_cmd}

-- `n` blocks of 12 tokens, from `addr` on, each for both banks.
unfoldable pub clear_cmds : ℕ → ℕ → ℕ → List Cmd
clear_cmds dev zero addr = []
clear_cmds dev (suc n) addr =
    banks (set_token_cmd 1 dev addr cleared 12) ++ clear_cmds dev n (addr + 96)

block_at :
    (dev n addr k : ℕ)
    → k < n
    → get_elem? (clear_cmds dev n addr) (2 * k)
      ≡ some (set_token_cmd 1 dev (addr + 96 * k) cleared 12)
unfolding clear_cmds
block_at dev zero addr k h = absurd (omega arith)
block_at dev (suc n) addr zero h = ap (λ a. some (set_token_cmd 1 dev a cleared 12)) (omega arith)
block_at dev (suc n) addr (suc k) h =
    ap (get_elem? (clear_cmds dev (suc n) addr))
      (let e : 2 * suc k ≡ suc (suc (2 * k)) = omega arith in e)
    ∙ block_at dev n (addr + 96) k (omega arith)
    ∙ ap (λ a. some (set_token_cmd 1 dev a cleared 12)) (omega arith)

-- What follows the blocks: the bound of the tokens, the end of the load, and two questions.
unfoldable pub closing_cmds : ℕ → List Cmd
closing_cmds dev =
    banks (set_token_bound_cmd 1 dev 0x7FF8)
    ++ prep_cmd dev 0
      ∷ (banks (request 1 dev 112 0x04 5 (0x00 ∷ 0xA0 ∷ 2 ∷ 0x00 ∷ 0xBE ∷ []))
          ++ request 1 dev 121 0x04 5 (0x00 ∷ 0xD0 ∷ 7 ∷ 0x00 ∷ 0x00 ∷ []) ∷ [])

module _ (w : World) (enough : (h : History) → w.malloc h ≡ true) where
  clear_loop_lem :
      (dev fuel n addr : ℕ) (s : Gate)
      → n < fuel
      → 0x7FF8 ≤ addr + 96 * n
      → addr + 96 * n < 0x7FF8 + 96
      → (g : History) × (clear_loop w dev fuel addr s
          ≡ done tt (adding (clear_cmds dev n addr) g s))
  unfolding clear_loop clear_cmds
  clear_loop_lem dev zero n addr s few low high = absurd (omega arith)
  clear_loop_lem dev (suc fuel) zero addr s few low high =
      let stop : ltb addr 0x7FF8 ≡ false = ground arith in
      (s.history, rw (stop, clear_loop) (ap (done tt) (sym (adding-nil s))))
  clear_loop_lem dev (suc fuel) (suc n) addr s few low high =
      let go : ltb addr 0x7FF8 ≡ true = ground arith in
      let step : (addr + 12 * 8) % 2 ^ 16 ≡ addr + 96 = omega arith in
      let zs : List Cmd = banks (set_token_cmd 1 dev addr cleared 12) in
      let s1 : Gate = adding zs (twice s.history) s in
      let (g, runs) =
        clear_loop_lem dev fuel n (addr + 96) s1 (omega arith) (omega arith) (omega arith) in
      (
        g,
        rw (go, clear_loop)
            (bind_done (ad_set_token 1 dev w addr cleared 12)
                (λ r. clear_loop w dev fuel ((addr + 12 * 8) % 2 ^ 16))
                (set_token_adds w enough 1 dev (omega arith) addr cleared 12 s (omega arith))
              ∙ ap (λ a. clear_loop w dev fuel a s1) step
              ∙ runs
              ∙ ap (done tt)
                  (adding-append zs (clear_cmds dev n (addr + 96)) (twice s.history) g s)),
      )

  end_clear_lem :
      (dev : ℕ) (s : Gate)
      → (s.devices dev).bound_token ≡ 0x7FF8
      → (g : History) × (end_clear w dev s ≡ done 1 (adding (closing_cmds dev) g s))
  unfolding end_clear closing_cmds ad_prep_load ad_get_token_bound ad_get_date request
  end_clear_lem dev s full =
      let bound : Cmd = set_token_bound_cmd 1 dev 0x7FF8 in
      let end : Cmd = prep_cmd dev 0 in
      let ask : Cmd = request 1 dev 112 0x04 5 (0x00 ∷ 0xA0 ∷ 2 ∷ 0x00 ∷ 0xBE ∷ []) in
      let date : Cmd = request 1 dev 121 0x04 5 (0x00 ∷ 0xD0 ∷ 7 ∷ 0x00 ∷ 0x00 ∷ []) in
      let s1 : Gate = adding (banks bound) (twice s.history) s in
      let s2 : Gate = adding (end ∷ []) (allocated ∷ s1.history) s1 in
      let s3 : Gate = adding (banks ask) (twice s2.history) s2 in
      let s4 : Gate = adding (date ∷ []) (allocated ∷ s3.history) s3 in
      (
        s4.history,
        ap
              (λ b.
                (ad_set_token_bound 1 dev w b >>= λ b'. ad_prep_load w 1 dev 0 >>= λ c.
                ad_get_token_bound 1 dev w none >>= λ d. ad_get_date 1 dev w >>= λ e. pure 1)
                  s)
              full
            ∙ bind_done (ad_set_token_bound 1 dev w 0x7FF8)
                (λ b'. ad_prep_load w 1 dev 0 >>= λ c.
                  ad_get_token_bound 1 dev w none >>= λ d. ad_get_date 1 dev w >>= λ e. pure 1)
                (set_token_bound_adds w enough 1 dev (omega arith) 0x7FF8 s)
            ∙ bind_done (ad_prep_load w 1 dev 0)
                (λ c. ad_get_token_bound 1 dev w none >>= λ d. ad_get_date 1 dev w >>= λ e. pure 1)
                (sent_or_queued_adds w enough end s1 (unfold request in λ e. omega arith))
            ∙ bind_done (ad_get_token_bound 1 dev w none) (λ d. ad_get_date 1 dev w >>= λ e. pure 1)
                (both_adds w enough ask s2 (unfold request in λ e. omega arith))
            ∙ bind_done (ad_get_date 1 dev w) (λ e. pure 1) (queued_adds w enough date s3)
            ∙ ap (done 1) (
                ap (λ (x : Gate). adding (date ∷ []) s4.history (adding (banks ask) s3.history x))
                  (adding-append (banks bound) (end ∷ []) s1.history s2.history s)
                ∙ adding_three (banks bound ++ end ∷ []) (banks ask) (date ∷ []) s2.history
                    s3.history s4.history s),
      )

  pub cmd_clear_dev_lem :
      (dev : ℕ) (s : Gate)
      → ((g : History) × (cmd_clear_dev w dev s
            ≡ done 1 (
                adding
                  (prep_cmd dev 0x73 ∷ (clear_cmds dev 340 0xC0 ++ closing_cmds dev))
                  g
                  (fill_bounds dev s))))
        × ((a : ℕ)
            → 0xC0 ≤ a
            → a < 0x8040
            → (k : ℕ) × (get_elem? (clear_cmds dev 340 0xC0) (2 * k)
                ≡ some (set_token_cmd 1 dev (0xC0 + 96 * k) cleared 12))
              × (0xC0 + 96 * k ≤ a)
              × (a < 0xC0 + 96 * k + 96))
  unfolding cmd_clear_dev ad_prep_load fill_bounds
  cmd_clear_dev_lem dev s =
      let prep : Cmd = prep_cmd dev 0x73 in
      let s1 : Gate = adding (prep ∷ []) (allocated ∷ s.history) s in
      let (g, clears) =
        clear_loop_lem dev 341 340 0xC0 s1 (omega arith) (omega arith) (omega arith) in
      let s2 : Gate = adding (clear_cmds dev 340 0xC0) g s1 in
      let (h, closes) = end_clear_lem dev (fill_bounds dev s2) (ground arith) in
      (
        (
          h,
          bind_done (ad_prep_load w 1 dev 1)
                (λ a. clear_loop w dev 341 0xC0 >> (modify (fill_bounds dev) >> end_clear w dev))
                (sent_or_queued_adds w enough prep s (unfold request in λ e. omega arith))
              ∙ bind_done (clear_loop w dev 341 0xC0)
                  (λ x. modify (fill_bounds dev) >> end_clear w dev) clears
              ∙ closes
              ∙ ap (λ (x : Gate). done 1 (fill_bounds dev x))
                  (adding_three (prep ∷ []) (clear_cmds dev 340 0xC0) (closing_cmds dev)
                    (allocated ∷ s.history) g h s),
        ),
        λ a low high. (
          (a - 0xC0) / 96,
          block_at dev 340 0xC0 ((a - 0xC0) / 96) (omega arith),
          omega arith,
          omega arith,
        ),
      )
