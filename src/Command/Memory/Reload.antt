-- ===== src/Command/Memory/Reload.antt =====
-- What `cmd_reload_dev` of src/ad_cmd.c sends to a device.
use libgate.Base.{
  ℕ, zero, suc, ◌+◌, ◌%◌, ◌^◌, ◌<◌, ◌≡◌, refl, sym, ap, ◌∙◌, arith, true, false, List, [], ◌∷◌,
  ◌++◌, none, some, length, get_elem?,
}
use libgate.World.{World, History, Token, allocated, cursor_read}
use libgate.Gate.{Gate, Cmd}
use libgate.Gate.Action.{done, pure, ◌>>=◌, ◌>>◌, bind_done}
use libgate.Target.{request}
use libgate.Target.Control.{ad_prep_load}
use libgate.Target.Memory.{ad_set_token, set_token_cmd}
use libgate.Target.Queued.{
  adding, adding-append, adding_three, adding-nil, banks, twice, sent_or_queued_adds,
  set_token_adds,
}
use libgate.Database.{db_get_next_token}
use libgate.Database.Cursor.{IsCursor, place, read_on, made_keeps, db_get_next_token_lem}
use libgate.Command.Tokens.{token_bytes}
use libgate.Command.Memory.{reload_loop, cmd_reload_dev}

-- The tokens, each at its own address and for both banks.
unfoldable pub reload_cmds : ℕ → ℕ → List Token → List Cmd
reload_cmds dev revert [] = []
reload_cmds dev revert (t ∷ ts) =
    banks (set_token_cmd 1 dev (t.addr % 2 ^ 16) (token_bytes t revert) 1)
    ++ reload_cmds dev revert ts

-- `ad_prep_load`, which opens the memory for the load and closes it behind that.
abbrev pub prep_cmd : ℕ → ℕ → Cmd
prep_cmd dev code = request 1 dev 12 0x66 1 (code ∷ [])

module _ (w : World) (listing : History → List Token) (cursor : IsCursor w listing)
    (enough : (h : History) → w.malloc h ≡ true) where
  -- The cursor stands at the `n`-th token and goes on.
  next_token :
      (s : Gate) (n : ℕ)
      → place s.history ≡ some n
      → (h : History) × (db_get_next_token w 0 s
          ≡ done (get_elem? (listing s.history) (n + 1)) (read_on false h s))
        × (place (cursor_read false ∷ h) ≡ some (n + 1))
        × (listing (cursor_read false ∷ h) ≡ listing s.history)
  unfolding place
  next_token s n at_n =
      let (h, reads, made) = db_get_next_token_lem w 0 s in
      let (same_place, same_list) = made_keeps cursor made in
      (
        h,
        reads
            ∙ ap (λ o. done o (read_on false h s))
                (cursor.next h n (same_place ∙ at_n) ∙ ap (λ l. get_elem? l (n + 1)) same_list),
        ap (λ o. elim o [ none ↦ none | some k ↦ some (k + 1) ]) (same_place ∙ at_n),
        cursor.stable (cursor_read false) h refl ∙ same_list,
      )

  twice_keeps : (h : History) → listing (twice h) ≡ listing h
  twice_keeps h = cursor.stable allocated (allocated ∷ h) refl ∙ cursor.stable allocated h refl

  reload_loop_lem :
      (dev fuel : ℕ) (rest : List Token) (n : ℕ) (s : Gate)
      → s.cursor ≡ true
      → place s.history ≡ some n
      → ((i : ℕ) → get_elem? (listing s.history) (n + i) ≡ get_elem? rest i)
      → length rest < fuel
      → (g : History) × (reload_loop w dev fuel (get_elem? rest 0) s
          ≡ done tt (record (adding (reload_cmds dev (s.devices dev).cid_revert rest) g s) {
            cursor = true;
          }))
  unfolding reload_loop reload_cmds place
  reload_loop_lem dev zero rest n s made at_n tokens enough_fuel = absurd (omega arith)
  reload_loop_lem dev (suc fuel) [] n s made at_n tokens enough_fuel = (
    s.history,
    ap (done tt) (
        sym (
          ap (λ (x : Gate). record x { cursor = true }) (adding-nil s)
          ∙ ap (λ c. record s { cursor = c }) (sym made))),
  )
  reload_loop_lem dev (suc fuel) (t ∷ ts) n s made at_n tokens enough_fuel =
      let revert : ℕ = (s.devices dev).cid_revert in
      let bytes = token_bytes t revert in
      let z : Cmd = set_token_cmd 1 dev (t.addr % 2 ^ 16) bytes 1 in
      let s1 : Gate = adding (banks z) (twice s.history) s in
      let (h, reads, at_next, same) = next_token s1 n at_n in
      let s2 : Gate = read_on false h s1 in
      let (g, runs) =
        reload_loop_lem dev fuel ts (n + 1) s2 refl at_next
          (λ i.
            ap (λ l. get_elem? l (n + 1 + i)) (same ∙ twice_keeps s.history)
            ∙ ap (get_elem? (listing s.history)) (omega arith)
            ∙ tokens (suc i))
          (omega arith) in
      (
        g,
        bind_done (ad_set_token 1 dev w (t.addr % 2 ^ 16) bytes 1)
              (λ r. db_get_next_token w 0 >>= λ next. reload_loop w dev fuel next)
              (set_token_adds w enough 1 dev (omega arith) (t.addr % 2 ^ 16) bytes 1 s
                (omega arith))
            ∙ bind_done (db_get_next_token w 0) (λ next. reload_loop w dev fuel next) reads
            ∙ ap (λ o. reload_loop w dev fuel o s2)
                (ap (λ l. get_elem? l (n + 1)) (twice_keeps s.history) ∙ tokens 1)
            ∙ runs
            ∙ ap (λ (x : Gate). done tt (record x { cursor = true }))
                (adding-append (banks z) (reload_cmds dev revert ts) (twice s.history) g s),
      )

  pub cmd_reload_dev_lem :
      (fuel dev : ℕ) (s : Gate)
      → length (listing s.history) < fuel
      → (g : History) × (cmd_reload_dev w fuel dev s
          ≡ done 1
              (record (adding
                (prep_cmd dev 0x73
                  ∷ (reload_cmds dev (s.devices dev).cid_revert (listing s.history)
                      ++ prep_cmd dev 0 ∷ []))
                g
                s) { cursor = true }))
  unfolding cmd_reload_dev ad_prep_load place
  cmd_reload_dev_lem fuel dev s enough_fuel =
      let tokens : List Token = listing s.history in
      let revert : ℕ = (s.devices dev).cid_revert in
      let prep : Cmd = prep_cmd dev 0x73 in
      let close : Cmd = prep_cmd dev 0 in
      let s1 : Gate = adding (prep ∷ []) (allocated ∷ s.history) s in
      let (h, reads, made) = db_get_next_token_lem w 1 s1 in
      let s2 : Gate = read_on true h s1 in
      let same : listing h ≡ tokens =
        (made_keeps cursor made).1 ∙ cursor.stable allocated s.history refl in
      let same' : listing s2.history ≡ tokens = cursor.stable (cursor_read true) h refl ∙ same in
      let (g, runs) =
        reload_loop_lem dev fuel tokens 0 s2 refl refl
          (λ i. ap (λ l. get_elem? l (0 + i)) same' ∙ ap (get_elem? tokens) (omega arith))
          enough_fuel in
      let s3 : Gate = record (adding (reload_cmds dev revert tokens) g s2) { cursor = true } in
      (
        allocated ∷ g,
        bind_done (ad_prep_load w 1 dev 1)
              (λ a. db_get_next_token w 1 >>= λ token.
                reload_loop w dev fuel token >> (ad_prep_load w 1 dev 0 >>= λ b. pure 1))
              (sent_or_queued_adds w enough prep s (unfold request in λ e. omega arith))
            ∙ bind_done (db_get_next_token w 1)
                (λ token. reload_loop w dev fuel token >> (ad_prep_load w 1 dev 0 >>= λ b. pure 1))
                (reads ∙ ap (λ o. done o s2) (cursor.first h ∙ ap (λ l. get_elem? l 0) same))
            ∙ bind_done (reload_loop w dev fuel (get_elem? tokens 0))
                (λ x. ad_prep_load w 1 dev 0 >>= λ b. pure 1) runs
            ∙ bind_done (ad_prep_load w 1 dev 0) (λ b. pure 1)
                (sent_or_queued_adds w enough close s3 (unfold request in λ e. omega arith))
            ∙ ap (λ (x : Gate). done 1 (record x { cursor = true }))
                (adding_three (prep ∷ []) (reload_cmds dev revert tokens) (close ∷ [])
                  (allocated ∷ s.history) g (allocated ∷ g) s),
      )
