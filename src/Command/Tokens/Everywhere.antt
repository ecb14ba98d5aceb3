-- ===== src/Command/Tokens/Everywhere.antt =====
-- The functions of src/ad_cmd.c that give a card to every device that answers.
use libgate.Base.{
  append_assoc, append-nil, subst, ◌⊎◌, ℕ, zero, suc, ◌+◌, ◌%◌, ◌^◌, ◌≤◌, ◌<◌, ◌≡◌, refl, sym, ap,
  ◌∙◌, arith, true, List, [], ◌++◌, Option, none, some, ◌==◌, leb, if◌then◌else◌, Bool-cases, inl,
  inr,
}
use libgate.World.{World, History, Token}
use libgate.Gate.{Gate, Cmd, Dev}
use libgate.Gate.Action.{done, pure, ◌>>=◌, gets, bind_done}
use libgate.Gate.Active.{to_active, to_all, to_active_ext}
use libgate.Target.Memory.{set_token_cmd, set_token_bound_cmd}
use libgate.Database.{db_get_token_by_c}
use libgate.Database.Tables.{IsStore}
use libgate.Database.Quiet.{QuietOn, QuietOn-trans, here, quiet_addr, quiet_token}
use libgate.Database.RoundTrip.{card_at, db_add_token_lem}
use libgate.Command.Tokens.{
  AddCid, AdToken, token_bytes, token_addr, cmd_add_cid, add_loop, token_for, cmd_add_tocken_to_all,
}
use libgate.Command.Tokens.Bounds.{both, Gives, cmd_add_cid_lem}

-- What a device is sent for a token at `addr`.
abbrev pub device_cmds : Token → ℕ → ℕ → Dev → List Cmd
device_cmds token addr dev d =
    both (set_token_cmd 2 dev addr (token_bytes token d.cid_revert) 1)
    ++ (if leb d.bound_token addr
        then both (set_token_bound_cmd 2 dev ((addr + 8) % 2 ^ 16))
        else [])

-- Between `s` and `t` the commands were added to the second queue, and no table was changed.
pub record Reaches (cmds : List Cmd) (s t : Gate) : Type 0 where
  pub first : t.head ≡ s.head
  pub second : t.head2 ≡ s.head2 ++ cmds
  pub tables : QuietOn s.history t.history

own_addr : (addr : ℕ) (d : Dev) → 0x00C0 ≤ addr → addr < 2 ^ 16 → token_addr addr d ≡ addr
unfolding token_addr
own_addr addr d low high = ground arith

module _ (w : World) (enough : (h : History) → w.malloc h ≡ true) (store : IsStore w) where
  -- No device refuses a card that has its address in the database.
  add_cid_step :
      (rec : AddCid) (s : Gate)
      → 0x00C0 ≤ rec.token.addr
      → rec.token.addr < 2 ^ 16
      → card_at w s rec.token.addr ≡ rec.token.cid
      → (t : Gate) × (cmd_add_cid w rec s ≡ done 1 t) × Gives rec rec.token.addr s t
  add_cid_step rec s low high known =
      let own = own_addr rec.token.addr (s.devices rec.dev) low high in
      elim (cmd_add_cid_lem w enough rec s) [
        | inl (taken, other, e) ↦ absurd (other (ap (card_at w s) own ∙ known))
        | inr (free, t, e, gives) ↦ (t, e, subst (λ a. Gives rec a s t) own gives)
      ]

  add_loop_lem :
      (left d : ℕ) (rec : AddCid) (s : Gate)
      → 0x00C0 ≤ rec.token.addr
      → rec.token.addr < 2 ^ 16
      → card_at w s rec.token.addr ≡ rec.token.cid
      → (t : Gate) × (add_loop w left d rec s ≡ done 1 t)
        × Reaches (to_active (device_cmds rec.token rec.token.addr) left d s.devices) s t
  unfolding add_loop to_active
  add_loop_lem zero d rec s low high known =
      (s, refl, record { first = refl; second = sym (append-nil s.head2); tables = here })
  add_loop_lem (suc left) d rec s low high known = elim (Bool-cases ((s.devices d).activ == 1)) [
    | inl e ↦
        let (u, added, gives) = add_cid_step (record rec { dev = d }) s low high known in
        let (t, runs, reaches) = add_loop_lem left (d + 1) rec u low high (
          ap (λ o. elim o [ none ↦ 0 | some c ↦ c ])
            (quiet_addr w store gives.tables (rec.token.addr % 2 ^ 32))
          ∙ known) in
        (
          t,
          rw e (
              bind_done (cmd_add_cid w (record rec { dev = d }))
                (λ r. if r == 0 then pure 0 else add_loop w left (d + 1) rec) added
              ∙ runs),
          record {
            first = reaches.first ∙ gives.queued.0;
            second =
                reaches.second
                ∙ ap
                    (λ l.
                      l ++ to_active (device_cmds rec.token rec.token.addr) left (d + 1) u.devices)
                    gives.queued.1
                ∙ append_assoc s.head2 _ _
                ∙ rw e (
                    ap (λ l. s.head2 ++ (device_cmds rec.token rec.token.addr d (s.devices d) ++ l))
                      (to_active_ext (device_cmds rec.token rec.token.addr) left (d + 1) u.devices
                        s.devices (λ x h. gives.others x (λ same. absurd (omega arith)))));
            tables = QuietOn-trans gives.tables reaches.tables;
          },
        )
    | inr e ↦
        let (t, runs, reaches) = add_loop_lem left (d + 1) rec s low high known in
        (
          t,
          rw e runs,
          record { first = reaches.first; second = rw e reaches.second; tables = reaches.tables },
        )
  ]

-- The token that a card gets: the one in the database with the new rights, or a new one at the first
-- free address.
unfoldable pub granted : AdToken → Option Token → ℕ → Token
granted in_rec (some old) free = record old {
  attr = in_rec.attr;
  schedule_mask = in_rec.schedule_mask;
}
granted in_rec none free = record {
  cid = in_rec.cid;
  attr = in_rec.attr;
  schedule_mask = in_rec.schedule_mask;
  addr = free;
  zone_mask = 1;
}

found_at :
    (w : World) (s : Gate) (addr : ℕ) {cid : ℕ}
    → addr % 2 ^ 32 ≡ addr
    → w.get_addr s.history addr ≡ some cid
    → card_at w s addr ≡ cid
found_at w s addr whole e =
    ap (λ o. elim o [ none ↦ 0 | some c ↦ c ]) (ap (w.get_addr s.history) whole ∙ e)

module _ (w : World) (enough : (h : History) → w.malloc h ≡ true) (store : IsStore w)
    (works : (h : History) → w.put h ≡ true) where
  all_devices :
      (token : Token) (s u : Gate)
      → u ≡ record s { history = u.history }
      → 0x00C0 ≤ token.addr
      → token.addr < 2 ^ 16
      → card_at w u token.addr ≡ token.cid
      → (t : Gate) × (add_loop w s.cfg.max_dev_n 1
            (record { dev = 0; subdev = 0; token = token; ev = 0 })
            u
          ≡ done 1 t)
        × (t.head ≡ s.head)
        × (t.head2 ≡ s.head2 ++ to_all (device_cmds token token.addr) s)
        × QuietOn u.history t.history
  all_devices token s u same low high known =
      let (t, runs, reaches) =
        add_loop_lem w enough store s.cfg.max_dev_n 1
          (record { dev = 0; subdev = 0; token = token; ev = 0 }) u low high known in
      (
        t,
        runs,
        reaches.first ∙ ap (λ x. x.head) same,
        reaches.second
            ∙ ap
                (λ x.
                  x.head2 ++ to_active (device_cmds token token.addr) s.cfg.max_dev_n 1 x.devices)
                same,
        reaches.tables,
      )

  -- By what the database knows of the card.
  give_all :
      (in_rec : AdToken) (s : Gate) (known : Option Token)
      → w.get_token s.history in_rec.cid ≡ known
      → let token = granted in_rec known s.cfg.max_bound_token in
        0x00C0 ≤ token.addr
        → token.addr < 2 ^ 16
        → (card_at w s token.addr ≡ token.cid) ⊎ ((known ≡ none) × (card_at w s token.addr ≡ 0))
        → (t : Gate) × (cmd_add_tocken_to_all w in_rec s ≡ done 1 t)
          × (t.head ≡ s.head)
          × (t.head2 ≡ s.head2 ++ to_all (device_cmds token token.addr) s)
          × (w.get_token t.history in_rec.cid
              ≡ elim known [ some old ↦ some old | none ↦ some token ])
  unfolding cmd_add_tocken_to_all db_get_token_by_c token_for granted
  give_all in_rec s (some old) e low high free =
      let token = granted in_rec (some old) s.cfg.max_bound_token in
      let at_addr : card_at w s token.addr ≡ token.cid = elim free [
        | inl h ↦ h
        | inr (unknown, h) ↦ absurd cc
      ] in
      let (t, runs, first, second, tables) = all_devices token s s refl low high at_addr in
      (t, rw e runs, first, second, quiet_token w store tables in_rec.cid ∙ e)
  give_all in_rec s none e low high free =
      let token = granted in_rec none s.cfg.max_bound_token in
      elim (db_add_token_lem w store works (record token { zone_mask = 0 }) s (omega arith)) [
        | inl (taken, other, refused) ↦
            absurd (elim free [ inl h ↦ other h | inr (unknown, h) ↦ taken h ])
        | inr (mine, u, added, saved, found) ↦
            let whole : token.addr % 2 ^ 32 ≡ token.addr = omega arith in
            let (t, runs, first, second, tables) =
              all_devices token s u saved.only_tables low high
                (found_at w u token.addr whole saved.by_addr) in
            (
              t,
              rw e (
                  ap
                    (λ o.
                      ◌>>=◌ {B = ℕ} (◌>>=◌ {B = Token} (λ x. o) (λ p. pure p.1))
                        (λ new. gets (λ x. x.cfg.max_dev_n) >>= λ devs.
                          add_loop w devs 1 (record { dev = 0; subdev = 0; token = new; ev = 0 }))
                        s)
                    added
                  ∙ ap
                      (λ x.
                        add_loop w x.cfg.max_dev_n 1
                          (record { dev = 0; subdev = 0; token = token; ev = 0 }) u)
                      saved.only_tables
                  ∙ runs),
              first,
              second,
              quiet_token w store tables in_rec.cid ∙ saved.by_card,
            )
      ]

  -- Conditions: memory is not short (`malloc` never fails), every `put` into the tables succeeds and
  -- the tables work as documented; the address of the token, the one of the known card or the first
  -- free one, is at least 0x00C0 and below 2 ^ 16; and in the table of addresses it leads back to the
  -- card, or, for a card that is not known, to no card. Then the card is given to every device that
  -- answers: none refuses it, and each of them, in their order, is sent its token and, if it needs
  -- one, its new bound, in the second queue. The token has the new rights. A card that was not known
  -- is found in the database behind that; for one that was known the database keeps its old rights.
  pub cmd_add_tocken_to_all_lem :
      (in_rec : AdToken) (s : Gate)
      → let known = w.get_token s.history in_rec.cid in
        let token = granted in_rec known s.cfg.max_bound_token in
        0x00C0 ≤ token.addr
        → token.addr < 2 ^ 16
        → (card_at w s token.addr ≡ token.cid) ⊎ ((known ≡ none) × (card_at w s token.addr ≡ 0))
        → (t : Gate) × (cmd_add_tocken_to_all w in_rec s ≡ done 1 t)
          × (t.head ≡ s.head)
          × (t.head2 ≡ s.head2 ++ to_all (device_cmds token token.addr) s)
          × (w.get_token t.history in_rec.cid
              ≡ elim known [ some old ↦ some old | none ↦ some token ])
  cmd_add_tocken_to_all_lem in_rec s low high free =
      give_all in_rec s (w.get_token s.history in_rec.cid) refl low high free
