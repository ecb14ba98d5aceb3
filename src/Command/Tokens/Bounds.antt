-- ===== src/Command/Tokens/Bounds.antt =====
-- What `cmd_add_cid` of src/ad_cmd.c sends to a device, and the bound of the tokens behind it.
use libgate.Base.{
  append_assoc, ℕ, ◌+◌, ◌%◌, ◌^◌, ◌≤◌, ◌<◌, ◌≡◌, ◌≢◌, ◌⊎◌, refl, ap, ◌∙◌, arith, true, false, ◌&&◌,
  not, List, [], ◌∷◌, ◌++◌, Status, count, Buf, ◌==◌, leb, if◌then◌else◌, Bool-cases, inl, inr,
  bit_or,
}
use libgate.World.{World, History, allocated}
use libgate.Gate.{Gate, Cmd, Dev}
use libgate.Gate.Action.{done, pure, ◌>>=◌}
use libgate.Queue.{gp_in_cmd, insert_tail}
use libgate.Target.{in_both_banks, second_bank, request}
use libgate.Target.Memory.{ad_set_token, ad_set_token_bound, set_token_cmd, set_token_bound_cmd}
use libgate.Database.{db_get_cid_by_a}
use libgate.Database.Quiet.{QuietOn, here, alloc}
use libgate.Database.RoundTrip.{card_at, no_other}
use libgate.Command.Tokens.{
  AddCid, token_bytes, token_addr, raise_bound, move_bound, write_token, cmd_add_cid,
}

-- `s` with commands at the end of the second queue.
abbrev pub with_queued : List Cmd → History → Gate → Gate
with_queued zs h s = record s { head2 = s.head2 ++ zs; history = h }

-- The two commands that a command for both banks comes to.
abbrev pub both : Cmd → List Cmd
both z = z ∷ second_bank z ∷ []

module _ (w : World) (enough : (h : History) → w.malloc h ≡ true) where
  pub in_cmd_second :
      (z : Cmd) (s : Gate)
      → z.queue ≡ 2
      → gp_in_cmd w z s ≡ done 1 (with_queued (z ∷ []) (allocated ∷ s.history) s)
  unfolding gp_in_cmd insert_tail
  in_cmd_second z s e = rw (enough (allocated ∷ s.history)) (ground arith)

  both_second :
      (z : Cmd) (s : Gate)
      → z.queue ≡ 2
      → in_both_banks w z s
        ≡ done (count 1) (with_queued (both z) (allocated ∷ allocated ∷ s.history) s)
  unfolding in_both_banks
  both_second z s e =
      let t : Gate = with_queued (z ∷ []) (allocated ∷ s.history) s in
      let h : History = allocated ∷ allocated ∷ s.history in
      let long : (z.queue == 0) ≡ false = ground arith in
      rw long (
        ap
          (λ o.
            ◌>>=◌ {B = Status} (λ x. o)
              (λ r. gp_in_cmd w (second_bank z) >>= λ r'. pure (count (bit_or r r'))) s)
          (in_cmd_second z s e)
        ∙ ap (λ o. ◌>>=◌ {B = Status} (λ x. o) (λ r'. pure (count (bit_or 1 r'))) t)
            (in_cmd_second (second_bank z) t (unfold second_bank in e))
        ∙ ap (λ l. done (count 1) (record s { head2 = l; history = h }))
            (append_assoc s.head2 (z ∷ []) (second_bank z ∷ [])))

  token_queued :
      (dev addr : ℕ) (bytes : Buf) (s : Gate)
      → ad_set_token 2 dev w addr bytes 1 s
        ≡ done (count 1) (
            with_queued
              (both (set_token_cmd 2 dev addr bytes 1))
              (allocated ∷ allocated ∷ s.history)
              s)
  unfolding ad_set_token
  token_queued dev addr bytes s =
      both_second (set_token_cmd 2 dev addr bytes 1) s (unfold set_token_cmd request in refl)

  bound_queued :
      (dev addr : ℕ) (s : Gate)
      → ad_set_token_bound 2 dev w addr s
        ≡ done (count 1) (
            with_queued
              (both (set_token_bound_cmd 2 dev addr))
              (allocated ∷ allocated ∷ s.history)
              s)
  unfolding ad_set_token_bound
  bound_queued dev addr s =
      both_second (set_token_bound_cmd 2 dev addr) s (unfold set_token_bound_cmd request in refl)

-- What a device is sent for a token at `addr`: the token, and its new bound if it had to be moved.
abbrev pub token_cmds : AddCid → ℕ → Gate → List Cmd
token_cmds rec addr s =
    let dev : Dev = s.devices rec.dev in
    both (set_token_cmd 2 rec.dev addr (token_bytes rec.token dev.cid_revert) 1)
    ++ (if leb dev.bound_token addr
        then both (set_token_bound_cmd 2 rec.dev ((addr + 8) % 2 ^ 16))
        else [])

-- A device was given a token at `addr` on the way from `s` to `t`.
pub record Gives (rec : AddCid) (addr : ℕ) (s t : Gate) : Type 0 where
  pub queued : (t.head ≡ s.head) × (t.head2 ≡ s.head2 ++ token_cmds rec addr s)
  pub behind : addr + 8 < 2 ^ 16 → addr < (t.devices rec.dev).bound_token
  pub greatest : s.cfg.max_bound_token ≤ t.cfg.max_bound_token
  pub covered :
      (s.devices rec.dev).bound_token ≤ s.cfg.max_bound_token
      → (t.devices rec.dev).bound_token ≤ t.cfg.max_bound_token
  pub tables : QuietOn s.history t.history
  pub devs : t.cfg.max_dev_n ≡ s.cfg.max_dev_n
  pub others : (e : ℕ) → e ≢ rec.dev → t.devices e ≡ s.devices e

module _ (w : World) (enough : (h : History) → w.malloc h ≡ true) where
  move_bound-raises :
      (dev addr : ℕ) (s : Gate)
      → leb (s.devices dev).bound_token addr ≡ true
      → let t : Gate = raise_bound dev addr s in
        move_bound w dev addr s
        ≡ done 1 (
            with_queued
              (both (set_token_bound_cmd 2 dev ((addr + 8) % 2 ^ 16)))
              (allocated ∷ allocated ∷ s.history)
              t)
  unfolding move_bound raise_bound
  move_bound-raises dev addr s e =
      let t : Gate = raise_bound dev addr s in
      let new : (t.devices dev).bound_token ≡ (addr + 8) % 2 ^ 16 = ground arith in
      rw e (
        ap (λ o. ◌>>=◌ {B = ℕ} (λ x. o) (λ r. pure 1) t)
          (bound_queued w enough dev (t.devices dev).bound_token t)
        ∙ ap
            (λ b. done 1 (
              with_queued (both (set_token_bound_cmd 2 dev b)) (allocated ∷ allocated ∷ s.history)
                t))
            new)

  write_token_lem :
      (rec : AddCid) (addr : ℕ) (s : Gate)
      → (t : Gate) × (write_token w rec addr s ≡ done 1 t) × Gives rec addr s t
  unfolding write_token raise_bound
  write_token_lem rec addr s =
      let z : Cmd =
        set_token_cmd 2 rec.dev addr (token_bytes rec.token (s.devices rec.dev).cid_revert) 1 in
      let s' : Gate = with_queued (both z) (allocated ∷ allocated ∷ s.history) s in
      let written =
        ap (λ o. ◌>>=◌ {B = ℕ} (λ x. o) (λ r. move_bound w rec.dev addr) s)
          (token_queued w enough rec.dev addr (token_bytes rec.token (s.devices rec.dev).cid_revert)
            s) in
      elim (Bool-cases (leb (s.devices rec.dev).bound_token addr)) [
        | inl e ↦ (
          _,
          written ∙ move_bound-raises rec.dev addr s' e,
          record {
            queued = (refl, rw e (append_assoc s.head2 (both z) _));
            behind = λ h. ground arith;
            greatest = ground arith;
            covered = λ h. ground arith;
            tables = alloc (alloc (alloc (alloc here)));
            devs = refl;
            others = λ x n. ground arith;
          },
        )
        | inr e ↦ (
          s',
          written ∙ (unfold move_bound in rw e),
          record {
            queued = (refl, rw e);
            behind = λ h. ground arith;
            greatest = omega arith;
            covered = λ h. h;
            tables = alloc (alloc here);
            devs = refl;
            others = λ x n. refl;
          },
        )
      ]

  pub cmd_add_cid_lem :
      (rec : AddCid) (s : Gate)
      → let addr = token_addr rec.token.addr (s.devices rec.dev) in
        ((card_at w s addr ≢ 0)
          × (card_at w s addr ≢ rec.token.cid)
          × (cmd_add_cid w rec s ≡ done 0 s))
        ⊎ (((card_at w s addr ≡ 0) ⊎ (card_at w s addr ≡ rec.token.cid))
            × (t : Gate) × (cmd_add_cid w rec s ≡ done 1 t)
            × Gives rec addr s t)
  unfolding cmd_add_cid db_get_cid_by_a
  cmd_add_cid_lem rec s =
      let addr : ℕ = token_addr rec.token.addr (s.devices rec.dev) in
      let card : ℕ = card_at w s addr in
      let (t, written, gives) = write_token_lem rec addr s in
      elim (Bool-cases (not (card == 0) && not (card == rec.token.cid))) [
        | inl e ↦ inl (ground arith, ground arith, rw e)
        | inr e ↦ inr (no_other card rec.token.cid e, t, rw e written, gives)
      ]
