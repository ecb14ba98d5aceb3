-- ===== src/Command/Tokens.antt =====
-- The functions of src/ad_cmd.c that give a card to the devices.
pub mod Bounds
pub mod Everywhere
use libgate.Base.{
  ℕ, zero, suc, ◌+◌, ◌%◌, ◌^◌, Bool, true, false, ◌&&◌, not, Option, none, some, Buf, zeroed,
  update, Status, ◌==◌, ltb, leb, if◌then◌else◌,
}
use libgate.World.{World, Token}
use libgate.Gate.{Gate, Dev}
use libgate.Gate.Action.{Action, pure, ◌>>=◌, ◌>>◌, gets, modify}
use libgate.Codec.Integer.{int2bin}
use libgate.Target.Memory.{ad_set_token, ad_set_token_bound}
use libgate.Database.{db_get_cid_by_a, db_add_token, db_get_token_by_c}

abbrev pub gp_start_ticket_bound : ℕ
gp_start_ticket_bound = 0x00C0

-- `proc_add_cid_t`
pub record AddCid : Type 0 where
  pub dev : ℕ
  pub subdev : ℕ
  pub token : Token
  pub ev : ℕ

-- `ad_token_rec_t`
pub record AdToken : Type 0 where
  pub cid : ℕ
  pub attr : ℕ
  pub schedule_mask : ℕ

-- The `gp_token_rec_t` for a token: the card in the device's byte order, attributes and schedule.
unfoldable pub token_bytes : Token → ℕ → Buf
token_bytes t revert = update (update (int2bin zeroed 0 t.cid 6 revert) 6 t.attr) 7 t.schedule_mask

-- `addr` of `cmd_add_cid`, as a `uint16_t`.
unfoldable pub token_addr : ℕ → Dev → ℕ
token_addr addr dev =
    if ltb (addr % 2 ^ 16) gp_start_ticket_bound then dev.bound_token else addr % 2 ^ 16

-- The bounds behind a token at `addr`: of the device, and the greatest of all.
unfoldable pub raise_bound : ℕ → ℕ → Gate → Gate
raise_bound dev addr s =
    let bound : ℕ = (addr + 8) % 2 ^ 16 in
    record s {
      devices = update s.devices dev (record (s.devices dev) { bound_token = bound });
      cfg = record s.cfg {
        max_bound_token = if ltb bound s.cfg.max_bound_token then s.cfg.max_bound_token else bound;
      };
    }

module _ (w : World) where
  -- The device's bound is moved behind a token that does not lie below it.
  unfoldable pub move_bound : ℕ → ℕ → Action ℕ
  move_bound dev addr = do
    bound ← gets (λ s. (s.devices dev).bound_token)
    (if leb bound addr
        then (do
          modify (raise_bound dev addr)
          raised ← gets (λ s. (s.devices dev).bound_token)
          r ← ad_set_token_bound 2 dev w raised
          pure 1)
        else pure 1)

  unfoldable pub write_token : AddCid → ℕ → Action ℕ
  write_token rec addr = do
    revert ← gets (λ s. (s.devices rec.dev).cid_revert)
    r ← ad_set_token 2 rec.dev w addr (token_bytes rec.token revert) 1
    move_bound rec.dev addr

  -- 0 where another card has the address.
  unfoldable pub cmd_add_cid : AddCid → Action ℕ
  cmd_add_cid rec = do
    addr ← gets (λ s. token_addr rec.token.addr (s.devices rec.dev))
    cid ← db_get_cid_by_a w addr
    (if not (cid == 0) && not (cid == rec.token.cid) then pure 0 else write_token rec addr)

  -- The devices that answer get the card one after the other, until one refuses.
  unfoldable pub add_loop : ℕ → ℕ → AddCid → Action ℕ
  add_loop zero gp_dst rec = pure 1
  add_loop (suc left) gp_dst rec =
      let rest = add_loop left (gp_dst + 1) rec in
      do
        active ← gets (λ s. (s.devices gp_dst).activ == 1)
        (if active
            then (do
              r ← cmd_add_cid (record rec { dev = gp_dst })
              (if r == 0 then pure 0 else rest))
            else rest)

  -- A record without an address of its own gets the one behind the last.
  unfoldable pub cmd_add_cid_to_all : AddCid → Action ℕ
  cmd_add_cid_to_all rec = do
    free ← gets (λ s. s.cfg.max_bound_token)
    let addr = if ltb rec.token.addr gp_start_ticket_bound then free else rec.token.addr
    (r, token) ← db_add_token w (record rec.token { addr = addr })
    devs ← gets (λ s. s.cfg.max_dev_n)
    add_loop devs 1 (record rec { token = token })

  -- The token for the card: the one in the database with new rights, or a new one behind the last.
  unfoldable pub token_for : AdToken → Option Token → Action Token
  token_for in_rec (some known) =
      pure (record known { attr = in_rec.attr; schedule_mask = in_rec.schedule_mask })
  token_for in_rec none = do
    free ← gets (λ s. s.cfg.max_bound_token)
    (r, token) ← db_add_token w (record {
      cid = in_rec.cid;
      attr = in_rec.attr;
      schedule_mask = in_rec.schedule_mask;
      addr = free;
      zone_mask = 0;
    })
    pure token

  unfoldable pub cmd_add_tocken_to_all : AdToken → Action ℕ
  cmd_add_tocken_to_all in_rec = do
    known ← db_get_token_by_c w in_rec.cid
    token ← token_for in_rec known
    devs ← gets (λ s. s.cfg.max_dev_n)
    add_loop devs 1 (record { dev = 0; subdev = 0; token = token; ev = 0 })
