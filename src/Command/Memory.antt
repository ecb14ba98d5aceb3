-- ===== src/Command/Memory.antt =====
-- The functions of src/ad_cmd.c that write the whole memory for tokens of a device.
pub mod Clear
pub mod Reload
use libgate.Base.{
  ℕ, zero, suc, ◌+◌, ◌*◌, ◌-◌, ◌%◌, ◌^◌, Bool, true, false, Option, none, some, Buf, update, ◌==◌,
  ltb, if◌then◌else◌,
}
use libgate.World.{World, Token}
use libgate.Gate.{Gate, Dev}
use libgate.Gate.Action.{Action, pure, undefined, ◌>>=◌, ◌>>◌, gets, modify}
use libgate.Target.Control.{ad_prep_load}
use libgate.Target.Memory.{ad_set_token, ad_set_token_bound, ad_get_token_bound, ad_get_date}
use libgate.Database.{db_get_next_token}
use libgate.Command.Tokens.{token_bytes, gp_start_ticket_bound}

abbrev pub gp_max_ticket_bound : ℕ
gp_max_ticket_bound = 0x8000 - 8

abbrev pub gp_max_ticket_num : ℕ
gp_max_ticket_num = 12

-- `memset(data,0x55,block_size)`
abbrev pub cleared : Buf
cleared i = 0x55

-- No place is left on the device, nor in general.
unfoldable pub fill_bounds : ℕ → Gate → Gate
fill_bounds dev s = record s {
  cfg = record s.cfg { max_bound_token = gp_max_ticket_bound };
  devices = update s.devices dev (record (s.devices dev) { bound_token = gp_max_ticket_bound });
}

module _ (w : World) where
  -- One block after the other; `addr` is a `uint16_t`.
  unfoldable pub clear_loop : ℕ → ℕ → ℕ → Action (Unit {0})
  clear_loop dev zero addr = undefined
  clear_loop dev (suc fuel) addr = elim (ltb addr gp_max_ticket_bound) [
    | true ↦ do
      r ← ad_set_token 1 dev w addr cleared gp_max_ticket_num
      clear_loop dev fuel ((addr + gp_max_ticket_num * 8) % 2 ^ 16)
    | false ↦ pure tt
  ]

  unfoldable pub end_clear : ℕ → Action ℕ
  end_clear dev = do
    bound ← gets (λ s. (s.devices dev).bound_token)
    b ← ad_set_token_bound 1 dev w bound
    c ← ad_prep_load w 1 dev 0
    d ← ad_get_token_bound 1 dev w none
    e ← ad_get_date 1 dev w
    pure 1

  -- The fuel is one above the number of blocks.
  unfoldable pub cmd_clear_dev : ℕ → Action ℕ
  cmd_clear_dev dev = do
    a ← ad_prep_load w 1 dev 1
    clear_loop dev 341 gp_start_ticket_bound
    modify (fill_bounds dev)
    end_clear dev

  unfoldable pub clear_all_loop : ℕ → ℕ → Action (Unit {0})
  clear_all_loop zero gp_dst = pure tt
  clear_all_loop (suc left) gp_dst =
      let rest = clear_all_loop left (gp_dst + 1) in
      do
        active ← gets (λ s. (s.devices gp_dst).activ == 1)
        (if active then (do r ← cmd_clear_dev gp_dst; rest) else rest)

  pub cmd_clear_dev_to_all : Action ℕ
  unfolding clear_all_loop
  cmd_clear_dev_to_all = do devs ← gets (λ s. s.cfg.max_dev_n); clear_all_loop devs 1; pure 1

  -- The tokens go to their own addresses, as `uint16_t`, in the order of the cursor.
  unfoldable pub reload_loop : ℕ → ℕ → Option Token → Action (Unit {0})
  reload_loop dev zero token = undefined
  reload_loop dev (suc fuel) none = pure tt
  reload_loop dev (suc fuel) (some token) = do
    revert ← gets (λ s. (s.devices dev).cid_revert)
    r ← ad_set_token 1 dev w (token.addr % 2 ^ 16) (token_bytes token revert) 1
    next ← db_get_next_token w 0
    reload_loop dev fuel next

  -- The fuel has to be greater than the number of tokens.
  unfoldable pub cmd_reload_dev : ℕ → ℕ → Action ℕ
  cmd_reload_dev fuel dev = do
    a ← ad_prep_load w 1 dev 1
    token ← db_get_next_token w 1
    reload_loop dev fuel token
    b ← ad_prep_load w 1 dev 0
    pure 1
