-- ===== src/Target.antt =====
-- src/ad_target.c: the commands that the controllers know. Here is what its functions share.
pub mod Control
pub mod Memory
mod Tests
pub mod Layout
pub mod Order
pub mod Safe
pub mod Banks
pub mod Queued
use libgate.Base.{
  ℕ, ◌/◌, ◌%◌, ◌^◌, List, [], ◌∷◌, zeroed, update, store_list, Status, count, or_status, ◌==◌,
  if◌then◌else◌, bit_or, none,
}
use libgate.World.{World}
use libgate.Gate.{Cmd}
use libgate.Gate.Action.{Action, pure, ◌>>=◌}
use libgate.Link.{gp_send, ad_q_short}
use libgate.Queue.{gp_in_cmd}

-- `cmd_send_t z = {…}` with the queue, the destination, the target, the command's number, `data_len`
-- and the bytes of `cmd_buff`. The fields that most functions set alike have these values.
unfoldable pub request : ℕ → ℕ → ℕ → ℕ → ℕ → List ℕ → Cmd
request q gp_dst target_n cmd_n data_len bytes = record {
  target_n = target_n;
  ev_handler = none;
  bank = 0;
  set_timeout = 100;
  polling = 0;
  queue = q;
  data_len = data_len;
  dst = gp_dst % 256;
  cmd_n = cmd_n;
  cmd_buff = store_list zeroed 0 bytes;
}

-- `htobe16` of a `uint16_t`, as bytes.
unfoldable pub be16 : ℕ → List ℕ
be16 addr = addr / 256 % 256 ∷ addr % 256 ∷ []

-- `z.bank=1; z.cmd_buff[0]=0x01`
unfoldable pub second_bank : Cmd → Cmd
second_bank z = record z { bank = 1; cmd_buff = update z.cmd_buff 0 0x01 }

module _ (w : World) where
  -- `return gp_in_cmd(&z)`
  unfoldable pub queued : Cmd → Action Status
  queued z = do r ← gp_in_cmd w z; pure (count r)

  -- `if( q == AD_Q_SHORT ) return gp_send(&z); else return gp_in_cmd(&z);`
  unfoldable pub sent_or_queued : Cmd → Action Status
  sent_or_queued z =
      if z.queue == ad_q_short then (do (r, sent) ← gp_send w z; pure r) else queued z

  -- The same in both banks; the second command is made from what `gp_send` leaves of the first.
  unfoldable pub in_both_banks : Cmd → Action Status
  in_both_banks z =
      if z.queue == ad_q_short
      then (do
        (r, sent) ← gp_send w z
        (r', sent') ← gp_send w (second_bank sent)
        pure (or_status r r'))
      else (do r ← gp_in_cmd w z; r' ← gp_in_cmd w (second_bank z); pure (count (bit_or r r')))
