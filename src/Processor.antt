-- ===== src/Processor.antt =====
-- src/gp_processor.c: what a reply does, by the handler of its command or by the reply itself.
-- Replies that are only logged change nothing.
pub mod Poll
pub mod Log
pub mod Input
mod Tests
use libgate.Base.{ℕ, ◌+◌, ◌-◌, ◌*◌, ◌^◌, Option, Buf, Status, ℤ, pos, negsuc, update}
use libgate.World.{World, Tm}
use libgate.Gate.{Gate, Dev}
use libgate.Gate.Action.{Action, pure, modify, gets, ◌>>=◌, ◌>>◌}
use libgate.Command.Tokens.{AddCid, cmd_add_cid_to_all}

-- `proc_info_t`
pub record Info : Type 0 where
  pub dev : ℕ
  pub ver : ℕ
  pub model : ℕ
  pub release : ℕ
  pub if_type : ℕ

-- `proc_event_t`; `ct` as the callback finds it.
pub record Event : Type 0 where
  pub dev : ℕ
  pub subdev : ℕ
  pub ev : ℕ
  pub addr : ℕ
  pub cid : ℕ
  pub ts : ℕ
  pub ct : Tm
  pub dup : ℕ

-- The functions of the application: its handlers for commands and the four callbacks that it can set.
pub record App : Type 0 where
  pub custom : ℕ → ℕ → Action Status
  pub push_new_cid : AddCid → Action ℕ
  pub push_found_cid : AddCid → Action ℕ
  pub dev_info : Info → Action ℕ
  pub dev_ev : Event → Action ℕ

-- The callback for a new card, unless the application sets one: the card may open every door.
unfoldable pub cb_push_new_cid_default : World → AddCid → Action ℕ
cb_push_new_cid_default w rec =
    cmd_add_cid_to_all w
      (record rec { token = record rec.token { schedule_mask = 0xFF; attr = 0 } })

-- The other three only log.
unfoldable pub cb_default : {A : Type 0} → A → Action ℕ
cb_default rec = pure 1

-- The callbacks that the library starts with.
unfoldable pub default_app : World → (ℕ → ℕ → Action Status) → App
unfolding cb_default
default_app w custom = record {
  custom = custom;
  push_new_cid = cb_push_new_cid_default w;
  push_found_cid = cb_default;
  dev_info = cb_default;
  dev_ev = cb_default;
}

-- The received bytes that have a name, and two of them as a number.
abbrev pub reply_src : Gate → ℕ
reply_src s = s.receiv_mess.buf 4

abbrev pub reply_cmd_n : Gate → ℕ
reply_cmd_n s = s.receiv_mess.buf 5

-- `receiv_mess.cmd_buff` begins at the seventh byte.
abbrev pub cmd_buff_offset : ℕ
cmd_buff_offset = 6

unfoldable pub be16toh : Buf → ℕ → ℕ
be16toh m i = m i * 256 + m (i + 1)

-- A length as a `size_t`.
unfoldable pub to_size : ℤ → ℕ
to_size (pos n) = n
to_size (negsuc n) = 2 ^ 64 - (n + 1)

abbrev pub reply_dev : Gate → Dev
reply_dev s = s.devices s.receiv_mess.dev

-- Changes the device that replied.
unfoldable pub modify_dev : (Dev → Dev) → Action (Unit {0})
modify_dev f =
    modify λ s. record s {
      devices = update s.devices s.receiv_mess.dev (f (s.devices s.receiv_mess.dev));
    }
