-- ===== src/Gate.antt =====
-- The state of the library: the structures of src/gp_layer.h and src/libgate.h and the global
-- variables of src/gp_layer.c and src/gp_queue.c, with the actions on it.
pub mod Action
pub mod Active
use libgate.Base.{
  Bool, false, ℕ, zero, suc, ◌+◌, ◌-◌, Option, none, some, List, [], Buf, zeroed, ℤ, pos,
}
use libgate.World.{History, Tm}

-- The functions of the library that an `ev_cbfunc` can point to, or one of the application.
pub data Handler : Type 0 where
  poll_result log_read : Handler
  custom : ℕ → Handler

-- `cmd_send_t`
pub record Cmd : Type 0 where
  pub target_n : ℕ
  pub ev_handler : Option Handler
  pub bank : ℕ
  pub set_timeout : ℕ
  pub polling : ℕ
  pub queue : ℕ
  pub data_len : ℕ
  pub dst : ℕ
  pub cmd_n : ℕ
  pub cmd_buff : Buf

-- The bytes of a command from `dst` on, which lie one behind the other.
abbrev pub cmd_bytes : Cmd → Buf
cmd_bytes c zero = c.dst
cmd_bytes c (suc zero) = c.cmd_n
cmd_bytes c (suc (suc i)) = c.cmd_buff i

-- `struct send_mess_def`; `fl_begin`, `id_ctrl`, `dst` and `cmd_n` are the first bytes of `buf`.
pub record SendMess : Type 0 where
  pub len : ℕ
  pub dev : ℕ
  pub sent_time : ℕ
  pub target : ℕ
  pub is_expected : ℕ
  pub bank : ℕ
  pub ev_handler : Option Handler
  pub buf : Buf

-- `struct receiv_mess_def`; the other fields are bytes of `buf`.
pub record ReceivMess : Type 0 where
  pub len : ℤ
  pub dev : ℕ
  pub last_read : ℕ
  pub buf : Buf

-- `gp_times_t`
pub record Times : Type 0 where
  pub open_door : ℕ
  pub ctrl_close : ℕ
  pub ctrl_open : ℕ
  pub timeout_confirm : ℕ

-- `gp_date_rtc_t`, a moment as the controllers store it; `sec` has 7 bits and `stop` one.
pub record Rtc : Type 0 where
  pub sec : ℕ
  pub stop : ℕ
  pub min : ℕ
  pub hour : ℕ
  pub wday : ℕ
  pub day : ℕ
  pub mon : ℕ
  pub year : ℕ
  pub ctrl : ℕ

-- `gp_time_zone_t`
pub record TimeZone : Type 0 where
  pub wmask : ℕ
  pub begin_hour : ℕ
  pub begin_min : ℕ
  pub end_hour : ℕ
  pub end_min : ℕ
  pub stub : Buf

-- `gp_dev`; `last_ev_rec` is the bytes of the last event record.
pub record Dev : Type 0 where
  pub zone_id : ℕ
  pub activ : ℕ
  pub timeout_count : ℕ
  pub is_inited : ℕ
  pub cid_revert : ℕ
  pub max_bound_token : ℕ
  pub max_bound_log : ℕ
  pub bound_up : ℕ
  pub bound_down : ℕ
  pub bound_token : ℕ
  pub last_cid : ℕ
  pub last_read : ℕ
  pub last_sent : ℕ
  pub last_ev : ℕ
  pub new_cid_flag : ℕ
  pub last_ev_rec : Buf

-- `struct gp_cfg_def`. A descriptor of -1 is `none`; `timeout_usec` is `timeout.tv_usec`, the only
-- part of `timeout` that is ever set.
pub record Cfg : Type 0 where
  pub fd : Option ℕ
  pub timeout_usec : ℕ
  pub gp_timeout : ℕ
  pub polling : ℕ
  pub max_dev_n : ℕ
  pub max_timeout_count : ℕ
  pub max_bound_token : ℕ
  pub ev_block_size : ℕ
  pub times : Times

-- `devices` has a value for every number; the code's array has 256 places, and a `max_dev_n` above
-- 255, which `cmd_set_max_dev` does not set, is not told apart from one below.
-- All that the library keeps between two events: `gp_cfg`, `send_mess`, `receiv_mess`,
-- `receiv_buf_p` as an index into `receiv_mess.buf`, `devices`, the queues `gp_head` and `gp_head2`,
-- the static variables `gp_dst` of `gp_send_idle`, `last_try` of `gp_reconnect` and `curtime` of
-- src/gp_util.c, whether `cur` of `db_get_next_token` is set, and what was asked of the operating system.
pub record Gate : Type 0 where
  pub cfg : Cfg
  pub send_mess : SendMess
  pub receiv_mess : ReceivMess
  pub receiv_buf_p : Option ℕ
  pub devices : ℕ → Dev
  pub head : List Cmd
  pub head2 : List Cmd
  pub idle_dst : ℕ
  pub last_try : ℕ
  pub curtime : Tm
  pub cursor : Bool
  pub history : History

-- A device as the zeroed global array holds it.
abbrev pub fresh_dev : Dev
fresh_dev = record {
  zone_id = 0;
  activ = 0;
  timeout_count = 0;
  is_inited = 0;
  cid_revert = 0;
  max_bound_token = 0;
  max_bound_log = 0;
  bound_up = 0;
  bound_down = 0;
  bound_token = 0;
  last_cid = 0;
  last_read = 0;
  last_sent = 0;
  last_ev = 0;
  new_cid_flag = 0;
  last_ev_rec = zeroed;
}

-- The initial values of `gp_cfg`.
abbrev pub initial_cfg : Cfg
initial_cfg = record {
  fd = none;
  timeout_usec = 0;
  gp_timeout = 140;
  polling = 0;
  max_dev_n = 7;
  max_timeout_count = 6;
  max_bound_token = 0x00C0;
  ev_block_size = 8;
  times = record { open_door = 150; ctrl_close = 200; ctrl_open = 0; timeout_confirm = 0 };
}

-- The state before `gp_init`.
abbrev pub initial_gate : Gate
initial_gate = record {
  cfg = initial_cfg;
  send_mess = record {
    len = 0;
    dev = 0;
    sent_time = 0;
    target = 0;
    is_expected = 0;
    bank = 0;
    ev_handler = none;
    buf = zeroed;
  };
  receiv_mess = record { len = pos 0; dev = 0; last_read = 0; buf = zeroed };
  receiv_buf_p = none;
  devices = λ i. fresh_dev;
  head = [];
  head2 = [];
  idle_dst = 0;
  last_try = 0;
  curtime = record {
    tm_sec = 0;
    tm_min = 0;
    tm_hour = 0;
    tm_mday = 0;
    tm_mon = pos 0;
    tm_year = 0;
    tm_wday = 0;
  };
  cursor = false;
  history = [];
}
