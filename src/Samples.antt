-- ===== src/Samples.antt =====
-- A machine and a state that the tests run on.
use libgate.Base.{[], true, false, none, some, pos, count}
use libgate.Database.Tables.{last_token, last_addr, last_param}
use libgate.World.{World, bytes_read}
use libgate.Gate.{Gate, initial_gate, initial_cfg}

-- A line that takes every frame, and memory that is never short.
abbrev pub good_world : World
good_world = record {
  clock = λ h. record { tv_sec = 100007; tv_usec = 5000 };
  write = λ h. record { nwritten = count 10; is_epipe = false };
  malloc = λ h. true;
  time = λ h. 100007;
  localtime = λ z. record {
    tm_sec = 58;
    tm_min = 7;
    tm_hour = 22;
    tm_mday = 31;
    tm_mon = pos 11;
    tm_year = 112;
    tm_wday = 0;
  };
  mktime = λ t. (0, t);
  open_port = λ h. some 4;
  read = λ h. bytes_read [];
  put = λ h. true;
  sync = λ h. true;
  get_token = last_token (λ h. true) (λ c. none);
  get_addr = last_addr (λ h. true) (λ a. none);
  addresses = λ h. [];
  create = λ h. true;
  open_table = λ h. true;
  close_table = λ h. true;
  c_get = λ h. none;
  get_param = last_param (λ h. true) (λ k. none);
}

-- The state before `gp_init`, with the port open.
abbrev pub open_gate : Gate
open_gate = record initial_gate { cfg = record initial_cfg { fd = some 3 } }
