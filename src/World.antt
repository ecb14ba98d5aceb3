-- ===== src/World.antt =====
-- What the library asks of the operating system: clock, port, memory and database. The answers are a
-- parameter: a function of all that was asked before. Log output (`zprintf`, `syslog`, `fprintf`) is
-- left out, since nothing depends on it.
use libgate.Base.{ℕ, ◌+◌, ◌*◌, ◌/◌, ◌%◌, ◌^◌, Bool, List, Option, ℤ, Status}

-- `db_token_rec_t`
pub record Token : Type 0 where
  pub cid : ℕ
  pub attr : ℕ
  pub schedule_mask : ℕ
  pub addr : ℕ
  pub zone_mask : ℕ

-- `ad_sched_rec_t`; the times are seconds of the day, `int` in the code and not negative here.
pub record SchedRec : Type 0 where
  pub num : ℤ
  pub wmask : ℕ
  pub begin : ℕ
  pub stop : ℕ

-- `db_param_key_t`, with the rule and the zone, or the zone and the number of the record.
pub data ParamKey : Type 0 where
  rule_key : ℕ → ℕ → ParamKey
  sched_key : ℕ → ℕ → ParamKey

-- `db_param_rule_value_t` and `db_param_sched_value_t`
pub data ParamValue : Type 0 where
  rule_value : ℕ → ParamValue
  sched_value : SchedRec → ParamValue

-- One request, the newest at the head of a history.
pub data Effect : Type 0 where
  -- `gettimeofday`
  read_clock : Effect
  -- `event_add(&gp_cfg.evport, timeout)`, with the microseconds of the timeout
  armed : ℕ → Effect
  -- `event_del(&gp_cfg.evport)`
  disarmed : Effect
  -- `write` with the descriptor and the bytes
  written : ℕ → List ℕ → Effect
  -- `close`
  closed : ℕ → Effect
  -- `malloc` of a queue entry, and its `free`
  allocated freed : Effect
  -- `time`
  asked_time : Effect
  -- `open_port`
  opened : Effect
  -- `read` with the descriptor and the most bytes that it may take
  received : ℕ → ℕ → Effect
  -- `put` into the table of tokens and into the table of addresses, with the address and the card
  token_put : Token → Effect
  addr_put : ℕ → ℕ → Effect
  -- `sync` of one of the three tables
  synced : ℕ → Effect
  -- `evtimer_add` for the scan of the logs (0) and for the one of the devices (1)
  scan_timer : ℕ → Effect
  -- `db_create`, `open` and `close` of one of the three tables
  created db_opened db_closed : ℕ → Effect
  -- `cursor` on the table of tokens, and its `c_get` with `DB_FIRST` or else `DB_NEXT`
  cursor_made : Effect
  cursor_read : Bool → Effect
  -- `put` into the table of parameters
  param_put : ParamKey → ParamValue → Effect
  -- `event_add(&evkeep)`
  keepalive_timer : Effect

abbrev pub History : Type 0
History = List Effect

-- `struct timeval`
pub record Timeval : Type 0 where
  pub tv_sec : ℕ
  pub tv_usec : ℕ

-- What `write` returns, and whether `errno` is `EPIPE` behind it.
pub record WriteResult : Type 0 where
  pub nwritten : Status
  pub is_epipe : Bool

-- What `localtime_r` fills in; `tm_mon` counts from 0 and `tm_year` from 1900.
pub record Tm : Type 0 where
  pub tm_sec : ℕ
  pub tm_min : ℕ
  pub tm_hour : ℕ
  pub tm_mday : ℕ
  pub tm_mon : ℤ
  pub tm_year : ℕ
  pub tm_wday : ℕ

-- What `read` returns: a failure, or the bytes, none of them at the end of the file.
pub data ReadResult : Type 0 where
  unreadable : ReadResult
  bytes_read : List ℕ → ReadResult

pub record World : Type 0 where
  pub clock : History → Timeval
  pub write : History → WriteResult
  pub malloc : History → Bool
  -- the seconds of `time`, and how the time zone shows them
  pub time : History → ℕ
  pub localtime : ℕ → Tm
  -- `mktime`: the time, and the date as it normalises it
  pub mktime : Tm → ℕ × Tm
  -- a descriptor, if the port can be opened
  pub open_port : History → Option ℕ
  pub read : History → ReadResult
  -- the tables of the database: whether a `put` or a `sync` succeeds, what `get` finds for a card
  -- and for an address, and the addresses as a cursor goes over them
  pub put : History → Bool
  pub sync : History → Bool
  pub get_token : History → ℕ → Option Token
  pub get_addr : History → ℕ → Option ℕ
  pub addresses : History → List ℕ
  -- whether a table can be created, opened and closed
  pub create : History → Bool
  pub open_table : History → Bool
  pub close_table : History → Bool
  -- what the cursor on the tokens reads, and what `get` finds for a parameter
  pub c_get : History → Option Token
  pub get_param : History → ParamKey → Option ParamValue

-- `tv2ms` of src/libgate.h, stored in a `uint32_t`.
pub tv2ms : Timeval → ℕ
tv2ms x = (x.tv_sec % 100000 * 1000 + x.tv_usec / 1000) % 2 ^ 32
