-- ===== src/Clock.antt =====
-- The dates of src/gp_util.c: the clock of the controllers is set and read in decimal bytes. The
-- fields of `struct tm` that no function here sets or reads are left out.
pub mod RoundTrip
mod Tests
use libgate.Base.{
  ℕ, zero, suc, ◌+◌, ◌-◌, ◌*◌, ◌%◌, ℤ, pos, negsuc, Status, ◌==◌, if◌then◌else◌, sub_ℕ,
}
use libgate.World.{World, Tm, asked_time}
use libgate.Gate.{Gate, Rtc}
use libgate.Gate.Action.{Action, ◌>>=◌, ◌>>◌, gets, modify, pure, request}
use libgate.Codec.Bcd.{int2bcd, bcd2int}
use libgate.Target.Memory.{ad_set_date}

-- `int2bcd(t->tm_mon+1)` as a byte; below January C's division rounds towards 0.
unfoldable pub month_byte : ℤ → ℕ
month_byte (pos m) = int2bcd (m + 1) % 256
month_byte (negsuc m) = (256 - int2bcd m % 256) % 256

-- The date that `set_rtc_date` sends for a local time. The bit `stop` is not set there, so it holds
-- whatever the stack did.
unfoldable pub rtc_date : Tm → ℕ → Rtc
rtc_date t stop = record {
  sec = int2bcd t.tm_sec % 128;
  stop = stop;
  min = int2bcd t.tm_min % 256;
  hour = int2bcd t.tm_hour % 256;
  wday = int2bcd (if t.tm_wday == 0 then 7 else t.tm_wday) % 256;
  day = int2bcd t.tm_mday % 256;
  mon = month_byte t.tm_mon;
  year = int2bcd (t.tm_year % 100) % 256;
  ctrl = 0x10;
}

unfoldable pub set_rtc_date : World → ℕ → ℕ → Action Status
set_rtc_date w stop dev = do
  request asked_time
  z ← gets (λ s. w.time s.history)
  modify (λ s. record s { curtime = w.localtime z })
  t ← gets (λ s. s.curtime)
  ad_set_date 2 dev w (rtc_date t stop)

-- What `get_rtc_date` leaves in `curtime`.
unfoldable pub read_rtc : Rtc → Tm
read_rtc d = record {
  tm_sec = bcd2int d.sec;
  tm_min = bcd2int d.min;
  tm_hour = bcd2int d.hour;
  tm_mday = bcd2int d.day;
  tm_mon = sub_ℕ (bcd2int d.mon) 1;
  tm_year = bcd2int d.year + 100;
  tm_wday = bcd2int d.wday % 7;
}

unfoldable pub get_rtc_date : Rtc → Action Tm
get_rtc_date d = do modify (λ s. record s { curtime = read_rtc d }); gets (λ s. s.curtime)

-- The time of `gp_event_t`.
pub record EventDate : Type 0 where
  pub mon : ℕ
  pub day : ℕ
  pub hour : ℕ
  pub min : ℕ
  pub sec : ℕ

-- Year and day of the week stay those of the date that `curtime` held before.
unfoldable pub get_ev_date : EventDate → Action Tm
get_ev_date d = do
  modify (λ s. record s {
    curtime = record s.curtime {
      tm_sec = bcd2int d.sec;
      tm_min = bcd2int d.min;
      tm_hour = bcd2int d.hour;
      tm_mday = bcd2int d.day;
      tm_mon = sub_ℕ (bcd2int d.mon) 1;
    };
  })
  gets (λ s. s.curtime)

-- `mktime` normalises `curtime` in its place.
unfoldable pub get_ev_time : World → EventDate → Action ℕ
get_ev_time w d = do
  t ← get_ev_date d
  modify (λ s. record s { curtime = (w.mktime t).1 })
  pure (w.mktime t).0
