-- ===== src/Clock/Tests.antt =====
-- Runs of the dates of src/gp_util.c.
use libgate.Base.{◌≡◌, refl, arith, [], pos, count}
use libgate.World.{Tm}
use libgate.Gate.{Gate, Rtc}
use libgate.Gate.Action.{done}
use libgate.Samples.{good_world, open_gate}
use libgate.Queue.Fifo.{take_in}
use libgate.Queue.Line.{waiting, Sends}
use libgate.Target.Memory.{set_date_cmd}
use libgate.Codec.Bcd.{int2bcd}
use libgate.Clock.{rtc_date, read_rtc, month_byte, set_rtc_date}
use libgate.Clock.RoundTrip.{set_rtc_date_lem}

-- The last minutes of 2012, a Sunday.
abbrev late : Tm
late = record {
  tm_sec = 58;
  tm_min = 7;
  tm_hour = 22;
  tm_mday = 31;
  tm_mon = pos 11;
  tm_year = 112;
  tm_wday = 0;
}

late_bytes : rtc_date late 0 ≡ record {
  sec = 0x58;
  stop = 0;
  min = 0x07;
  hour = 0x22;
  wday = 7;
  day = 0x31;
  mon = 0x12;
  year = 0x12;
  ctrl = 0x10;
}
unfolding rtc_date month_byte int2bcd
late_bytes = refl

set_rtc_date_lem_example :
    (d : Rtc) × (t : Gate) × (set_rtc_date good_world 1 3 open_gate ≡ done (count 1) t)
    × (read_rtc d ≡ late)
    × Sends [] (take_in (set_date_cmd 2 3 d) (waiting open_gate)) open_gate t
set_rtc_date_lem_example =
    set_rtc_date_lem good_world 1 3 open_gate (record { memory = λ h. refl; line = λ h. refl })
      (record {
        sec = omega arith;
        min = omega arith;
        hour = omega arith;
        mday = omega arith;
        month = (11, refl, omega arith);
        year = (omega arith, omega arith);
        wday = omega arith;
      })
