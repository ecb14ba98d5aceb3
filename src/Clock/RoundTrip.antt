-- ===== src/Clock/RoundTrip.antt =====
-- What is read back from a date that src/gp_util.c writes.
use libgate.Base.{
  ◌∷◌, if◌then◌else◌, ℕ, ◌+◌, ◌%◌, ◌≤◌, ◌<◌, ◌≡◌, sym, ap, ◌∙◌, arith, pos, [], Status, count,
  sub_ℕ, Bool-cases, inl, inr, ◌==◌,
}
use libgate.World.{World, Tm, asked_time}
use libgate.Gate.{Gate, Rtc}
use libgate.Gate.Action.{done, ◌>>=◌, pure}
use libgate.Codec.Bcd.{int2bcd, bcd2int, bcd2int-int2bcd, int2bcd-lt}
use libgate.Queue.Fifo.{take_in}
use libgate.Queue.Line.{IsReliable, waiting, frames, Sends, gp_in_cmd-Sends}
use libgate.Target.{queued}
use libgate.Target.Memory.{ad_set_date, set_date_cmd}
use libgate.Clock.{month_byte, rtc_date, read_rtc, set_rtc_date}

-- A local time of the years 2000 to 2099, with a leap second at most.
pub record IsDate (t : Tm) : Type 0 where
  pub sec : t.tm_sec ≤ 60
  pub min : t.tm_min < 60
  pub hour : t.tm_hour < 24
  pub mday : t.tm_mday ≤ 31
  pub month : (m : ℕ) × (t.tm_mon ≡ pos m) × (m < 12)
  pub year : (100 ≤ t.tm_year) × (t.tm_year < 200)
  pub wday : t.tm_wday < 7

byte_back : (x : ℕ) → x < 100 → bcd2int (int2bcd x % 256) ≡ x
byte_back x h =
    let (small, back) = bcd2int-int2bcd x h in
    ap bcd2int (let e : int2bcd x % 256 ≡ int2bcd x = omega (arith, small) in e) ∙ back

seconds_back : (x : ℕ) → x < 80 → bcd2int (int2bcd x % 128) ≡ x
seconds_back x h =
    ap bcd2int
      (let e : int2bcd x % 128 ≡ int2bcd x = omega (arith, int2bcd-lt x 79 (omega arith)) in e)
    ∙ (bcd2int-int2bcd x (omega arith)).1

month_back : (m : ℕ) → m < 12 → sub_ℕ (bcd2int (month_byte (pos m))) 1 ≡ pos m
unfolding month_byte
month_back m h = rw (byte_back (m + 1) (omega arith)) (ground arith)

wday_back : (d : ℕ) → d < 7 → bcd2int (int2bcd (if d == 0 then 7 else d) % 256) % 7 ≡ d
wday_back d h = elim (Bool-cases (d == 0)) [
  | inl e ↦ rw e (ap (λ x. x % 7) (byte_back 7 (omega arith)) ∙ ground arith)
  | inr e ↦ rw e (ap (λ x. x % 7) (byte_back d (omega arith)) ∙ omega arith)
]

Tm_ext :
    (t t' : Tm)
    → t.tm_sec ≡ t'.tm_sec
    → t.tm_min ≡ t'.tm_min
    → t.tm_hour ≡ t'.tm_hour
    → t.tm_mday ≡ t'.tm_mday
    → t.tm_mon ≡ t'.tm_mon
    → t.tm_year ≡ t'.tm_year
    → t.tm_wday ≡ t'.tm_wday
    → t ≡ t'
Tm_ext t t' a b c d e f g = λ i. record {
  tm_sec = a i;
  tm_min = b i;
  tm_hour = c i;
  tm_mday = d i;
  tm_mon = e i;
  tm_year = f i;
  tm_wday = g i;
}

read_rtc-rtc_date : (t : Tm) (stop : ℕ) → IsDate t → read_rtc (rtc_date t stop) ≡ t
unfolding read_rtc rtc_date
read_rtc-rtc_date t stop v =
    let (m, e, h) = v.month in
    Tm_ext _ t (seconds_back t.tm_sec (omega (arith, v.sec)))
      (byte_back t.tm_min (omega (arith, v.min))) (byte_back t.tm_hour (omega (arith, v.hour)))
      (byte_back t.tm_mday (omega (arith, v.mday)))
      (ap (λ x. sub_ℕ (bcd2int (month_byte x)) 1) e ∙ month_back m h ∙ sym e)
      (ap (λ x. x + 100) (byte_back (t.tm_year % 100) (omega arith))
        ∙ omega (arith, v.year.0, v.year.1))
      (wday_back t.tm_wday v.wday)

-- Where memory is not short and the local time is one of the years 2000 to 2099, `set_rtc_date`
-- queues the command that sets the device's clock to a date, and this date reads as the local time,
-- whatever the bit `stop` that it leaves unset holds.
pub set_rtc_date_lem :
    (w : World) (stop dev : ℕ) (s : Gate)
    → IsReliable w
    → IsDate (w.localtime (w.time (asked_time ∷ s.history)))
    → (d : Rtc) × (t : Gate) × (set_rtc_date w stop dev s ≡ done (count 1) t)
      × (read_rtc d ≡ w.localtime (w.time (asked_time ∷ s.history)))
      × Sends [] (take_in (set_date_cmd 2 dev d) (waiting s)) s t
unfolding set_rtc_date ad_set_date queued frames
set_rtc_date_lem w stop dev s good v =
    let now : Tm = w.localtime (w.time (asked_time ∷ s.history)) in
    let d : Rtc = rtc_date now stop in
    let s' : Gate = record s { history = asked_time ∷ s.history; curtime = now } in
    let (t, taken, sends) = gp_in_cmd-Sends w good (set_date_cmd 2 dev d) s' in
    (
      d,
      t,
      ap (λ o. ◌>>=◌ {B = Status} (λ x. o) (λ r. pure (count r)) s') taken,
      read_rtc-rtc_date now stop v,
      record { port = sends.port; queues = sends.queues; line = sends.line },
    )
