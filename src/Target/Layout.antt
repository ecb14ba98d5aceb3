-- ===== src/Target/Layout.antt =====
-- The layout of the commands of src/ad_target.c that write the memory of a controller: the fifth
-- command carries a bank, a kind of memory, a number of bytes, an address and the bytes.
use mathlib.Core.Path.{ap₂}
use libgate.Base.{
  subst, sym, ◌∙◌, ◌<◌, ◌/◌, [], inl, slice-store_list, store_list_outside, ℕ, ◌+◌, ◌*◌, ◌%◌, ◌^◌,
  ◌≤◌, ◌≡◌, refl, arith, List, ◌∷◌, Option, Buf, slice, length, update, zeroed, store_list,
  length-slice,
}
use libgate.Gate.{Cmd, Handler, Rtc, Times, TimeZone}
use libgate.Target.{request, be16}
use libgate.Target.Memory.{
  rtc_bytes, times_bytes, zone_bytes, set_date_cmd, set_buff_addr_down_cmd, reset_buff_cmd,
  set_token_bound_cmd, set_token_cmd, set_times_cmd, set_sched_cmd,
}

-- The command goes to the device `dst` and writes the bytes `text` to `address` of the first bank of
-- its memory of this kind, and says how many they are.
pub record Writes (dst kind address : ℕ) (text : List ℕ) (z : Cmd) : Type 0 where
  pub device : z.dst ≡ dst % 256
  pub number : z.cmd_n ≡ 0x05
  pub first_bank : (z.bank ≡ 0) × (z.cmd_buff 0 ≡ 0x00)
  pub memory : z.cmd_buff 1 ≡ kind
  pub size : z.data_len ≡ 5 + length text
  pub announced : z.cmd_buff 2 ≡ length text
  pub target : z.cmd_buff 3 * 256 + z.cmd_buff 4 ≡ address
  pub bytes : slice z.cmd_buff 5 (length text) ≡ text

be16_value : (a : ℕ) → a < 2 ^ 16 → a / 256 % 256 * 256 + a % 256 ≡ a
be16_value a h = omega arith

request-Writes :
    (q dst target kind size hi lo : ℕ) (text : List ℕ) (n address : ℕ)
    → length text ≡ n
    → size ≡ n
    → hi * 256 + lo ≡ address
    → Writes dst kind address text
        (request q dst target 0x05 (5 + n) (0x00 ∷ kind ∷ size ∷ hi ∷ lo ∷ text))
unfolding request
request-Writes q dst target kind size hi lo text n address e f g = record {
  device = refl;
  number = refl;
  first_bank = (refl, kept 0 (omega arith));
  memory = kept 1 (omega arith);
  size = omega (arith, e);
  announced = kept 2 (omega arith) ∙ f ∙ sym e;
  target = ap₂ (λ h l. h * 256 + l) (kept 3 (omega arith)) (kept 4 (omega arith)) ∙ g;
  bytes = slice-store_list text head 5;
}
  where
    head : Buf
    head = update (update (update (update (update zeroed 0 0x00) 1 kind) 2 size) 3 hi) 4 lo

    kept : (j : ℕ) → j < 5 → store_list head 5 text j ≡ head j
    kept j h = store_list_outside text head 5 j (inl h)

with_handler-Writes :
    (dst kind a : ℕ) (text : List ℕ) (z : Cmd) (h : Option Handler)
    → Writes dst kind a text z
    → Writes dst kind a text (record z { ev_handler = h })
with_handler-Writes dst kind a text z h v = record {
  device = v.device;
  number = v.number;
  first_bank = v.first_bank;
  memory = v.memory;
  size = v.size;
  announced = v.announced;
  target = v.target;
  bytes = v.bytes;
}

-- The commands that write tell the device, for its first bank, the kind of memory, the address, the
-- number of bytes and the bytes. To the memory 0xD0 go the date, as the fields of the clock in their
-- order with the stop bit above the seconds, to 0; the end of the log, high byte first, to 0x0A; and
-- the reset of the log, four zeroes, to 0x08. To the memory 0xA0 go the end of the tokens, high byte
-- first, to 0xBE; up to 14 tokens to their address, which is below 2 ^ 16; and a record of the
-- schedule, its days, its begin, its end and three more bytes, to 0x0078 and 8 bytes for each record
-- before it, below 2 ^ 16.
pub commands-Writes :
    (q dst : ℕ) (d : Rtc) (addr n num : ℕ) (records : Buf) (zone : TimeZone)
    (handler : Option Handler)
    → addr < 2 ^ 16
    → n ≤ 14
    → 0x0078 + 8 * num < 2 ^ 16
    → Writes dst 0xD0 0
        ((d.sec % 128 + d.stop % 2 * 128)
          ∷ d.min
          ∷ d.hour
          ∷ d.wday
          ∷ d.day
          ∷ d.mon
          ∷ d.year
          ∷ d.ctrl
          ∷ [])
        (set_date_cmd q dst d)
      × Writes dst 0xD0 0x0A (addr / 256 ∷ addr % 256 ∷ []) (set_buff_addr_down_cmd q dst addr)
      × Writes dst 0xD0 0x08 (0 ∷ 0 ∷ 0 ∷ 0 ∷ []) (reset_buff_cmd q dst)
      × Writes dst 0xA0 0xBE (addr / 256 ∷ addr % 256 ∷ []) (set_token_bound_cmd q dst addr)
      × Writes dst 0xA0 addr (slice records 0 (8 * n)) (set_token_cmd q dst addr records n)
      × Writes dst 0xA0
          (0x0078 + 8 * num)
          (zone.wmask
            ∷ zone.begin_hour
            ∷ zone.begin_min
            ∷ zone.end_hour
            ∷ zone.end_min
            ∷ zone.stub 0
            ∷ zone.stub 1
            ∷ zone.stub 2
            ∷ [])
          (set_sched_cmd q dst num zone handler)
unfolding set_date_cmd set_buff_addr_down_cmd reset_buff_cmd set_token_bound_cmd set_token_cmd
    set_sched_cmd rtc_bytes zone_bytes be16
commands-Writes q dst d addr n num records zone handler h few inside = (
  request-Writes q dst 122 0xD0 8 0x00 0x00 _ 8 0 refl refl (omega arith),
  subst (λ b. Writes dst 0xD0 0x0A (b ∷ addr % 256 ∷ []) (set_buff_addr_down_cmd q dst addr)) high
      (request-Writes q dst 103 0xD0 2 0x00 0x0A _ 2 0x0A refl refl (omega arith)),
  request-Writes q dst 105 0xD0 4 0x00 0x08 _ 4 0x08 refl refl (omega arith),
  subst (λ b. Writes dst 0xA0 0xBE (b ∷ addr % 256 ∷ []) (set_token_bound_cmd q dst addr)) high
      (request-Writes q dst 113 0xA0 2 0x00 0xBE _ 2 0xBE refl refl (omega arith)),
  request-Writes q dst 115 0xA0 (8 * n % 256) (addr / 256 % 256) (addr % 256) _ (8 * n) addr
      (length-slice records 0 (8 * n)) (omega arith) (be16_value addr h),
  with_handler-Writes dst 0xA0 (0x0078 + 8 * num) _ _ handler (
      request-Writes q dst 212 0xA0 8 _ _ _ 8 (0x0078 + 8 * num) refl refl
        (be16_value (0x0078 + 8 * num) inside)),
)
  where
    high : addr / 256 % 256 ≡ addr / 256
    high = omega arith

-- The command for the four times of a door sends all four but announces only two of them.
set_times_cmd_announces :
    (q dst : ℕ) (t : Times)
    → ((set_times_cmd q dst t).data_len ≡ 5 + length (times_bytes t))
      × ((set_times_cmd q dst t).cmd_buff 2 + 2 ≡ length (times_bytes t))
      × (slice (set_times_cmd q dst t).cmd_buff 5 4 ≡ times_bytes t)
unfolding set_times_cmd request times_bytes
set_times_cmd_announces q dst t = (refl, refl, refl)
