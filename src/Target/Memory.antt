-- ===== src/Target/Memory.antt =====
-- The commands of src/ad_target.c that read and write the memory of a controller. Number 4 reads and
-- number 5 writes; the data begin with the bank, the kind of memory, the number of bytes and the
-- address.
use libgate.Base.{ℕ, ◌+◌, ◌*◌, ◌%◌, ◌^◌, List, [], ◌∷◌, ◌++◌, Option, Buf, slice, Status, leb}
use libgate.World.{World}
use libgate.Gate.{Cmd, Handler, Rtc, Times, TimeZone}
use libgate.Gate.Action.{Action, ◌>>◌, require}
use libgate.Link.{cmd_buff_length}
use libgate.Target.{request, be16, queued, sent_or_queued, in_both_banks}

-- The bytes of a `gp_date_rtc_t`.
unfoldable pub rtc_bytes : Rtc → List ℕ
rtc_bytes d =
    (d.sec % 2 ^ 7 + d.stop % 2 * 2 ^ 7)
    ∷ d.min
    ∷ d.hour
    ∷ d.wday
    ∷ d.day
    ∷ d.mon
    ∷ d.year
    ∷ d.ctrl
    ∷ []

unfoldable pub times_bytes : Times → List ℕ
times_bytes t = t.open_door ∷ t.ctrl_close ∷ t.ctrl_open ∷ t.timeout_confirm ∷ []

unfoldable pub zone_bytes : TimeZone → List ℕ
zone_bytes z = z.wmask ∷ z.begin_hour ∷ z.begin_min ∷ z.end_hour ∷ z.end_min ∷ slice z.stub 0 3

module _ (q gp_dst : ℕ) where
  -- The commands that write, as they are sent for the first bank.
  unfoldable pub set_date_cmd : Rtc → Cmd
  set_date_cmd d = request q gp_dst 122 0x05 (5 + 8) (0x00 ∷ 0xD0 ∷ 8 ∷ 0x00 ∷ 0x00 ∷ rtc_bytes d)

  unfoldable pub set_buff_addr_down_cmd : ℕ → Cmd
  set_buff_addr_down_cmd addr =
      request q gp_dst 103 0x05 7 (0x00 ∷ 0xD0 ∷ 2 ∷ 0x00 ∷ 0x0A ∷ be16 addr)

  unfoldable pub reset_buff_cmd : Cmd
  reset_buff_cmd =
      request q gp_dst 105 0x05 9 (0x00 ∷ 0xD0 ∷ 4 ∷ 0x00 ∷ 0x08 ∷ 0x00 ∷ 0x00 ∷ 0x00 ∷ 0x00 ∷ [])

  unfoldable pub set_token_bound_cmd : ℕ → Cmd
  set_token_bound_cmd addr = request q gp_dst 113 0x05 7 (0x00 ∷ 0xA0 ∷ 2 ∷ 0x00 ∷ 0xBE ∷ be16 addr)

  unfoldable pub set_token_cmd : ℕ → Buf → ℕ → Cmd
  set_token_cmd addr records n =
      request q gp_dst 115 0x05 (5 + 8 * n)
        (0x00 ∷ 0xA0 ∷ 8 * n % 256 ∷ (be16 addr ++ slice records 0 (8 * n)))

  unfoldable pub set_times_cmd : Times → Cmd
  set_times_cmd t =
      request q gp_dst 202 0x05 (5 + 4) (0x00 ∷ 0xA0 ∷ 2 ∷ 0x00 ∷ 0x00 ∷ times_bytes t)

  unfoldable pub set_sched_cmd : ℕ → TimeZone → Option Handler → Cmd
  set_sched_cmd num rec handler =
      record (request q gp_dst 212 0x05 (5 + 8)
        (0x00 ∷ 0xA0 ∷ 8 ∷ (be16 (0x0078 + 8 * num) ++ zone_bytes rec))) { ev_handler = handler }

  module _ (w : World) where
    unfoldable pub ad_get_date : Action Status
    ad_get_date = queued w (request q gp_dst 121 0x04 5 (0x00 ∷ 0xD0 ∷ 7 ∷ 0x00 ∷ 0x00 ∷ []))

    unfoldable pub ad_set_date : Rtc → Action Status
    ad_set_date d = queued w (set_date_cmd d)

    unfoldable pub ad_get_cid : Option Handler → Action Status
    ad_get_cid handler =
        sent_or_queued w
          (record (request q gp_dst 101 0x04 5 (0x00 ∷ 0xD0 ∷ 6 ∷ 0x00 ∷ 0x0C ∷ [])) {
            ev_handler = handler;
          })

    unfoldable pub ad_get_buff_addr : Option Handler → Action Status
    ad_get_buff_addr handler =
        queued w (record (request q gp_dst 102 0x04 5 (0x00 ∷ 0xD0 ∷ 4 ∷ 0x00 ∷ 0x08 ∷ [])) {
          ev_handler = handler;
        })

    unfoldable pub ad_get_buff_data : ℕ → ℕ → Action Status
    ad_get_buff_data addr l =
        sent_or_queued w (request q gp_dst 104 0x04 5 (0x02 ∷ 0xA0 ∷ l % 256 ∷ be16 addr))

    unfoldable pub ad_set_buff_addr_down : ℕ → Action Status
    ad_set_buff_addr_down addr = sent_or_queued w (set_buff_addr_down_cmd addr)

    unfoldable pub ad_reset_buff : Action Status
    ad_reset_buff = sent_or_queued w reset_buff_cmd

    unfoldable pub ad_get_token_bound : Option Handler → Action Status
    ad_get_token_bound handler =
        in_both_banks w (record (request q gp_dst 112 0x04 5 (0x00 ∷ 0xA0 ∷ 2 ∷ 0x00 ∷ 0xBE ∷ [])) {
          ev_handler = handler;
        })

    unfoldable pub ad_set_token_bound : ℕ → Action Status
    ad_set_token_bound addr = in_both_banks w (set_token_bound_cmd addr)

    unfoldable pub ad_reset_token_bound : Action Status
    ad_reset_token_bound = ad_set_token_bound 0x00C0

    unfoldable pub ad_get_token : ℕ → ℕ → Action Status
    ad_get_token addr n =
        in_both_banks w (request q gp_dst 114 0x04 5 (0x00 ∷ 0xA0 ∷ 8 * n % 256 ∷ be16 addr))

    -- The records are copied into `cmd_buff` behind five bytes, without a test of their number.
    unfoldable pub ad_set_token : ℕ → Buf → ℕ → Action Status
    ad_set_token addr records n =
        require (leb (5 + 8 * n) cmd_buff_length) >> in_both_banks w (set_token_cmd addr records n)

    unfoldable pub ad_get_times : Action Status
    ad_get_times =
        in_both_banks w (request q gp_dst 201 0x04 5 (0x00 ∷ 0xA0 ∷ 2 ∷ 0x00 ∷ 0x00 ∷ []))

    unfoldable pub ad_set_times : Times → Action Status
    ad_set_times t = in_both_banks w (set_times_cmd t)

    unfoldable pub ad_get_sched_table : Option Handler → Action Status
    ad_get_sched_table handler =
        in_both_banks w
          (record (request q gp_dst 211 0x04 5 (0x00 ∷ 0xA0 ∷ 56 ∷ 0x00 ∷ 0x78 ∷ [])) {
            ev_handler = handler;
          })

    unfoldable pub ad_set_sched_rec : ℕ → TimeZone → Option Handler → Action Status
    ad_set_sched_rec num rec handler = in_both_banks w (set_sched_cmd num rec handler)
