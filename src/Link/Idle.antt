-- ===== src/Link/Idle.antt =====
-- `gp_send_idle` of src/gp_layer.c: the next device that still answers is asked for a card.
pub mod Round
use libgate.Base.{
  ℕ, zero, suc, ◌+◌, Bool, true, false, Option, some, Buf, update, zeroed, store_list, List, [],
  ◌∷◌, Status, count, ltb,
}
use libgate.World.{World}
use libgate.Gate.{Gate, Cmd, Dev, poll_result}
use libgate.Gate.Action.{Action, pure, done, fault, ◌>>=◌}
use libgate.Link.{gp_send, ad_q_short}

-- How the loop ends: at a device, or past the last one, with the devices as it leaves them.
pub data Scan : Type 0 where
  found : ℕ → (ℕ → Dev) → Scan
  finished : (ℕ → Dev) → Scan
  out_of_fuel : Scan

-- The loop: a device that timed out too often is marked as inactive and passed over.
unfoldable pub idle_scan : ℕ → ℕ → ℕ → (ℕ → Dev) → ℕ → Scan
idle_scan zero last limit devices dst = out_of_fuel
idle_scan (suc fuel) last limit devices dst = elim (ltb last (dst + 1)) [
  | true ↦ finished devices
  | false ↦ elim (ltb limit (devices (dst + 1)).timeout_count) [
    | true ↦
        idle_scan fuel last limit
          (update devices (dst + 1) (record (devices (dst + 1)) { activ = 0 })) (dst + 1)
    | false ↦ found (dst + 1) devices
  ]
]

-- The request for the last card that the device has read. Its `dst` is a `uint8_t` in the code; the
-- numbers of devices are taken for bytes.
unfoldable pub poll_cmd : ℕ → Cmd
poll_cmd dst = record {
  target_n = 101;
  ev_handler = some poll_result;
  bank = 0;
  set_timeout = 150;
  polling = 1;
  queue = ad_q_short;
  data_len = 5;
  dst = dst;
  cmd_n = 0x04;
  cmd_buff = store_list zeroed 0 (0x00 ∷ 0xD0 ∷ 6 ∷ 0x00 ∷ 0x0C ∷ []);
}

-- Asks the device that was found, or starts again at the first one.
unfoldable pub after_scan : World → Scan → Action Status
after_scan w (found dst devices) s =
    (do (r, sent) ← gp_send w (poll_cmd dst); pure r)
      (record s { devices = devices; idle_dst = dst })
after_scan w (finished devices) s = done (count 0) (record s { devices = devices; idle_dst = 0 })
after_scan w out_of_fuel s = fault

-- The fuel is one above the number of devices.
unfoldable pub gp_send_idle : World → Action Status
gp_send_idle w s =
    after_scan w
      (idle_scan (suc s.cfg.max_dev_n) s.cfg.max_dev_n s.cfg.max_timeout_count s.devices s.idle_dst)
      s
