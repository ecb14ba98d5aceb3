-- ===== src/Link/Sending.antt =====
-- What `gp_send` of src/gp_layer.c does on each of its branches.
use libgate.Base.{
  ℕ, ◌+◌, ◌*◌, ◌≤◌, ◌<◌, ◌≡◌, refl, ap, ◌∙◌, inl, inr, ◌∷◌, arith, length, Bool, true, ◌&&◌, none,
  some, failed, count, update, slice, if◌then◌else◌, ◌==◌, Bool-cases, ltb, leb,
}
use libgate.World.{World, History, WriteResult, read_clock, armed, written, disarmed, closed, tv2ms}
use libgate.Gate.{Cmd, Gate}
use libgate.Gate.Action.{done, ◌>>=◌, pure}
use libgate.Codec.Escape.Stuffing.{stuff}
use libgate.Port.{gp_close}
use libgate.Link.{
  with_crc, escaped_frame, next_handler, prepare, store_frame, stamp, gp_resend, gp_send,
}
use libgate.Link.Frame.{frame, body, frame_stored, frame_count}

-- The requests of sending one frame, the newest first.
abbrev pub sending : ℕ → Cmd → Gate → History
sending fd cmd s = written fd (frame cmd) ∷ armed (s.cfg.gp_timeout * 1000) ∷ read_clock ∷ s.history

-- The port is closed behind a failed write, and behind one of no bytes on a broken pipe.
abbrev pub is_broken : WriteResult → Bool
is_broken r = elim r.nwritten [ failed ↦ true | count n ↦ n == 0 && r.is_epipe ]

-- What a command that was sent leaves behind, with the descriptor and the history as they were
-- before: the reply that is waited for, and when and to whom the command was sent.
pub record IsSent (w : World) (cmd : Cmd) (s t : Gate) : Type 0 where
  pub expected : t.send_mess.is_expected ≡ 1
  pub target : t.send_mess.target ≡ cmd.target_n
  pub bank : t.send_mess.bank ≡ cmd.bank
  pub dev : t.send_mess.dev ≡ cmd.dst
  pub handler : t.send_mess.ev_handler ≡ next_handler cmd s.send_mess.ev_handler
  pub polling : t.cfg.polling ≡ cmd.polling
  pub stamped : t.send_mess.sent_time ≡ tv2ms (w.clock (read_clock ∷ s.history))
  pub devices :
      t.devices
      ≡ update s.devices cmd.dst
          (record (s.devices cmd.dst) { last_sent = tv2ms (w.clock (read_clock ∷ s.history)) })
  pub queues : (t.head ≡ s.head) × (t.head2 ≡ s.head2)
  pub received : t.receiv_mess ≡ s.receiv_mess
  pub settings :
      (t.cfg.max_dev_n ≡ s.cfg.max_dev_n) × (t.cfg.max_timeout_count ≡ s.cfg.max_timeout_count)
  pub next_idle : t.idle_dst ≡ s.idle_dst

-- The requests of `gp_resend`, the newest first.
abbrev resending : ℕ → Gate → History
resending fd s =
    written fd (slice s.send_mess.buf 0 s.send_mess.len) ∷ armed s.cfg.timeout_usec ∷ s.history

-- The state behind a `write` with the result `r`, and with the history `h` before that.
abbrev pub after_write : ℕ → WriteResult → History → Gate → Gate
after_write fd r h s =
    if is_broken r
    then record s { cfg = record s.cfg { fd = none }; history = closed fd ∷ disarmed ∷ h }
    else record s { history = h }

gp_resend_open :
    (w : World) (s : Gate) (fd : ℕ)
    → s.cfg.fd ≡ some fd
    → 3 ≤ fd
    → gp_resend w s
      ≡ done
          (w.write (resending fd s)).nwritten
          (after_write fd (w.write (resending fd s)) (resending fd s) s)
unfolding gp_resend gp_close
gp_resend_open w s fd is_open usable = ground arith

-- The state in which `gp_send` calls `gp_resend`.
unfoldable pub loaded : World → Cmd → Gate → Gate
loaded w cmd s =
    stamp (tv2ms (w.clock (read_clock ∷ s.history)))
      (record (store_frame (escaped_frame (with_crc cmd)) (prepare cmd s)) {
        history = read_clock ∷ s.history;
      })

pub gp_send-gp_resend :
    (w : World) (cmd : Cmd) (s : Gate)
    → cmd.data_len < 120
    → length (stuff (body cmd)) ≤ 127
    → gp_send w cmd s ≡ (gp_resend w >>= λ r. pure (r, with_crc cmd)) (loaded w cmd s)
unfolding gp_send loaded prepare store_frame
gp_send-gp_resend w cmd s small fits = rw (short, room)
  where
    short : ltb cmd.data_len 120 ≡ true
    short = ground arith

    room : leb ((escaped_frame (with_crc cmd)).0 + 3) 130 ≡ true
    room = ground (arith, frame_count cmd)

loaded_requests :
    (w : World) (cmd : Cmd) (s : Gate) (fd : ℕ) → resending fd (loaded w cmd s) ≡ sending fd cmd s
unfolding loaded prepare stamp store_frame
loaded_requests w cmd s fd =
    ap (λ b. written fd b ∷ armed (s.cfg.gp_timeout * 1000) ∷ read_clock ∷ s.history)
      (frame_stored cmd (prepare cmd s))

gp_send-loaded :
    (w : World) (cmd : Cmd) (s : Gate) (fd : ℕ)
    → s.cfg.fd ≡ some fd
    → 3 ≤ fd
    → cmd.data_len < 120
    → length (stuff (body cmd)) ≤ 127
    → let r = w.write (sending fd cmd s) in
      gp_send w cmd s
      ≡ done (r.nwritten, with_crc cmd) (after_write fd r (sending fd cmd s) (loaded w cmd s))
gp_send-loaded w cmd s fd is_open usable small fits =
    gp_send-gp_resend w cmd s small fits
    ∙ ap (λ o. ((λ t. o) >>= λ r. pure (r, with_crc cmd)) (loaded w cmd s))
        (gp_resend_open w (loaded w cmd s) fd (unfold loaded prepare store_frame stamp in is_open)
          usable)
    ∙ ap
        (λ h.
          done ((w.write h).nwritten, with_crc cmd) (after_write fd (w.write h) h (loaded w cmd s)))
        (loaded_requests w cmd s fd)

loaded-IsSent : (w : World) (cmd : Cmd) (s : Gate) → IsSent w cmd s (loaded w cmd s)
unfolding loaded prepare store_frame stamp
loaded-IsSent w cmd s = record {
  expected = refl;
  target = refl;
  bank = refl;
  dev = refl;
  handler = refl;
  polling = refl;
  stamped = refl;
  devices = refl;
  queues = (refl, refl);
  received = refl;
  settings = (refl, refl);
  next_idle = refl;
}

after_write-IsSent :
    (w : World) (cmd : Cmd) (s t : Gate) (fd : ℕ) (r : WriteResult) (h : History)
    → IsSent w cmd s t
    → IsSent w cmd s (after_write fd r h t)
after_write-IsSent w cmd s t fd r h v = elim (Bool-cases (is_broken r)) [
  | inl e ↦ rw e (record {
    expected = v.expected;
    target = v.target;
    bank = v.bank;
    dev = v.dev;
    handler = v.handler;
    polling = v.polling;
    stamped = v.stamped;
    devices = v.devices;
    queues = v.queues;
    received = v.received;
    settings = v.settings;
    next_idle = v.next_idle;
  })
  | inr e ↦ rw e (record {
    expected = v.expected;
    target = v.target;
    bank = v.bank;
    dev = v.dev;
    handler = v.handler;
    polling = v.polling;
    stamped = v.stamped;
    devices = v.devices;
    queues = v.queues;
    received = v.received;
    settings = v.settings;
    next_idle = v.next_idle;
  })
]

-- On an open port a command whose frame fits goes out as one `write` of its frame, behind the
-- timeout that is armed for the reply; the port is closed behind a broken write and only then.
pub gp_send_writes :
    (w : World) (cmd : Cmd) (s : Gate) (fd : ℕ)
    → s.cfg.fd ≡ some fd
    → 3 ≤ fd
    → cmd.data_len < 120
    → length (stuff (body cmd)) ≤ 127
    → (t : Gate) × (gp_send w cmd s ≡ done ((w.write (sending fd cmd s)).nwritten, with_crc cmd) t)
      × IsSent w cmd s t
      × (t.cfg.fd ≡ (if is_broken (w.write (sending fd cmd s)) then none else some fd))
      × (t.history ≡ (
          if is_broken (w.write (sending fd cmd s))
          then closed fd ∷ disarmed ∷ sending fd cmd s
          else sending fd cmd s))
gp_send_writes w cmd s fd is_open usable small fits = (
  after_write fd r (sending fd cmd s) (loaded w cmd s),
  gp_send-loaded w cmd s fd is_open usable small fits,
  after_write-IsSent w cmd s (loaded w cmd s) fd r (sending fd cmd s) (loaded-IsSent w cmd s),
  unfold loaded prepare store_frame stamp in ground arith,
  ground arith,
)
  where
    r : WriteResult
    r = w.write (sending fd cmd s)
