-- ===== src/Target/Banks.antt =====
-- What the commands of src/ad_target.c that go to both banks of a controller come to.
use mathlib.Core.Path.{ap₂}
use libgate.Base.{
  ℕ, ◌≤◌, ◌<◌, ◌≡◌, ◌≢◌, sym, ap, ◌∙◌, [], ◌∷◌, ◌++◌, some, arith, slice_ext, Status, count, bit_or,
  or_status, true, subst, length, ◌==◌, false,
}
use libgate.World.{World}
use libgate.Gate.{Gate, Cmd}
use libgate.Gate.Action.{done, pure, ◌>>=◌}
use libgate.Codec.Crc.{xor_all}
use libgate.Codec.Escape.{gp_init, gp_end}
use libgate.Codec.Escape.Stuffing.{stuff}
use libgate.Link.{gp_send, with_crc, gp_ctrl}
use libgate.Link.Frame.{frame, body, payload, body_parts}
use libgate.Queue.{gp_in_cmd}
use libgate.Queue.Fifo.{take_in}
use libgate.Queue.Line.{IsReliable, Fits, waiting, Sends, gp_send-Sends, gp_in_cmd-Sends}
use libgate.Target.{second_bank, in_both_banks}

-- The checksum that `gp_send` leaves in the first command has no part in the second.
second_body : (z : Cmd) → 0 < z.data_len → body (second_bank (with_crc z)) ≡ body (second_bank z)
unfolding second_bank with_crc
second_body z h =
    body_parts (second_bank (with_crc z))
    ∙ ap (λ p. z.dst ∷ (p ++ xor_all p ∷ [])) same
    ∙ sym (body_parts (second_bank z))
  where
    same : payload (second_bank (with_crc z)) ≡ payload (second_bank z)
    same = ap (◌∷◌ z.cmd_n) (
        slice_ext (second_bank (with_crc z)).cmd_buff (second_bank z).cmd_buff 0 0 z.data_len
          λ k below. ground arith)

second_frame : (z : Cmd) → 0 < z.data_len → frame (second_bank (with_crc z)) ≡ frame (second_bank z)
second_frame z h = ap (λ b. gp_init ∷ gp_ctrl ∷ (stuff b ++ gp_end ∷ [])) (second_body z h)

second_Fits : (z : Cmd) → 0 < z.data_len → Fits (second_bank z) → Fits (second_bank (with_crc z))
unfolding second_bank with_crc
second_Fits z h fits = (fits.0, subst (λ b. length (stuff b) ≤ 127) (sym (second_body z h)) fits.1)

module _ (w : World) (good : IsReliable w) where
  -- A command with a queue for both banks: the two banks' commands are taken in, one behind the
  -- other, and the result is 1.
  in_both_banks_queued :
      (z : Cmd) (s : Gate)
      → z.queue ≢ 0
      → (t : Gate) × (in_both_banks w z s ≡ done (count 1) t)
        × Sends [] (take_in (second_bank z) (take_in z (waiting s))) s t
  unfolding in_both_banks
  in_both_banks_queued z s h =
      let (t, first, v) = gp_in_cmd-Sends w good z s in
      let (u, second, v') = gp_in_cmd-Sends w good (second_bank z) t in
      let long : (z.queue == 0) ≡ false = ground arith in
      (
        u,
        rw long (
            ap
              (λ o.
                ◌>>=◌ {B = Status} (λ x. o)
                  (λ r. gp_in_cmd w (second_bank z) >>= λ r'. pure (count (bit_or r r'))) s)
              first
            ∙ ap (λ o. ◌>>=◌ {B = Status} (λ x. o) (λ r'. pure (count (bit_or 1 r'))) t) second),
        record {
          port = v'.port ∙ v.port;
          queues = v'.queues ∙ ap (take_in (second_bank z)) v.queues;
          line = v'.line ∙ v.line;
        },
      )

  pub in_both_banks_sent :
      (z : Cmd) (s : Gate) (fd : ℕ)
      → s.cfg.fd ≡ some fd
      → 3 ≤ fd
      → z.queue ≡ 0
      → 0 < z.data_len
      → Fits z
      → Fits (second_bank z)
      → (r : Status) × (t : Gate) × (in_both_banks w z s ≡ done r t)
        × Sends (z ∷ second_bank z ∷ []) (waiting s) s t
  unfolding in_both_banks
  in_both_banks_sent z s fd is_open usable short some_data fits fits' =
      let (r, t, first, v) = gp_send-Sends w good z s fd is_open usable fits in
      let (r', u, second, v') =
        gp_send-Sends w good (second_bank (with_crc z)) t fd (v.port ∙ is_open) usable
          (second_Fits z some_data fits') in
      let now : (z.queue == 0) ≡ true = ground arith in
      (
        or_status r r',
        u,
        rw now (
            ap
              (λ o.
                ◌>>=◌ {B = Status} (λ x. o)
                  (λ p. gp_send w (second_bank p.1) >>= λ p'. pure (or_status p.0 p'.0)) s)
              first
            ∙ ap (λ o. ◌>>=◌ {B = Status} (λ x. o) (λ p'. pure (or_status r p'.0)) t) second),
        record {
          port = v'.port ∙ v.port;
          queues = v'.queues ∙ v.queues;
          line = v'.line ∙ ap₂ ◌∷◌ (second_frame z some_data) v.line;
        },
      )
