-- ===== src/Receive/Full.antt =====
-- A reply that is longer than the buffer of `gp_receiv` of src/gp_layer.c.
use libgate.Base.{
  ℕ, ◌*◌, ◌≤◌, ◌≡◌, ◌≢◌, ap, ◌∙◌, arith, ◌%◌, inl, inr, refl, Option-cases, Bool-cases,
  if◌then◌else◌, List, [], ◌∷◌, none, some, pos, true, false, ◌==◌,
}
use libgate.World.{World, bytes_read, read_clock, armed, received, closed, disarmed}
use libgate.Gate.{Gate, Cmd}
use libgate.Gate.Action.{Outcome, done, pure, bind_done}
use libgate.Link.{gp_send}
use libgate.Link.Sending.{gp_send_writes, is_broken, sending}
use libgate.Link.Frame.{frame}
use libgate.Port.{gp_close}
use libgate.Port.Retry.{gp_close_lem}
use libgate.Queue.Line.{Fits-short, frames}
use libgate.Target.{request, sent_or_queued}
use libgate.Target.Control.{ad_soft_reset, reset}
use libgate.Processor.{App}
use libgate.Receive.{
  gp_receiv, data_ready, rearm, mark_alive, room, read_port, after_read, bytes_in,
}
use libgate.Receive.Arrival.{answered}
use libgate.Receive.Pieces.Step.{mid_started}

-- Closing the port sends nothing.
close-frames : (s t : Gate) → gp_close s ≡ done tt t → frames t.history ≡ frames s.history
unfolding gp_close frames
close-frames s t e = elim (Option-cases s.cfg.fd) [
  | inl f ↦ ground arith
  | inr (fd, f) ↦ ground arith
]

-- One frame goes over the line, whether the write breaks or not.
sent_frame :
    (w : World) (z : Cmd) (fd : ℕ) (s t : Gate)
    → t.history ≡ (
        if is_broken (w.write (sending fd z s))
        then closed fd ∷ disarmed ∷ sending fd z s
        else sending fd z s)
    → frames t.history ≡ frame z ∷ frames s.history
unfolding frames
sent_frame w z fd s t e = elim (Bool-cases (is_broken (w.write (sending fd z s)))) [
  | inl b ↦ ap frames e ∙ rw b
  | inr b ↦ ap frames e ∙ rw b
]

module _ (w : World) (app : App) (stop : ℕ) where
  -- A device is told to start again, and the port is closed behind that.
  reset_closes :
      (p fd : ℕ) (s : Gate)
      → s.cfg.fd ≡ some fd
      → 3 ≤ fd
      → (t : Gate) × (bytes_in w app stop p [] s ≡ done tt t)
        × (t.cfg.fd ≡ none)
        × (frames t.history ≡ frame (reset 0 s.send_mess.dev 2 0x0B) ∷ frames s.history)
  unfolding bytes_in ad_soft_reset sent_or_queued reset request
  reset_closes p fd s is_open usable =
      let z : Cmd = reset 0 s.send_mess.dev 2 0x0B in
      let fits = Fits-short z (omega arith) in
      let (t, sends, sent, port, past) = gp_send_writes w z s fd is_open usable fits.0 fits.1 in
      let (u, closes, shut, head) = gp_close_lem t in
      (
        u,
        bind_done (ad_soft_reset w 0 s.send_mess.dev) (λ r. gp_close)
              (bind_done (gp_send w z) (λ x. pure x.0) sends)
            ∙ closes,
        shut,
        close-frames t u closes ∙ sent_frame w z fd s t past,
      )

  read_nothing :
      (fd : ℕ) (bs : List ℕ) (s : Gate)
      → s.receiv_buf_p ≡ some 134
      → s.receiv_mess.len ≡ pos 134
      → w.read (received fd 0 ∷ s.history) ≡ bytes_read bs
      → read_port w app stop fd s
        ≡ bytes_in w app stop 134 [] (record s { history = received fd 0 ∷ s.history })
  unfolding read_port after_read room
  read_nothing fd bs s at_end full reads =
      ap (λ p. at (elim p [ none ↦ 0 | some q ↦ q ]) (room s.receiv_mess.len)) at_end
      ∙ ap (λ l. at 134 (room l)) full
      ∙ ap (λ r. after_read w app stop 134 0 r (record s { history = received fd 0 ∷ s.history }))
          reads
    where
      at : ℕ → ℕ → Outcome (Unit {0})
      at p k =
          after_read w app stop p k (w.read (received fd k ∷ s.history))
            (record s { history = received fd k ∷ s.history })

  -- Once 134 bytes of a reply have come in without a closing byte, from a device that counts as set
  -- up, the next call of `gp_receiv` for bytes at the port asks for no bytes at all and takes the empty
  -- answer for the end of the file. Whatever waits at the port, while that read does not fail and the
  -- port is open with a descriptor from 3 on, one frame goes over the line, the soft reset (0x0B) for
  -- the device that was asked, and the port is closed.
  pub full_buffer_closes :
      (fd port : ℕ) (bs : List ℕ) (s : Gate)
      → s.receiv_buf_p ≡ some 134
      → s.receiv_mess.len ≡ pos 134
      → (s.devices s.send_mess.dev).is_inited ≢ 0
      → s.cfg.fd ≡ some port
      → 3 ≤ port
      → w.read (received fd 0 ∷ armed (s.cfg.gp_timeout * 1000) ∷ read_clock ∷ s.history)
        ≡ bytes_read bs
      → (z : Cmd) × (t : Gate) × (gp_receiv w app stop fd true s ≡ done tt t)
        × (t.cfg.fd ≡ none)
        × ((z.dst ≡ s.send_mess.dev % 256) × (z.cmd_n ≡ 0x0B) × (z.data_len ≡ 0))
        × (frames t.history ≡ frame z ∷ frames s.history)
  unfolding gp_receiv data_ready rearm mark_alive frames reset request
  full_buffer_closes fd port bs s at_end full known is_open usable reads =
      let a : Gate = answered w s in
      let asked : Gate = record a { history = received fd 0 ∷ a.history } in
      let inited : ((a.devices s.send_mess.dev).is_inited == 0) ≡ false = ground arith in
      let (t, runs, shut, sent) = reset_closes 134 port asked is_open usable in
      (
        reset 0 s.send_mess.dev 2 0x0B,
        t,
        rw inited (
            ap (read_port w app stop fd) (mid_started w app stop a 134 at_end)
            ∙ read_nothing fd bs a at_end full reads
            ∙ runs),
        shut,
        (refl, refl, refl),
        sent,
      )
