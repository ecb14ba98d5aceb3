-- ===== src/Receive/Arrival.antt =====
-- A reply that one call of `gp_receiv` of src/gp_layer.c reads in whole.
use libgate.Base.{
  ℕ, zero, suc, ◌+◌, ◌*◌, ◌≤◌, ◌<◌, ◌≡◌, ◌≢◌, refl, ap, ◌∙◌, arith, List, [], ◌∷◌, ◌++◌, length,
  length-append, take, none, some, Buf, slice, ltb, if◌then◌else◌, pos, true, false, ◌==◌,
}
use libgate.World.{World, bytes_read, read_clock, armed, received, tv2ms}
use libgate.Gate.{Gate}
use libgate.Gate.Action.{done}
use libgate.Codec.Crc.{xor_all}
use libgate.Codec.Escape.{gp_init, gp_end, gp_esc}
use libgate.Codec.Escape.Stuffing.{stuff, specials}
use libgate.Processor.{App}
use libgate.Receive.{
  gp_receiv, data_ready, after_read, chunk, accept, rearm, mark_alive, start_frame, room, read_port,
  bytes_in,
}
use libgate.Receive.Reply.{decoded, chunk_reply}

pub take-all : (n : ℕ) (xs : List ℕ) → length xs ≤ n → take n xs ≡ xs
take-all zero [] h = refl
take-all (suc n) [] h = refl
take-all zero (x ∷ xs) h = absurd (omega arith)
take-all (suc n) (x ∷ xs) h = ap (◌∷◌ x) (take-all n xs (omega arith))

-- The state of an idle port in which the bytes of a first chunk are read.
abbrev pub reading : ℕ → Gate → Gate
reading fd s = record s {
  receiv_buf_p = some 0;
  receiv_mess = record s.receiv_mess { len = pos 0 };
  history = received fd 134 ∷ s.history;
}

-- The state in which `gp_receiv` reads: the port's timeout is set again, and the device that was
-- asked is there.
abbrev pub answered : World → Gate → Gate
answered w s = mark_alive (tv2ms (w.clock (read_clock ∷ s.history))) (record s {
  cfg = record s.cfg { timeout_usec = s.cfg.gp_timeout * 1000 };
  history = armed (s.cfg.gp_timeout * 1000) ∷ read_clock ∷ s.history;
})

started :
    (s : Gate)
    → s.receiv_buf_p ≡ none
    → start_frame s
      ≡ record s { receiv_buf_p = some 0; receiv_mess = record s.receiv_mess { len = pos 0 } }
unfolding start_frame
started s idle =
    ap
      (λ p. elim p [
        | none ↦ record s {
          receiv_buf_p = some 0;
          receiv_mess = record s.receiv_mess { len = pos 0 };
        }
        | some q ↦ s
      ])
      idle

module _ (w : World) (app : App) (stop : ℕ) where
  read_port_lem :
      (fd b : ℕ) (bs : List ℕ) (s : Gate)
      → s.receiv_buf_p ≡ none
      → w.read (received fd 134 ∷ s.history) ≡ bytes_read (b ∷ bs)
      → length (b ∷ bs) ≤ 134
      → read_port w app stop fd (start_frame s) ≡ chunk w app stop 0 (b ∷ bs) (reading fd s)
  unfolding read_port after_read room bytes_in
  read_port_lem fd b bs s idle reads short =
      ap (read_port w app stop fd) (started s idle)
      ∙ ap (λ r. after_read w app stop 0 134 r (reading fd s)) reads
      ∙ ap (λ l. bytes_in w app stop 0 l (reading fd s)) (take-all 134 (b ∷ bs) short)

  pub to_chunk :
      (fd b : ℕ) (bs : List ℕ) (s : Gate)
      → s.receiv_buf_p ≡ none
      → (s.devices s.send_mess.dev).is_inited ≢ 0
      → w.read (received fd 134 ∷ armed (s.cfg.gp_timeout * 1000) ∷ read_clock ∷ s.history)
        ≡ bytes_read (b ∷ bs)
      → length (b ∷ bs) ≤ 134
      → gp_receiv w app stop fd true s ≡ chunk w app stop 0 (b ∷ bs) (reading fd (answered w s))
  unfolding gp_receiv data_ready rearm mark_alive
  to_chunk fd b bs s idle known reads short =
      let inited : (((answered w s).devices s.send_mess.dev).is_inited == 0) ≡ false =
        ground arith in
      rw inited (read_port_lem fd b bs (answered w s) idle reads short)

  pub gp_receiv_reply :
      (fd main dst x : ℕ) (xs : List ℕ) (s : Gate)
      → let ys = x ∷ xs in
        let k = length (stuff ys) in
        s.receiv_buf_p ≡ none
        → (s.devices s.send_mess.dev).is_inited ≢ 0
        → w.read (received fd 134 ∷ armed (s.cfg.gp_timeout * 1000) ∷ read_clock ∷ s.history)
          ≡ bytes_read (gp_init ∷ main ∷ dst ∷ (stuff ys ++ gp_end ∷ []))
        → main ≢ gp_end
        → dst ≢ gp_end
        → 4 + k ≤ 134
        → ((j : ℕ) → 4 + k < j → j < 3 + k + specials ys → s.receiv_mess.buf j ≢ gp_esc)
        → (m' : Buf) × (gp_receiv w app stop fd true s ≡ (
            if ltb 0 (xor_all ys)
            then done tt (decoded m' (reading fd (answered w s)))
            else accept w app stop (pos (length ys)) (decoded m' (reading fd (answered w s)))))
          × (slice m' 3 (length ys) ≡ ys)
  unfolding mark_alive
  gp_receiv_reply fd main dst x xs s idle known reads main_ok dst_ok short clean =
      let (m', runs, bytes) =
        chunk_reply w app stop main dst x xs (reading fd (answered w s)) main_ok dst_ok short
          clean in
      (
        m',
        to_chunk fd gp_init (main ∷ dst ∷ (stuff (x ∷ xs) ++ gp_end ∷ [])) s idle known reads
              (omega (arith, length-append (stuff (x ∷ xs)) (gp_end ∷ [])))
            ∙ runs,
        bytes,
      )
