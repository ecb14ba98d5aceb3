-- ===== src/Receive/Pieces/Step.antt =====
-- One call of `gp_receiv` of src/gp_layer.c while a reply comes in.
use libgate.Base.{
  ℕ, ◌+◌, ◌-◌, ◌*◌, ◌≤◌, ◌≡◌, ◌≢◌, refl, sym, ap, ◌∙◌, arith, List, ◌∷◌, ◌++◌, length,
  length-append, none, some, Buf, update, store_list, pos, true, false, ◌==◌, leb,
}
use libgate.World.{World, History, bytes_read, read_clock, armed, received}
use libgate.Gate.{Gate}
use libgate.Gate.Action.{Outcome, done}
use libgate.Codec.Escape.{gp_init}
use libgate.Processor.{App}
use libgate.Receive.{
  gp_receiv, data_ready, after_read, chunk, rearm, mark_alive, start_frame, room, read_port,
  bytes_in, find_end, frame_complete, add_count,
}
use libgate.Receive.Arrival.{answered, take-all}
use libgate.Receive.Pieces.Filled.{filled, filled-append, filled_first}

-- The requests of a call that reads behind `n` bytes.
abbrev pub reads_behind : ℕ → ℕ → ℕ → History → History
reads_behind fd timeout n h = received fd (134 - n) ∷ armed (timeout * 1000) ∷ read_clock ∷ h

-- The bytes `q` of a reply have come in, at a device that is known.
pub record IsPart (base : Buf) (q : List ℕ) (s : Gate) : Type 0 where
  pub place : s.receiv_buf_p ≡ some (length q)
  pub size : s.receiv_mess.len ≡ pos (length q)
  pub bytes : s.receiv_mess.buf ≡ filled q base
  pub known : (s.devices s.send_mess.dev).is_inited ≢ 0

-- The state behind `n` bytes in which the next ones are read, and the one with `bs` stored there.
abbrev pub reading_on : World → ℕ → ℕ → Gate → Gate
reading_on w fd n s = record (answered w s) {
  history = reads_behind fd s.cfg.gp_timeout n s.history;
}

abbrev pub taken : World → ℕ → List ℕ → List ℕ → Gate → Gate
taken w fd q bs s = record (reading_on w fd (length q) s) {
  receiv_buf_p = some (length q + length bs);
  receiv_mess = record (answered w s).receiv_mess {
    len = pos (length q + length bs);
    buf = update (store_list s.receiv_mess.buf (length q) bs) (length q + length bs) 0;
  };
}

module _ (w : World) (app : App) (stop : ℕ) where
  pub mid_started : (s : Gate) (n : ℕ) → s.receiv_buf_p ≡ some n → start_frame s ≡ s
  unfolding start_frame
  mid_started s n e =
      ap
        (λ p. elim p [
          | none ↦ record s {
            receiv_buf_p = some 0;
            receiv_mess = record s.receiv_mess { len = pos 0 };
          }
          | some q ↦ s
        ])
        e

  pub room_left : (n : ℕ) → n ≤ 134 → room (pos n) ≡ 134 - n
  unfolding room
  room_left n h = ground arith

  read_mid :
      (fd n b : ℕ) (bs : List ℕ) (s : Gate)
      → s.receiv_buf_p ≡ some n
      → s.receiv_mess.len ≡ pos n
      → w.read (received fd (134 - n) ∷ s.history) ≡ bytes_read (b ∷ bs)
      → n + length (b ∷ bs) ≤ 134
      → read_port w app stop fd s
        ≡ chunk w app stop n (b ∷ bs) (record s { history = received fd (134 - n) ∷ s.history })
  unfolding read_port after_read bytes_in
  read_mid fd n b bs s at_n size reads short =
      ap (λ p. at (elim p [ none ↦ 0 | some q ↦ q ]) (room s.receiv_mess.len)) at_n
      ∙ ap (at n) (ap room size ∙ room_left n (omega arith))
      ∙ ap
          (λ r.
            after_read w app stop n (134 - n) r
              (record s { history = received fd (134 - n) ∷ s.history }))
          reads
      ∙ ap (λ l. bytes_in w app stop n l (record s { history = received fd (134 - n) ∷ s.history }))
          (take-all (134 - n) (b ∷ bs) (omega arith))
    where
      at : ℕ → ℕ → Outcome (Unit {0})
      at p k =
          after_read w app stop p k (w.read (received fd k ∷ s.history))
            (record s { history = received fd k ∷ s.history })

  -- The bytes that come in are stored behind those that came before.
  pub to_chunk_mid :
      (fd n b : ℕ) (bs : List ℕ) (s : Gate)
      → s.receiv_buf_p ≡ some n
      → s.receiv_mess.len ≡ pos n
      → (s.devices s.send_mess.dev).is_inited ≢ 0
      → w.read (reads_behind fd s.cfg.gp_timeout n s.history) ≡ bytes_read (b ∷ bs)
      → n + length (b ∷ bs) ≤ 134
      → gp_receiv w app stop fd true s ≡ chunk w app stop n (b ∷ bs) (reading_on w fd n s)
  unfolding gp_receiv data_ready rearm mark_alive
  to_chunk_mid fd n b bs s at_n size known reads short =
      let inited : (((answered w s).devices s.send_mess.dev).is_inited == 0) ≡ false =
        ground arith in
      rw inited (
        ap (read_port w app stop fd) (mid_started (answered w s) n at_n)
        ∙ read_mid fd n b bs (answered w s) at_n size reads short)

  -- A piece without the closing byte is stored, and nothing more is done.
  pub chunk_part :
      (n b : ℕ) (bs : List ℕ) (s : Gate)
      → n + length (b ∷ bs) ≤ 134
      → s.receiv_mess.len ≡ pos n
      → update (store_list s.receiv_mess.buf n (b ∷ bs)) (n + length (b ∷ bs)) 0 0 ≡ gp_init
      → find_end (b ∷ bs) ≡ none
      → chunk w app stop n (b ∷ bs) s
        ≡ done tt (record s {
          receiv_buf_p = some (n + length (b ∷ bs));
          receiv_mess = record s.receiv_mess {
            len = pos (n + length (b ∷ bs));
            buf = update (store_list s.receiv_mess.buf n (b ∷ bs)) (n + length (b ∷ bs)) 0;
          };
        })
  unfolding chunk add_count
  chunk_part n b bs s short size begins none_there =
      let m : Buf = update (store_list s.receiv_mess.buf n (b ∷ bs)) (n + length (b ∷ bs)) 0 in
      let fits : leb (n + length (b ∷ bs)) 134 ≡ true = ground arith in
      let opens : (m 0 == gp_init) ≡ true = ground arith in
      rw (fits, opens, none_there)
        (ap
          (λ z. done tt (record s {
            receiv_buf_p = some (n + length (b ∷ bs));
            receiv_mess = record s.receiv_mess { len = add_count z (length (b ∷ bs)); buf = m };
          }))
          size)

  -- The piece with the closing byte at place `i` makes the reply complete.
  pub chunk_last :
      (n b : ℕ) (bs : List ℕ) (s : Gate) (i : ℕ)
      → n + length (b ∷ bs) ≤ 134
      → update (store_list s.receiv_mess.buf n (b ∷ bs)) (n + length (b ∷ bs)) 0 0 ≡ gp_init
      → find_end (b ∷ bs) ≡ some i
      → chunk w app stop n (b ∷ bs) s
        ≡ frame_complete w app stop (n + i) (record s {
          receiv_mess = record s.receiv_mess {
            buf = update (store_list s.receiv_mess.buf n (b ∷ bs)) (n + length (b ∷ bs)) 0;
          };
        })
  unfolding chunk
  chunk_last n b bs s i short begins found =
      let m : Buf = update (store_list s.receiv_mess.buf n (b ∷ bs)) (n + length (b ∷ bs)) 0 in
      let fits : leb (n + length (b ∷ bs)) 134 ≡ true = ground arith in
      let opens : (m 0 == gp_init) ≡ true = ground arith in rw (fits, opens, found) refl

  -- A call that reads one more piece.
  pub take_piece :
      (fd : ℕ) (q : List ℕ) (b : ℕ) (bs : List ℕ) (base : Buf) (s : Gate)
      → IsPart base (gp_init ∷ q) s
      → w.read (reads_behind fd s.cfg.gp_timeout (length (gp_init ∷ q)) s.history)
        ≡ bytes_read (b ∷ bs)
      → length (gp_init ∷ q) + length (b ∷ bs) ≤ 134
      → find_end (b ∷ bs) ≡ none
      → (gp_receiv w app stop fd true s ≡ done tt (taken w fd (gp_init ∷ q) (b ∷ bs) s))
        × IsPart base (gp_init ∷ (q ++ b ∷ bs)) (taken w fd (gp_init ∷ q) (b ∷ bs) s)
  unfolding mark_alive
  take_piece fd q b bs base s part reads short none_there =
      let n : ℕ = length (gp_init ∷ q) in
      let grown =
        ap (λ m. update (store_list m n (b ∷ bs)) (n + length (b ∷ bs)) 0) part.bytes
        ∙ filled-append (gp_init ∷ q) b bs base in
      let size = length-append (gp_init ∷ q) (b ∷ bs) in
      (
        to_chunk_mid fd n b bs s part.place part.size part.known reads short
            ∙ chunk_part n b bs (reading_on w fd n s) short part.size
                (ap (λ m. m 0) grown ∙ filled_first gp_init (q ++ b ∷ bs) base) none_there,
        record {
          place = ap some (sym size);
          size = ap pos (sym size);
          bytes = grown;
          known = ground (arith, part.known);
        },
      )
