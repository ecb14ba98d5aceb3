-- ===== src/Receive/Pieces/Whole.antt =====
-- A reply that `gp_receiv` of src/gp_layer.c reads in two or more pieces.
use libgate.Base.{
  append_assoc, ℕ, zero, suc, ◌+◌, ◌≤◌, ◌<◌, ◌≡◌, ◌≢◌, refl, sym, subst, ap, ◌∙◌, arith, List, [],
  ◌∷◌, ◌++◌, All, length, length-append, none, some, Buf, slice, update, store_list, ltb,
  if◌then◌else◌, pos, true,
}
use libgate.World.{World, History, bytes_read}
use libgate.Gate.{Gate}
use libgate.Gate.Action.{Action, done, ◌>>◌, bind_done}
use libgate.Codec.Crc.{xor_all}
use libgate.Codec.Escape.{gp_init, gp_end, gp_esc}
use libgate.Codec.Escape.Stuffing.{stuff, specials}
use libgate.Processor.{App}
use libgate.Receive.{gp_receiv, frame_complete, accept, find_end, mark_alive}
use libgate.Receive.Reply.{decoded, frame_complete_lem}
use libgate.Receive.Reply.Stored.{whole_reply, with_reply, reply_holds, reply_behind, reply_ends}
use libgate.Receive.Arrival.{reading, answered, to_chunk}
use libgate.Receive.Pieces.Filled.{filled, filled-append, filled_first, find_end-parts}
use libgate.Receive.Pieces.Step.{
  reads_behind, IsPart, reading_on, taken, to_chunk_mid, chunk_part, chunk_last, take_piece,
}

abbrev pub join : List (List ℕ) → List ℕ
join [] = []
join (p ∷ ps) = p ++ join ps

-- Behind `n` bytes and the history `h` the pieces are read, one in each call.
abbrev pub Arrives : World → ℕ → ℕ → ℕ → History → List (List ℕ) → Type 0
Arrives w fd timeout n h [] = Unit
Arrives w fd timeout n h (p ∷ ps) =
    (w.read (reads_behind fd timeout n h) ≡ bytes_read p)
    × Arrives w fd timeout (n + length p) (reads_behind fd timeout n h) ps

-- The state in which the last piece is read, behind the pieces `ps`, where `q` was there before.
unfoldable pub last_reading : World → ℕ → List ℕ → List (List ℕ) → Gate → Gate
last_reading w fd q [] s = reading_on w fd (length q) s
last_reading w fd q (p ∷ ps) s = last_reading w fd (q ++ p) ps (taken w fd q p s)

-- The state behind the first piece.
abbrev pub first_taken : World → ℕ → List ℕ → Gate → Gate
first_taken w fd p s = record (reading fd (answered w s)) {
  receiv_buf_p = some (0 + length p);
  receiv_mess = record (answered w s).receiv_mess {
    len = pos (0 + length p);
    buf = filled p s.receiv_mess.buf;
  };
}

module _ (w : World) (app : App) (stop fd : ℕ) where
  -- A call of `gp_receiv` with something to read behind `n` such calls.
  unfoldable pub receive_times : ℕ → Action (Unit {0})
  receive_times zero = gp_receiv w app stop fd true
  receive_times (suc n) = gp_receiv w app stop fd true >> receive_times n

  module _ (main dst x : ℕ) (xs : List ℕ) (base : Buf) (main_ok : main ≢ gp_end)
      (dst_ok : dst ≢ gp_end) (short : 4 + length (stuff (x ∷ xs)) ≤ 134)
      (clean : (j : ℕ)
        → 4 + length (stuff (x ∷ xs)) < j
        → j < 3 + length (stuff (x ∷ xs)) + specials (x ∷ xs)
        → base j ≢ gp_esc) where
    -- What a whole reply comes to in the state `t` in which its last byte is read.
    abbrev Decodes : Action (Unit {0}) → Gate → Gate → Type 0
    Decodes m s t =
        (m' : Buf) × (m s ≡ (
          if ltb 0 (xor_all (x ∷ xs))
          then done tt (decoded m' t)
          else accept w app stop (pos (length (x ∷ xs))) (decoded m' t)))
        × (slice m' 3 (length (x ∷ xs)) ≡ x ∷ xs)

    size_of :
        (a b : List ℕ)
        → a ++ b ≡ whole_reply main dst (x ∷ xs)
        → length a + length b ≡ 4 + length (stuff (x ∷ xs))
    size_of a b e =
        omega (arith, length-append a b, ap length e, length-append (stuff (x ∷ xs)) (gp_end ∷ []))

    last_piece :
        (q : List ℕ) (b : ℕ) (bs : List ℕ) (s : Gate)
        → IsPart base (gp_init ∷ q) s
        → w.read (reads_behind fd s.cfg.gp_timeout (length (gp_init ∷ q)) s.history)
          ≡ bytes_read (b ∷ bs)
        → (gp_init ∷ q) ++ b ∷ bs ≡ whole_reply main dst (x ∷ xs)
        → Decodes (gp_receiv w app stop fd true) s (reading_on w fd (length (gp_init ∷ q)) s)
    unfolding mark_alive
    last_piece q b bs s part reads whole =
        let n : ℕ = length (gp_init ∷ q) in
        let k : ℕ = length (stuff (x ∷ xs)) in
        let sizes = size_of (gp_init ∷ q) (b ∷ bs) whole in
        let (i, none_there, found, sum) =
          find_end-parts (gp_init ∷ q) (b ∷ bs) (3 + k)
            (ap find_end whole ∙ reply_ends main dst (x ∷ xs) main_ok dst_ok) (omega arith) in
        let grown =
          ap (λ m. update (store_list m n (b ∷ bs)) (n + length (b ∷ bs)) 0) part.bytes
          ∙ filled-append (gp_init ∷ q) b bs base
          ∙ ap (λ l. filled l base) whole in
        let u : Gate = reading_on w fd n s in
        let (m', runs, bytes) =
          frame_complete_lem w app stop x xs
            (record u {
              receiv_mess = record u.receiv_mess { buf = with_reply main dst (x ∷ xs) base };
            })
            (reply_holds main dst (x ∷ xs) base) (reply_behind main dst (x ∷ xs) base clean) in
        (
          m',
          to_chunk_mid w app stop fd n b bs s part.place part.size part.known reads (omega arith)
              ∙ chunk_last w app stop n b bs u i (omega arith)
                  (ap (λ m. m 0) grown
                    ∙ filled_first gp_init (main ∷ dst ∷ (stuff (x ∷ xs) ++ gp_end ∷ [])) base)
                  found
              ∙ ap
                  (λ j. frame_complete w app stop j (record u {
                    receiv_mess = record u.receiv_mess {
                      buf =
                          update (store_list s.receiv_mess.buf n (b ∷ bs)) (n + length (b ∷ bs)) 0;
                    };
                  }))
                  sum
              ∙ ap
                  (λ m.
                    frame_complete w app stop (3 + k)
                      (record u { receiv_mess = record u.receiv_mess { buf = m } }))
                  grown
              ∙ runs,
          bytes,
        )

    -- The pieces behind the first one.
    more_pieces :
        (ps : List (List ℕ)) (q : List ℕ) (b : ℕ) (bs : List ℕ) (s : Gate)
        → IsPart base (gp_init ∷ q) s
        → All (λ p. p ≢ []) ps
        → Arrives w fd s.cfg.gp_timeout (length (gp_init ∷ q)) s.history (ps ++ (b ∷ bs) ∷ [])
        → (gp_init ∷ q) ++ (join ps ++ b ∷ bs) ≡ whole_reply main dst (x ∷ xs)
        → Decodes (receive_times (length ps)) s (last_reading w fd (gp_init ∷ q) ps s)
    unfolding receive_times last_reading mark_alive
    more_pieces [] q b bs s part full reads whole = last_piece q b bs s part reads.0 whole
    more_pieces ([] ∷ ps) q b bs s part full reads whole = absurd (full.0 refl)
    more_pieces ((c ∷ cs) ∷ ps) q b bs s part full reads whole =
        let p : List ℕ = c ∷ cs in
        let rest : List ℕ = join ps ++ b ∷ bs in
        let whole' : ((gp_init ∷ q) ++ p) ++ rest ≡ whole_reply main dst (x ∷ xs) =
          append_assoc (gp_init ∷ q) p rest
          ∙ ap (◌++◌ (gp_init ∷ q)) (sym (append_assoc p (join ps) (b ∷ bs)))
          ∙ whole in
        let sizes =
          size_of (gp_init ∷ q) (p ++ rest) (sym (append_assoc (gp_init ∷ q) p rest) ∙ whole') in
        let (i, none_before, found, sum) =
          find_end-parts (gp_init ∷ q) (p ++ rest) (3 + length (stuff (x ∷ xs)))
            (ap find_end (sym (append_assoc (gp_init ∷ q) p rest) ∙ whole')
              ∙ reply_ends main dst (x ∷ xs) main_ok dst_ok)
            (omega (arith, length-append p rest, length-append (join ps) (b ∷ bs))) in
        let (j, none_there, found', sum') =
          find_end-parts p rest i found
            (omega (arith, length-append p rest, length-append (join ps) (b ∷ bs))) in
        let (takes, part') =
          take_piece w app stop fd q c cs base s part reads.0 (omega (arith, length-append p rest))
            none_there in
        let (m', runs, bytes) =
          more_pieces ps (q ++ p) b bs (taken w fd (gp_init ∷ q) p s) part' full.1
            (subst
              (λ n.
                Arrives w fd s.cfg.gp_timeout n
                  (reads_behind fd s.cfg.gp_timeout (length (gp_init ∷ q)) s.history)
                  (ps ++ (b ∷ bs) ∷ []))
              (sym (length-append (gp_init ∷ q) p)) reads.1)
            whole' in
        (
          m',
          bind_done (gp_receiv w app stop fd true) (λ y. receive_times (length ps)) takes ∙ runs,
          bytes,
        )

  first_piece :
      (q : List ℕ) (s : Gate)
      → s.receiv_buf_p ≡ none
      → (s.devices s.send_mess.dev).is_inited ≢ 0
      → w.read (reads_behind fd s.cfg.gp_timeout 0 s.history) ≡ bytes_read (gp_init ∷ q)
      → length (gp_init ∷ q) ≤ 134
      → find_end (gp_init ∷ q) ≡ none
      → (gp_receiv w app stop fd true s ≡ done tt (first_taken w fd (gp_init ∷ q) s))
        × IsPart s.receiv_mess.buf (gp_init ∷ q) (first_taken w fd (gp_init ∷ q) s)
  unfolding mark_alive
  first_piece q s idle known reads short none_there = (
    to_chunk w app stop fd gp_init q s idle known reads short
        ∙ chunk_part w app stop 0 gp_init q (reading fd (answered w s)) (omega arith) refl
            (filled_first gp_init q s.receiv_mess.buf) none_there,
    record {
      place = ap some (omega arith);
      size = ap pos (omega arith);
      bytes = refl;
      known = ground (arith, known);
    },
  )

  -- A whole reply of a known device comes in over two or more calls of `gp_receiv` at an idle port, in
  -- pieces that are cut anywhere: each call but the last stores its piece and does nothing else, and
  -- the last one takes the reply apart into its bytes from the device type on, with their number as
  -- its length: it is passed over if the checksum of these bytes is not 0, and accepted if it is. The
  -- next reply starts at the beginning of the buffer. Old bytes in the buffer must not look like
  -- escapes where the decoding reads behind the reply.
  pub gp_receiv_pieces :
      (main dst x : ℕ) (xs q : List ℕ) (ps : List (List ℕ)) (b : ℕ) (bs : List ℕ) (s : Gate)
      → let ys = x ∷ xs in
        let k = length (stuff ys) in
        let first = gp_init ∷ q in
        s.receiv_buf_p ≡ none
        → (s.devices s.send_mess.dev).is_inited ≢ 0
        → All (λ p. p ≢ []) ps
        → first ++ (join ps ++ b ∷ bs) ≡ gp_init ∷ main ∷ dst ∷ (stuff ys ++ gp_end ∷ [])
        → Arrives w fd s.cfg.gp_timeout 0 s.history (first ∷ (ps ++ (b ∷ bs) ∷ []))
        → main ≢ gp_end
        → dst ≢ gp_end
        → 4 + k ≤ 134
        → ((j : ℕ) → 4 + k < j → j < 3 + k + specials ys → s.receiv_mess.buf j ≢ gp_esc)
        → let t = last_reading w fd first ps (first_taken w fd first s) in
          (m' : Buf) × (receive_times (suc (length ps)) s ≡ (
            if ltb 0 (xor_all ys)
            then done tt (decoded m' t)
            else accept w app stop (pos (length ys)) (decoded m' t)))
          × (slice m' 3 (length ys) ≡ ys)
  unfolding receive_times mark_alive
  gp_receiv_pieces main dst x xs q ps b bs s idle known full whole reads main_ok dst_ok short
        clean =
      let first : List ℕ = gp_init ∷ q in
      let rest : List ℕ = join ps ++ b ∷ bs in
      let sizes =
        size_of main dst x xs s.receiv_mess.buf main_ok dst_ok short clean first rest whole in
      let (i, none_there, found, sum) =
        find_end-parts first rest (3 + length (stuff (x ∷ xs)))
          (ap find_end whole ∙ reply_ends main dst (x ∷ xs) main_ok dst_ok)
          (omega (arith, length-append (join ps) (b ∷ bs))) in
      let (takes, part) = first_piece q s idle known reads.0 (omega arith) none_there in
      let (m', runs, bytes) =
        more_pieces main dst x xs s.receiv_mess.buf main_ok dst_ok short clean ps q b bs
          (first_taken w fd first s) part full
          (subst
            (λ n.
              Arrives w fd s.cfg.gp_timeout n (reads_behind fd s.cfg.gp_timeout 0 s.history)
                (ps ++ (b ∷ bs) ∷ []))
            (let e : 0 + length first ≡ length first = omega arith in e) reads.1)
          whole in
      (
        m',
        bind_done (gp_receiv w app stop fd true) (λ y. receive_times (length ps)) takes ∙ runs,
        bytes,
      )
