-- ===== src/Receive/Reply.antt =====
-- A reply that comes in whole: `gp_receiv` of src/gp_layer.c takes it apart and looks at its checksum.
pub mod Stored
use libgate.Base.{
  ℕ, zero, suc, ◌+◌, ◌-◌, ◌≤◌, ◌<◌, ◌≡◌, ◌≢◌, refl, sym, ap, ◌∙◌, subst, arith, List, [], ◌∷◌, ◌++◌,
  All, length, length-append, none, some, Buf, slice, update, store_list, store_list_outside,
  slice-update_above, slice-store_list_prefix, store_list-append, pos, true, false, ◌==◌, ltb, leb,
  if◌then◌else◌, inl, inr, Bool-cases, dec_lt,
}
use libgate.World.{World}
use libgate.Gate.{Gate}
use libgate.Gate.Action.{done, pure}
use libgate.Codec.Crc.{crc8_xor-xor_all, xor_all}
use libgate.Codec.Escape.{gp_init, gp_end, gp_esc}
use libgate.Codec.Escape.Stuffing.{stuff, specials, IsPlain, stuff-IsPlain}
use libgate.Codec.Escape.RoundTrip.{memcpy_unesc_clean}
use libgate.Processor.{App}
use libgate.Receive.Reply.Stored.{
  with_reply, reply_fits, reply_begins, reply_ends, reply_holds, reply_behind,
}
use libgate.Receive.{chunk, frame_complete, accept, find_end, unesc_reply, crc_reply}

-- What stands where the closing byte is `k` places behind the fourth byte of the buffer is taken apart.
unesc_reply_lem :
    (xs : List ℕ) (m : Buf)
    → slice m 3 (length (stuff xs)) ≡ stuff xs
    → All (λ b. b ≢ gp_esc) (slice m (3 + length (stuff xs)) (specials xs))
    → let (l, m') = unesc_reply m (3 + length (stuff xs)) in
      (l ≡ pos (length xs)) × (slice m' 3 (length xs) ≡ xs)
unfolding unesc_reply
unesc_reply_lem xs m holds behind =
    let far : leb 3 (3 + length (stuff xs)) ≡ true = ground arith in
    let back : 3 + length (stuff xs) - 3 ≡ length (stuff xs) = omega arith in
    rw (far, back)
      (
        ap pos (memcpy_unesc_clean xs m 3 holds behind).0,
        (memcpy_unesc_clean xs m 3 holds behind).1,
      )

crc_reply_lem :
    (x : ℕ) (xs : List ℕ) (m : Buf)
    → slice m 3 (length (x ∷ xs)) ≡ x ∷ xs
    → crc_reply m (pos (length (x ∷ xs))) ≡ xor_all (x ∷ xs)
unfolding crc_reply
crc_reply_lem x xs m h = crc8_xor-xor_all m 3 (length xs) ∙ ap xor_all h

-- The state once a reply is taken apart.
abbrev pub decoded : Buf → Gate → Gate
decoded m s = record s { receiv_buf_p = none; receiv_mess = record s.receiv_mess { buf = m } }

module _ (w : World) (app : App) (stop : ℕ) where
  pub frame_complete_lem :
      (x : ℕ) (xs : List ℕ) (s : Gate)
      → let ys = x ∷ xs in
        let m = s.receiv_mess.buf in
        slice m 3 (length (stuff ys)) ≡ stuff ys
        → All (λ b. b ≢ gp_esc) (slice m (3 + length (stuff ys)) (specials ys))
        → (m' : Buf) × (frame_complete w app stop (3 + length (stuff ys)) s ≡ (
            if ltb 0 (xor_all ys)
            then done tt (decoded m' s)
            else accept w app stop (pos (length ys)) (decoded m' s)))
          × (slice m' 3 (length ys) ≡ ys)
  unfolding frame_complete
  frame_complete_lem x xs s holds behind =
      let ys : List ℕ = x ∷ xs in
      let r = unesc_reply s.receiv_mess.buf (3 + length (stuff ys)) in
      let (size, bytes) = unesc_reply_lem ys s.receiv_mess.buf holds behind in
      (
        r.1,
        ap (λ l. (if ltb 0 (crc_reply r.1 l) then pure tt else accept w app stop l) (decoded r.1 s))
              size
            ∙ ap
                (λ c.
                  (if ltb 0 c then pure tt else accept w app stop (pos (length ys)))
                    (decoded r.1 s))
                (crc_reply_lem x xs r.1 bytes)
            ∙ elim (Bool-cases (ltb 0 (xor_all ys))) [ inl e ↦ rw e | inr e ↦ rw e ],
        bytes,
      )

  -- A whole reply in an empty buffer, with no old escape byte in the bytes behind it that the decoding
  -- reads: it is taken apart into its bytes from the device type on, with their number as its length;
  -- it is passed over if the checksum of these bytes is not 0, and accepted if it is. Only the buffer
  -- has changed then, and the next reply starts at its beginning.
  pub chunk_reply :
      (main dst x : ℕ) (xs : List ℕ) (s : Gate)
      → let ys = x ∷ xs in
        let k = length (stuff ys) in
        main ≢ gp_end
        → dst ≢ gp_end
        → 4 + k ≤ 134
        → ((j : ℕ) → 4 + k < j → j < 3 + k + specials ys → s.receiv_mess.buf j ≢ gp_esc)
        → (m' : Buf) × (chunk w app stop 0 (gp_init ∷ main ∷ dst ∷ (stuff ys ++ gp_end ∷ [])) s ≡ (
            if ltb 0 (xor_all ys)
            then done tt (decoded m' s)
            else accept w app stop (pos (length ys)) (decoded m' s)))
          × (slice m' 3 (length ys) ≡ ys)
  unfolding chunk
  chunk_reply main dst x xs s main_ok dst_ok short clean =
      let ys = x ∷ xs in
      let m = with_reply main dst ys s.receiv_mess.buf in
      let filled : Gate = record s { receiv_mess = record s.receiv_mess { buf = m } } in
      let fits = reply_fits main dst ys short in
      let begins = reply_begins main dst ys s.receiv_mess.buf in
      let ends = reply_ends main dst ys main_ok dst_ok in
      let (m', runs, bytes) =
        frame_complete_lem x xs filled (reply_holds main dst ys s.receiv_mess.buf)
          (reply_behind main dst ys s.receiv_mess.buf clean) in
      (
        m',
        rw (fits, begins, ends)
              (ap (λ i. frame_complete w app stop i filled)
                (let e : 0 + (3 + length (stuff ys)) ≡ 3 + length (stuff ys) = omega arith in e))
            ∙ runs,
        bytes,
      )
