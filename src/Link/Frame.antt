-- ===== src/Link/Frame.antt =====
-- The frame that `gp_send` of src/gp_layer.c writes: its layout, its checksum, and that the
-- receiving side can take it apart again.
use mathlib.Core.Path.{ap₂}
use libgate.Base.{
  ℕ, suc, sym, ◌+◌, ◌-◌, ◌<◌, ◌≡◌, ◌≢◌, All, ap, ◌∙◌, List, [], ◌∷◌, ◌++◌, arith, length, Buf,
  slice, update, zeroed, store_list, store_list_outside, slice_ext, slice-suc, slice-update_above,
  slice-store_list_prefix, length-slice, inl,
}
use libgate.Gate.{Cmd, Gate, cmd_bytes}
use libgate.Codec.Crc.{crc8_xor, crc8_xor-xor_all, xor_all, xor_all_checked}
use libgate.Codec.Escape.{gp_init, gp_end, gp_esc, memcpy_esc, memcpy_unesc}
use libgate.Codec.Escape.RoundTrip.{memcpy_unesc_clean}
use libgate.Codec.Escape.Stuffing.{stuff, specials, IsPlain, stuff-IsPlain, memcpy_esc-stuff}
use libgate.Link.{gp_ctrl, with_crc, escaped_frame, store_frame}

-- The bytes of a command with its checksum: `dst`, `cmd_n`, the data and the checksum.
abbrev pub body : Cmd → List ℕ
body cmd = slice (cmd_bytes (with_crc cmd)) 0 (cmd.data_len + 3)

-- What goes over the line for a command.
abbrev pub frame : Cmd → List ℕ
frame cmd = gp_init ∷ gp_ctrl ∷ (stuff (body cmd) ++ gp_end ∷ [])

-- What the checksum is taken over: the command's number and its data.
abbrev pub payload : Cmd → List ℕ
payload cmd = cmd.cmd_n ∷ slice cmd.cmd_buff 0 cmd.data_len

data_slice : (cmd : Cmd) (n : ℕ) → slice (cmd_bytes cmd) 2 n ≡ slice cmd.cmd_buff 0 n
data_slice cmd n = slice_ext (cmd_bytes cmd) cmd.cmd_buff 2 0 n λ k below.
    ap (cmd_bytes cmd) (let e : 2 + k ≡ suc (suc k) = omega arith in e)
    ∙ ap cmd.cmd_buff (omega arith)

payload_crc : (cmd : Cmd) → crc8_xor (cmd_bytes cmd) 1 (cmd.data_len + 1) ≡ xor_all (payload cmd)
payload_crc cmd =
    ap (crc8_xor (cmd_bytes cmd) 1) (let e : cmd.data_len + 1 ≡ suc cmd.data_len = omega arith in e)
    ∙ crc8_xor-xor_all (cmd_bytes cmd) 1 cmd.data_len
    ∙ ap (λ t. xor_all (cmd.cmd_n ∷ t)) (data_slice cmd cmd.data_len)

-- A command with its checksum reads: destination, number, data, checksum.
pub body_parts : (cmd : Cmd) → body cmd ≡ cmd.dst ∷ (payload cmd ++ xor_all (payload cmd) ∷ [])
unfolding with_crc
body_parts cmd =
    ap (slice (cmd_bytes (with_crc cmd)) 0) (let e : n + 3 ≡ suc (suc (n + 1)) = omega arith in e)
    ∙ ap (λ t. cmd.dst ∷ cmd.cmd_n ∷ t)
        (data_slice (with_crc cmd) (n + 1)
          ∙ slice-suc sealed 0 n
          ∙ ap₂ (λ t b. t ++ b ∷ []) (slice-update_above cmd.cmd_buff n crc 0 n (omega arith)) last)
  where
    n : ℕ
    n = cmd.data_len

    crc : ℕ
    crc = crc8_xor (cmd_bytes cmd) 1 (n + 1)

    sealed : Buf
    sealed = update cmd.cmd_buff n crc

    last : sealed (0 + n) ≡ xor_all (payload cmd)
    last = ground (arith, payload_crc cmd)

pub length-body : (cmd : Cmd) → length (body cmd) ≡ cmd.data_len + 3
length-body cmd = length-slice (cmd_bytes (with_crc cmd)) 0 (cmd.data_len + 3)

-- The buffer that `gp_send` fills holds the frame of the bytes of the command that it is given.
stored_bytes :
    (sealed : Cmd) (s : Gate)
    → let t = store_frame (escaped_frame sealed) s in
      slice t.send_mess.buf 0 t.send_mess.len
      ≡ gp_init
        ∷ gp_ctrl
        ∷ (stuff (slice (cmd_bytes sealed) 0 (sealed.data_len + 3)) ++ gp_end ∷ [])
unfolding escaped_frame store_frame
stored_bytes sealed s = rw stuffed (
    ap (slice ended 0) (let e : c + 3 ≡ suc (suc (c + 1)) = omega arith in e)
    ∙ ap₂ ◌∷◌ (ended_low 0 (omega arith)) (
        ap₂ ◌∷◌ (ended_low 1 (omega arith))
          (slice-suc ended 2 c ∙ ap₂ (λ t b. t ++ b ∷ []) middle last)))
  where
    base : Buf
    base = update (update (update (update zeroed 0 gp_init) 1 gp_ctrl) 2 sealed.dst) 3 sealed.cmd_n

    text : List ℕ
    text = stuff (slice (cmd_bytes sealed) 0 (sealed.data_len + 3))

    c : ℕ
    c = length text

    stuffed :
        memcpy_esc base 2 (cmd_bytes sealed) 0 (sealed.data_len + 3)
        ≡ (c, store_list base 2 (text ++ 0 ∷ []))
    stuffed = memcpy_esc-stuff base 2 (cmd_bytes sealed) 0 (sealed.data_len + 3)

    ended : Buf
    ended = update (store_list base 2 (text ++ 0 ∷ [])) (c + 3 - 1) gp_end

    ended_low : (j : ℕ) → j < 2 → ended j ≡ base j
    ended_low j low = ground (arith, store_list_outside (text ++ 0 ∷ []) base 2 j (inl low))

    middle : slice ended 2 c ≡ text
    middle =
        slice-update_above (store_list base 2 (text ++ 0 ∷ [])) (c + 3 - 1) gp_end 2 c (omega arith)
        ∙ slice-store_list_prefix text (0 ∷ []) base 2

    last : ended (2 + c) ≡ gp_end
    last = ground arith

-- What `gp_send` stores into `send_mess` is the frame of the command.
pub frame_stored :
    (cmd : Cmd) (s : Gate)
    → let t = store_frame (escaped_frame (with_crc cmd)) s in
      slice t.send_mess.buf 0 t.send_mess.len ≡ frame cmd
unfolding with_crc
frame_stored cmd s = stored_bytes (with_crc cmd) s

pub frame_count : (cmd : Cmd) → (escaped_frame (with_crc cmd)).0 ≡ length (stuff (body cmd))
unfolding with_crc escaped_frame
frame_count cmd =
    ap (λ r. r.0) (memcpy_esc-stuff _ 2 (cmd_bytes (with_crc cmd)) 0 (cmd.data_len + 3))

∷-tail : {a b : ℕ} {xs ys : List ℕ} → a ∷ xs ≡ b ∷ ys → xs ≡ ys
∷-tail e = cc

-- The frame of a command has its delimiters only at its ends, and the text between them decodes to
-- the destination and a payload whose checksum, behind it, makes the sum 0: a receiver that finds the
-- text in its memory, with no escape byte among the bytes behind it that its loop reads, gets the
-- bytes of the command back and accepts their checksum.
pub frame_received :
    (cmd : Cmd) (m : Buf) (p : ℕ)
    → slice m p (length (stuff (body cmd))) ≡ stuff (body cmd)
    → All (λ b. b ≢ gp_esc) (slice m (p + length (stuff (body cmd))) (specials (body cmd)))
    → let (l, m') = memcpy_unesc m p p (length (stuff (body cmd))) in
      All IsPlain (stuff (body cmd))
      × (l ≡ cmd.data_len + 3)
      × (slice m' p l ≡ body cmd)
      × (crc8_xor m' (p + 1) (l - 1) ≡ 0)
frame_received cmd m p holds behind = (
  stuff-IsPlain (body cmd),
  size,
  ap (slice m' p) (size ∙ sym (length-body cmd)) ∙ bytes,
  ap (crc8_xor m' (p + 1)) (let e : l - 1 ≡ suc (cmd.data_len + 1) = omega (arith, size) in e)
      ∙ crc8_xor-xor_all m' (p + 1) (cmd.data_len + 1)
      ∙ ap xor_all tail
      ∙ xor_all_checked (payload cmd),
)
  where
    l : ℕ
    l = (memcpy_unesc m p p (length (stuff (body cmd)))).0

    m' : Buf
    m' = (memcpy_unesc m p p (length (stuff (body cmd)))).1

    decoded : (l ≡ length (body cmd)) × (slice m' p (length (body cmd)) ≡ body cmd)
    decoded = memcpy_unesc_clean (body cmd) m p holds behind

    size : l ≡ cmd.data_len + 3
    size = decoded.0 ∙ length-body cmd

    bytes : slice m' p (length (body cmd)) ≡ body cmd
    bytes = decoded.1

    tail : slice m' (p + 1) (suc (cmd.data_len + 1)) ≡ payload cmd ++ xor_all (payload cmd) ∷ []
    tail = ∷-tail (
        ap (slice m' p) (
          let e : suc (suc (cmd.data_len + 1)) ≡ length (body cmd) =
            omega (arith, length-body cmd) in
          e)
        ∙ bytes
        ∙ body_parts cmd)
