-- ===== src/Codec/Escape.antt =====
-- `memcpy_esc` and `memcpy_unesc` of src/gp_util.c. `memcpy_esc` copies between two buffers that do
-- not overlap. `memcpy_unesc` runs in place, over one memory with a reading and a writing index.
-- Indices are unbounded: the callers' buffer sizes are stated where they are called.
pub mod Stuffing
pub mod RoundTrip
use libgate.Base.{
  ℕ, zero, suc, ◌+◌, ◌-◌, bit_and, true, false, Option, none, some, Buf, update, ◌==◌,
  if◌then◌else◌,
}

abbrev pub gp_init : ℕ
gp_init = 0xFA

abbrev pub gp_end : ℕ
gp_end = 0xF5

abbrev pub gp_esc : ℕ
gp_esc = 0xFF

-- The second byte of the escape sequence for `b`; `none` where `b` is copied as it is.
unfoldable pub escape_code : ℕ → Option ℕ
escape_code b =
    if bit_and b 0xF0 == 0xF0
    then if b == gp_init
      then some 1
      else if b == gp_end
      then some 2
      else if b == gp_esc
      then some 3
      else none
    else none

-- The rounds left, the destination and its index, the source and its index, the count `c`.
unfoldable pub esc_loop : ℕ → Buf → ℕ → Buf → ℕ → ℕ → ℕ × Buf
esc_loop zero dest d src s c = (c, update dest d 0)
esc_loop (suc left) dest d src s c = elim (escape_code (src s)) [
  | none ↦ esc_loop left (update dest d (src s)) (d + 1) src (s + 1) (c + 1)
  | some k ↦ esc_loop left (update (update dest d gp_esc) (d + 1) k) (d + 2) src (s + 1) (c + 2)
]

unfoldable pub memcpy_esc : Buf → ℕ → Buf → ℕ → ℕ → ℕ × Buf
memcpy_esc dest d src s l = esc_loop l dest d src s 0

-- The byte that an escape sequence with second byte `k` stands for.
unfoldable pub unescape_code : ℕ → Option ℕ
unescape_code k =
    if k == 1
    then some gp_init
    else if k == 2
    then some gp_end
    else if k == 3
    then some gp_esc
    else none

-- The rounds left, the memory, the writing and the reading index, the length `l` so far.
unfoldable pub unesc_loop : ℕ → Buf → ℕ → ℕ → ℕ → ℕ × Buf
unesc_loop zero m d s l = (l, update m d 0)
unesc_loop (suc left) m d s l = elim (m s == gp_esc) [
  | true ↦ elim (unescape_code (m (s + 1))) [
    | none ↦ (0, m)
    | some b ↦ unesc_loop left (update m d b) (d + 1) (s + 2) (l - 1)
  ]
  | false ↦ unesc_loop left (update m d (m s)) (d + 1) (s + 1) l
]

unfoldable pub memcpy_unesc : Buf → ℕ → ℕ → ℕ → ℕ × Buf
memcpy_unesc m d s len = unesc_loop len m d s len
