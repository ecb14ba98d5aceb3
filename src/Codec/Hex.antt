-- ===== src/Codec/Hex.antt =====
-- `bin2hex` and `long2hex` of src/gp_util.c: bytes as upper-case hexadecimal text.
pub mod Text
use libgate.Base.{
  ℕ, zero, suc, ◌+◌, ◌-◌, ◌*◌, ◌/◌, bit_and, Buf, update, zeroed, store_list, ltb, ◌==◌,
  if◌then◌else◌,
}
use libgate.Codec.Integer.Bytes.{le_bytes}

unfoldable pub hex_digit : ℕ → ℕ
hex_digit h = if ltb h 10 then h + b'0' else h + b'A' - 10

-- `h = b >> 4; l = b & 0x0f; *(d++) = …; *(d++) = …;`
unfoldable pub put_hex : Buf → ℕ → ℕ → Buf
put_hex dest d b = update (update dest d (hex_digit (b / 16))) (d + 1) (hex_digit (bit_and b 0x0f))

-- The rounds left, the destination and its index, the source and its index.
unfoldable pub hex_up : ℕ → Buf → ℕ → Buf → ℕ → Buf
hex_up zero dest d src s = update dest d 0
hex_up (suc left) dest d src s = hex_up left (put_hex dest d (src s)) (d + 2) src (s + 1)

-- The same from the last byte down; `e` is the index behind the byte read next.
unfoldable pub hex_down : ℕ → Buf → ℕ → Buf → ℕ → Buf
hex_down zero dest d src e = update dest d 0
hex_down (suc left) dest d src e = hex_down left (put_hex dest d (src (e - 1))) (d + 2) src (e - 1)

unfoldable pub bin2hex : Buf → ℕ → Buf → ℕ → ℕ → ℕ → ℕ × Buf
bin2hex dest d src s len revert =
    if revert == 1
    then (2 * len, hex_down len dest d src (s + len))
    else (2 * len, hex_up len dest d src s)

-- `l` is 8, the size of a `uint64_t`, whose bytes are read from the highest down.
unfoldable pub long2hex : Buf → ℕ → ℕ → ℕ × Buf
long2hex dest d a = (16, hex_down 8 dest d (store_list zeroed 0 (le_bytes 8 a)) 8)
