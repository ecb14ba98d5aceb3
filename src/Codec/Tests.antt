-- ===== src/Codec/Tests.antt =====
-- Runs of the codecs of src/gp_util.c on small inputs, and the theorems about them at such inputs.
use libgate.Base.{◌≡◌, ◌≢◌, refl, [], ◌∷◌, arith, Buf, slice, zeroed, store_list, update}
use libgate.Codec.Crc.{crc_loop, crc8_xor, crc8_xor_detects}
use libgate.Codec.Escape.{
  escape_code, unescape_code, esc_loop, unesc_loop, memcpy_esc, memcpy_unesc,
}
use libgate.Codec.Escape.Stuffing.{stuff, specials, memcpy_esc-stuff}
use libgate.Codec.Escape.RoundTrip.{
  done, plain, escaped, memcpy_unesc-stuff, memcpy_unesc-memcpy_esc, memcpy_unesc_rejects,
}
use libgate.Codec.Integer.{bswap64, bin2int, int2bin}
use libgate.Codec.Integer.Bytes.{le_value, le_bytes}
use libgate.Codec.Integer.RoundTrip.{bin2int-int2bin}
use libgate.Codec.Hex.{hex_digit, put_hex, hex_down, long2hex}

-- 7, and a message with each special byte.
abbrev source : Buf
source = store_list zeroed 0 (7 ∷ 0xFA ∷ 0xF5 ∷ 0xFF ∷ 9 ∷ [])

abbrev sent : Buf
sent = store_list zeroed 0 (7 ∷ 0xFF ∷ 1 ∷ 0xFF ∷ 2 ∷ 0xFF ∷ 3 ∷ 9 ∷ [])

escapes : (memcpy_esc zeroed 0 source 0 5).0 ≡ 8
unfolding memcpy_esc esc_loop escape_code
escapes = refl

escaped_bytes : slice (memcpy_esc zeroed 0 source 0 5).1 0 9 ≡ slice sent 0 9
unfolding memcpy_esc esc_loop escape_code
escaped_bytes = refl

unescapes : slice (memcpy_unesc sent 0 0 8).1 0 5 ≡ slice source 0 5
unfolding memcpy_unesc unesc_loop unescape_code
unescapes = refl

checksum : crc8_xor source 0 5 ≡ 0xFE
unfolding crc8_xor crc_loop
checksum = refl

card : bin2int (store_list zeroed 0 (1 ∷ 2 ∷ 3 ∷ [])) 0 3 1 ≡ 0x010203
unfolding bin2int bswap64 le_value le_bytes
card = refl

hex :
    slice (long2hex zeroed 0 0xAB).1 0 16
    ≡ 48 ∷ 48 ∷ 48 ∷ 48 ∷ 48 ∷ 48 ∷ 48 ∷ 48 ∷ 48 ∷ 48 ∷ 48 ∷ 48 ∷ 48 ∷ 48 ∷ 65 ∷ 66 ∷ []
unfolding long2hex hex_down put_hex hex_digit le_bytes
hex = refl

memcpy_esc-stuff_example :
    memcpy_esc zeroed 0 source 1 2 ≡ (4, store_list zeroed 0 (0xFF ∷ 1 ∷ 0xFF ∷ 2 ∷ 0 ∷ []))
unfolding stuff escape_code
memcpy_esc-stuff_example = memcpy_esc-stuff zeroed 0 source 1 2

memcpy_unesc-memcpy_esc_example :
    ((memcpy_unesc sent 0 0 8).0 ≡ 5) × (slice (memcpy_unesc sent 0 0 8).1 0 5 ≡ slice source 0 5)
unfolding memcpy_esc esc_loop escape_code specials
memcpy_unesc-memcpy_esc_example =
    memcpy_unesc-memcpy_esc zeroed source sent (memcpy_esc zeroed 0 source 0 5).1 0 0 0 5 8 refl
      refl (omega arith)

-- A stale escape sequence behind the text makes the length short by one.
memcpy_unesc-stuff_example :
    memcpy_unesc (store_list zeroed 0 (0xFF ∷ 1 ∷ 0xFF ∷ 2 ∷ [])) 0 0 2
    ≡ (0, store_list (store_list zeroed 0 (0xFF ∷ 1 ∷ 0xFF ∷ 2 ∷ [])) 0 (0xFA ∷ 0xF5 ∷ 0 ∷ []))
unfolding stuff specials escape_code unescape_code
memcpy_unesc-stuff_example =
    memcpy_unesc-stuff (0xFA ∷ []) (store_list zeroed 0 (0xFF ∷ 1 ∷ 0xFF ∷ 2 ∷ [])) 0 0
      (escaped refl done) refl (omega arith) refl

memcpy_unesc_rejects_example : (memcpy_unesc (store_list zeroed 0 (8 ∷ 0xFF ∷ 9 ∷ [])) 0 0 3).0 ≡ 0
unfolding unescape_code
memcpy_unesc_rejects_example =
    memcpy_unesc_rejects (store_list zeroed 0 (8 ∷ 0xFF ∷ 9 ∷ [])) 0 0 3 9
      (plain (λ e. omega arith) done) refl (omega arith) refl (omega arith)

crc8_xor_detects_example : crc8_xor (update source 2 1) 0 5 ≢ crc8_xor source 0 5
crc8_xor_detects_example = crc8_xor_detects source 0 2 5 1 (omega arith) (λ e. omega arith)

bin2int-int2bin_example : bin2int (int2bin zeroed 3 0x0102030405 6 1) 3 6 1 ≡ 0x0102030405
bin2int-int2bin_example = bin2int-int2bin zeroed 3 0x0102030405 6 1 (omega arith) (omega arith)
