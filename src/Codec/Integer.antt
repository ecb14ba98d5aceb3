-- ===== src/Codec/Integer.antt =====
-- `bin2int` and `int2bin` of src/gp_util.c, on a little-endian machine (src/gp_util.h), where the
-- bytes of a `uint64_t` lie lowest first and `be64toh` reverses them. `int2bin` reads beyond its
-- `uint64_t` for a length above 8; its callers pass 6.
pub mod Bytes
pub mod RoundTrip
use libgate.Base.{
  ℕ, zero, ◌+◌, ◌-◌, ◌*◌, ◌/◌, ◌^◌, Buf, slice, store_list, leb, ◌==◌, if◌then◌else◌, reverse,
}
use Bytes.{le_value, le_bytes}

-- `be64toh`
unfoldable pub bswap64 : ℕ → ℕ
bswap64 a = le_value (reverse (le_bytes 8 a))

unfoldable pub bin2int : Buf → ℕ → ℕ → ℕ → ℕ
bin2int m s len revert =
    let l = if leb len 8 then len else 8 in
    let a = le_value (slice m s l) in if revert == 1 then bswap64 a / 2 ^ (8 * (8 - l)) else a

-- The integer whose first `len` bytes `int2bin` copies.
int2bin_source : ℕ → ℕ → ℕ → ℕ
int2bin_source a len revert = if revert == 1 then bswap64 a / 2 ^ (8 * (8 - len)) else a

unfoldable pub int2bin : Buf → ℕ → ℕ → ℕ → ℕ → Buf
unfolding int2bin_source
int2bin dest d a len revert = store_list dest d (le_bytes len (int2bin_source a len revert))
