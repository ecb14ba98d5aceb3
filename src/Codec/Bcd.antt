-- ===== src/Codec/Bcd.antt =====
-- `int2bcd` and `bcd2int` of src/libgate.h: two decimal digits in one byte.
use libgate.Base.{ℕ, ◌+◌, ◌*◌, ◌/◌, ◌%◌, ◌^◌, ◌≤◌, ◌<◌, ◌≡◌, bit_and, arith}
use libgate.Base.Bits.{bit_and_low_nibble, bit_and_high_nibble}

unfoldable pub int2bcd : ℕ → ℕ
int2bcd x = x / 10 * 2 ^ 4 + x % 10

unfoldable pub bcd2int : ℕ → ℕ
bcd2int x = bit_and x 0xF0 / 2 ^ 4 * 10 + bit_and x 0x0F

-- A number below 100 takes one byte, and comes back from it.
pub bcd2int-int2bcd : (x : ℕ) → x < 100 → (int2bcd x < 256) × (bcd2int (int2bcd x) ≡ x)
unfolding int2bcd bcd2int
bcd2int-int2bcd x h = (
  omega arith,
  omega (
    arith,
    bit_and_low_nibble (x / 10 * 2 ^ 4 + x % 10),
    bit_and_high_nibble (x / 10 * 2 ^ 4 + x % 10),
  ),
)

-- A byte of two decimal digits reads as a number below 100, and comes back from it.
pub int2bcd-bcd2int :
    (b : ℕ) → b / 16 < 10 → b % 16 < 10 → (bcd2int b < 100) × (int2bcd (bcd2int b) ≡ b)
unfolding int2bcd bcd2int
int2bcd-bcd2int b h l = omega (arith, bit_and_low_nibble b, bit_and_high_nibble b)

pub int2bcd-lt : (x n : ℕ) → x ≤ n → int2bcd x ≤ n / 10 * 16 + 9
unfolding int2bcd
int2bcd-lt x n h = omega arith
