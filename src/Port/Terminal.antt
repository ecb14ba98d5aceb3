-- ===== src/Port/Terminal.antt =====
-- `open_port` of src/gp_port.c: how the terminal of the port is set up. The masks and the two library
-- functions of the terminal interface are parameters.
use libgate.Base.{ℕ, ◌-◌, ◌^◌, Option, none, some, List, [], ◌∷◌, bit_and, bit_or}

-- `struct termios`, with the two places of `c_cc` that the function sets.
pub record Termios : Type 0 where
  pub c_iflag : ℕ
  pub c_oflag : ℕ
  pub c_cflag : ℕ
  pub c_lflag : ℕ
  pub vmin : ℕ
  pub vtime : ℕ
  pub ospeed : ℕ

-- What the terminal interface gives: `cfmakeraw`, `cfsetspeed`, and the masks of `c_cflag`.
pub record Terminal : Type 0 where
  pub cfmakeraw : Termios → Termios
  pub cfsetspeed : ℕ → Termios → Termios
  pub parenb : ℕ
  pub cstopb : ℕ
  pub csize : ℕ
  pub crtscts : ℕ
  pub cs8 : ℕ
  pub clocal : ℕ
  pub cread : ℕ

-- The calls of the operating system, in their order.
pub data Call : Type 0 where
  set_flags : ℕ → ℕ → Call
  get_attributes : ℕ → Call
  flush_input : ℕ → Call
  set_attributes : ℕ → Termios → Call

-- `flags & ~(a | b | c | d)` of 32 bits.
unfoldable pub cleared_bits : Terminal → ℕ → ℕ
cleared_bits x flags =
    bit_and flags (2 ^ 32 - 1 - bit_or (bit_or (bit_or x.parenb x.cstopb) x.csize) x.crtscts)

-- Raw bytes of 8 bits, at least 128 of them or until a tenth of a second passes without one.
unfoldable pub port_settings : Terminal → ℕ → Termios → Termios
unfolding cleared_bits
port_settings x speed old =
    let opt : Termios = x.cfsetspeed speed (x.cfmakeraw old) in
    record opt {
      vmin = 128;
      vtime = 1;
      c_cflag = bit_or (cleared_bits x opt.c_cflag) (bit_or (bit_or x.cs8 x.clocal) x.cread);
    }

-- `opened` is what `open` returns, and `old` the settings that `tcgetattr` finds.
unfoldable pub open_port : Terminal → Option ℕ → Termios → ℕ → Option ℕ × List Call
open_port x none old speed = (none, [])
open_port x (some fd) old speed = (
  some fd,
  set_flags fd 0
      ∷ get_attributes fd
      ∷ flush_input fd
      ∷ set_attributes fd (port_settings x speed old)
      ∷ [],
)
