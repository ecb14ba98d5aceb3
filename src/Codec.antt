-- ===== src/Codec.antt =====
-- src/gp_util.c and the macros of src/libgate.h: the byte codecs of the controller protocol.
pub mod Crc
pub mod Escape
pub mod Integer
pub mod Hex
pub mod Bcd
mod Tests
