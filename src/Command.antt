-- ===== src/Command.antt =====
-- src/ad_cmd.c: what the application asks for, in terms of the commands and the database. The
-- functions that only return 1 are left out.
pub mod Devices
pub mod Memory
pub mod Schedule
pub mod Tokens
mod Tests
