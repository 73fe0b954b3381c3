-- ===== src/Dangerous.antt =====
-- The routines behind the `dangerous` feature: crates/xeedee/src/commands/dangerous/.
pub mod Sigscan
pub mod Pe
