-- ===== src/Client.antt =====
-- The client: crates/xeedee/src/client/.
pub mod Engine
pub mod Driver
