-- ===== src/Protocol.antt =====
-- The wire protocol: crates/xeedee/src/protocol/.
pub mod ErrorCode
pub mod SuccessCode
pub mod StatusCode
pub mod Error
pub mod Head
pub mod Response
pub mod Tokens
pub mod Kv
pub mod Command
pub mod Args
