-- ===== src/Discovery.antt =====
pub mod Wire
pub mod Engine
pub mod Runner
