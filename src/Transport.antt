-- ===== src/Transport.antt =====
pub mod Capture
pub mod Mock
pub mod Recording
