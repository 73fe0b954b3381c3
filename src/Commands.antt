-- ===== src/Commands.antt =====
pub mod Memory
pub mod Fs
pub mod Process
pub mod System
pub mod Info
