-- ===== src/Text.antt =====
-- What the code uses of the standard library's text functions, over bytes.
pub mod Ascii
pub mod Utf8
pub mod Number
pub mod Trim
