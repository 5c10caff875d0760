-- ===== src/Text.antt =====
-- What the program uses of the standard library's texts.
pub mod Utf8
pub mod Split
pub mod Decimal
pub mod Path
