-- ===== src/Writer.antt =====
-- src/writer.rs, one module for each part of the writer.
pub mod Encode
pub mod Write
pub mod Room
pub mod Text
pub mod Atomic
pub mod Digits
