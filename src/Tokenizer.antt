-- ===== src/Tokenizer.antt =====
-- src/tokenizer.rs, one module for each part of the tokenizer.
pub mod Numbers
pub mod Escapes
pub mod Machine
pub mod Strings
pub mod ObjectKeys
pub mod Tokens
pub mod Receive
pub mod Triple
pub mod Nesting
pub mod Spaces
pub mod Reach
pub mod Delivery
