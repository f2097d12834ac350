-- ===== src/Tests.antt =====
-- Concrete inputs: runs of the model, and the theorems at inputs that meet their hypotheses.
pub mod Setup
pub mod Rings
mod Witnesses
mod Documents
