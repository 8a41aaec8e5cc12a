-- ===== src/Examples.antt =====
-- The theorems at concrete inputs: small programs, tables and registers as src/core handles them.
pub mod Stages
pub mod Memories
pub mod Machine
pub mod Loading
pub mod Sorts
pub mod Pictures
