-- ===== src/Instruction.antt =====
-- The instruction word: include/instruction_defs.h, include/instruction.h and
-- src/core/instruction.cpp.
pub mod Equal
pub mod Enums
pub mod Defs
pub mod Decode
pub mod Transfer
pub mod Fields
pub mod Control
pub mod Merge
pub mod Bytes
