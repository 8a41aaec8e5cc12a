-- ===== src/Memory.antt =====
-- The memories: src/core/memory_unit.cpp, l1_scratch.cpp, wheeled_mem.cpp, mem_mapped_io.cpp and
-- memory_controller.cpp, with their headers under include/.
pub mod Unit
pub mod Scratch
pub mod Wheel
pub mod Io
pub mod Controller
