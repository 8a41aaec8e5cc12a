-- ===== src/Load.antt =====
-- How a program gets into the simulator: the parsers of src/core/srec_parser.cpp and
-- src/core/static_bound_parser.cpp, and the thread controller that calls them.
pub mod Scan
pub mod Srec
pub mod Bounds
pub mod Threads
