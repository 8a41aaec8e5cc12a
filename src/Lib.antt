-- ===== src/Lib.antt =====
-- The PRET instruction set simulator: a precision-timed SPARC processor with six hardware threads that
-- take turns in a six-stage pipeline. Each thread has its own registers and scratchpad; main memory is
-- reached through a wheel that gives every thread a window of its own.
--
-- The program's parts and their models:
--   Instruction (Enums, Defs, Decode, Transfer): the class `instruction` of src/core/instruction.cpp,
--     with the enumerations of include/instruction_defs.h. `decode`, `read_data` and `get_write_data`
--     take the instruction and return it; `_inst` and the other members are fields of one record.
--   SpecialReg: the class `special_reg` of src/core/special_reg.cpp. RegisterFile: src/core/
--     register_file.cpp. Thread: the members of `hw_thread` of src/core/hw_thread.cpp.
--   Memory.Unit, Memory.Scratch, Memory.Wheel, Memory.Io, Memory.Controller: the classes `memory_unit`,
--     `l1_scratch`, `wheeled_mem`, `mem_mapped_io` and `memory_controller` of the files of those names
--     in src/core. A `bool&` that reports a stall is a component of the result.
--   Dma: the class `dma` of src/core/dma.cpp, with the wheel and the scratchpads that it works on.
--   Sync: `check_sync_table`, `bitCount` and the thread order of src/core/hw_thread_controller.cpp.
--   Execute: src/core/execute.cpp. Except: src/core/except.cpp, with the thread, the DMA engine and the
--     sync table as state.
--   Regacc: src/core/regacc.cpp, the operands and the deadline instructions. Stages: src/core/fetch.cpp,
--     src/core/decode.cpp and src/core/mem.cpp, the last two named `Stages.decode` and `memory`.
--   Core: `core::behavior` of src/core/core.cpp without SystemC, and src/core/cycle_counter.cpp. The
--     handles between the stages are thread numbers, and the threads are a function from numbers.
--   Core.Clocks: src/core/pret_clock.cpp, and `run`, `run_for_instruction` and the queries of
--     src/core/core.cpp; `run` takes the pattern of an `int`. Of its two loops, `rounds` has a count
--     and `forever` has none.
--   Load (Scan, Srec, Bounds, Threads): src/core/srec_parser.cpp, src/core/static_bound_parser.cpp, and
--     the constructor and `parse_srec_files` of src/core/hw_thread_controller.cpp. A file is its text, or
--     nothing where it cannot be opened; Scan is what `fscanf` and `>>` do with the text.
--   Graphic.Queue: soft/graphic/graphic_cmd_queue.c, the command queues of the graphics program, with the
--     head of the driver's loop in soft/graphic/thread2.c.
--   Sorting: soft/insertsort.c, soft/bubsort.c and soft/mergesort.c, with the array as an argument.
--   Graphic.Pixels, Graphic.Screen: soft/graphic/vga.c, and `locate_sprite_direct` of
--     soft/graphic/thread2.c; the two buffers are one function from indices to words.
--   Prelude: words as numbers with their wrap-around, arrays as lists, and the bit operations.
--   Examples: the theorems at concrete inputs.
--
-- How the parts interact: a stage takes a thread and returns it. The exception stage commits the
-- thread's results to its registers, calls the thread controller for `sync` and starts DMA transfers;
-- the memory stage and the fetch stage go through the memory controller, and the DMA engine goes to the
-- wheel and the scratchpads directly.
--
-- Conventions. A machine word is its bit pattern below 2 ^ 32, whether the source declares it `int`,
-- `int32_t` or `uint32_t`; a `short` is its pattern below 2 ^ 16. An array is a list, and a write outside
-- it changes nothing where the source leaves it undefined, except the write before the sync table, which
-- is `none`. A failed assertion is `none`. Most loops are over arrays or count down, and need no fuel; the
-- loop of `dma::behavior` counts the six threads. Fuel is taken by `parse`, one round more than the file
-- has bytes, each line taking one at least; by `copy`, two rounds more than half of the scratchpad has
-- words, where the code stops; by `combine_ar`, one round more than the elements of the two runs; by
-- `merge_sort`, as many calls as there are elements; and by `Core.Clocks.run`, for the endless loop alone.
--
-- Not modelled: the printing of registers, pipeline traces and warnings, the search for the
-- directory of the program files, the reference-counted thread handles, the SystemC binding, `main` and the
-- Python debugger, which are input, output or glue; the other programs under soft and
-- real_world_simulators, and the scripts and tests. Undefined behaviour of C is left out where the source
-- does not rely on it: `fflush` of the input file, and the terminator that `%2s`
-- writes past its array. soft/rsaref is another project's library.
pub mod Prelude
pub mod Instruction
pub mod SpecialReg
pub mod RegisterFile
pub mod Thread
pub mod Load
pub mod Memory
pub mod Sync
pub mod Execute
pub mod Regacc
pub mod Stages
pub mod Dma
pub mod Except
pub mod Core
pub mod Graphic
pub mod Sorting
pub mod Examples
