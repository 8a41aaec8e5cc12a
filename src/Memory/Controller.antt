-- ===== src/Memory/Controller.antt =====
-- The class `memory_controller` of src/core/memory_controller.cpp: an address is served by the
-- thread's scratchpad if it is there, by main memory below 0x80000000, and by the mapped devices above.
pub mod Laws
pub mod Accesses
use pret_iss.Prelude.{ℕ, leb, ltb, ◌==◌, if◌then◌else◌, Bool, true, false, Option, none, some, u32}
use pret_iss.Memory.Scratch
use pret_iss.Memory.Scratch.{L1Scratch, is_addr_in_spm}
use pret_iss.Memory.Wheel
use pret_iss.Memory.Wheel.{WheeledMem, wheeled_mem}
use pret_iss.Memory.Io
use pret_iss.Memory.Io.{MemMappedIo, mem_mapped_io}

-- `_inst_scratchpad` is an array over the threads.
pub record MemoryController : Type 0 where
  pub inst_scratchpad : ℕ → L1Scratch
  pub main_mem : WheeledMem
  pub io : MemMappedIo

abbrev pub mem_delay : ℕ
mem_delay = 15

abbrev pub burst_delay : ℕ
burst_delay = 4

abbrev pub max_thread : ℕ
max_thread = 1000

-- `_setup`, with the scratchpads that `register_inst_spm` hands over.
unfoldable pub memory_controller : (ℕ → L1Scratch) → MemoryController
unfolding wheeled_mem mem_mapped_io
memory_controller spm = record {
  inst_scratchpad = spm;
  main_mem = wheeled_mem 14 burst_delay;
  io = mem_mapped_io;
}

-- `get_main_mem_loc`
unfoldable pub in_main_mem : ℕ → Bool
in_main_mem addr = ltb addr 0x80000000

abbrev pub put_spm : (ℕ → L1Scratch) → ℕ → L1Scratch → ℕ → L1Scratch
put_spm spms tid s j = if j == tid then s else spms j

unfoldable pub read_data : MemoryController → ℕ → ℕ → ℕ → Option (ℕ × Bool × MemoryController)
unfolding is_addr_in_spm in_main_mem Wheel.read Scratch.read Io.read
read_data m cycles tid addr =
    let spm = m.inst_scratchpad tid in
    let from_wheel : Option (ℕ × Bool × MemoryController) =
      elim (Wheel.read m.main_mem cycles tid addr) [
        | none ↦ none
        | some (word, stalled, w) ↦ some (word, stalled, record m { main_mem = w })
      ] in
    if is_addr_in_spm spm addr
    then some (Scratch.read spm addr, false, m)
    else if in_main_mem addr
    then from_wheel
    else some (Io.read m.io addr, false, m)

-- A disabled thread reads a no-op everywhere, and the flag that it passed stays.
unfoldable pub read_inst :
    MemoryController → ℕ → ℕ → ℕ → Bool → Option (ℕ × Bool × MemoryController)
unfolding read_data
read_inst m cycles tid addr stalled =
    if leb max_thread tid then some (0x01000000, stalled, m) else read_data m cycles tid addr

unfoldable pub write_data : MemoryController → ℕ → ℕ → ℕ → ℕ → Option (Bool × MemoryController)
unfolding is_addr_in_spm in_main_mem Wheel.write Scratch.write Io.write
write_data m cycles tid addr word =
    let spm = m.inst_scratchpad tid in
    let to_wheel : Option (Bool × MemoryController) =
      elim (Wheel.write m.main_mem cycles tid addr word) [
        | none ↦ none
        | some (stalled, w) ↦ some (stalled, record m { main_mem = w })
      ] in
    let to_spm = record m {
      inst_scratchpad = put_spm m.inst_scratchpad tid (Scratch.write spm addr word);
    } in
    if is_addr_in_spm spm addr
    then some (false, to_spm)
    else if in_main_mem addr
    then to_wheel
    else some (false, record m { io = Io.write m.io addr word })

-- `behavior`, once a cycle.
unfoldable pub tick : MemoryController → MemoryController
unfolding Wheel.tick
tick m = record m { main_mem = Wheel.tick m.main_mem }
