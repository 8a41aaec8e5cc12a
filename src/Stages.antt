-- ===== src/Stages.antt =====
-- The fetch, decode and memory stages: src/core/fetch.cpp, src/core/decode.cpp and src/core/mem.cpp.
pub mod Transfers
use pret_iss.Prelude.{
  ℕ, ◌+◌, ◌*◌, ◌/◌, ◌%◌, ◌==◌, if◌then◌else◌, Bool, true, false, not, ◌&&◌, ◌||◌, Option, none,
  some,
}
use pret_iss.Instruction.Enums.{MemorySize}
use pret_iss.Instruction.Defs.{Instruction, set_inst, check_end_sim}
use pret_iss.Instruction.Decode
use pret_iss.Instruction.Transfer.{read_data, get_write_data}
use pret_iss.SpecialReg.{decrement_deadline_timers}
use pret_iss.Thread.{HwThread, is_trapped}
use pret_iss.Memory.Controller
use pret_iss.Memory.Controller.{MemoryController}

-- What `fetch` ends with: the end of the simulation, which the source throws as 20, a failed assertion
-- of the memory, or the thread and the memories.
pub data Fetched : Type 0 where
  end_of_simulation : Fetched
  aborted : Fetched
  fetched : HwThread → MemoryController → Fetched

-- A thread that waits or traps keeps its instruction.
unfoldable pub fetch : HwThread → MemoryController → ℕ → Fetched
unfolding decrement_deadline_timers is_trapped set_inst check_end_sim Controller.read_inst
fetch t m cycles =
    let counted = record t { spec_regs = decrement_deadline_timers t.spec_regs } in
    let got : ℕ → Bool → MemoryController → Fetched = λ bits stalled m'.
      let t' = record counted { fetch_stalled = stalled; inst = set_inst t.inst bits } in
      if check_end_sim t'.inst then end_of_simulation else fetched t' m' in
    let read : Fetched = elim (Controller.read_inst m cycles t.id t.pc false) [
      | none ↦ aborted
      | some (bits, stalled, m') ↦ got bits stalled m'
    ] in
    if not t.enabled
    then fetched t m
    else if t.memory_stalled || t.deadline_stalled || is_trapped t
    then fetched counted m
    else read

unfoldable pub decode : HwThread → HwThread
unfolding Decode.decode
decode t = if not t.enabled || t.fetch_stalled then t else record t { inst = Decode.decode t.inst }

unfoldable pub is_word : MemorySize → Bool
is_word MemorySize.word = true
is_word _ = false

-- The two halves of `mem::behavior`. A read that stalls brings nothing in.
unfoldable pub load : HwThread → MemoryController → ℕ → Option (HwThread × MemoryController)
unfolding read_data Controller.read_data
load t m cycles =
    let addr = t.inst.alu_result in
    elim (Controller.read_data m cycles t.id (4 * (addr / 4))) [
      | none ↦ none
      | some (raw_data, stalled, m') ↦ some (
        record t {
          memory_stalled = stalled;
          inst = if stalled then t.inst else read_data t.inst raw_data (addr % 4);
        },
        m',
      )
    ]

-- The word that is merged into is read first unless a whole word is written; that read reports its
-- stall to nobody.
unfoldable pub store_over :
    HwThread → ℕ → MemoryController → ℕ → Option (HwThread × MemoryController)
unfolding get_write_data Controller.write_data
store_over t old_data m cycles =
    let addr = t.inst.alu_result in
    let data_to_write = get_write_data t.inst old_data (addr % 4) in
    elim (Controller.write_data m cycles t.id (4 * (addr / 4)) data_to_write) [
      | none ↦ none
      | some (stalled, m') ↦ some (record t { memory_stalled = stalled }, m')
    ]

unfoldable pub store : HwThread → MemoryController → ℕ → Option (HwThread × MemoryController)
unfolding is_word store_over Controller.read_data
store t m cycles =
    let merged : Option (HwThread × MemoryController) =
      elim (Controller.read_data m cycles t.id (4 * (t.inst.alu_result / 4))) [
        | none ↦ none
        | some (old_data, stalled, m') ↦ store_over t old_data m' cycles
      ] in
    if is_word t.inst.memory_size then store_over t 0xdeadbeef m cycles else merged

unfoldable pub memory : HwThread → MemoryController → ℕ → Option (HwThread × MemoryController)
unfolding load store
memory t m cycles =
    let done : Option (HwThread × MemoryController) = some (t, m) in
    if not t.enabled || t.fetch_stalled
    then done
    else if t.inst.read_memory
    then load t m cycles
    else if t.inst.write_memory
    then store t m cycles
    else done
