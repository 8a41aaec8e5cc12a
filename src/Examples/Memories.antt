-- ===== src/Examples/Memories.antt =====
-- Scratchpads, the wheel, the controller and the register file: src/core/l1_scratch.cpp,
-- src/core/wheeled_mem.cpp, src/core/memory_controller.cpp and src/core/register_file.cpp.
use pret_iss.Prelude.{
  ℕ, ◌+◌, ◌*◌, ◌<◌, ◌==◌, if◌then◌else◌, true, false, not, ◌&&◌, ◌≡◌, refl, some, replicate, arith,
  length-replicate, add32, [], ◌∷◌, List,
}
use pret_iss.Memory.Scratch.{L1Scratch, l1_scratch, is_addr_in_spm, add_addr}
use pret_iss.Memory.Scratch
use pret_iss.Memory.Scratch.Owned.{IsOwned, l1_scratch-IsOwned, add_addr-IsOwned}
use pret_iss.Memory.Wheel.{WheeledMem, wheeled_mem, is_scheduled, is_stalled_helper}
use pret_iss.Memory.Wheel.Schedule.{wheeled_mem-IsStandard, turn, is_scheduled-turn}
use pret_iss.Memory.Wheel.Access.{IsIdle, granted, is_stalled_helper_lem}
use pret_iss.Memory.Controller.{MemoryController, memory_controller, write_data}
use pret_iss.Memory.Controller.Laws.{seen, waits, after, seen-write_data}
use pret_iss.Prelude.{◌^◌, Bool, ◌%◌, ◌≢◌}
use pret_iss.Instruction.Enums.{MemorySize}
use pret_iss.Instruction.Defs.{nop_instruction}
use pret_iss.Instruction.Bytes.{width, extend}
use pret_iss.Thread.{HwThread, hw_thread}
use pret_iss.Memory.Unit.{read_word, has_address}
use pret_iss.Stages
use pret_iss.Stages.Transfers.{then_memory, loaded_result, memory-memory}
use pret_iss.Prelude.{List, [], ◌∷◌, ◌*◌, ◌+◌, get_or, true}
use pret_iss.Dma.{fill}
use pret_iss.Dma.Fill.{read-fill}
use pret_iss.Dma.{TransferState, Machine, dma, make_transfer, state_of}
use pret_iss.Dma.Sweep.{Returns}
use pret_iss.Dma.Progress.{Request, reading, writing, run, longest, run-completes}
use pret_iss.RegisterFile.{RegisterFile, register_file, get_reg, set_reg}
use pret_iss.RegisterFile.Windows.{same_register, get_reg-set_reg}

add_addr-IsOwned_example : IsOwned (add_addr l1_scratch 0x40000010 8 7)
add_addr-IsOwned_example = add_addr-IsOwned l1_scratch 0x40000010 8 7 l1_scratch-IsOwned

-- A slot that is filled twice.
abbrev filled : L1Scratch
filled = add_addr l1_scratch 0x40000010 8 7

abbrev wheel : WheeledMem
wheel = wheeled_mem 14 4

is_scheduled-turn_example :
    (turn 4 3 < 19) × (is_scheduled wheel (add32 3 (6 * 10)) 4 ≡ (10 == turn 4 3))
is_scheduled-turn_example =
    is_scheduled-turn wheel 3 4 10 wheeled_mem-IsStandard (omega arith) (omega arith) (omega arith)

idle : IsIdle wheel
unfolding wheeled_mem
idle = record { closed = refl; slow = omega arith }

is_stalled_helper_lem_example : is_stalled_helper wheel 3 1 0x40000000 4 ≡ (
    if is_scheduled wheel 3 1 then some (false, granted wheel 0x40000000 4) else some (true, wheel))
is_stalled_helper_lem_example = is_stalled_helper_lem wheel 3 1 0x40000000 4 idle

abbrev memory : MemoryController
memory = memory_controller (λ tid. l1_scratch)

ready : IsIdle memory.main_mem
unfolding memory_controller wheeled_mem
ready = record { closed = refl; slow = omega arith }

seen-write_data_example : seen (after memory (write_data memory 3 1 0x40000000 5)) 1 0x40000000 ≡ (
    if not (waits memory 3 1 0x40000000) && 0x40000000 == 0x40000000
    then 5
    else seen memory 1 0x40000000)
seen-write_data_example = seen-write_data memory 3 1 0x40000000 5 0x40000000 ready

abbrev registers : RegisterFile
registers = register_file (replicate 512 0)

-- An out of window 1 is the in of window 0.
get_reg-set_reg_example :
    get_reg (set_reg registers 8 42 1) 24 0
    ≡ (if same_register 8 1 24 0 then 42 else get_reg registers 24 0)
unfolding register_file
get_reg-set_reg_example =
    get_reg-set_reg registers 8 1 24 0 42
      (record { globals = refl; windows = length-replicate {A = ℕ} 512 0 })
      (omega arith, omega arith) (omega arith, omega arith)

-- A store of a byte and a load from the same place, at cycles at which thread 1 may go to the wheel.
abbrev transfer : Bool → HwThread
transfer reads = record (hw_thread 1 0x40001000 (replicate 512 0)) {
  enabled = true;
  inst = record (nop_instruction) {
    read_memory = reads;
    write_memory = not reads;
    memory_size = MemorySize.signed_byte;
    alu_result = 0x40000001;
    op3_value = 0x1f0;
  };
}

memory-memory_example :
    loaded_result (then_memory (Stages.memory (transfer false) memory 3) (transfer true) 117)
    ≡ some (false, extend MemorySize.signed_byte (0x1f0 % 2 ^ width MemorySize.signed_byte))
unfolding hw_thread memory_controller wheeled_mem waits seen read_word is_scheduled is_addr_in_spm
    has_address l1_scratch
memory-memory_example =
    memory-memory (transfer false) (transfer true) memory 3 117 ready (refl, refl, refl, refl)
      (refl, refl, refl) (record { same_id = refl; same_address = refl; same_size = refl })
      (omega arith) (omega arith) (omega arith) refl refl

-- Threads 1 and 4 have transfers in flight.
abbrev in_flight : Machine
in_flight = record {
  engine = make_transfer (make_transfer dma 1) 4;
  wheel = wheel;
  spms = λ tid. l1_scratch;
}

-- The other stages go on reading and writing.
abbrev asked : List Request
asked = reading 0 0x40000000 ∷ writing 4 0x40000004 7 ∷ []

run-completes_example :
    Returns
      (λ m. state_of m.engine 4 ≢ TransferState.busy)
      (run (λ n. asked) (longest 4294967201) 4294967201 in_flight)
unfolding make_transfer dma
run-completes_example =
    run-completes (λ n. asked) in_flight 4294967201 4
      (record { standard = wheeled_mem-IsStandard; idle_wheel = idle; six = refl }) (omega arith)
      (omega arith)

abbrev words : List ℕ
words = 11 ∷ 22 ∷ 33 ∷ 44 ∷ []

read-fill_example :
    (is_addr_in_spm (fill l1_scratch 0x40000000 8 0 words) (0x40000000 + 4 * 2) ≡ true)
    × (Scratch.read (fill l1_scratch 0x40000000 8 0 words) (0x40000000 + 4 * 2) ≡ get_or words 2 0)
unfolding l1_scratch
read-fill_example =
    read-fill l1_scratch 0x40000000 8 words 2
      (record {
        positive = omega arith;
        no_wrap = omega arith;
        aligned = refl;
        in_range = omega arith;
      })
      (λ k lt j lt'. omega arith) (omega arith)
