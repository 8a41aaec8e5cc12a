-- ===== src/Thread.antt =====
-- The class `hw_thread`: include/hw_thread.h and src/core/hw_thread.cpp. The pointer to the thread
-- controller is left out; where a stage calls it, the controller's state is passed beside the thread.
pub mod Equal
use pret_iss.Prelude.{ℕ, Bool, true, false, List}
use pret_iss.Instruction.Enums.{ExceptionState}
use pret_iss.Instruction.Defs.{Instruction, nop_instruction}
use pret_iss.SpecialReg.{SpecialReg, special_reg}
use pret_iss.RegisterFile.{RegisterFile, register_file}

pub record HwThread : Type 0 where
  pub cnt_cycles : ℕ
  pub cnt_instr : ℕ
  pub inst : Instruction
  pub regs : RegisterFile
  pub spec_regs : SpecialReg
  pub enabled : Bool
  pub branch_slot : ℕ
  pub db_word_stalled : Bool
  pub deadline_stalled : Bool
  pub memory_stalled : Bool
  pub fetch_stalled : Bool
  pub fixed_schedule : Bool
  pub id : ℕ
  pub pc : ℕ
  pub trapped : ExceptionState
  pub trap_type : ℕ

-- `hw_thread(in_id, pc, thread_control)`; `garbage` is what the window registers hold.
unfoldable pub hw_thread : ℕ → ℕ → List ℕ → HwThread
unfolding special_reg register_file
hw_thread in_id pc garbage = record {
  cnt_cycles = 0;
  cnt_instr = 0;
  inst = nop_instruction;
  regs = register_file garbage;
  spec_regs = special_reg;
  enabled = false;
  branch_slot = 0;
  db_word_stalled = false;
  deadline_stalled = false;
  memory_stalled = false;
  fetch_stalled = false;
  fixed_schedule = true;
  id = in_id;
  pc = pc;
  trapped = ExceptionState.normal;
  trap_type = 0;
}

-- `_trapped > 0`
unfoldable pub trapped_now : ExceptionState → Bool
trapped_now ExceptionState.normal = false
trapped_now ExceptionState.trapped = true
trapped_now ExceptionState.trapped2 = true
trapped_now ExceptionState.error = true

unfoldable pub is_trapped : HwThread → Bool
unfolding trapped_now
is_trapped t = trapped_now t.trapped
