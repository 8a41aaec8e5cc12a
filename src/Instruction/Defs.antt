-- ===== src/Instruction/Defs.antt =====
-- The class `instruction` of include/instruction.h: its variables, and `initialize`, `set_inst` and
-- `check_end_sim` of src/core/instruction.cpp.
use pret_iss.Prelude.{ℕ, ◌==◌, Bool, false}
use pret_iss.Instruction.Enums.{Alu, MemorySize, Srcmux, SregMux}

-- An `int` is its 32-bit pattern and a `short` its 16-bit pattern.
pub record Instruction : Type 0 where
  pub aluop : Alu
  pub alu_result : ℕ
  pub annul : Bool
  pub branch : Bool
  pub call : Bool
  pub carry : Bool
  pub conditional_branch : ℕ
  pub db_word_instruction : Bool
  pub disp30 : ℕ
  pub disp22 : ℕ
  pub icc : ℕ
  pub increment_window_pointer : ℕ
  pub imm : ℕ
  pub inst : ℕ
  pub jump : Bool
  pub memory_size : MemorySize
  pub op1 : ℕ
  pub op1_value : ℕ
  pub op2 : ℕ
  pub op2_value : ℕ
  pub op3 : ℕ
  pub op3_value : ℕ
  pub pc : ℕ
  pub read_memory : Bool
  pub rs1 : ℕ
  pub rs1sel : Srcmux
  pub rs2 : ℕ
  pub rs2sel : Srcmux
  pub rd : ℕ
  pub rdsel : Srcmux
  pub select_special_register : SregMux
  pub signed_multiply : Bool
  pub unimplemented : Bool
  pub use_imm : Bool
  pub write_icc : Bool
  pub write_registers : Bool
  pub write_special_registers : Bool
  pub write_memory : Bool
  pub is_rett : Bool
  pub sync_instruction : Bool

-- `initialize`; the constructor and `set_inst` then store the machine word.
abbrev pub initial : ℕ → Instruction
initial bits = record {
  aluop = Alu.nop;
  alu_result = 0;
  annul = false;
  branch = false;
  call = false;
  carry = false;
  conditional_branch = 0;
  db_word_instruction = false;
  disp30 = 0;
  disp22 = 0;
  icc = 0;
  increment_window_pointer = 0;
  imm = 0;
  inst = bits;
  jump = false;
  memory_size = MemorySize.word;
  op1 = 0;
  op1_value = 0;
  op2 = 4;
  op2_value = 0;
  op3 = 0;
  op3_value = 0;
  pc = 0;
  read_memory = false;
  rs1 = 0;
  rs1sel = Srcmux.ra;
  rs2 = 0;
  rs2sel = Srcmux.ra;
  rd = 0;
  rdsel = Srcmux.ra;
  select_special_register = SregMux.none;
  signed_multiply = false;
  unimplemented = false;
  use_imm = false;
  write_icc = false;
  write_registers = false;
  write_special_registers = false;
  write_memory = false;
  is_rett = false;
  sync_instruction = false;
}

-- `set_inst` starts the object anew: what it held before is lost.
unfoldable pub set_inst : Instruction → ℕ → Instruction
set_inst i inbits = initial inbits

-- `instruction()`
abbrev pub nop_instruction : Instruction
nop_instruction = initial 0x01000000

abbrev pub end_sim_word : ℕ
end_sim_word = 0x22222222

unfoldable pub check_end_sim : Instruction → Bool
check_end_sim i = i.inst == end_sim_word
