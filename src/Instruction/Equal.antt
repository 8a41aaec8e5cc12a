-- ===== src/Instruction/Equal.antt =====
-- `operator==` of src/core/instruction.cpp: a conjunction of 39 tests, of which enumerations are compared
-- by their codes.
use pret_iss.Prelude.{
  ℕ, ◌==◌, ==_iff, ==_refl, Bool, true, ◌≡◌, ◌↔◌, List, [], ◌∷◌, sym, ap, ◌∙◌, arith,
}
use pret_iss.Prelude.Conjunction.{
  same, same-eq, same_refl, all, AreTrue, all-AreTrue, AreTrue-all, AreTrue-get_or, ◌also◌,
}
use pret_iss.Instruction.Enums.{Alu, MemorySize, Srcmux, SregMux}
use pret_iss.Instruction.Defs.{Instruction}

unfoldable pub alu_code : Alu → ℕ
alu_code Alu.nop = 0
alu_code Alu.add = 1
alu_code Alu.add_dead = 2
alu_code Alu.sub = 3
alu_code Alu.and = 4
alu_code Alu.or = 5
alu_code Alu.xor = 6
alu_code Alu.sll = 7
alu_code Alu.srl = 8
alu_code Alu.sra = 9
alu_code Alu.xnor = 10
alu_code Alu.andn = 11
alu_code Alu.orn = 12
alu_code Alu.sethi = 13
alu_code Alu.mul = 14

unfoldable pub size_code : MemorySize → ℕ
size_code MemorySize.signed_byte = 0
size_code MemorySize.unsigned_byte = 1
size_code MemorySize.signed_halfword = 2
size_code MemorySize.unsigned_halfword = 3
size_code MemorySize.word = 4
size_code MemorySize.doubleword = 5

unfoldable pub mux_code : Srcmux → ℕ
mux_code Srcmux.ra = 0
mux_code Srcmux.ex = 1
mux_code Srcmux.me = 2
mux_code Srcmux.imm = 3
mux_code Srcmux.zero = 4
mux_code Srcmux.xc = 5

unfoldable pub sreg_code : SregMux → ℕ
sreg_code SregMux.none = 0
sreg_code SregMux.y = 1
sreg_code SregMux.asr = 2
sreg_code SregMux.psr = 3
sreg_code SregMux.wim = 4
sreg_code SregMux.tbr = 5
sreg_code SregMux.dt = 6
sreg_code SregMux.mem2sp = 7

-- The operands of `&&`, in order.
abbrev pub tests : Instruction → Instruction → List Bool
tests i j =
    (same i.unimplemented j.unimplemented)
    ∷ (i.pc == j.pc)
    ∷ (i.inst == j.inst)
    ∷ (i.op1 == j.op1)
    ∷ (i.op2 == j.op2)
    ∷ (i.op3 == j.op3)
    ∷ (i.rs1 == j.rs1)
    ∷ (i.rs2 == j.rs2)
    ∷ (i.rd == j.rd)
    ∷ (alu_code i.aluop == alu_code j.aluop)
    ∷ (same i.write_registers j.write_registers)
    ∷ (same i.write_memory j.write_memory)
    ∷ (same i.read_memory j.read_memory)
    ∷ (size_code i.memory_size == size_code j.memory_size)
    ∷ (mux_code i.rs1sel == mux_code j.rs1sel)
    ∷ (mux_code i.rs2sel == mux_code j.rs2sel)
    ∷ (mux_code i.rdsel == mux_code j.rdsel)
    ∷ (i.op1_value == j.op1_value)
    ∷ (i.op2_value == j.op2_value)
    ∷ (i.op3_value == j.op3_value)
    ∷ (i.imm == j.imm)
    ∷ (same i.use_imm j.use_imm)
    ∷ (i.alu_result == j.alu_result)
    ∷ (same i.branch j.branch)
    ∷ (same i.jump j.jump)
    ∷ (i.conditional_branch == j.conditional_branch)
    ∷ (same i.annul j.annul)
    ∷ (same i.call j.call)
    ∷ (i.disp30 == j.disp30)
    ∷ (same i.write_icc j.write_icc)
    ∷ (i.icc == j.icc)
    ∷ (i.disp22 == j.disp22)
    ∷ (sreg_code i.select_special_register == sreg_code j.select_special_register)
    ∷ (same i.write_special_registers j.write_special_registers)
    ∷ (same i.db_word_instruction j.db_word_instruction)
    ∷ (same i.carry j.carry)
    ∷ (same i.is_rett j.is_rett)
    ∷ (same i.signed_multiply j.signed_multiply)
    ∷ (same i.sync_instruction j.sync_instruction)
    ∷ []

unfoldable pub equal : Instruction → Instruction → Bool
equal i j = all (tests i j)

-- The instruction without what `operator==` does not look at.
abbrev pub compared : Instruction → Instruction
compared i = record i { increment_window_pointer = 0 }

alu_code-eq : (a b : Alu) → (alu_code a == alu_code b) ≡ true → a ≡ b
unfolding alu_code
alu_code-eq a b h = ground arith

size_code-eq : (a b : MemorySize) → (size_code a == size_code b) ≡ true → a ≡ b
unfolding size_code
size_code-eq a b h = ground arith

mux_code-eq : (a b : Srcmux) → (mux_code a == mux_code b) ≡ true → a ≡ b
unfolding mux_code
mux_code-eq a b h = ground arith

sreg_code-eq : (a b : SregMux) → (sreg_code a == sreg_code b) ≡ true → a ≡ b
unfolding sreg_code
sreg_code-eq a b h = ground arith

compared-eq : (i j : Instruction) → AreTrue (tests i j) → compared i ≡ compared j
compared-eq i j h k = record (compared i) {
  unimplemented = same-eq i.unimplemented j.unimplemented (AreTrue-get_or 0 (tests i j) h) k;
  pc = (==_iff i.pc j.pc).0 (AreTrue-get_or 1 (tests i j) h) k;
  inst = (==_iff i.inst j.inst).0 (AreTrue-get_or 2 (tests i j) h) k;
  op1 = (==_iff i.op1 j.op1).0 (AreTrue-get_or 3 (tests i j) h) k;
  op2 = (==_iff i.op2 j.op2).0 (AreTrue-get_or 4 (tests i j) h) k;
  op3 = (==_iff i.op3 j.op3).0 (AreTrue-get_or 5 (tests i j) h) k;
  rs1 = (==_iff i.rs1 j.rs1).0 (AreTrue-get_or 6 (tests i j) h) k;
  rs2 = (==_iff i.rs2 j.rs2).0 (AreTrue-get_or 7 (tests i j) h) k;
  rd = (==_iff i.rd j.rd).0 (AreTrue-get_or 8 (tests i j) h) k;
  aluop = alu_code-eq i.aluop j.aluop (AreTrue-get_or 9 (tests i j) h) k;
  write_registers = same-eq i.write_registers j.write_registers (AreTrue-get_or 10 (tests i j) h) k;
  write_memory = same-eq i.write_memory j.write_memory (AreTrue-get_or 11 (tests i j) h) k;
  read_memory = same-eq i.read_memory j.read_memory (AreTrue-get_or 12 (tests i j) h) k;
  memory_size = size_code-eq i.memory_size j.memory_size (AreTrue-get_or 13 (tests i j) h) k;
  rs1sel = mux_code-eq i.rs1sel j.rs1sel (AreTrue-get_or 14 (tests i j) h) k;
  rs2sel = mux_code-eq i.rs2sel j.rs2sel (AreTrue-get_or 15 (tests i j) h) k;
  rdsel = mux_code-eq i.rdsel j.rdsel (AreTrue-get_or 16 (tests i j) h) k;
  op1_value = (==_iff i.op1_value j.op1_value).0 (AreTrue-get_or 17 (tests i j) h) k;
  op2_value = (==_iff i.op2_value j.op2_value).0 (AreTrue-get_or 18 (tests i j) h) k;
  op3_value = (==_iff i.op3_value j.op3_value).0 (AreTrue-get_or 19 (tests i j) h) k;
  imm = (==_iff i.imm j.imm).0 (AreTrue-get_or 20 (tests i j) h) k;
  use_imm = same-eq i.use_imm j.use_imm (AreTrue-get_or 21 (tests i j) h) k;
  alu_result = (==_iff i.alu_result j.alu_result).0 (AreTrue-get_or 22 (tests i j) h) k;
  branch = same-eq i.branch j.branch (AreTrue-get_or 23 (tests i j) h) k;
  jump = same-eq i.jump j.jump (AreTrue-get_or 24 (tests i j) h) k;
  conditional_branch =
      (==_iff i.conditional_branch j.conditional_branch).0 (AreTrue-get_or 25 (tests i j) h) k;
  annul = same-eq i.annul j.annul (AreTrue-get_or 26 (tests i j) h) k;
  call = same-eq i.call j.call (AreTrue-get_or 27 (tests i j) h) k;
  disp30 = (==_iff i.disp30 j.disp30).0 (AreTrue-get_or 28 (tests i j) h) k;
  write_icc = same-eq i.write_icc j.write_icc (AreTrue-get_or 29 (tests i j) h) k;
  icc = (==_iff i.icc j.icc).0 (AreTrue-get_or 30 (tests i j) h) k;
  disp22 = (==_iff i.disp22 j.disp22).0 (AreTrue-get_or 31 (tests i j) h) k;
  select_special_register =
      sreg_code-eq i.select_special_register j.select_special_register
        (AreTrue-get_or 32 (tests i j) h) k;
  write_special_registers =
      same-eq i.write_special_registers j.write_special_registers (AreTrue-get_or 33 (tests i j) h)
        k;
  db_word_instruction =
      same-eq i.db_word_instruction j.db_word_instruction (AreTrue-get_or 34 (tests i j) h) k;
  carry = same-eq i.carry j.carry (AreTrue-get_or 35 (tests i j) h) k;
  is_rett = same-eq i.is_rett j.is_rett (AreTrue-get_or 36 (tests i j) h) k;
  signed_multiply = same-eq i.signed_multiply j.signed_multiply (AreTrue-get_or 37 (tests i j) h) k;
  sync_instruction =
      same-eq i.sync_instruction j.sync_instruction (AreTrue-get_or 38 (tests i j) h) k;
}

-- Every instruction passes the tests against itself.
tests_refl : (i : Instruction) → AreTrue (tests i i)
tests_refl i =
    same_refl i.unimplemented
    also ==_refl i.pc
    also ==_refl i.inst
    also ==_refl i.op1
    also ==_refl i.op2
    also ==_refl i.op3
    also ==_refl i.rs1
    also ==_refl i.rs2
    also ==_refl i.rd
    also ==_refl (alu_code i.aluop)
    also same_refl i.write_registers
    also same_refl i.write_memory
    also same_refl i.read_memory
    also ==_refl (size_code i.memory_size)
    also ==_refl (mux_code i.rs1sel)
    also ==_refl (mux_code i.rs2sel)
    also ==_refl (mux_code i.rdsel)
    also ==_refl i.op1_value
    also ==_refl i.op2_value
    also ==_refl i.op3_value
    also ==_refl i.imm
    also same_refl i.use_imm
    also ==_refl i.alu_result
    also same_refl i.branch
    also same_refl i.jump
    also ==_refl i.conditional_branch
    also same_refl i.annul
    also same_refl i.call
    also ==_refl i.disp30
    also same_refl i.write_icc
    also ==_refl i.icc
    also ==_refl i.disp22
    also ==_refl (sreg_code i.select_special_register)
    also same_refl i.write_special_registers
    also same_refl i.db_word_instruction
    also same_refl i.carry
    also same_refl i.is_rett
    also same_refl i.signed_multiply
    also same_refl i.sync_instruction
    also tt

-- `operator==` holds exactly of instructions that agree in everything but the window increment.
pub equal_iff : (i j : Instruction) → (equal i j ≡ true) ↔ (compared i ≡ compared j)
unfolding equal
equal_iff i j = (
  λ h. compared-eq i j (all-AreTrue (tests i j) h),
  λ e. ap (equal (compared i)) (sym e) ∙ AreTrue-all (tests i i) (tests_refl i),
)
