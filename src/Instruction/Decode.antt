-- ===== src/Instruction/Decode.antt =====
-- `decode` of src/core/instruction.cpp and the three functions that it calls.
use pret_iss.Prelude.{ℕ, ◌==◌, if◌then◌else◌, true, false, not, bit_and, shr, shl32, sar32}
use pret_iss.Instruction.Enums.{Alu, MemorySize, SregMux, Op1, Op2, Op3Arithmetic, Op3Memory}
use pret_iss.Instruction.Enums.{op1_of, op2_of, op3_arithmetic_of, op3_memory_of}
use pret_iss.Instruction.Defs.{Instruction}

-- -1 in a `short`
abbrev pub minus_one : ℕ
minus_one = 0xffff

-- `decode_arithmetic`; the message on `OP3_DEAD` is left out.
unfoldable pub decode_arithmetic : Op3Arithmetic → Instruction → Instruction
decode_arithmetic Op3Arithmetic.mulscc i = record i {
  aluop = Alu.mul;
  write_registers = true;
  signed_multiply = true;
  write_icc = true;
}
decode_arithmetic Op3Arithmetic.add i = record i { aluop = Alu.add; write_registers = true }
decode_arithmetic Op3Arithmetic.addx i = record i {
  aluop = Alu.add;
  write_registers = true;
  carry = true;
}
decode_arithmetic Op3Arithmetic.addxcc i = record i {
  aluop = Alu.add;
  write_registers = true;
  write_icc = true;
  carry = true;
}
decode_arithmetic Op3Arithmetic.and i = record i { aluop = Alu.and; write_registers = true }
decode_arithmetic Op3Arithmetic.or i = record i { aluop = Alu.or; write_registers = true }
decode_arithmetic Op3Arithmetic.xor i = record i { aluop = Alu.xor; write_registers = true }
decode_arithmetic Op3Arithmetic.sub i = record i { aluop = Alu.sub; write_registers = true }
decode_arithmetic Op3Arithmetic.subx i = record i {
  aluop = Alu.sub;
  write_registers = true;
  carry = true;
}
decode_arithmetic Op3Arithmetic.subxcc i = record i {
  aluop = Alu.sub;
  write_registers = true;
  carry = true;
  write_icc = true;
}
decode_arithmetic Op3Arithmetic.andn i = record i { aluop = Alu.andn; write_registers = true }
decode_arithmetic Op3Arithmetic.orn i = record i { aluop = Alu.orn; write_registers = true }
decode_arithmetic Op3Arithmetic.xnor i = record i { aluop = Alu.xnor; write_registers = true }
decode_arithmetic Op3Arithmetic.addcc i = record i {
  aluop = Alu.add;
  write_registers = true;
  write_icc = true;
}
decode_arithmetic Op3Arithmetic.andcc i = record i {
  aluop = Alu.and;
  write_registers = true;
  write_icc = true;
}
decode_arithmetic Op3Arithmetic.orcc i = record i {
  aluop = Alu.or;
  write_registers = true;
  write_icc = true;
}
decode_arithmetic Op3Arithmetic.xorcc i = record i {
  aluop = Alu.xor;
  write_registers = true;
  write_icc = true;
}
decode_arithmetic Op3Arithmetic.subcc i = record i {
  aluop = Alu.sub;
  write_registers = true;
  write_icc = true;
}
decode_arithmetic Op3Arithmetic.andncc i = record i {
  aluop = Alu.andn;
  write_registers = true;
  write_icc = true;
}
decode_arithmetic Op3Arithmetic.orncc i = record i {
  aluop = Alu.orn;
  write_registers = true;
  write_icc = true;
}
decode_arithmetic Op3Arithmetic.xnorcc i = record i {
  aluop = Alu.xnor;
  write_registers = true;
  write_icc = true;
}
decode_arithmetic Op3Arithmetic.jmpl i = record i {
  jump = true;
  write_registers = true;
  aluop = Alu.add;
}
decode_arithmetic Op3Arithmetic.rett i = record i {
  is_rett = true;
  jump = true;
  aluop = Alu.add;
  increment_window_pointer = 1;
}
decode_arithmetic Op3Arithmetic.save i = record i {
  increment_window_pointer = minus_one;
  aluop = Alu.add;
  write_registers = true;
}
decode_arithmetic Op3Arithmetic.restore i = record i {
  increment_window_pointer = 1;
  aluop = Alu.add;
  write_registers = true;
}
decode_arithmetic Op3Arithmetic.sll i = record i { aluop = Alu.sll; write_registers = true }
decode_arithmetic Op3Arithmetic.srl i = record i { aluop = Alu.srl; write_registers = true }
decode_arithmetic Op3Arithmetic.sra i = record i { aluop = Alu.sra; write_registers = true }
decode_arithmetic Op3Arithmetic.rdpsr i = record i {
  select_special_register = SregMux.psr;
  write_registers = true;
}
decode_arithmetic Op3Arithmetic.rdasr i = record i {
  select_special_register = if i.rs1 == 0 then SregMux.y else SregMux.asr;
  write_registers = true;
}
decode_arithmetic Op3Arithmetic.rdwim i = record i {
  select_special_register = SregMux.wim;
  write_registers = true;
}
decode_arithmetic Op3Arithmetic.rdtbr i = record i {
  select_special_register = SregMux.tbr;
  write_registers = true;
}
decode_arithmetic Op3Arithmetic.dead i = i
decode_arithmetic Op3Arithmetic.wry i = record i {
  select_special_register = if i.rd == 0 then SregMux.y else SregMux.asr;
  write_special_registers = true;
  aluop = Alu.xor;
}
decode_arithmetic Op3Arithmetic.wrpsr i = record i {
  select_special_register = SregMux.psr;
  aluop = Alu.xor;
  write_special_registers = true;
}
decode_arithmetic Op3Arithmetic.wrwim i = record i {
  select_special_register = SregMux.wim;
  aluop = Alu.xor;
  write_special_registers = true;
}
decode_arithmetic Op3Arithmetic.wrtbr i = record i {
  select_special_register = SregMux.tbr;
  aluop = Alu.xor;
  write_special_registers = true;
}
decode_arithmetic Op3Arithmetic.sync i = record i { sync_instruction = true }
decode_arithmetic (Op3Arithmetic.other n) i = record i { unimplemented = true }

unfoldable pub decode_memory : Op3Memory → Instruction → Instruction
decode_memory Op3Memory.st i = record i { aluop = Alu.add; write_memory = true }
decode_memory Op3Memory.stb i = record i {
  aluop = Alu.add;
  write_memory = true;
  memory_size = MemorySize.unsigned_byte;
}
decode_memory Op3Memory.std i = record i {
  aluop = Alu.add;
  write_memory = true;
  db_word_instruction = true;
}
decode_memory Op3Memory.sth i = record i {
  aluop = Alu.add;
  write_memory = true;
  memory_size = MemorySize.unsigned_halfword;
}
decode_memory Op3Memory.ld i = record i {
  aluop = Alu.add;
  write_registers = true;
  read_memory = true;
}
decode_memory Op3Memory.ldub i = record i {
  aluop = Alu.add;
  write_registers = true;
  read_memory = true;
  memory_size = MemorySize.unsigned_byte;
}
decode_memory Op3Memory.lduh i = record i {
  aluop = Alu.add;
  write_registers = true;
  read_memory = true;
  memory_size = MemorySize.unsigned_halfword;
}
decode_memory Op3Memory.ldsb i = record i {
  aluop = Alu.add;
  write_registers = true;
  read_memory = true;
  memory_size = MemorySize.signed_byte;
}
decode_memory Op3Memory.ldsh i = record i {
  aluop = Alu.add;
  write_registers = true;
  read_memory = true;
  memory_size = MemorySize.signed_halfword;
}
decode_memory Op3Memory.ldd i = record i {
  aluop = Alu.add;
  write_registers = true;
  read_memory = true;
  memory_size = MemorySize.doubleword;
  db_word_instruction = true;
}
decode_memory Op3Memory.dead i = record i {
  aluop = Alu.add_dead;
  select_special_register = SregMux.dt;
}
decode_memory Op3Memory.mem2sp i = record i {
  write_special_registers = true;
  aluop = Alu.add;
  select_special_register = SregMux.mem2sp;
}
decode_memory (Op3Memory.other n) i = record i { unimplemented = true }

unfoldable pub decode_sethi_branches : Op2 → Instruction → Instruction
decode_sethi_branches Op2.sethi i = record i { aluop = Alu.sethi; write_registers = true }
decode_sethi_branches Op2.bicc i = record i { branch = true }
decode_sethi_branches (Op2.other n) i = record i { unimplemented = true }

-- The fields of the word, before any opcode is looked at.
unfoldable pub decode_fields : Instruction → Instruction
decode_fields i = record i {
  op1 = shr i.inst 30;
  op2 = shr (bit_and i.inst 0x01c00000) 22;
  op3 = shr (bit_and i.inst 0x01f80000) 19;
  rd = shr (bit_and i.inst 0x3e000000) 25;
  rs1 = shr (bit_and i.inst 0x0007c000) 14;
  use_imm = not (shr (bit_and i.inst 0x00002000) 12 == 0);
  imm = sar32 (shl32 (bit_and i.inst 0x00001fff) 19) 19;
  rs2 = bit_and i.inst 0x0000001f;
  conditional_branch = shr (bit_and i.inst 0x1e000000) 25;
  annul = not (shr (bit_and i.inst 0x20000000) 29 == 0);
  disp30 = sar32 (shl32 (bit_and i.inst 0x3fffffff) 2) 2;
  disp22 = sar32 (shl32 (bit_and i.inst 0x003fffff) 10) 10;
}

-- The `switch` over the first opcode.
unfoldable pub dispatch : Op1 → Instruction → Instruction
dispatch Op1.call i = record i { call = true; aluop = Alu.add; write_registers = true; rd = 15 }
dispatch Op1.sethi_branches i = decode_sethi_branches (op2_of i.op2) i
dispatch Op1.memory i = decode_memory (op3_memory_of i.op3) i
dispatch Op1.arithmetic_etc i = decode_arithmetic (op3_arithmetic_of i.op3) i
dispatch (Op1.other n) i = record i { unimplemented = true }

-- Register 0 is never written.
unfoldable pub protect_g0 : Instruction → Instruction
protect_g0 i = record i { write_registers = if i.rd == 0 then false else i.write_registers }

unfoldable pub decode : Instruction → Instruction
unfolding decode_fields dispatch protect_g0
decode i = let f = decode_fields i in protect_g0 (dispatch (op1_of f.op1) f)
