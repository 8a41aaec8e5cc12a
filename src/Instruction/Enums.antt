-- ===== src/Instruction/Enums.antt =====
-- The enumerations of include/instruction_defs.h. A case label of a `switch` over a decoded code is a
-- constructor here; a code that no label names is `other`.
use pret_iss.Prelude.{ℕ, ◌==◌, if◌then◌else◌}

-- `ALU_MUL`, `ALU_ADD_DEAD` and the others, without their prefix.
pub data Alu : Type 0 where
  nop add add_dead sub and or xor sll srl sra xnor andn orn sethi mul : Alu

pub data MemorySize : Type 0 where
  signed_byte unsigned_byte signed_halfword unsigned_halfword word doubleword : MemorySize

pub data Op1 : Type 0 where
  sethi_branches call arithmetic_etc memory : Op1
  other : ℕ → Op1

unfoldable pub op1_of : ℕ → Op1
op1_of n =
    if n == 1
    then Op1.call
    else if n == 0
    then Op1.sethi_branches
    else if n == 3
    then Op1.memory
    else if n == 2
    then Op1.arithmetic_etc
    else Op1.other n

pub data Op2 : Type 0 where
  bicc sethi : Op2
  other : ℕ → Op2

unfoldable pub op2_of : ℕ → Op2
op2_of n = if n == 4 then Op2.sethi else if n == 2 then Op2.bicc else Op2.other n

-- `OP3_WRY` and `OP3_WRASR` are one code, and so are `OP3_RDY` and `OP3_RDASR`.
pub data Op3Arithmetic : Type 0 where
  add and or xor sub subx subxcc andn orn xnor addcc addx addxcc andcc orcc xorcc subcc andncc orncc
        xnorcc sll srl sra rdasr rdpsr rdwim rdtbr dead wry wrpsr wrwim wrtbr jmpl rett save restore
        mulscc sync :
      Op3Arithmetic
  other : ℕ → Op3Arithmetic

unfoldable pub op3_arithmetic_of : ℕ → Op3Arithmetic
op3_arithmetic_of n =
    if n == 0x24
    then Op3Arithmetic.mulscc
    else if n == 0x0
    then Op3Arithmetic.add
    else if n == 0x8
    then Op3Arithmetic.addx
    else if n == 0x18
    then Op3Arithmetic.addxcc
    else if n == 0x1
    then Op3Arithmetic.and
    else if n == 0x2
    then Op3Arithmetic.or
    else if n == 0x3
    then Op3Arithmetic.xor
    else if n == 0x4
    then Op3Arithmetic.sub
    else if n == 0xc
    then Op3Arithmetic.subx
    else if n == 0x1c
    then Op3Arithmetic.subxcc
    else if n == 0x5
    then Op3Arithmetic.andn
    else if n == 0x6
    then Op3Arithmetic.orn
    else if n == 0x7
    then Op3Arithmetic.xnor
    else if n == 0x10
    then Op3Arithmetic.addcc
    else if n == 0x11
    then Op3Arithmetic.andcc
    else if n == 0x12
    then Op3Arithmetic.orcc
    else if n == 0x13
    then Op3Arithmetic.xorcc
    else if n == 0x14
    then Op3Arithmetic.subcc
    else if n == 0x15
    then Op3Arithmetic.andncc
    else if n == 0x16
    then Op3Arithmetic.orncc
    else if n == 0x17
    then Op3Arithmetic.xnorcc
    else if n == 0x38
    then Op3Arithmetic.jmpl
    else if n == 0x39
    then Op3Arithmetic.rett
    else if n == 0x3c
    then Op3Arithmetic.save
    else if n == 0x3d
    then Op3Arithmetic.restore
    else if n == 0x25
    then Op3Arithmetic.sll
    else if n == 0x26
    then Op3Arithmetic.srl
    else if n == 0x27
    then Op3Arithmetic.sra
    else if n == 0x29
    then Op3Arithmetic.rdpsr
    else if n == 0x28
    then Op3Arithmetic.rdasr
    else if n == 0x2a
    then Op3Arithmetic.rdwim
    else if n == 0x2b
    then Op3Arithmetic.rdtbr
    else if n == 0x2c
    then Op3Arithmetic.dead
    else if n == 0x30
    then Op3Arithmetic.wry
    else if n == 0x31
    then Op3Arithmetic.wrpsr
    else if n == 0x32
    then Op3Arithmetic.wrwim
    else if n == 0x33
    then Op3Arithmetic.wrtbr
    else if n == 0x2d
    then Op3Arithmetic.sync
    else Op3Arithmetic.other n

-- The last two are the codes of `OP3_DEAD` and `OP3_MEM2SP`, which `decode_memory` takes too.
pub data Op3Memory : Type 0 where
  ld st stb std sth ldsb ldsh ldub lduh ldd dead mem2sp : Op3Memory
  other : ℕ → Op3Memory

unfoldable pub op3_memory_of : ℕ → Op3Memory
op3_memory_of n =
    if n == 0x4
    then Op3Memory.st
    else if n == 0x5
    then Op3Memory.stb
    else if n == 0x7
    then Op3Memory.std
    else if n == 0x6
    then Op3Memory.sth
    else if n == 0x0
    then Op3Memory.ld
    else if n == 0x1
    then Op3Memory.ldub
    else if n == 0x2
    then Op3Memory.lduh
    else if n == 0x9
    then Op3Memory.ldsb
    else if n == 0xa
    then Op3Memory.ldsh
    else if n == 0x3
    then Op3Memory.ldd
    else if n == 0x2c
    then Op3Memory.dead
    else if n == 0x34
    then Op3Memory.mem2sp
    else Op3Memory.other n

pub data Srcmux : Type 0 where
  ra ex me imm zero xc : Srcmux

-- `SREG_MUX`; the field that holds it starts at 0, which stands for none of them.
pub data SregMux : Type 0 where
  none y asr psr wim tbr dt mem2sp : SregMux

pub data ExceptionState : Type 0 where
  normal trapped trapped2 error : ExceptionState
