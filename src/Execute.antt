-- ===== src/Execute.antt =====
-- The execute stage: src/core/execute.cpp.
pub mod Flags
pub mod Shifts
pub mod MultiplyStep
use pret_iss.Prelude.{
  ℕ, zero, suc, ◌+◌, ◌-◌, ◌==◌, if◌then◌else◌, Bool, true, false, not, xor, ◌&&◌, ◌||◌, bit_and,
  bit_or, bit_xor, add32, sub32, not32, shl32, shr, sar32, is_neg, of_bool,
}
use pret_iss.Instruction.Enums.{Alu}
use pret_iss.Instruction.Defs.{Instruction}
use pret_iss.SpecialReg.{SpecialReg, get_carry_bit}
use pret_iss.Thread.{HwThread}

-- `while (shift_amount--)` of `ALU_SRL`
unfoldable pub srl_loop : ℕ → ℕ → ℕ
srl_loop zero alu_result = alu_result
srl_loop (suc shift_amount) alu_result =
    srl_loop shift_amount (bit_and (sar32 alu_result 1) 0x7fffffff)

unfoldable pub srl : ℕ → ℕ → ℕ
unfolding srl_loop
srl op1 op2 =
    let shift_amount = bit_and op2 0x1f in
    if not (bit_and op1 0x80000000 == 0) then srl_loop shift_amount op1 else sar32 op1 shift_amount

-- The step of `ALU_MUL` on rs1, rs2, Y and the condition codes: the new rs1, the sum and the new Y.
unfoldable pub multiply_step : ℕ → ℕ → ℕ → ℕ → ℕ × ℕ × ℕ
multiply_step rs1 rs2 y icc =
    let lsb_rs1 = not (bit_and rs1 1 == 0) in
    let b = xor (not (bit_and icc 0x08 == 0)) (not (bit_and icc 0x02 == 0)) in
    let shifted = bit_or (shr rs1 1) (shl32 (of_bool b) 31) in
    let rsd = if bit_and y 1 == 0 then shifted else add32 shifted rs2 in
    (shifted, rsd, bit_or (shr y 1) (shl32 (of_bool lsb_rs1) 31))

-- What `ALU_ADD` and `ALU_SUB` compute, with the carry of the PSR where the instruction asks for it.
unfoldable pub alu_add : Bool → ℕ → ℕ → ℕ → ℕ
alu_add carry bit a b = if carry then add32 (add32 a b) bit else add32 a b

unfoldable pub alu_sub : Bool → ℕ → ℕ → ℕ → ℕ
alu_sub carry bit a b = if carry then sub32 (sub32 a b) bit else sub32 a b

abbrev set_alu_result : HwThread → ℕ → HwThread
set_alu_result t result = record t { inst = record (t.inst) { alu_result = result } }

-- The `switch` of `perform_alu_operations`.
unfoldable pub alu : Alu → HwThread → HwThread
unfolding srl multiply_step alu_add alu_sub
alu Alu.add t =
    set_alu_result t
      (alu_add t.inst.carry (get_carry_bit t.spec_regs) t.inst.op1_value t.inst.op2_value)
alu Alu.add_dead t = set_alu_result t t.inst.op2_value
alu Alu.nop t = set_alu_result t 0
alu Alu.sub t =
    set_alu_result t
      (alu_sub t.inst.carry (get_carry_bit t.spec_regs) t.inst.op1_value t.inst.op2_value)
alu Alu.and t = set_alu_result t (bit_and t.inst.op1_value t.inst.op2_value)
alu Alu.or t = set_alu_result t (bit_or t.inst.op1_value t.inst.op2_value)
alu Alu.xor t = set_alu_result t (bit_xor t.inst.op1_value t.inst.op2_value)
alu Alu.andn t = set_alu_result t (bit_and t.inst.op1_value (not32 t.inst.op2_value))
alu Alu.xnor t = set_alu_result t (not32 (bit_xor t.inst.op1_value t.inst.op2_value))
alu Alu.orn t = set_alu_result t (bit_or t.inst.op1_value (not32 t.inst.op2_value))
alu Alu.sll t = set_alu_result t (shl32 t.inst.op1_value (bit_and t.inst.op2_value 0x1f))
alu Alu.srl t = set_alu_result t (srl t.inst.op1_value t.inst.op2_value)
alu Alu.sra t = set_alu_result t (sar32 t.inst.op1_value (bit_and t.inst.op2_value 0x1f))
alu Alu.sethi t = set_alu_result t (shl32 t.inst.disp22 10)
alu Alu.mul t =
    let (rs1, rsd, y) =
      multiply_step t.inst.op1_value t.inst.op2_value t.spec_regs.y t.spec_regs.icc in
    if t.inst.signed_multiply
    then record t {
      spec_regs = record (t.spec_regs) { y = y };
      inst = record (t.inst) { op1_value = rs1; alu_result = rsd };
    }
    else t

-- `aluop == ALU_ADD || aluop == ALU_MUL`, and `aluop == ALU_SUB`
unfoldable pub adds : Alu → Bool
adds Alu.add = true
adds Alu.mul = true
adds _ = false

unfoldable pub subtracts : Alu → Bool
subtracts Alu.sub = true
subtracts _ = false

-- `x >> 31` of an `int`, as a number and as a condition.
abbrev sign : ℕ → ℕ
sign x = sar32 x 31

abbrev signed : ℕ → Bool
signed x = not (sar32 x 31 == 0)

unfoldable pub overflows : Instruction → Bool
unfolding adds subtracts
overflows i =
    (adds i.aluop
      && sign i.op1_value == sign i.op2_value
      && not (sign i.op1_value == sign i.alu_result))
    || subtracts i.aluop
      && (not (sign i.op1_value == sign i.op2_value) && not (sign i.op1_value == sign i.alu_result))

unfoldable pub carries : Instruction → Bool
unfolding adds subtracts
carries i =
    (adds i.aluop
      && (signed i.op1_value && signed i.op2_value
          || not (signed i.alu_result) && (signed i.op1_value || signed i.op2_value)))
    || subtracts i.aluop
      && (not (signed i.op1_value) && not (signed (not32 i.op2_value))
          || (not (signed i.op1_value) || not (signed (not32 i.op2_value))) && signed i.alu_result)

abbrev raise : Bool → ℕ → ℕ → ℕ
raise b flag icc = if b then bit_or icc flag else icc

unfoldable pub geticc : Instruction → ℕ
unfolding overflows carries
geticc i =
    let z = raise (i.alu_result == 0) 0x4 i.icc in
    let n = raise (is_neg i.alu_result) 0x8 z in
    let v = raise (overflows i) 0x2 n in raise (carries i) 0x1 v

unfoldable pub perform_alu_operations : HwThread → HwThread
unfolding alu geticc
perform_alu_operations t =
    let t' = alu t.inst.aluop t in
    if t'.inst.write_icc then record t' { inst = record (t'.inst) { icc = geticc t'.inst } } else t'

-- `behavior`: a thread that is disabled or whose fetch was stalled passes unchanged. The message on
-- one address is left out.
unfoldable pub execute : HwThread → HwThread
unfolding perform_alu_operations
execute t = if not t.enabled || t.fetch_stalled then t else perform_alu_operations t
