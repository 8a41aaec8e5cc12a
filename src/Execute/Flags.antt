-- ===== src/Execute/Flags.antt =====
-- The condition codes of `geticc`, against the arithmetic that they stand for.
use pret_iss.Prelude.{
  ℕ, ◌+◌, ◌-◌, ◌*◌, ◌%◌, ◌^◌, ◌<◌, ◌==◌, if◌then◌else◌, leb, ltb, Bool, true, ◌||◌, ◌≡◌, ap, ◌∙◌,
  arith, of_bool, is_neg,
}
use pret_iss.Instruction.Enums.{Alu}
use pret_iss.Instruction.Defs.{Instruction}
use pret_iss.SpecialReg.{SpecialReg, get_carry_bit}
use pret_iss.Thread.{HwThread}
use pret_iss.Execute.{raise, alu, overflows, carries, geticc, perform_alu_operations}

-- A pattern read as a signed number, moved up by 2 ^ 31 so that it is not negative.
abbrev pub biased : ℕ → ℕ
biased x = (x + 2 ^ 31) % 2 ^ 32

-- N, Z, V and C at their places in the PSR.
abbrev pub flags : Bool → Bool → Bool → Bool → ℕ
flags n z v c = of_bool n * 8 + of_bool z * 4 + of_bool v * 2 + of_bool c

-- The flags of a + b + c: V is set if the signed sum leaves the range of 32 bits, C if the unsigned
-- sum does.
abbrev pub add_flags : ℕ → ℕ → ℕ → ℕ
add_flags a b c =
    let r = (a + b + c) % 2 ^ 32 in
    let s = biased a + biased b + c in
    flags (leb (2 ^ 31) r) (r == 0) (ltb s (2 ^ 31) || leb (2 ^ 31 + 2 ^ 32) s)
      (leb (2 ^ 32) (a + b + c))

-- The flags of a - b - c: V is set if the signed difference leaves the range, C if it borrows.
abbrev pub sub_flags : ℕ → ℕ → ℕ → ℕ
sub_flags a b c =
    let r = (a + 2 ^ 33 - b - c) % 2 ^ 32 in
    flags (leb (2 ^ 31) r) (r == 0)
      (ltb (biased a + 2 ^ 31) (biased b + c) || leb (biased b + c + 2 ^ 31) (biased a))
      (ltb a (b + c))

raise_lem :
    (z n v c : Bool) → raise c 0x1 (raise v 0x2 (raise n 0x8 (raise z 0x4 0))) ≡ flags n z v c
raise_lem z n v c = ground arith

-- The four tests set the four bits.
raise_flags :
    (i : Instruction)
    → i.icc ≡ 0
    → geticc i ≡ flags (is_neg i.alu_result) (i.alu_result == 0) (overflows i) (carries i)
unfolding geticc
raise_flags i e =
    ap
      (λ k. raise (carries i) 0x1 (
        raise (overflows i) 0x2
          (raise (is_neg i.alu_result) 0x8 (raise (i.alu_result == 0) 0x4 k))))
      e
    ∙ raise_lem (i.alu_result == 0) (is_neg i.alu_result) (overflows i) (carries i)

overflows_add :
    (i : Instruction) (c : ℕ)
    → i.aluop ≡ Alu.add
    → i.op1_value < 2 ^ 32
    → i.op2_value < 2 ^ 32
    → c < 2
    → i.alu_result ≡ (i.op1_value + i.op2_value + c) % 2 ^ 32
    → overflows i ≡ (
        let s = biased i.op1_value + biased i.op2_value + c in
        ltb s (2 ^ 31) || leb (2 ^ 31 + 2 ^ 32) s)
unfolding overflows
overflows_add i c e h₁ h₂ h₃ r = ground arith

carries_add :
    (i : Instruction) (c : ℕ)
    → i.aluop ≡ Alu.add
    → i.op1_value < 2 ^ 32
    → i.op2_value < 2 ^ 32
    → c < 2
    → i.alu_result ≡ (i.op1_value + i.op2_value + c) % 2 ^ 32
    → carries i ≡ leb (2 ^ 32) (i.op1_value + i.op2_value + c)
unfolding carries
carries_add i c e h₁ h₂ h₃ r = ground arith

overflows_sub :
    (i : Instruction) (c : ℕ)
    → i.aluop ≡ Alu.sub
    → i.op1_value < 2 ^ 32
    → i.op2_value < 2 ^ 32
    → c < 2
    → i.alu_result ≡ (i.op1_value + 2 ^ 33 - i.op2_value - c) % 2 ^ 32
    → overflows i ≡ (
        ltb (biased i.op1_value + 2 ^ 31) (biased i.op2_value + c)
        || leb (biased i.op2_value + c + 2 ^ 31) (biased i.op1_value))
unfolding overflows
overflows_sub i c e h₁ h₂ h₃ r = ground arith

carries_sub :
    (i : Instruction) (c : ℕ)
    → i.aluop ≡ Alu.sub
    → i.op1_value < 2 ^ 32
    → i.op2_value < 2 ^ 32
    → c < 2
    → i.alu_result ≡ (i.op1_value + 2 ^ 33 - i.op2_value - c) % 2 ^ 32
    → carries i ≡ ltb i.op1_value (i.op2_value + c)
unfolding carries
carries_sub i c e h₁ h₂ h₃ r = ground arith

-- The instruction that the execute stage leaves, where its operands are words and its condition codes
-- start clear, as `set_inst` makes them.
abbrev pub IsReady : HwThread → Type 0
IsReady t = (t.inst.op1_value < 2 ^ 32) × (t.inst.op2_value < 2 ^ 32) × (t.inst.icc ≡ 0)

-- The carry that goes into the sum or the difference.
abbrev pub carry_in : HwThread → ℕ
carry_in t = if t.inst.carry then get_carry_bit t.spec_regs else 0

carry_bit-lt : (r : SpecialReg) → get_carry_bit r < 2
unfolding get_carry_bit
carry_bit-lt r = ground arith

carry_in-lt : (t : HwThread) → carry_in t < 2
carry_in-lt t = ground (arith, carry_bit-lt t.spec_regs)

alu_add_lem :
    (t : HwThread)
    → (alu Alu.add t).inst.alu_result ≡ (t.inst.op1_value + t.inst.op2_value + carry_in t) % 2 ^ 32
unfolding alu
alu_add_lem t = ground arith

alu_sub_lem :
    (t : HwThread)
    → IsReady t
    → (alu Alu.sub t).inst.alu_result
      ≡ (t.inst.op1_value + 2 ^ 33 - t.inst.op2_value - carry_in t) % 2 ^ 32
unfolding alu
alu_sub_lem t r = ground (arith, carry_bit-lt t.spec_regs)

-- The whole step, where the operation is known and the condition codes are written.
perform_with :
    (t : HwThread) (a : Alu)
    → t.inst.aluop ≡ a
    → (alu a t).inst.write_icc ≡ true
    → perform_alu_operations t
      ≡ record (alu a t) { inst = record ((alu a t).inst) { icc = geticc (alu a t).inst } }
unfolding perform_alu_operations
perform_with t a e w = ground (arith, ap (λ (b : Alu). alu b t) e)

-- An addition of two words that writes the condition codes, clear before, with or without carry,
-- leaves the sum modulo 2 ^ 32 and exactly the flags of that sum: negative, zero, signed overflow
-- and carry out.
pub perform_alu_operations-add :
    (t : HwThread)
    → IsReady t
    → t.inst.aluop ≡ Alu.add
    → t.inst.write_icc ≡ true
    → let i = (perform_alu_operations t).inst in
      (i.alu_result ≡ (t.inst.op1_value + t.inst.op2_value + carry_in t) % 2 ^ 32)
      × (i.icc ≡ add_flags t.inst.op1_value t.inst.op2_value (carry_in t))
unfolding alu
perform_alu_operations-add t r e w =
    let t' = alu Alu.add t in
    let sum = alu_add_lem t in
    let c = carry_in-lt t in
    let ov = overflows_add t'.inst (carry_in t) e r.0 r.1 c sum in
    let ca = carries_add t'.inst (carry_in t) e r.0 r.1 c sum in
    rw (perform_with t Alu.add e w)
      (sum, raise_flags t'.inst r.2 ∙ (λ k. flags (is_neg (sum k)) (sum k == 0) (ov k) (ca k)))

-- A subtraction of two words that writes the condition codes, clear before, with or without carry,
-- leaves the difference modulo 2 ^ 32 and exactly its flags: negative, zero, signed overflow and
-- borrow.
pub perform_alu_operations-sub :
    (t : HwThread)
    → IsReady t
    → t.inst.aluop ≡ Alu.sub
    → t.inst.write_icc ≡ true
    → let i = (perform_alu_operations t).inst in
      (i.alu_result ≡ (t.inst.op1_value + 2 ^ 33 - t.inst.op2_value - carry_in t) % 2 ^ 32)
      × (i.icc ≡ sub_flags t.inst.op1_value t.inst.op2_value (carry_in t))
unfolding alu
perform_alu_operations-sub t r e w =
    let t' = alu Alu.sub t in
    let diff = alu_sub_lem t r in
    let c = carry_in-lt t in
    let ov = overflows_sub t'.inst (carry_in t) e r.0 r.1 c diff in
    let ca = carries_sub t'.inst (carry_in t) e r.0 r.1 c diff in
    rw (perform_with t Alu.sub e w)
      (diff, raise_flags t'.inst r.2 ∙ (λ k. flags (is_neg (diff k)) (diff k == 0) (ov k) (ca k)))
