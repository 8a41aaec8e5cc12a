-- ===== src/Instruction/Fields.antt =====
-- The fields that `decode` takes out of a word, against the formats of the SPARC V8 manual.
use pret_iss.Prelude.{ℕ, ◌+◌, ◌-◌, ◌*◌, ◌/◌, ◌%◌, ◌^◌, ◌<◌, ◌==◌, ltb, if◌then◌else◌, ◌≡◌, arith}
use pret_iss.Prelude.Bits.{bit_and_mask, bit_and_field}
use pret_iss.Instruction.Defs.{Instruction}
use pret_iss.Instruction.Decode.{decode_fields}

-- An `n`-bit two's complement number as the 32-bit pattern of the same integer.
abbrev pub sign_extend : ℕ → ℕ → ℕ
sign_extend n v = if ltb v (2 ^ (n - 1)) then v else 2 ^ 32 - 2 ^ n + v

-- Format 3: op, rd, op3, rs1, i and 13 bits that hold simm13, or rs2 in their low 5.
abbrev pub format3 : ℕ → ℕ → ℕ → ℕ → ℕ → ℕ → ℕ
format3 op rd op3 rs1 i low =
    op * 2 ^ 30 + rd * 2 ^ 25 + op3 * 2 ^ 19 + rs1 * 2 ^ 14 + i * 2 ^ 13 + low

-- Format 2: op, the annul bit, the condition, op2 and disp22.
abbrev pub format2 : ℕ → ℕ → ℕ → ℕ → ℕ → ℕ
format2 op a cond op2 disp22 = op * 2 ^ 30 + a * 2 ^ 29 + cond * 2 ^ 25 + op2 * 2 ^ 22 + disp22

-- Format 1: op and disp30.
abbrev pub format1 : ℕ → ℕ → ℕ
format1 op disp30 = op * 2 ^ 30 + disp30

-- Each masked and shifted field is a slice of the word.
fields_as_slices :
    (i : Instruction)
    → let f = decode_fields i in
      let w = i.inst in
      (f.op2 ≡ w / 2 ^ 22 % 8)
      × (f.op3 ≡ w / 2 ^ 19 % 64)
      × (f.rd ≡ w / 2 ^ 25 % 32)
      × (f.rs1 ≡ w / 2 ^ 14 % 32)
      × (f.rs2 ≡ w % 32)
      × (f.conditional_branch ≡ w / 2 ^ 25 % 16)
unfolding decode_fields
fields_as_slices i = (
  omega (arith, bit_and_field 22 3 i.inst),
  omega (arith, bit_and_field 19 6 i.inst),
  omega (arith, bit_and_field 25 5 i.inst),
  omega (arith, bit_and_field 14 5 i.inst),
  omega (arith, bit_and_mask 5 i.inst),
  omega (arith, bit_and_field 25 4 i.inst),
)

flags_as_slices :
    (i : Instruction)
    → let f = decode_fields i in
      let w = i.inst in (f.use_imm ≡ (w / 2 ^ 13 % 2 == 1)) × (f.annul ≡ (w / 2 ^ 29 % 2 == 1))
unfolding decode_fields
flags_as_slices i =
    (ground (arith, bit_and_field 13 1 i.inst), ground (arith, bit_and_field 29 1 i.inst))

-- Shifting a field up to the sign bit and back down copies its top bit.
signed_as_slices :
    (i : Instruction)
    → let f = decode_fields i in
      let w = i.inst in
      (f.imm ≡ sign_extend 13 (w % 2 ^ 13))
      × (f.disp22 ≡ sign_extend 22 (w % 2 ^ 22))
      × (f.disp30 ≡ sign_extend 30 (w % 2 ^ 30))
unfolding decode_fields
signed_as_slices i = (
  ground (arith, bit_and_mask 13 i.inst),
  ground (arith, bit_and_mask 22 i.inst),
  ground (arith, bit_and_mask 30 i.inst),
)

-- For a word of format 3 whose fields fit their widths, decoding gives every field back: op, rd, op3,
-- rs1, the i bit, the sign-extended immediate, and rs2 as the low 5 bits.
pub decode_fields-format3 :
    (j : Instruction) (op rd op3 rs1 i low : ℕ)
    → op < 4
    → rd < 32
    → op3 < 64
    → rs1 < 32
    → i < 2
    → low < 2 ^ 13
    → j.inst ≡ format3 op rd op3 rs1 i low
    → let f = decode_fields j in
      (f.op1 ≡ op)
      × (f.rd ≡ rd)
      × (f.op3 ≡ op3)
      × (f.rs1 ≡ rs1)
      × (f.use_imm ≡ (i == 1))
      × (f.imm ≡ sign_extend 13 low)
      × (f.rs2 ≡ low % 32)
decode_fields-format3 j op rd op3 rs1 i low h₁ h₂ h₃ h₄ h₅ h₆ e = (
  unfold decode_fields in omega arith,
  omega (arith, fields_as_slices j),
  omega (arith, fields_as_slices j),
  omega (arith, fields_as_slices j),
  ground (arith, flags_as_slices j),
  ground (arith, signed_as_slices j),
  omega (arith, fields_as_slices j),
)

-- For a word of format 2 whose fields fit their widths, decoding gives back op, the annul bit, the
-- condition, op2 and the sign-extended displacement.
pub decode_fields-format2 :
    (j : Instruction) (op a cond op2 disp22 : ℕ)
    → op < 4
    → a < 2
    → cond < 16
    → op2 < 8
    → disp22 < 2 ^ 22
    → j.inst ≡ format2 op a cond op2 disp22
    → let f = decode_fields j in
      (f.op1 ≡ op)
      × (f.annul ≡ (a == 1))
      × (f.conditional_branch ≡ cond)
      × (f.op2 ≡ op2)
      × (f.disp22 ≡ sign_extend 22 disp22)
decode_fields-format2 j op a cond op2 disp22 h₁ h₂ h₃ h₄ h₅ e = (
  unfold decode_fields in omega arith,
  ground (arith, flags_as_slices j),
  omega (arith, fields_as_slices j),
  omega (arith, fields_as_slices j),
  ground (arith, signed_as_slices j),
)

-- For a word of format 1, decoding gives back op and the sign-extended displacement.
pub decode_fields-format1 :
    (j : Instruction) (op disp30 : ℕ)
    → op < 4
    → disp30 < 2 ^ 30
    → j.inst ≡ format1 op disp30
    → let f = decode_fields j in (f.op1 ≡ op) × (f.disp30 ≡ sign_extend 30 disp30)
decode_fields-format1 j op disp30 h₁ h₂ e =
    (unfold decode_fields in omega arith, ground (arith, signed_as_slices j))
