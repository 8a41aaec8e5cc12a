-- ===== src/Execute/MultiplyStep.antt =====
-- The step of MULSCC as one round of shift-and-add multiplication.
use pret_iss.Prelude.{
  ℕ, ◌+◌, ◌*◌, ◌/◌, ◌%◌, ◌^◌, ◌<◌, ◌==◌, ◌≡◌, ◌∙◌, Bool, true, false, xor, arith, of_bool, bit_and,
  bit_or, not, shl32, ◌⊎◌, inl, inr, Bool-cases,
}
use pret_iss.Prelude.Bits.{bit_and_mask, bit_and_field, bit_or_comm_fields}
use pret_iss.Execute.{multiply_step}

-- N xor V of the condition codes, the bit that is shifted into rs1.
abbrev pub sign_in : ℕ → ℕ
sign_in icc = (icc / 8 + icc / 2) % 2

-- The bit that is put above a word that was moved down.
put_top : (w : ℕ) (b : Bool) → w < 2 ^ 31 → bit_or w (shl32 (of_bool b) 31) ≡ of_bool b * 2 ^ 31 + w
put_top w true h = bit_or_comm_fields 31 1 w h
put_top w false h = bit_or_comm_fields 31 0 w h

xor_bits : (p q : Bool) → of_bool (xor p q) ≡ (of_bool p + of_bool q) % 2
xor_bits p q = ground arith

bit_three : (w : ℕ) → of_bool (not (bit_and w 0x08 == 0)) ≡ w / 8 % 2
bit_three w = ground (arith, bit_and_field 3 1 w)

bit_one : (w : ℕ) → of_bool (not (bit_and w 0x02 == 0)) ≡ w / 2 % 2
bit_one w = ground (arith, bit_and_field 1 1 w)

sign_in_lem :
    (icc : ℕ)
    → icc < 2 ^ 4
    → of_bool (xor (not (bit_and icc 0x08 == 0)) (not (bit_and icc 0x02 == 0))) ≡ sign_in icc
sign_in_lem icc h =
    xor_bits (not (bit_and icc 0x08 == 0)) (not (bit_and icc 0x02 == 0))
    ∙ omega (arith, bit_three icc, bit_one icc)

low_bit : (w : ℕ) → of_bool (not (bit_and w 1 == 0)) ≡ w % 2
low_bit w = ground (arith, bit_and_mask 1 w)

times_bit : (y r : ℕ) → ((y % 2 ≡ 0) × (y % 2 * r ≡ 0)) ⊎ ((y % 2 ≡ 1) × (y % 2 * r ≡ r))
times_bit y r = elim (Bool-cases (y % 2 == 0)) [
  | inl e ↦ let z : y % 2 ≡ 0 = ground arith in inl (z, rw z (omega arith))
  | inr e ↦ let z : y % 2 ≡ 1 = ground arith in inr (z, rw z (omega arith))
]

-- With rs1, rs2 and Y words, the step keeps both results words, and moves the pair of partial product
-- and Y down by one bit after adding rs2 to the upper word if the low bit of Y is set: twice the new
-- pair, with the bit that Y loses, is the old pair with N xor V above it and that addition, up to a
-- carry out of the sum.
pub multiply_step_lem :
    (rs1 rs2 y icc : ℕ)
    → rs1 < 2 ^ 32
    → rs2 < 2 ^ 32
    → y < 2 ^ 32
    → icc < 2 ^ 4
    → let (shifted, rsd, y') = multiply_step rs1 rs2 y icc in
      (rsd < 2 ^ 32)
      × (y' < 2 ^ 32)
      × ((2 * (rsd * 2 ^ 32 + y') + y % 2) % 2 ^ 65
          ≡ ((sign_in icc * 2 ^ 32 + rs1 + 2 * (y % 2 * rs2)) * 2 ^ 32 + y) % 2 ^ 65)
unfolding multiply_step
multiply_step_lem rs1 rs2 y icc h₁ h₂ h₃ h₄ =
    let b = xor (not (bit_and icc 0x08 == 0)) (not (bit_and icc 0x02 == 0)) in
    let top = sign_in_lem icc h₄ in
    let low = low_bit rs1 in
    let low_y = low_bit y in
    ground (
      arith,
      top,
      low,
      bit_and_mask 1 y,
      times_bit y rs2,
      put_top (rs1 / 2) b (omega arith),
      put_top (y / 2) (not (bit_and rs1 1 == 0)) (omega arith),
    )
