-- ===== src/Execute/Shifts.antt =====
-- The shifts of `perform_alu_operations`.
use pret_iss.Prelude.{ℕ, zero, suc, ◌/◌, ◌%◌, ◌^◌, ◌<◌, ◌≡◌, sym, ap, ◌∙◌, arith, bit_and, sar32}
use pret_iss.Prelude.Bits.{bit_and_mask, bit_and_field}
use native.Mathlib.Nat.{div-div-eq-div-mul, pow-succ'}
use pret_iss.Execute.{srl_loop, srl}

-- One round moves the word down by one bit and clears the sign.
round_lem : (a : ℕ) → a < 2 ^ 32 → bit_and (sar32 a 1) 0x7fffffff ≡ a / 2
round_lem a h = ground (arith, bit_and_mask 31 (sar32 a 1))

srl_loop_lem : (n a : ℕ) → a < 2 ^ 32 → srl_loop n a ≡ a / 2 ^ n
unfolding srl_loop
srl_loop_lem zero a h = omega arith
srl_loop_lem (suc n) a h =
    ap (srl_loop n) (round_lem a h)
    ∙ srl_loop_lem n (a / 2) (omega arith)
    ∙ div-div-eq-div-mul a 2 (2 ^ n)
    ∙ ap (λ t. a / t) (sym (pow-succ' 2 n))

-- For a word, the logical shift, a loop for negative words and one signed shift for the others,
-- divides by the power of two that the low five bits of the second operand give.
pub srl_lem : (a b : ℕ) → a < 2 ^ 32 → srl a b ≡ a / 2 ^ (b % 32)
unfolding srl
srl_lem a b h = ground (arith, bit_and_mask 5 b, bit_and_field 31 1 a, srl_loop_lem (b % 32) a)
