-- ===== src/Instruction/Merge.antt =====
-- A field of bits merged into a word, as `get_write_data` of src/core/instruction.cpp does it.
use pret_iss.Prelude.{ℕ, ◌+◌, ◌-◌, ◌*◌, ◌/◌, ◌%◌, ◌^◌, ◌<◌, ◌≡◌, refl, bit_and, bit_or, arith}
use native.Mathlib.Nat.{one-le-pow, mod-eq_of_lt}
use pret_iss.Prelude.Bits.{
  bit_and_mask, bit_and_split, bit_and_field, bit_or_split, bit_or_comm_fields, zero-bit_or,
}

-- A field put between the bits above it and the bits below it.
or_merge :
    (k n p q r : ℕ)
    → q < 2 ^ n
    → r < 2 ^ k
    → bit_or (q * 2 ^ k) (p * 2 ^ n * 2 ^ k + r) ≡ (p * 2 ^ n + q) * 2 ^ k + r
or_merge k n p q r fits₁ fits₂ = ground (
  arith,
  one-le-pow k 2,
  bit_or_split k q 0 (p * 2 ^ n) r,
  bit_or_comm_fields n p q,
  zero-bit_or r,
)

-- Clearing a field keeps the bits above and below it.
and_keep_parts :
    (k n m p r : ℕ)
    → p / 2 ^ n < 2 ^ m
    → r < 2 ^ k
    → bit_and (p * 2 ^ k + r) ((2 ^ m - 1) * 2 ^ n * 2 ^ k + (2 ^ k - 1))
      ≡ p / 2 ^ n * 2 ^ n * 2 ^ k + r
and_keep_parts k n m p r high low =
    rw
      (
        bit_and_split k p r ((2 ^ m - 1) * 2 ^ n) (2 ^ k - 1) low (omega (arith, one-le-pow k 2)),
        bit_and_field n m p,
        bit_and_mask k r,
        mod-eq_of_lt high,
        mod-eq_of_lt low,
      )
      refl

and_keep :
    (k n m old : ℕ)
    → old / 2 ^ k / 2 ^ n < 2 ^ m
    → old % 2 ^ k < 2 ^ k
    → bit_and old ((2 ^ m - 1) * 2 ^ n * 2 ^ k + (2 ^ k - 1))
      ≡ old / 2 ^ k / 2 ^ n * 2 ^ n * 2 ^ k + old % 2 ^ k
and_keep k n m old high low = ground (arith, and_keep_parts k n m (old / 2 ^ k) (old % 2 ^ k))

-- The word `old` with its bits `k .. k + n` replaced by the low bits of `v`.
abbrev pub replaced : ℕ → ℕ → ℕ → ℕ → ℕ
replaced k n v old = (old / 2 ^ k / 2 ^ n * 2 ^ n + v % 2 ^ n) * 2 ^ k + old % 2 ^ k

-- What `get_write_data` computes for a field of `n` bits at bit `k`, below the `m` bits above it.
pub merge_lem :
    (k n m v old : ℕ)
    → old / 2 ^ k / 2 ^ n < 2 ^ m
    → old % 2 ^ k < 2 ^ k
    → v % 2 ^ n < 2 ^ n
    → bit_or (v % 2 ^ n * 2 ^ k) (bit_and old ((2 ^ m - 1) * 2 ^ n * 2 ^ k + (2 ^ k - 1)))
      ≡ replaced k n v old
merge_lem k n m v old high low fits =
    rw (and_keep k n m old high low)
      (or_merge k n (old / 2 ^ k / 2 ^ n) (v % 2 ^ n) (old % 2 ^ k) fits low)
