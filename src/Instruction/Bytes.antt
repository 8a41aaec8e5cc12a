-- ===== src/Instruction/Bytes.antt =====
-- Loads and stores of bytes and halfwords: what a store leaves in the word, and that a load of the
-- same place gives it back.
use pret_iss.Prelude.{
  ℕ, zero, suc, ◌+◌, ◌-◌, ◌*◌, ◌/◌, ◌%◌, ◌^◌, ◌≤◌, ◌<◌, ◌≡◌, refl, ap, ◌∙◌, bit_and, bit_or, arith,
}
use native.Mathlib.Nat.{
  one-le-pow, mod-eq_of_lt, mod-lt, mul-add-div_right, mul-add-mod_self_right, div-eq_of_lt,
  add-zero,
}
use pret_iss.Prelude.Bits.{bit_and_mask, bit_and_field, bit_and-zero, bit_or-zero}
use pret_iss.Instruction.Enums.{MemorySize}
use pret_iss.Instruction.Defs.{Instruction}
use pret_iss.Instruction.Fields.{sign_extend}
use pret_iss.Instruction.Transfer.{loaded, read_data, get_write_data}
use pret_iss.Instruction.Merge.{replaced, merge_lem}

-- The width in bits of what a load or a store moves, and the lowest bit of its place.
abbrev pub width : MemorySize → ℕ
width MemorySize.signed_byte = 8
width MemorySize.unsigned_byte = 8
width MemorySize.signed_halfword = 16
width MemorySize.unsigned_halfword = 16
width MemorySize.word = 32
width MemorySize.doubleword = 32

abbrev pub place : MemorySize → ℕ → ℕ
place size offset = 32 - width size - 8 * offset

-- An offset at which the access lies within the word.
abbrev pub Fits : MemorySize → ℕ → Type 0
Fits size offset = width size + 8 * offset ≤ 32

byte_store :
    (v old off : ℕ)
    → old < 2 ^ 32
    → off < 4
    → bit_or
        (bit_and (v * 2 ^ ((3 - off) * 8) % 2 ^ 32) (0xff * 2 ^ ((3 - off) * 8) % 2 ^ 32))
        (bit_and old (2 ^ 32 - 1 - 0xff * 2 ^ ((3 - off) * 8) % 2 ^ 32))
      ≡ replaced (24 - 8 * off) 8 v old
byte_store v old zero fits h =
    ground (arith, bit_and_field 24 8 (v * 2 ^ 24 % 2 ^ 32), merge_lem 24 8 0 v old)
byte_store v old (suc zero) fits h =
    ground (arith, bit_and_field 16 8 (v * 2 ^ 16 % 2 ^ 32), merge_lem 16 8 8 v old)
byte_store v old (suc (suc zero)) fits h =
    ground (arith, bit_and_field 8 8 (v * 2 ^ 8 % 2 ^ 32), merge_lem 8 8 16 v old)
byte_store v old (suc (suc (suc zero))) fits h =
    ground (arith, bit_and_field 0 8 (v * 2 ^ 0 % 2 ^ 32), merge_lem 0 8 24 v old)
byte_store v old (suc (suc (suc (suc off)))) fits h = absurd (omega arith)

halfword_store :
    (v old off : ℕ)
    → old < 2 ^ 32
    → off < 3
    → bit_or
        (bit_and (v * 2 ^ ((2 - off) * 8) % 2 ^ 32) (0xffff * 2 ^ ((2 - off) * 8) % 2 ^ 32))
        (bit_and old (2 ^ 32 - 1 - 0xffff * 2 ^ ((2 - off) * 8) % 2 ^ 32))
      ≡ replaced (16 - 8 * off) 16 v old
halfword_store v old zero fits h =
    ground (arith, bit_and_field 16 16 (v * 2 ^ 16 % 2 ^ 32), merge_lem 16 16 0 v old)
halfword_store v old (suc zero) fits h =
    ground (arith, bit_and_field 8 16 (v * 2 ^ 8 % 2 ^ 32), merge_lem 8 16 8 v old)
halfword_store v old (suc (suc zero)) fits h =
    ground (arith, bit_and_field 0 16 (v * 2 ^ 0 % 2 ^ 32), merge_lem 0 16 16 v old)
halfword_store v old (suc (suc (suc off))) fits h = absurd (omega arith)

word_store :
    (v old : ℕ)
    → v < 2 ^ 32
    → old < 2 ^ 32
    → bit_or (bit_and (v * 1 % 2 ^ 32) 0xffffffff) (bit_and old 0) ≡ replaced 0 32 v old
word_store v old fits₁ fits₂ =
    ground (arith, bit_and_mask 32 (v * 1 % 2 ^ 32), bit_and-zero old, bit_or-zero (v * 1 % 2 ^ 32))

store_at :
    (size : MemorySize) (i : Instruction) (old offset : ℕ)
    → i.memory_size ≡ size
    → i.op3_value < 2 ^ 32
    → old < 2 ^ 32
    → Fits size offset
    → get_write_data i old offset ≡ replaced (place size offset) (width size) i.op3_value old
unfolding get_write_data
store_at MemorySize.signed_byte i old offset e h₁ h₂ h₃ =
    rw e (byte_store i.op3_value old offset h₂ (omega arith))
store_at MemorySize.unsigned_byte i old offset e h₁ h₂ h₃ =
    rw e (byte_store i.op3_value old offset h₂ (omega arith))
store_at MemorySize.signed_halfword i old offset e h₁ h₂ h₃ =
    rw e (halfword_store i.op3_value old offset h₂ (omega arith))
store_at MemorySize.unsigned_halfword i old offset e h₁ h₂ h₃ =
    rw e (halfword_store i.op3_value old offset h₂ (omega arith))
store_at MemorySize.word i old zero e h₁ h₂ h₃ = rw e (word_store i.op3_value old h₁ h₂)
store_at MemorySize.word i old (suc offset) e h₁ h₂ h₃ = absurd (omega arith)
store_at MemorySize.doubleword i old zero e h₁ h₂ h₃ = rw e (word_store i.op3_value old h₁ h₂)
store_at MemorySize.doubleword i old (suc offset) e h₁ h₂ h₃ = absurd (omega arith)

-- What a load makes of the bits that it takes: the signed sizes copy the top bit upwards.
abbrev pub extend : MemorySize → ℕ → ℕ
extend MemorySize.signed_byte v = sign_extend 8 v
extend MemorySize.unsigned_byte v = v
extend MemorySize.signed_halfword v = sign_extend 16 v
extend MemorySize.unsigned_halfword v = v
extend MemorySize.word v = v
extend MemorySize.doubleword v = v

load_at :
    (size : MemorySize) (w offset : ℕ)
    → w < 2 ^ 32
    → Fits size offset
    → loaded size w offset ≡ extend size (w / 2 ^ place size offset % 2 ^ width size)
unfolding loaded
load_at MemorySize.signed_byte w zero h f = ground arith
load_at MemorySize.signed_byte w (suc zero) h f = ground arith
load_at MemorySize.signed_byte w (suc (suc zero)) h f = ground arith
load_at MemorySize.signed_byte w (suc (suc (suc zero))) h f = ground arith
load_at MemorySize.signed_byte w (suc (suc (suc (suc off)))) h f = absurd (omega arith)
load_at MemorySize.unsigned_byte w zero h f = ground arith
load_at MemorySize.unsigned_byte w (suc zero) h f = ground arith
load_at MemorySize.unsigned_byte w (suc (suc zero)) h f = ground arith
load_at MemorySize.unsigned_byte w (suc (suc (suc zero))) h f = ground arith
load_at MemorySize.unsigned_byte w (suc (suc (suc (suc off)))) h f = absurd (omega arith)
load_at MemorySize.signed_halfword w zero h f = ground arith
load_at MemorySize.signed_halfword w (suc zero) h f = ground arith
load_at MemorySize.signed_halfword w (suc (suc zero)) h f = ground arith
load_at MemorySize.signed_halfword w (suc (suc (suc off))) h f = absurd (omega arith)
load_at MemorySize.unsigned_halfword w zero h f = ground arith
load_at MemorySize.unsigned_halfword w (suc zero) h f = ground arith
load_at MemorySize.unsigned_halfword w (suc (suc zero)) h f = ground arith
load_at MemorySize.unsigned_halfword w (suc (suc (suc off))) h f = absurd (omega arith)
load_at MemorySize.word w zero h f = ground arith
load_at MemorySize.word w (suc off) h f = absurd (omega arith)
load_at MemorySize.doubleword w zero h f = ground arith
load_at MemorySize.doubleword w (suc off) h f = absurd (omega arith)

-- The field at `k` of a word put together from parts, and what is around it.
div_parts : (m x y : ℕ) → y < m → (x * m + y) / m ≡ x
div_parts m x y h = rw (mul-add-div_right {m = m} (omega arith) x y, div-eq_of_lt h) (add-zero x)

mod_parts : (m x y : ℕ) → y < m → (x * m + y) % m ≡ y
mod_parts m x y h = rw (mul-add-mod_self_right x m y) (mod-eq_of_lt h)

replaced_parts :
    (k n v old : ℕ)
    → (replaced k n v old / 2 ^ k % 2 ^ n ≡ v % 2 ^ n)
      × (replaced k n v old % 2 ^ k ≡ old % 2 ^ k)
      × (replaced k n v old / 2 ^ k / 2 ^ n ≡ old / 2 ^ k / 2 ^ n)
replaced_parts k n v old = (
  rw (middle) (mod_parts (2 ^ n) above (v % 2 ^ n) fits),
  mod_parts (2 ^ k) (above * 2 ^ n + v % 2 ^ n) (old % 2 ^ k) low,
  rw (middle) (div_parts (2 ^ n) above (v % 2 ^ n) fits),
)
  where
    above : ℕ
    above = old / 2 ^ k / 2 ^ n

    fits : v % 2 ^ n < 2 ^ n
    fits = mod-lt v (one-le-pow n 2 (omega arith))

    low : old % 2 ^ k < 2 ^ k
    low = mod-lt old (one-le-pow k 2 (omega arith))

    middle : replaced k n v old / 2 ^ k ≡ old / 2 ^ k / 2 ^ n * 2 ^ n + v % 2 ^ n
    middle = div_parts (2 ^ k) (above * 2 ^ n + v % 2 ^ n) (old % 2 ^ k) low

-- A store of a byte, a halfword or a word at an offset where it lies within the word, both words
-- below 2 ^ 32, puts the low bits of the value at its place, byte 0 being the highest, and keeps
-- every bit below and above it.
pub get_write_data-place :
    (i : Instruction) (old offset : ℕ)
    → i.op3_value < 2 ^ 32
    → old < 2 ^ 32
    → Fits i.memory_size offset
    → let stored = get_write_data i old offset in
      let k = place i.memory_size offset in
      let n = width i.memory_size in
      (stored / 2 ^ k % 2 ^ n ≡ i.op3_value % 2 ^ n)
      × (stored % 2 ^ k ≡ old % 2 ^ k)
      × (stored / 2 ^ k / 2 ^ n ≡ old / 2 ^ k / 2 ^ n)
get_write_data-place i old offset h₁ h₂ h₃ =
    rw (store_at i.memory_size i old offset refl h₁ h₂ h₃)
      (replaced_parts (place i.memory_size offset) (width i.memory_size) i.op3_value old)

replaced-lt :
    (size : MemorySize) (v old offset : ℕ)
    → old < 2 ^ 32
    → Fits size offset
    → replaced (place size offset) (width size) v old < 2 ^ 32
replaced-lt MemorySize.signed_byte v old zero h f = omega arith
replaced-lt MemorySize.signed_byte v old (suc zero) h f = omega arith
replaced-lt MemorySize.signed_byte v old (suc (suc zero)) h f = omega arith
replaced-lt MemorySize.signed_byte v old (suc (suc (suc zero))) h f = omega arith
replaced-lt MemorySize.signed_byte v old (suc (suc (suc (suc off)))) h f = absurd (omega arith)
replaced-lt MemorySize.unsigned_byte v old zero h f = omega arith
replaced-lt MemorySize.unsigned_byte v old (suc zero) h f = omega arith
replaced-lt MemorySize.unsigned_byte v old (suc (suc zero)) h f = omega arith
replaced-lt MemorySize.unsigned_byte v old (suc (suc (suc zero))) h f = omega arith
replaced-lt MemorySize.unsigned_byte v old (suc (suc (suc (suc off)))) h f = absurd (omega arith)
replaced-lt MemorySize.signed_halfword v old zero h f = omega arith
replaced-lt MemorySize.signed_halfword v old (suc zero) h f = omega arith
replaced-lt MemorySize.signed_halfword v old (suc (suc zero)) h f = omega arith
replaced-lt MemorySize.signed_halfword v old (suc (suc (suc off))) h f = absurd (omega arith)
replaced-lt MemorySize.unsigned_halfword v old zero h f = omega arith
replaced-lt MemorySize.unsigned_halfword v old (suc zero) h f = omega arith
replaced-lt MemorySize.unsigned_halfword v old (suc (suc zero)) h f = omega arith
replaced-lt MemorySize.unsigned_halfword v old (suc (suc (suc off))) h f = absurd (omega arith)
replaced-lt MemorySize.word v old zero h f = omega arith
replaced-lt MemorySize.word v old (suc off) h f = absurd (omega arith)
replaced-lt MemorySize.doubleword v old zero h f = omega arith
replaced-lt MemorySize.doubleword v old (suc off) h f = absurd (omega arith)

-- A load from a word below 2 ^ 32, at an offset where it lies within the word, takes the bits at
-- its place, and copies the top one upwards if it is of a signed size.
pub alu_result-read_data :
    (i : Instruction) (w offset : ℕ)
    → w < 2 ^ 32
    → Fits i.memory_size offset
    → (read_data i w offset).alu_result
      ≡ extend i.memory_size (w / 2 ^ place i.memory_size offset % 2 ^ width i.memory_size)
unfolding read_data
alu_result-read_data i w offset h f = load_at i.memory_size w offset h f

-- A load from where a store of the same size has written, within a word below 2 ^ 32, gives the
-- value stored, cut to the size and extended: no bit of the old word shows.
pub read_data-get_write_data :
    (store load : Instruction) (old offset : ℕ)
    → load.memory_size ≡ store.memory_size
    → store.op3_value < 2 ^ 32
    → old < 2 ^ 32
    → Fits store.memory_size offset
    → (read_data load (get_write_data store old offset) offset).alu_result
      ≡ extend store.memory_size (store.op3_value % 2 ^ width store.memory_size)
unfolding read_data
read_data-get_write_data store load old offset e h₁ h₂ h₃ =
    ap (λ s. loaded s stored offset) e
    ∙ load_at store.memory_size stored offset stored_fits h₃
    ∙ ap (extend store.memory_size) (get_write_data-place store old offset h₁ h₂ h₃).0
  where
    stored : ℕ
    stored = get_write_data store old offset

    stored_fits : stored < 2 ^ 32
    stored_fits =
        rw (store_at store.memory_size store old offset refl h₁ h₂ h₃)
          (replaced-lt store.memory_size store.op3_value old offset h₂ h₃)
