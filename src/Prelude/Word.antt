-- ===== src/Prelude/Word.antt =====
-- The machine words of C. An `int` or a `uint32_t` is its bit pattern, a number below 2 ^ 32, and
-- a `short` its pattern below 2 ^ 16; the operations wrap as the processor's do.
use Prim.Native.Nat.{ℕ, ◌+◌, ◌-◌, ◌*◌, ◌/◌, ◌%◌, ◌^◌}
use mathlib.Core.Bool.{Bool}
use pret_iss.Prelude.Tests.{leb, if◌then◌else◌}

abbrev pub u32 : ℕ → ℕ
u32 n = n % 2 ^ 32

abbrev pub u16 : ℕ → ℕ
u16 n = n % 2 ^ 16

abbrev pub u8 : ℕ → ℕ
u8 n = n % 2 ^ 8

abbrev pub add32 : ℕ → ℕ → ℕ
add32 a b = u32 (a + b)

abbrev pub sub32 : ℕ → ℕ → ℕ
sub32 a b = u32 (a + 2 ^ 32 - b)

-- `~a`
abbrev pub not32 : ℕ → ℕ
not32 a = 2 ^ 32 - 1 - a

-- `a << k` kept to 32 bits
abbrev pub shl32 : ℕ → ℕ → ℕ
shl32 a k = u32 (a * 2 ^ k)

-- `a >> k` of an unsigned word
abbrev pub shr : ℕ → ℕ → ℕ
shr a k = a / 2 ^ k

-- the sign bit of an `int`
abbrev pub is_neg : ℕ → Bool
is_neg a = leb (2 ^ 31) a

-- `a >> k` of an `int`, which copies the sign bit
abbrev pub sar32 : ℕ → ℕ → ℕ
sar32 a k = if is_neg a then 2 ^ 32 - 1 - (2 ^ 32 - 1 - a) / 2 ^ k else a / 2 ^ k

-- a `bool` in arithmetic
abbrev pub of_bool : Bool → ℕ
of_bool b = if b then 1 else 0
