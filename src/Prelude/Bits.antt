-- ===== src/Prelude/Bits.antt =====
-- `&`, `|` and `^` at variables, from the digit recursion that the native operations mean: masks as
-- remainders, fields as sums.
use Prim.Native.Nat.{
  ℕ, zero, suc, ◌+◌, ◌-◌, ◌*◌, ◌/◌, ◌%◌, ◌^◌, ◌≤◌, ◌<◌, min, max, digits, bitwise, bit_and, bit_or,
  bit_and-bitwise, bit_or-bitwise,
}
use mathlib.Core.Path.{◌≡◌, refl, ap, ◌∙◌}
use native.Mathlib.Omega.{arith}
use native.Mathlib.Nat.{le_refl, pow-suc, pow-succ', one-le-pow, div-div-eq-div-mul}

-- The fuel of the recursion does not matter as long as it is at least the first operand.
module _ (rest : ℕ → ℕ) (combine : ℕ → ℕ → ℕ) where
  same_digits :
      (x y k l : ℕ) → x ≤ k → x ≤ l → digits rest combine l x y ≡ digits rest combine k x y
  same_digits zero y zero zero enough enough' = refl
  same_digits zero y zero (suc l) enough enough' = refl
  same_digits zero y (suc k) zero enough enough' = refl
  same_digits zero y (suc k) (suc l) enough enough' = refl
  same_digits (suc x) y zero l enough enough' = absurd (omega arith)
  same_digits (suc x) y (suc k) zero enough enough' = absurd (omega arith)
  same_digits (suc x) y (suc k) (suc l) enough enough' =
      let above = same_digits (suc x / 2) (y / 2) k l (omega arith) (omega arith) in
      ap (λ t. t * 2 + combine (suc x % 2) (y % 2)) above

  lowest_digit :
      (x y : ℕ)
      → bitwise rest combine (suc x) y
        ≡ bitwise rest combine (suc x / 2) (y / 2) * 2 + combine (suc x % 2) (y % 2)
  lowest_digit x y =
      let half = suc x / 2 in
      ap (λ t. t * 2 + combine (suc x % 2) (y % 2))
        (same_digits half (y / 2) half x (le_refl half) (omega arith))

-- The lowest bit of `|` and `&` apart from the bits above it.
pub bit_or_step : (x y : ℕ) → bit_or x y ≡ bit_or (x / 2) (y / 2) * 2 + max (x % 2) (y % 2)
bit_or_step (suc x) y = simp bit_or-bitwise (lowest_digit (λ t. t) max x y)
bit_or_step zero y = simp bit_or-bitwise (omega arith)

pub bit_and_step : (x y : ℕ) → bit_and x y ≡ bit_and (x / 2) (y / 2) * 2 + min (x % 2) (y % 2)
bit_and_step (suc x) y = simp bit_and-bitwise (lowest_digit (λ t. 0) min x y)
bit_and_step zero y = simp bit_and-bitwise (omega arith)

-- Halving until nothing is left: a property of 0 that goes from the half to the whole holds always.
by_halves_below :
    (P : ℕ → Type 0) → P 0 → ((x : ℕ) → P (suc x / 2) → P (suc x)) → (bound x : ℕ) → x ≤ bound → P x
by_halves_below P base up bound zero below = base
by_halves_below P base up zero (suc x) below = absurd (omega arith)
by_halves_below P base up (suc bound) (suc x) below =
    up x (by_halves_below P base up bound (suc x / 2) (omega arith))

by_halves : (P : ℕ → Type 0) → P 0 → ((x : ℕ) → P (suc x / 2) → P (suc x)) → (x : ℕ) → P x
by_halves P base up x = by_halves_below P base up x x (le_refl x)

pub bit_or-zero : (x : ℕ) → bit_or x 0 ≡ x
bit_or-zero =
    by_halves (λ x. bit_or x 0 ≡ x) refl (λ x half. omega (arith, bit_or_step (suc x) 0, half))

pub zero-bit_or : (x : ℕ) → bit_or 0 x ≡ x
zero-bit_or =
    by_halves (λ x. bit_or 0 x ≡ x) refl (λ x half. omega (arith, bit_or_step 0 (suc x), half))

pub bit_and-zero : (x : ℕ) → bit_and x 0 ≡ 0
bit_and-zero =
    by_halves (λ x. bit_and x 0 ≡ 0) refl (λ x half. omega (arith, bit_and_step (suc x) 0, half))

double_field : (hi w : ℕ) → hi * 2 ^ suc w ≡ 2 * (hi * 2 ^ w)
double_field hi w = let power = pow-suc 2 w in omega (arith, ap (λ (x : ℕ). hi * x) power)

-- A field placed above the bits of another is added to it.
pub bit_or_fields : (w hi lo : ℕ) → lo < 2 ^ w → bit_or (hi * 2 ^ w) lo ≡ hi * 2 ^ w + lo
bit_or_fields zero hi lo small = ground (arith, bit_or-zero hi)
bit_or_fields (suc w) hi lo small = ground (
  arith,
  bit_or_step (hi * 2 ^ suc w) lo,
  double_field hi w,
  pow-suc 2 w,
  bit_or_fields w hi (lo / 2) (omega (arith, pow-suc 2 w)),
)

bit_and_low : (w hi lo : ℕ) → lo < 2 ^ w → bit_and (hi * 2 ^ w + lo) (2 ^ w - 1) ≡ lo
bit_and_low zero hi lo small = rw bit_and-zero (omega arith)
bit_and_low (suc w) hi lo small = ground (
  arith,
  bit_and_step (hi * 2 ^ suc w + lo) (2 ^ suc w - 1),
  double_field hi w,
  pow-suc 2 w,
  bit_and_low w hi (lo / 2) (omega (arith, pow-suc 2 w)),
)

-- A mask of `k` ones is the remainder by `2 ^ k`.
pub bit_and_mask : (k a : ℕ) → bit_and a (2 ^ k - 1) ≡ a % 2 ^ k
bit_and_mask k a = ground (arith, one-le-pow k 2, bit_and_low k (a / 2 ^ k) (a % 2 ^ k))

bit_and_double : (a x : ℕ) → bit_and a (2 * x) ≡ bit_and (a / 2) x * 2
bit_and_double a x = ground (arith, bit_and_step a (2 * x))

-- A mask moved up by `s` bits masks the word moved down by `s`.
pub bit_and_shift : (s a m : ℕ) → bit_and a (m * 2 ^ s) ≡ bit_and (a / 2 ^ s) m * 2 ^ s
bit_and_shift zero a m = ground arith
bit_and_shift (suc s) a m = ground (
  arith,
  double_field m s,
  pow-succ' 2 s,
  bit_and_double a (m * 2 ^ s),
  bit_and_shift s (a / 2) m,
  div-div-eq-div-mul a 2 (2 ^ s),
  double_field (bit_and (a / 2 ^ suc s) m) s,
)

-- The `k` bits of a word from bit `s` on.
pub bit_and_field : (s k a : ℕ) → bit_and a ((2 ^ k - 1) * 2 ^ s) ≡ a / 2 ^ s % 2 ^ k * 2 ^ s
bit_and_field s k a =
    bit_and_shift s a (2 ^ k - 1) ∙ ap (λ t. t * 2 ^ s) (bit_and_mask k (a / 2 ^ s))

-- `&` and `|` work on the bits above `k` and below `k` apart.
pub bit_and_split :
    (k p q h l : ℕ)
    → q < 2 ^ k
    → l < 2 ^ k
    → bit_and (p * 2 ^ k + q) (h * 2 ^ k + l) ≡ bit_and p h * 2 ^ k + bit_and q l
bit_and_split zero p zero h zero small small' = ground (arith, bit_and-zero 0)
bit_and_split zero p zero h (suc l) small small' = absurd (omega arith)
bit_and_split zero p (suc q) h l small small' = absurd (omega arith)
bit_and_split (suc k) p q h l small small' = ground (
  arith,
  bit_and_step (p * 2 ^ suc k + q) (h * 2 ^ suc k + l),
  bit_and_step q l,
  double_field p k,
  double_field h k,
  double_field (bit_and p h) k,
  bit_and_split k p (q / 2) h (l / 2) (omega (arith, pow-suc 2 k)) (omega (arith, pow-suc 2 k)),
)

pub bit_or_split :
    (k p q h l : ℕ)
    → q < 2 ^ k
    → l < 2 ^ k
    → bit_or (p * 2 ^ k + q) (h * 2 ^ k + l) ≡ bit_or p h * 2 ^ k + bit_or q l
bit_or_split zero p zero h zero small small' = ground (arith, bit_or-zero 0)
bit_or_split zero p zero h (suc l) small small' = absurd (omega arith)
bit_or_split zero p (suc q) h l small small' = absurd (omega arith)
bit_or_split (suc k) p q h l small small' = ground (
  arith,
  bit_or_step (p * 2 ^ suc k + q) (h * 2 ^ suc k + l),
  bit_or_step q l,
  double_field p k,
  double_field h k,
  double_field (bit_or p h) k,
  bit_or_split k p (q / 2) h (l / 2) (omega (arith, pow-suc 2 k)) (omega (arith, pow-suc 2 k)),
)

-- `|` takes a field out of the low bits as well.
pub bit_or_comm_fields : (k q r : ℕ) → r < 2 ^ k → bit_or r (q * 2 ^ k) ≡ q * 2 ^ k + r
bit_or_comm_fields k q r small = ground (
  arith,
  bit_or_split k 0 r q 0 small (one-le-pow k 2 (omega arith)),
  bit_or-zero r,
  zero-bit_or q,
)

pub zero-bit_and : (x : ℕ) → bit_and 0 x ≡ 0
zero-bit_and x = simp bit_and-bitwise (omega arith)
