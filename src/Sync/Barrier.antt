-- ===== src/Sync/Barrier.antt =====
-- The barrier of one row: who may pass, over any sequence of calls.
use pret_iss.Prelude.{
  ℕ, zero, suc, ◌-◌, ◌/◌, ◌%◌, ◌^◌, ◌<◌, ◌==◌, if◌then◌else◌, Bool, true, false, ◌||◌, ◌≡◌, ◌↔◌,
  refl, ap, ◌∙◌, List, [], ◌∷◌, arith, bit_and, not32,
}
use native.Mathlib.Nat.{pow-suc, one-le-pow}
use pret_iss.Prelude.Bits.{bit_and_step, zero-bit_and}
use pret_iss.Sync.{SyncEntry, arrive}

-- The bit for a thread in a mask.
abbrev pub bit : ℕ → ℕ → ℕ
bit zero n = n % 2
bit (suc k) n = bit k (n / 2)

bit-bit_and : (k a b : ℕ) → bit k (bit_and a b) ≡ (if bit k a == 1 then bit k b else 0)
bit-bit_and zero a b = ground (arith, bit_and_step a b)
bit-bit_and (suc k) a b = ground (arith, bit_and_step a b, bit-bit_and k (a / 2) (b / 2))

bit-ones : (n k : ℕ) → k < n → bit k (2 ^ n - 1) ≡ 1
bit-ones zero k h = absurd (omega arith)
bit-ones (suc n) zero h = ground (arith, pow-suc 2 n, one-le-pow n 2)
bit-ones (suc n) (suc k) h =
    ap (bit k) (omega (arith, pow-suc 2 n, one-le-pow n 2 (omega arith)))
    ∙ bit-ones n k (omega arith)

power-lt : (i n : ℕ) → i < n → 2 ^ i < 2 ^ n
power-lt zero zero h = absurd (omega arith)
power-lt zero (suc n) h = omega (arith, pow-suc 2 n, one-le-pow n 2 (omega arith))
power-lt (suc i) zero h = absurd (omega arith)
power-lt (suc i) (suc n) h = omega (arith, pow-suc 2 n, pow-suc 2 i, power-lt i n (omega arith))

-- A mask with the bit of one thread clear.
bit-hole : (n i k : ℕ) → i < n → k < n → bit k (2 ^ n - 1 - 2 ^ i) ≡ (if k == i then 0 else 1)
bit-hole zero i k h₁ h₂ = absurd (omega arith)
bit-hole (suc n) zero zero h₁ h₂ = ground (arith, pow-suc 2 n, one-le-pow n 2)
bit-hole (suc n) zero (suc k) h₁ h₂ =
    ap (bit k) (omega (arith, pow-suc 2 n, one-le-pow n 2 (omega arith)))
    ∙ bit-ones n k (omega arith)
    ∙ ground arith
bit-hole (suc n) (suc i) zero h₁ h₂ =
    ground (arith, pow-suc 2 n, pow-suc 2 i, power-lt i n (omega arith))
bit-hole (suc n) (suc i) (suc k) h₁ h₂ =
    ap (bit k) (omega (arith, pow-suc 2 n, pow-suc 2 i, power-lt i n (omega arith)))
    ∙ bit-hole n i k (omega arith) (omega arith)
    ∙ ground arith

bit-lt : (k n : ℕ) → bit k n < 2
bit-lt zero n = omega arith
bit-lt (suc k) n = bit-lt k (n / 2)

-- `waiting &= ~(1 << id)` clears the bit of the thread and keeps the others.
bit-cleared :
    (w id k : ℕ)
    → id < 32
    → k < 32
    → bit k (bit_and w (not32 (2 ^ id))) ≡ (if k == id then 0 else bit k w)
bit-cleared w id k h₁ h₂ =
    ground (arith, bit-bit_and k w (not32 (2 ^ id)), bit-hole 32 id k h₁ h₂, bit-lt k w)

-- A word with no bit set is 0.
no_bits : (n w : ℕ) → w < 2 ^ n → ((k : ℕ) → k < n → bit k w ≡ 0) → w ≡ 0
no_bits zero w h b = omega arith
no_bits (suc n) w h b =
    let upper = no_bits n (w / 2) (omega (arith, pow-suc 2 n)) (λ k lt. b (suc k) (omega arith)) in
    omega (arith, b 0 (omega arith), upper)

bit-zero : (k : ℕ) → bit k 0 ≡ 0
bit-zero zero = refl
bit-zero (suc k) = bit-zero k

-- The row after the calls of the threads in the list, the last call first.
unfoldable pub calls : SyncEntry → List ℕ → SyncEntry
unfolding arrive
calls e [] = e
calls e (id ∷ ids) = (arrive (calls e ids) id).1

abbrev pub has_called : List ℕ → ℕ → Bool
has_called [] k = false
has_called (id ∷ ids) k = k == id || has_called ids k

-- Thread numbers that fit a mask.
abbrev pub AreThreads : List ℕ → Type 0
AreThreads [] = Unit {0}
AreThreads (id ∷ ids) = (id < 16) × AreThreads ids

-- A row as it is opened.
abbrev pub opened_for : ℕ → SyncEntry
opened_for mask = record { mask = mask; waiting = mask; passed = 0 }

waiting_bits :
    (mask : ℕ) (ids : List ℕ) (k : ℕ)
    → AreThreads ids
    → k < 16
    → bit k (calls (opened_for mask) ids).waiting ≡ (if has_called ids k then 0 else bit k mask)
unfolding calls
waiting_bits mask [] k h lt = refl
waiting_bits mask (id ∷ ids) k h lt =
    let w = (calls (opened_for mask) ids).waiting in
    ground (
      arith,
      waiting_bits mask ids k h.1 lt,
      bit-cleared w id k (omega arith) (omega arith),
      bit-zero k,
    )

bit_and-lt : (n a b : ℕ) → a < 2 ^ n → bit_and a b < 2 ^ n
bit_and-lt zero zero b h = omega (arith, zero-bit_and b)
bit_and-lt zero (suc a) b h = absurd (omega arith)
bit_and-lt (suc n) a b h = omega (
  arith,
  pow-suc 2 n,
  bit_and_step a b,
  bit_and-lt n (a / 2) (b / 2) (omega (arith, pow-suc 2 n)),
)

waiting-lt :
    (mask : ℕ) (ids : List ℕ) → mask < 2 ^ 16 → (calls (opened_for mask) ids).waiting < 2 ^ 16
unfolding calls
waiting-lt mask [] h = h
waiting-lt mask (id ∷ ids) h =
    let w = (calls (opened_for mask) ids).waiting in
    ground (arith, waiting-lt mask ids h, bit_and-lt 16 w (not32 (2 ^ id)))

passes_when_none_waits : (e : SyncEntry) (id : ℕ) → (arrive e id).0 ≡ (e.waiting == 0)
unfolding arrive
passes_when_none_waits e id = ground arith

-- Every thread of the mask has called.
abbrev pub AllCalled : ℕ → List ℕ → Type 0
AllCalled mask ids = (k : ℕ) → k < 16 → bit k mask ≡ 1 → has_called ids k ≡ true

-- For a mask of 16 bits and thread numbers below 16, a thread passes the barrier exactly when every
-- thread of the mask has called since the row was opened, whatever the order of the calls and
-- however often each thread called.
pub calls-arrive :
    (mask : ℕ) (ids : List ℕ) (id : ℕ)
    → mask < 2 ^ 16
    → AreThreads ids
    → ((arrive (calls (opened_for mask) ids) id).0 ≡ true) ↔ AllCalled mask ids
calls-arrive mask ids id h are =
    let e = calls (opened_for mask) ids in
    let passes = passes_when_none_waits e id in
    (
      λ through k lt has.
          ground
            (arith, bit-zero k, waiting_bits mask ids k are lt, ap (bit k) (none_waits through)),
      λ all.
          passes
          ∙ (ground (
            arith,
            no_bits 16 e.waiting (waiting-lt mask ids h)
                (λ k lt. ground (arith, waiting_bits mask ids k are lt, bit-lt k mask, all k lt)),
          )),
    )
  where
    none_waits :
        (arrive (calls (opened_for mask) ids) id).0 ≡ true
        → (calls (opened_for mask) ids).waiting ≡ 0
    none_waits through = ground (arith, passes_when_none_waits (calls (opened_for mask) ids) id)
