-- ===== src/Sync/Count.antt =====
-- How many threads pass before a row is free again.
use pret_iss.Prelude.{
  ℕ, zero, suc, ◌+◌, ◌/◌, ◌%◌, ◌≤◌, ◌<◌, ◌==◌, ==_iff, if◌then◌else◌, Bool, true, ◌&&◌, ◌≡◌, refl,
  sym, ap, List, [], ◌∷◌, length, arith, Bool-cases, inl, inr,
}
use pret_iss.Sync.{SyncEntry, bit_count, arrive}
use pret_iss.Sync.Barrier.{calls}

-- The number of bits set among the lowest `n`.
abbrev pub ones : ℕ → ℕ → ℕ
ones zero w = 0
ones (suc n) w = w % 2 + ones n (w / 2)

holds_below : ℕ → (ℕ → Bool) → Bool
holds_below zero test = true
holds_below (suc n) test = test n && holds_below n test

holds_below_lem :
    (n : ℕ) (test : ℕ → Bool) → holds_below n test ≡ true → (k : ℕ) → k < n → test k ≡ true
unfolding holds_below
holds_below_lem zero test h k lt = absurd (omega arith)
holds_below_lem (suc n) test h k lt = elim (Bool-cases (k == n)) [
  | inl e ↦ ground (arith, ap test (sym ((==_iff k n).0 e)))
  | inr ne ↦ holds_below_lem n test (ground arith) k (ground arith)
]

bit_count_lem : (mask : ℕ) → mask < 64 → bit_count mask ≡ ones 6 mask
unfolding holds_below bit_count
bit_count_lem mask h =
    (==_iff (bit_count mask) (ones 6 mask)).0
      (holds_below_lem 64 (λ n. bit_count n == ones 6 n) refl mask h)

-- A row for which no thread waits any more and that no thread has passed yet.
abbrev pub all_here : ℕ → SyncEntry
all_here mask = record { mask = mask; waiting = 0; passed = 0 }

ones-le : (n w : ℕ) → ones n w ≤ n
ones-le zero w = omega arith
ones-le (suc n) w = omega (arith, ones-le n (w / 2))

passed_row :
    (mask n : ℕ) (ids : List ℕ)
    → bit_count mask ≡ n
    → n ≤ 6
    → length ids < n
    → ((calls (all_here mask) ids).mask ≡ mask)
      × ((calls (all_here mask) ids).waiting ≡ 0)
      × ((calls (all_here mask) ids).passed ≡ length ids)
unfolding calls arrive
passed_row mask n [] e six lt = (refl, refl, refl)
passed_row mask n (id ∷ ids) e six lt =
    let before = passed_row mask n ids e six (omega arith) in
    ground (arith, before, ap bit_count before.0)

one_pass :
    (mask n : ℕ) (ids : List ℕ) (id : ℕ)
    → bit_count mask ≡ n
    → n ≤ 6
    → length ids < n
    → ((calls (all_here mask) ids).mask ≡ mask)
      × ((arrive (calls (all_here mask) ids) id).0 ≡ true)
      × ((arrive (calls (all_here mask) ids) id).1.mask
          ≡ (if suc (length ids) == n then 0 else mask))
unfolding arrive
one_pass mask n ids id e six lt =
    let before = passed_row mask n ids e six lt in ground (arith, before, ap bit_count before.0)

-- For a mask of the six threads whose barrier is open: a thread that passes leaves the row to the mask
-- as long as fewer threads than the mask names have passed before it, and the call of the last one
-- frees the row. The count of the mask, computed by a trick with octal constants, is the number of its
-- bits.
pub arrive-frees :
    (mask : ℕ) (ids : List ℕ) (id : ℕ)
    → mask < 64
    → length ids < ones 6 mask
    → ((calls (all_here mask) ids).mask ≡ mask)
      × ((arrive (calls (all_here mask) ids) id).0 ≡ true)
      × ((arrive (calls (all_here mask) ids) id).1.mask
          ≡ (if suc (length ids) == ones 6 mask then 0 else mask))
arrive-frees mask ids id h lt =
    one_pass mask (ones 6 mask) ids id (bit_count_lem mask h) (ones-le 6 mask) lt
