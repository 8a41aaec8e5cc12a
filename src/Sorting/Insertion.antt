-- ===== src/Sorting/Insertion.antt =====
-- `insertionSort` of soft/insertsort.c.
pub mod Laws
use pret_iss.Prelude.{
  ℕ, zero, suc, ◌+◌, ◌-◌, ◌==◌, ltb, if◌then◌else◌, Bool, true, false, List, get_or, set,
}
use pret_iss.Sorting.Orders.{gt}

-- The `while` loop from `j` down, and the write after it.
unfoldable pub shift_down : ℕ → ℕ → List ℕ → List ℕ
shift_down zero index numbers = set numbers 0 index
shift_down (suc j) index numbers =
    let before = get_or numbers j 0 in
    let rest = shift_down j index (set numbers (suc j) before) in
    if gt before index then rest else set numbers (suc j) index

-- The `for` loop, for `n` more elements from element `i` on.
unfoldable pub insert_from : ℕ → ℕ → List ℕ → List ℕ
unfolding shift_down
insert_from zero i numbers = numbers
insert_from (suc n) i numbers = insert_from n (i + 1) (shift_down i (get_or numbers i 0) numbers)

unfoldable pub insertion_sort : List ℕ → ℕ → List ℕ
insertion_sort numbers array_size = insert_from (array_size - 1) 1 numbers
