-- ===== src/Sorting/Bubble.antt =====
-- The loops of soft/bubsort.c; the array and its size are arguments.
pub mod Laws
use pret_iss.Prelude.{ℕ, zero, suc, ◌+◌, ◌-◌, ltb, if◌then◌else◌, Bool, List, get_or, set}
use pret_iss.Sorting.Orders.{gt}

-- The body of the inner loop.
unfoldable pub compare_swap : ℕ → List ℕ → List ℕ
compare_swap y iarray =
    let holder = get_or iarray (y + 1) 0 in
    if gt (get_or iarray y 0) holder
    then set (set iarray (y + 1) (get_or iarray y 0)) y holder
    else iarray

-- The inner loop, for `n` more places from `y` on.
unfoldable pub pass : ℕ → ℕ → List ℕ → List ℕ
unfolding compare_swap
pass zero y iarray = iarray
pass (suc n) y iarray = pass n (y + 1) (compare_swap y iarray)

-- The outer loop, for `n` more rounds.
unfoldable pub passes : ℕ → ℕ → List ℕ → List ℕ
passes zero array_size iarray = iarray
passes (suc n) array_size iarray = passes n array_size (pass (array_size - 1) 0 iarray)

unfoldable pub bubble_sort : List ℕ → ℕ → List ℕ
bubble_sort iarray array_size = passes array_size array_size iarray
