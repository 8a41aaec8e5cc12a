-- ===== src/Sorting/Merge.antt =====
-- `ShiftTo`, `CombineAr` and `MergeS` of soft/mergesort.c. The recursion and the loop of `CombineAr` take
-- fuel, and nothing is the result when it runs out.
pub mod Shifts
pub mod Combines
pub mod Laws
use pret_iss.Prelude.{
  ℕ, zero, suc, ◌+◌, ◌-◌, ◌/◌, ◌==◌, leb, if◌then◌else◌, Bool, ◌||◌, List, get_or, set, Option,
  none, some,
}
use pret_iss.Sorting.Orders.{key}

-- The loop of `ShiftTo` from `iDest + n` down to `iDest`.
unfoldable pub shift_up : ℕ → ℕ → List ℕ → List ℕ
shift_up zero dest ar = ar
shift_up (suc n) dest ar = shift_up n dest (set ar (dest + suc n) (get_or ar (dest + n) 0))

unfoldable pub shift_to : List ℕ → ℕ → ℕ → List ℕ
unfolding shift_up
shift_to ar dest src = set (shift_up (src - dest) dest ar) dest (get_or ar src 0)

-- The loop of `CombineAr`.
unfoldable pub combine : ℕ → ℕ → ℕ → ℕ → List ℕ → Option (List ℕ)
unfolding shift_to
combine zero right i j ar = none
combine (suc fuel) right i j ar =
    let moves = leb (key (get_or ar j 0)) (key (get_or ar i 0)) in
    let rest =
      combine fuel right (i + 1) (if moves then j + 1 else j)
        (if moves then shift_to ar i j else ar) in
    if j == right + 1 || i == j then some ar else rest

unfoldable pub combine_ar : List ℕ → ℕ → ℕ → ℕ → Option (List ℕ)
combine_ar ar left right pivot = combine (right + 2 - left) right left (pivot + 1) ar

abbrev pub and_then : Option (List ℕ) → (List ℕ → Option (List ℕ)) → Option (List ℕ)
and_then none f = none
and_then (some ar) f = f ar

unfoldable pub merge_sort : ℕ → List ℕ → ℕ → ℕ → ℕ → Option (List ℕ)
merge_sort zero ar left right pivot = none
merge_sort (suc fuel) ar left right pivot =
    let halves = and_then (merge_sort fuel ar left pivot ((left + pivot) / 2)) (λ ar'.
      and_then (merge_sort fuel ar' (pivot + 1) right ((pivot + right + 1) / 2))
        (λ ar''. combine_ar ar'' left right pivot)) in
    if left == right then some ar else halves
