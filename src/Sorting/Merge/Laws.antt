-- ===== src/Sorting/Merge/Laws.antt =====
-- Why `MergeS` of soft/mergesort.c sorts, and that its recursion ends.
use pret_iss.Prelude.{
  ℕ, zero, suc, ◌+◌, ◌-◌, ◌/◌, ◌≤◌, ◌<◌, ◌==◌, true, false, ◌≡◌, ◌≢◌, ◌⊎◌, inl, inr, refl, ap, sym,
  ◌∙◌, List, [], ◌∷◌, length, Option, some, arith, Bool-cases, ==_iff,
}
use mathlib.Core.Path.{subst}
use mathlib.Core.List.{◌++◌}
use pret_iss.Sorting.Orders.{IsSorted, count, SameCounts, around, count-append, length-append}
use pret_iss.Sorting.Merge.{combine_ar, and_then, merge_sort}
use pret_iss.Sorting.Merge.Combines.{combine_ar-Merges}

-- The result is an array in which the elements `g`, between `p` and `s`, are ascending.
record Sorts (p g s : List ℕ) (r : Option (List ℕ)) : Type 0 where
  run : List ℕ
  result : r ≡ some (around p (run ++ s))
  sorted : IsSorted run
  counts : (v : ℕ) → count v run ≡ count v g
  size : length run ≡ length g

-- A run behind the place.
abbrev onto : List ℕ → List ℕ → List ℕ
onto [] p = p
onto (a ∷ u) p = onto u (a ∷ p)

around-onto : (u p s : List ℕ) → around (onto u p) s ≡ around p (u ++ s)
around-onto [] p s = refl
around-onto (a ∷ u) p s = around-onto u (a ∷ p) s

length-onto : (u p : List ℕ) → length (onto u p) ≡ length p + length u
length-onto [] p = omega arith
length-onto (a ∷ u) p = omega (arith, length-onto u (a ∷ p))

append_assoc : (u w s : List ℕ) → (u ++ w) ++ s ≡ u ++ (w ++ s)
append_assoc [] w s = refl
append_assoc (a ∷ u) w s = ap (◌∷◌ a) (append_assoc u w s)

split_at :
    (n : ℕ) (g : List ℕ)
    → n ≤ length g
    → (u : List ℕ) × (w : List ℕ) × (g ≡ u ++ w) × (length u ≡ n)
split_at zero g h = ([], g, refl, refl)
split_at (suc n) [] h = absurd (omega arith)
split_at (suc n) (a ∷ g) h =
    let (u, w, e, k) = split_at n g (omega arith) in (a ∷ u, w, ap (◌∷◌ a) e, ap suc k)

merge_sort-one :
    (fuel left right pivot : ℕ) (ar : List ℕ)
    → left ≡ right
    → merge_sort (suc fuel) ar left right pivot ≡ some ar
unfolding merge_sort
merge_sort-one fuel left right pivot ar e =
    let same : (left == right) ≡ true = ground arith in rw same refl

merge_sort-halves :
    (fuel left right pivot : ℕ) (ar : List ℕ)
    → left ≢ right
    → merge_sort (suc fuel) ar left right pivot
      ≡ and_then (merge_sort fuel ar left pivot ((left + pivot) / 2)) (λ ar'.
        and_then
          (merge_sort fuel ar' (pivot + 1) right ((pivot + right + 1) / 2))
          (λ ar''. combine_ar ar'' left right pivot))
unfolding merge_sort
merge_sort-halves fuel left right pivot ar ne =
    let different : (left == right) ≡ false = ground (arith, ne) in rw different refl

one-Sorts : (p g s : List ℕ) → length g ≡ 1 → Sorts p g s (some (around p (g ++ s)))
one-Sorts p [] s h = absurd (omega arith)
one-Sorts p (a ∷ b ∷ g) s h = absurd (omega arith)
one-Sorts p (a ∷ []) s h = record {
  run = a ∷ [];
  result = refl;
  sorted = (tt, tt);
  counts = λ v. refl;
  size = refl;
}

plus_lem : (a b : ℕ) → a + 1 + b ≡ a + b + 1
plus_lem a b = omega arith

append-nothing : (u : List ℕ) → u ++ [] ≡ u
append-nothing [] = refl
append-nothing (a ∷ u) = ap (◌∷◌ a) (append-nothing u)

-- The halves are sorted one after the other, and then combined.
halves-Sorts :
    (fuel left right pivot : ℕ) (p u w s : List ℕ)
    (first : Sorts p u
      (w ++ s)
      (merge_sort fuel (around p (u ++ (w ++ s))) left pivot ((left + pivot) / 2)))
    (second : Sorts (onto first.run p) w s (
      merge_sort fuel
        (around (onto first.run p) (w ++ s))
        (pivot + 1)
        right
        ((pivot + right + 1) / 2)))
    → left ≡ length p
    → length u ≡ pivot + 1 - left
    → length w ≡ right - pivot
    → left ≤ pivot
    → pivot < right
    → Sorts p (u ++ w) s (merge_sort (suc fuel) (around p ((u ++ w) ++ s)) left right pivot)
halves-Sorts fuel left right pivot p u w s first second el eu ew lp lt =
    let both =
      combine_ar-Merges left right pivot p first.run second.run s el (omega (arith, first.size, eu))
        (omega (arith, second.size, ew)) first.sorted second.sorted in
    let again = λ (ar : List ℕ).
      and_then (merge_sort fuel ar (pivot + 1) right ((pivot + right + 1) / 2))
        (λ ar'. combine_ar ar' left right pivot) in
    record {
      run = both.run;
      result =
          merge_sort-halves fuel left right pivot (around p ((u ++ w) ++ s)) (λ e. omega (arith, e))
          ∙ ap
              (λ ar. and_then (merge_sort fuel (around p ar) left pivot ((left + pivot) / 2)) again)
              (append_assoc u w s)
          ∙ ap (λ r. and_then r again) first.result
          ∙ ap again (sym (around-onto first.run p (w ++ s)))
          ∙ ap (λ r. and_then r (λ ar'. combine_ar ar' left right pivot)) second.result
          ∙ ap (λ ar. combine_ar ar left right pivot) (around-onto first.run p (second.run ++ s))
          ∙ both.result;
      sorted = both.sorted;
      counts =
          λ v. omega (arith, both.counts v, first.counts v, second.counts v, count-append v u w);
      size = omega (arith, both.size, first.size, second.size, length-append u w);
    }

middle_lem : (l r : ℕ) → l ≤ r → (l ≡ r) ⊎ ((l + r) / 2 < r)
middle_lem l r h = elim (Bool-cases (l == r)) [
  | inl e ↦ inl ((==_iff l r).0 e)
  | inr e ↦ inr (ground arith)
]

merge_sort-Sorts :
    (fuel left right pivot : ℕ) (p g s : List ℕ)
    → left ≡ length p
    → right + 1 ≡ left + length g
    → left ≤ pivot
    → (left ≡ right) ⊎ (pivot < right)
    → 0 < length g
    → length g ≤ fuel
    → Sorts p g s (merge_sort fuel (around p (g ++ s)) left right pivot)
merge_sort-Sorts zero left right pivot p g s el er lp pr pos h = absurd (omega arith)
merge_sort-Sorts (suc fuel) left right pivot p g s el er lp (inl e) pos h =
    subst (Sorts p g s) (sym (merge_sort-one fuel left right pivot (around p (g ++ s)) e))
      (one-Sorts p g s (omega (arith, e, er)))
merge_sort-Sorts (suc fuel) left right pivot p g s el er lp (inr lt) pos h =
    let (u, w, e, k) = split_at (pivot + 1 - left) g (omega (arith, er)) in
    let lw : length w ≡ right - pivot = omega (arith, er, k, ap length e, length-append u w) in
    let first =
      merge_sort-Sorts fuel left pivot ((left + pivot) / 2) p u (w ++ s) el (omega (arith, k))
        (omega arith) (middle_lem left pivot lp) (omega (arith, k)) (omega (arith, k, er)) in
    let second =
      merge_sort-Sorts fuel (pivot + 1) right ((pivot + right + 1) / 2) (onto first.run p) w s
        (omega (arith, length-onto first.run p, first.size, k, el)) (omega (arith, lw))
        (omega arith)
        (subst (λ n. (pivot + 1 ≡ right) ⊎ (n / 2 < right)) (plus_lem pivot right)
          (middle_lem (pivot + 1) right (omega arith)))
        (omega (arith, lw)) (omega (arith, lw, er)) in
    subst (λ g'. Sorts p g' s (merge_sort (suc fuel) (around p (g' ++ s)) left right pivot)) (sym e)
      (halves-Sorts fuel left right pivot p u w s first second el k lw lp lt)

-- `MergeS` of a whole array of `n + 1` elements, with any pivot before the last element, or 0 if there is
-- only one: with a fuel of as many calls as there are elements it returns the array ascending, as signed
-- numbers, with the same elements.
pub merge_sort-IsSorted :
    (l : List ℕ) (n pivot : ℕ)
    → length l ≡ n + 1
    → (0 ≡ n) ⊎ (pivot < n)
    → (r : List ℕ) × (merge_sort (n + 1) l 0 n pivot ≡ some r) × IsSorted r × SameCounts r l
merge_sort-IsSorted l n pivot e h =
    let sorts =
      merge_sort-Sorts (n + 1) 0 n pivot [] l [] refl (omega (arith, e)) (omega arith) h
        (omega (arith, e)) (omega (arith, e)) in
    (
      sorts.run,
      ap (λ ar. merge_sort (n + 1) ar 0 n pivot) (sym (append-nothing l))
          ∙ sorts.result
          ∙ ap some (append-nothing sorts.run),
      sorts.sorted,
      sorts.counts,
    )
