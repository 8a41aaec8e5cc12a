-- ===== src/Sorting/Merge/Combines.antt =====
-- What `CombineAr` of soft/mergesort.c does with two ascending runs that lie side by side.
use pret_iss.Prelude.{
  ℕ, zero, suc, ◌+◌, ◌-◌, ◌<◌, ◌==◌, leb, true, false, ◌||◌, ◌≡◌, refl, ap, ◌∙◌, List, [], ◌∷◌,
  length, get_or, Option, some, arith, Bool-cases, inl, inr,
}
use mathlib.Core.Path.{ap₂}
use mathlib.Core.List.{◌++◌}
use pret_iss.Sorting.Orders.{key, AllGe, IsSorted, count, AllGe-trans, around, get_or-place}
use pret_iss.Sorting.Merge.{shift_to, combine, combine_ar}
use pret_iss.Sorting.Merge.Shifts.{get_or-run, shift_to-around}

-- The result is an array in which the runs `u` and `w`, between `p` and `s`, have become one.
pub record Merges (p u w s : List ℕ) (r : Option (List ℕ)) : Type 0 where
  pub run : List ℕ
  pub result : r ≡ some (around p (run ++ s))
  pub sorted : IsSorted run
  pub counts : (v : ℕ) → count v run ≡ count v u + count v w
  pub size : length run ≡ length u + length w
  pub above : (x : ℕ) → AllGe x u → AllGe x w → AllGe x run

combine-stop :
    (fuel right i j : ℕ) (ar : List ℕ)
    → (j == right + 1 || i == j) ≡ true
    → combine (suc fuel) right i j ar ≡ some ar
unfolding combine
combine-stop fuel right i j ar h = rw h refl

combine-move :
    (fuel right i j : ℕ) (ar : List ℕ)
    → (j == right + 1 || i == j) ≡ false
    → leb (key (get_or ar j 0)) (key (get_or ar i 0)) ≡ true
    → combine (suc fuel) right i j ar ≡ combine fuel right (i + 1) (j + 1) (shift_to ar i j)
unfolding combine
combine-move fuel right i j ar h k = rw (h, k) refl

combine-skip :
    (fuel right i j : ℕ) (ar : List ℕ)
    → (j == right + 1 || i == j) ≡ false
    → leb (key (get_or ar j 0)) (key (get_or ar i 0)) ≡ false
    → combine (suc fuel) right i j ar ≡ combine fuel right (i + 1) j ar
unfolding combine
combine-skip fuel right i j ar h k = rw (h, k) refl

pub combine-Merges :
    (fuel right i j : ℕ) (p u w s : List ℕ)
    → i ≡ length p
    → j ≡ i + length u
    → right + 1 ≡ j + length w
    → length u + length w < fuel
    → IsSorted u
    → IsSorted w
    → Merges p u w s (combine fuel right i j (around p (u ++ (w ++ s))))
unfolding count
combine-Merges zero right i j p u w s ei ej er f hu hw = absurd (omega arith)
combine-Merges (suc fuel) right i j p [] w s ei ej er f hu hw = record {
  run = w;
  result = combine-stop fuel right i j (around p (w ++ s)) (ground (arith, ej));
  sorted = hw;
  counts = λ v. omega arith;
  size = omega arith;
  above = λ x k l. l;
}
combine-Merges (suc fuel) right i j p (a ∷ u) [] s ei ej er f hu hw = record {
  run = a ∷ u;
  result = combine-stop fuel right i j (around p ((a ∷ u) ++ s)) (ground (arith, er));
  sorted = hu;
  counts = λ v. omega arith;
  size = omega arith;
  above = λ x k l. k;
}
combine-Merges (suc fuel) right i j p (a ∷ u) (b ∷ w) s ei ej er f hu hw =
    elim (Bool-cases (leb (key b) (key a))) [
      | inl e ↦
          (let h =
              combine-Merges fuel right (i + 1) (j + 1) (b ∷ p) (a ∷ u) w s (omega (arith, ei))
                (omega (arith, ej)) (omega (arith, er)) (omega arith) hu hw.1 in
            record {
              run = b ∷ h.run;
              result =
                  combine-move fuel right i j ar going (at_both ∙ e)
                  ∙ ap (combine fuel right (i + 1) (j + 1)) shifted
                  ∙ h.result;
              sorted =
                  (h.above b (ground arith, AllGe-trans b a u (ground arith) hu.0) hw.0, h.sorted);
              counts = λ v. omega (arith, h.counts v);
              size = omega (arith, h.size);
              above = λ x k l. (l.0, h.above x k l.1);
            })
      | inr e ↦
          (let h =
              combine-Merges fuel right (i + 1) j (a ∷ p) u (b ∷ w) s (omega (arith, ei))
                (omega (arith, ej)) (omega (arith, er)) (omega arith) hu.1 hw in
            record {
              run = a ∷ h.run;
              result = combine-skip fuel right i j ar going (at_both ∙ e) ∙ h.result;
              sorted =
                  (h.above a hu.0 (ground arith, AllGe-trans a b w (ground arith) hw.0), h.sorted);
              counts = λ v. omega (arith, h.counts v);
              size = omega (arith, h.size);
              above = λ x k l. (k.0, h.above x k.1 l);
            })
    ]
  where
    ar : List ℕ
    ar = around p ((a ∷ u) ++ ((b ∷ w) ++ s))

    going : (j == right + 1 || i == j) ≡ false
    going = ground (arith, ej, er)

    at_place : j ≡ length p + suc (length u)
    at_place = omega (arith, ei, ej)

    at_both : leb (key (get_or ar j 0)) (key (get_or ar i 0)) ≡ leb (key b) (key a)
    at_both =
        ap₂ (λ m n. leb (key (get_or ar m 0)) (key (get_or ar n 0))) at_place ei
        ∙ ap₂ (λ (x y : ℕ). leb (key x) (key y)) (get_or-run p (a ∷ u) (w ++ s) b)
            (get_or-place p (u ++ (b ∷ (w ++ s))) a)

    shifted : shift_to ar i j ≡ around (b ∷ p) ((a ∷ u) ++ (w ++ s))
    shifted = ap₂ (shift_to ar) ei at_place ∙ shift_to-around p u (w ++ s) a b

-- The fuel of `CombineAr` is one more than the elements of the two runs.
pub combine_ar-Merges :
    (left right pivot : ℕ) (p u w s : List ℕ)
    → left ≡ length p
    → pivot + 1 ≡ left + length u
    → right + 1 ≡ pivot + 1 + length w
    → IsSorted u
    → IsSorted w
    → Merges p u w s (combine_ar (around p (u ++ (w ++ s))) left right pivot)
unfolding combine_ar
combine_ar-Merges left right pivot p u w s el ep er hu hw =
    combine-Merges (right + 2 - left) right left (pivot + 1) p u w s el ep er
      (omega (arith, ep, er)) hu hw
