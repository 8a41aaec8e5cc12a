-- ===== src/Sorting/Bubble/Laws.antt =====
-- Why the loops of soft/bubsort.c sort.
use pret_iss.Prelude.{
  ℕ, zero, suc, ◌+◌, ◌-◌, ◌≤◌, if◌then◌else◌, false, ◌≡◌, refl, ap, sym, ◌∙◌, List, [], ◌∷◌, length,
  get_or, set, arith, Bool-cases, inl, inr,
}
use mathlib.Core.Path.{ap₂, subst}
use mathlib.Core.List.{◌++◌}
use pret_iss.Sorting.Orders.{
  key, gt, AllGe, IsSorted, count, SameCounts, around, get_or-place, get_or-after, set-place,
  set-after, length-append,
}
use pret_iss.Sorting.Bubble.{compare_swap, pass, passes, bubble_sort}

plus_one : (n : ℕ) → n + 1 ≡ suc n
plus_one n = omega arith

-- The pass over a list: the element that is carried on, and those to come.
bubble : ℕ → List ℕ → List ℕ
bubble a [] = a ∷ []
bubble a (b ∷ l) = if gt a b then b ∷ bubble a l else a ∷ bubble b l

compare_swap-around :
    (p s : List ℕ) (a b : ℕ)
    → compare_swap (length p) (around p (a ∷ b ∷ s))
      ≡ (if gt a b then around p (b ∷ a ∷ s) else around p (a ∷ b ∷ s))
unfolding compare_swap
compare_swap-around p s a b =
    let l = around p (a ∷ b ∷ s) in
    let n = length p in
    ap
      (λ k.
        if gt (get_or l n 0) (get_or l k 0)
        then set (set l k (get_or l n 0)) n (get_or l k 0)
        else l)
      (plus_one n)
    ∙ ap₂ (λ x y. if gt x y then set (set l (suc n) x) n y else l) (get_or-place p (b ∷ s) a)
        (get_or-after p s a b)
    ∙ ap (λ r. if gt a b then r else l)
        (ap (λ r. set r n b) (set-after p s a b a) ∙ set-place p (a ∷ s) a b)

pass-around :
    (s p : List ℕ) (a : ℕ) → pass (length s) (length p) (around p (a ∷ s)) ≡ around p (bubble a s)
unfolding pass bubble
pass-around [] p a = refl
pass-around (b ∷ s) p a =
    ap (pass (length s) (length p + 1)) (compare_swap-around p s a b)
    ∙ ap (λ k. pass (length s) k (if gt a b then around p (b ∷ a ∷ s) else around p (a ∷ b ∷ s)))
        (plus_one (length p))
    ∙ elim (Bool-cases (gt a b)) [
      | inl e ↦ rw e (pass-around s (b ∷ p) a)
      | inr e ↦ rw e (pass-around s (a ∷ p) b)
    ]

count-bubble : (v a : ℕ) (l : List ℕ) → count v (bubble a l) ≡ count v (a ∷ l)
unfolding bubble count
count-bubble v a [] = refl
count-bubble v a (b ∷ l) = ground (arith, count-bubble v a l, count-bubble v b l)

length-bubble : (a : ℕ) (l : List ℕ) → length (bubble a l) ≡ suc (length l)
unfolding bubble
length-bubble a [] = refl
length-bubble a (b ∷ l) = ground (arith, length-bubble a l, length-bubble b l)

-- What a pass leaves before the greatest of the elements, and the greatest.
rest : ℕ → List ℕ → List ℕ
rest a [] = []
rest a (b ∷ u) = if gt a b then b ∷ rest a u else a ∷ rest b u

greatest : ℕ → List ℕ → ℕ
greatest a [] = a
greatest a (b ∷ u) = if gt a b then greatest a u else greatest b u

bubble-sorted : (a : ℕ) (s : List ℕ) → IsSorted (a ∷ s) → bubble a s ≡ a ∷ s
unfolding bubble
bubble-sorted a [] h = refl
bubble-sorted a (b ∷ s) h =
    let kept : gt a b ≡ false = ground (arith, h.0.0) in
    rw kept (ap (◌∷◌ a) (bubble-sorted b s h.1))

-- Every element of the first list is at most every element of the second.
abbrev Below : List ℕ → List ℕ → Type 0
Below [] s = Unit {0}
Below (a ∷ u) s = AllGe a s × Below u s

bubble-split :
    (u s : List ℕ) (a : ℕ)
    → IsSorted s
    → Below (a ∷ u) s
    → bubble a (u ++ s) ≡ rest a u ++ (greatest a u ∷ s)
unfolding bubble rest greatest
bubble-split [] s a h b = bubble-sorted a s (b.0, h)
bubble-split (c ∷ u) s a h b = elim (Bool-cases (gt a c)) [
  | inl e ↦ rw e (ap (◌∷◌ c) (bubble-split u s a h (b.0, b.1.1)))
  | inr e ↦ rw e (ap (◌∷◌ a) (bubble-split u s c h b.1))
]

length-rest : (u : List ℕ) (a : ℕ) → length (rest a u) ≡ length u
unfolding rest
length-rest [] a = refl
length-rest (b ∷ u) a = ground (arith, length-rest u a, length-rest u b)

greatest-AllGe : (u s : List ℕ) (a : ℕ) → Below (a ∷ u) s → AllGe (greatest a u) s
unfolding greatest
greatest-AllGe [] s a b = b.0
greatest-AllGe (c ∷ u) s a b = elim (Bool-cases (gt a c)) [
  | inl e ↦ rw e (greatest-AllGe u s a (b.0, b.1.1))
  | inr e ↦ rw e (greatest-AllGe u s c b.1)
]

greatest-ge : (u : List ℕ) (a : ℕ) → key a ≤ key (greatest a u)
unfolding greatest
greatest-ge [] a = omega arith
greatest-ge (c ∷ u) a = ground (arith, greatest-ge u a, greatest-ge u c)

rest-Below : (u s : List ℕ) (a : ℕ) → Below (a ∷ u) s → Below (rest a u) (greatest a u ∷ s)
unfolding rest greatest
rest-Below [] s a b = tt
rest-Below (c ∷ u) s a b = elim (Bool-cases (gt a c)) [
  | inl e ↦ rw e ((ground (arith, greatest-ge u a), b.1.0), rest-Below u s a (b.0, b.1.1))
  | inr e ↦ rw e ((ground (arith, greatest-ge u c), b.0), rest-Below u s c b.1)
]

pass-whole :
    (l : List ℕ) (a size : ℕ) → size ≡ suc (length l) → pass (size - 1) 0 (a ∷ l) ≡ bubble a l
pass-whole l a size e = ap (λ n. pass n 0 (a ∷ l)) (omega (arith, e)) ∙ pass-around l [] a

pass-nothing : (size : ℕ) → size ≡ 0 → pass (size - 1) 0 [] ≡ []
unfolding pass
pass-nothing size e =
    let none_left : size - 1 ≡ 0 = omega (arith, e) in ap (λ n. pass n 0 []) none_left

-- A round makes the ascending part at the end one longer.
passes-IsSorted :
    (n : ℕ) (u s : List ℕ) (size : ℕ)
    → size ≡ length u + length s
    → length u ≤ n
    → IsSorted s
    → Below u s
    → IsSorted (passes n size (u ++ s))
unfolding passes
passes-IsSorted zero [] s size e h k b = k
passes-IsSorted zero (a ∷ u) s size e h k b = absurd (omega arith)
passes-IsSorted (suc n) [] [] size e h k b =
    subst (λ l. IsSorted (passes n size l)) (sym (pass-nothing size (omega arith)))
      (passes-IsSorted n [] [] size e (omega arith) tt tt)
passes-IsSorted (suc n) [] (a ∷ s) size e h k b =
    subst (λ l. IsSorted (passes n size l))
      (sym (pass-whole s a size (omega (arith, e)) ∙ bubble-sorted a s k))
      (passes-IsSorted n [] (a ∷ s) size e (omega arith) k tt)
passes-IsSorted (suc n) (a ∷ u) s size e h k b =
    subst (λ l. IsSorted (passes n size l))
      (sym
        (pass-whole (u ++ s) a size (omega (arith, e, length-append u s)) ∙ bubble-split u s a k b))
      (passes-IsSorted n (rest a u) (greatest a u ∷ s) size (omega (arith, e, length-rest u a))
        (omega (arith, length-rest u a)) (greatest-AllGe u s a b, k) (rest-Below u s a b))

count-passes :
    (v n : ℕ) (l : List ℕ) (size : ℕ) → size ≡ length l → count v (passes n size l) ≡ count v l
unfolding passes
count-passes v zero l size e = refl
count-passes v (suc n) [] size e =
    ap (λ l. count v (passes n size l)) (pass-nothing size e) ∙ count-passes v n [] size e
count-passes v (suc n) (a ∷ l) size e =
    ap (λ k. count v (passes n size k)) (pass-whole l a size e)
    ∙ count-passes v n (bubble a l) size (omega (arith, e, length-bubble a l))
    ∙ count-bubble v a l

Below-end : (u : List ℕ) → Below u []
Below-end [] = tt
Below-end (a ∷ u) = (tt, Below-end u)

append-nothing : (u : List ℕ) → u ++ [] ≡ u
append-nothing [] = refl
append-nothing (a ∷ u) = ap (◌∷◌ a) (append-nothing u)

-- The loops of the bubble sort over a whole array leave it ascending, as signed numbers, with the same
-- elements.
pub bubble_sort-IsSorted :
    (l : List ℕ) → IsSorted (bubble_sort l (length l)) × SameCounts (bubble_sort l (length l)) l
unfolding bubble_sort
bubble_sort-IsSorted l = (
  subst (λ k. IsSorted (passes (length l) (length l) k)) (append-nothing l)
      (passes-IsSorted (length l) l [] (length l) (omega arith) (omega arith) tt (Below-end l)),
  λ v. count-passes v (length l) l (length l) refl,
)
