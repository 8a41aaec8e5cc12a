-- ===== src/Sorting/Insertion/Laws.antt =====
-- Why `insertionSort` of soft/insertsort.c sorts.
use pret_iss.Prelude.{
  ℕ, zero, suc, ◌+◌, ◌-◌, ◌≤◌, ◌==◌, if◌then◌else◌, ◌≡◌, refl, ap, sym, ◌∙◌, List, [], ◌∷◌, length,
  set, arith, Bool-cases, inl, inr,
}
use mathlib.Core.Path.{ap₂, subst}
use pret_iss.Sorting.Orders.{
  get_or-place, set-after, key, gt, AllGe, IsSorted, count, SameCounts, AllGe-trans, around,
  count-around,
}
use pret_iss.Sorting.Insertion.{shift_down, insert_from, insertion_sort}

-- The elements before a place, last first: none is greater than the one before it in this list.
abbrev AllLe : ℕ → List ℕ → Type 0
AllLe a [] = Unit {0}
AllLe a (b ∷ p) = (key b ≤ key a) × AllLe a p

abbrev IsFalling : List ℕ → Type 0
IsFalling [] = Unit {0}
IsFalling (a ∷ p) = AllLe a p × IsFalling p

-- Insertion into the elements before the place.
insert : ℕ → List ℕ → List ℕ
insert x [] = x ∷ []
insert x (a ∷ p) = if gt a x then a ∷ insert x p else x ∷ a ∷ p

AllLe-trans : (a b : ℕ) (p : List ℕ) → key a ≤ key b → AllLe a p → AllLe b p
AllLe-trans a b [] h k = tt
AllLe-trans a b (c ∷ p) h k = (omega (arith, k.0), AllLe-trans a b p h k.1)

AllLe-insert : (a x : ℕ) (p : List ℕ) → key x ≤ key a → AllLe a p → AllLe a (insert x p)
unfolding insert
AllLe-insert a x [] h k = (h, tt)
AllLe-insert a x (b ∷ p) h k = ground (arith, AllLe-insert a x p h k.1)

insert-IsFalling : (x : ℕ) (p : List ℕ) → IsFalling p → IsFalling (insert x p)
unfolding insert
insert-IsFalling x [] h = (tt, tt)
insert-IsFalling x (a ∷ p) h = elim (Bool-cases (gt a x)) [
  | inl e ↦ rw e (AllLe-insert a x p (ground arith) h.0, insert-IsFalling x p h.1)
  | inr e ↦ rw e ((ground arith, AllLe-trans a x p (ground arith) h.0), h)
]

count-insert : (v x : ℕ) (p : List ℕ) → count v (insert x p) ≡ (if x == v then 1 else 0) + count v p
unfolding insert count
count-insert v x [] = refl
count-insert v x (a ∷ p) = ground (arith, count-insert v x p)

length-insert : (x : ℕ) (p : List ℕ) → length (insert x p) ≡ suc (length p)
unfolding insert
length-insert x [] = refl
length-insert x (a ∷ p) = ground (arith, length-insert x p)

-- The array is walked as the list is: the element at the place is overwritten.
shift_down-suc :
    (p s : List ℕ) (x y a : ℕ)
    → shift_down (suc (length p)) x (around p (a ∷ y ∷ s))
      ≡ (if gt a x then shift_down (length p) x (around p (a ∷ a ∷ s)) else around p (a ∷ x ∷ s))
unfolding shift_down
shift_down-suc p s x y a =
    let cell = get_or-place p (y ∷ s) a in
    let write = λ (v : ℕ). set-after p s a y v in
    ap
      (λ b.
        if gt b x
        then shift_down (length p) x (set (around p (a ∷ y ∷ s)) (suc (length p)) b)
        else set (around p (a ∷ y ∷ s)) (suc (length p)) x)
      cell
    ∙ ap₂ (λ l r. if gt a x then shift_down (length p) x l else r) (write a) (write x)

shift_down-zero : (s : List ℕ) (x y : ℕ) → shift_down zero x (y ∷ s) ≡ x ∷ s
unfolding shift_down
shift_down-zero s x y = refl

shift_down-insert :
    (p s : List ℕ) (x y : ℕ) → shift_down (length p) x (around p (y ∷ s)) ≡ around (insert x p) s
unfolding insert
shift_down-insert [] s x y = shift_down-zero s x y
shift_down-insert (a ∷ p) s x y = shift_down-suc p s x y a ∙ elim (Bool-cases (gt a x)) [
  | inl e ↦ rw e (shift_down-insert p (a ∷ s) x a)
  | inr e ↦ rw e refl
]

insert_all : List ℕ → List ℕ → List ℕ
insert_all p [] = p
insert_all p (x ∷ s) = insert_all (insert x p) s

insert_from-around :
    (s p : List ℕ) → insert_from (length s) (length p) (around p s) ≡ around (insert_all p s) []
unfolding insert_from insert_all
insert_from-around [] p = refl
insert_from-around (x ∷ s) p =
    ap (λ y. insert_from (length s) (length p + 1) (shift_down (length p) y (around p (x ∷ s))))
      (get_or-place p s x)
    ∙ ap₂ (insert_from (length s)) (omega (arith, length-insert x p)) (shift_down-insert p s x x)
    ∙ insert_from-around s (insert x p)

insert_all-IsFalling : (s p : List ℕ) → IsFalling p → IsFalling (insert_all p s)
unfolding insert_all
insert_all-IsFalling [] p h = h
insert_all-IsFalling (x ∷ s) p h = insert_all-IsFalling s (insert x p) (insert-IsFalling x p h)

count-insert_all : (v : ℕ) (s p : List ℕ) → count v (insert_all p s) ≡ count v p + count v s
unfolding insert_all count
count-insert_all v [] p = omega arith
count-insert_all v (x ∷ s) p = omega (arith, count-insert_all v s (insert x p), count-insert v x p)

suc-minus_one : (n : ℕ) → suc n - 1 ≡ n
suc-minus_one n = omega arith

-- A falling list before an ascending one that it does not exceed.
abbrev Meets : List ℕ → List ℕ → Type 0
Meets [] s = Unit {0}
Meets (a ∷ p) s = AllGe a s

around-IsSorted : (p s : List ℕ) → IsFalling p → IsSorted s → Meets p s → IsSorted (around p s)
around-IsSorted [] s f h m = h
around-IsSorted (a ∷ []) s f h m = (m, h)
around-IsSorted (a ∷ b ∷ p) s f h m =
    around-IsSorted (b ∷ p) (a ∷ s) f.1 (m, h) (f.0.0, AllGe-trans b a s f.0.0 m)

Meets-end : (p : List ℕ) → Meets p []
Meets-end [] = tt
Meets-end (a ∷ p) = tt

-- `insertionSort` of a whole array leaves it ascending, as signed numbers, with the same elements.
pub insertion_sort-IsSorted :
    (l : List ℕ)
    → IsSorted (insertion_sort l (length l)) × SameCounts (insertion_sort l (length l)) l
unfolding insertion_sort insert_from count
insertion_sort-IsSorted [] = (tt, λ v. refl)
insertion_sort-IsSorted (a ∷ l) =
    let p = insert_all (a ∷ []) l in
    let f : IsFalling (a ∷ []) = (tt, tt) in
    let e =
      ap (λ n. insert_from n 1 (a ∷ l)) (suc-minus_one (length l))
      ∙ insert_from-around l (a ∷ []) in
    (
      subst IsSorted (sym e)
          (around-IsSorted p [] (insert_all-IsFalling l (a ∷ []) f) tt (Meets-end p)),
      λ v. ap (count v) e ∙ count-around v p [] ∙ omega (arith, count-insert_all v l (a ∷ [])),
    )
