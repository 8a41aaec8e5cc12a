-- ===== src/Sorting/Merge/Shifts.antt =====
-- What `ShiftTo` of soft/mergesort.c does: an element moves in front of those before it.
use pret_iss.Prelude.{
  ℕ, zero, suc, ◌+◌, ◌-◌, ◌<◌, ◌≡◌, refl, ap, ◌∙◌, List, [], ◌∷◌, length, get_or, set, length-set,
  arith,
}
use mathlib.Core.Path.{ap₂}
use mathlib.Core.List.{◌++◌}
use pret_iss.Sorting.Orders.{around, get_or-around, set-around, set-place, length-append}
use pret_iss.Sorting.Merge.{shift_up, shift_to}

-- The elements after the first, `n` of which have moved up by one place.
abbrev moved : ℕ → ℕ → List ℕ → List ℕ
moved zero x l = l
moved (suc n) x [] = []
moved (suc n) x (y ∷ l) = x ∷ moved n y l

moved-set :
    (n x : ℕ) (l : List ℕ)
    → n < length l
    → moved n x (set l n (get_or (x ∷ l) n 0)) ≡ moved (suc n) x l
moved-set n x [] h = absurd (omega arith)
moved-set zero x (y ∷ l) h = refl
moved-set (suc n) x (y ∷ l) h = ap (◌∷◌ x) (moved-set n y l (omega arith))

minus_lem : (n k : ℕ) → n + k - n ≡ k
minus_lem n k = omega arith

shift_up-around :
    (n : ℕ) (p l : List ℕ) (x : ℕ)
    → n < suc (length l)
    → shift_up n (length p) (around p (x ∷ l)) ≡ around p (x ∷ moved n x l)
unfolding shift_up
shift_up-around zero p l x h = refl
shift_up-around (suc n) p l x h =
    let v = get_or (x ∷ l) n 0 in
    ap (λ v'. shift_up n (length p) (set (around p (x ∷ l)) (length p + suc n) v'))
      (get_or-around p (x ∷ l) n 0)
    ∙ ap (shift_up n (length p)) (set-around p (x ∷ l) (suc n) v)
    ∙ shift_up-around n p (set l n v) x (omega (arith, length-set l n v))
    ∙ ap (λ k. around p (x ∷ k)) (moved-set n x l (omega arith))

moved-append : (l s : List ℕ) (a b : ℕ) → moved (suc (length l)) a (l ++ (b ∷ s)) ≡ a ∷ (l ++ s)
moved-append [] s a b = refl
moved-append (c ∷ l) s a b = ap (◌∷◌ a) (moved-append l s c b)

get_or-append : (l s : List ℕ) (b : ℕ) → get_or (l ++ (b ∷ s)) (length l) 0 ≡ b
get_or-append [] s b = refl
get_or-append (a ∷ l) s b = get_or-append l s b

pub get_or-run :
    (p l s : List ℕ) (b : ℕ) → get_or (around p (l ++ (b ∷ s))) (length p + length l) 0 ≡ b
get_or-run p l s b = get_or-around p (l ++ (b ∷ s)) (length l) 0 ∙ get_or-append l s b

pub shift_to-around :
    (p l s : List ℕ) (a b : ℕ)
    → shift_to (around p (a ∷ (l ++ (b ∷ s)))) (length p) (length p + suc (length l))
      ≡ around p (b ∷ a ∷ (l ++ s))
unfolding shift_to
shift_to-around p l s a b =
    let ar = around p (a ∷ (l ++ (b ∷ s))) in
    let n = length p in
    ap₂ (λ k v. set (shift_up k n ar) n v) (minus_lem n (suc (length l))) (get_or-run p (a ∷ l) s b)
    ∙ ap (λ r. set r n b)
        (shift_up-around (suc (length l)) p (l ++ (b ∷ s)) a
            (omega (arith, length-append l (b ∷ s)))
          ∙ ap (λ k. around p (a ∷ k)) (moved-append l s a b))
    ∙ set-place p (a ∷ (l ++ s)) a b
