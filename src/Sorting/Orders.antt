-- ===== src/Sorting/Orders.antt =====
-- `>` on `int`, ascending arrays, how often a value occurs, and arrays around a place.
use pret_iss.Prelude.{
  ℕ, suc, ◌+◌, ◌^◌, ◌≤◌, ◌==◌, ltb, if◌then◌else◌, Bool, ◌≡◌, ap, ◌∙◌, List, [], ◌∷◌, length,
  get_or, set, u32, arith,
}
use mathlib.Core.List.{◌++◌}

-- The order of the signed values, as one of numbers.
unfoldable pub key : ℕ → ℕ
key a = u32 (a + 2 ^ 31)

abbrev pub gt : ℕ → ℕ → Bool
gt a b = ltb (key b) (key a)

abbrev pub AllGe : ℕ → List ℕ → Type 0
AllGe a [] = Unit {0}
AllGe a (b ∷ l) = (key a ≤ key b) × AllGe a l

abbrev pub IsSorted : List ℕ → Type 0
IsSorted [] = Unit {0}
IsSorted (a ∷ l) = AllGe a l × IsSorted l

unfoldable pub count : ℕ → List ℕ → ℕ
count v [] = 0
count v (a ∷ l) = (if a == v then 1 else 0) + count v l

-- Every value occurs as often in the one as in the other.
abbrev pub SameCounts : List ℕ → List ℕ → Type 0
SameCounts l r = (v : ℕ) → count v l ≡ count v r

pub AllGe-trans : (a b : ℕ) (l : List ℕ) → key a ≤ key b → AllGe b l → AllGe a l
AllGe-trans a b [] h k = tt
AllGe-trans a b (c ∷ l) h k = (omega (arith, k.0), AllGe-trans a b l h k.1)

-- The array with the elements before a place in reverse, and those from it on.
abbrev pub around : List ℕ → List ℕ → List ℕ
around [] s = s
around (a ∷ p) s = around p (a ∷ s)

pub get_or-around : (p s : List ℕ) (k d : ℕ) → get_or (around p s) (length p + k) d ≡ get_or s k d
get_or-around [] s k d = ap (λ n. get_or s n d) (omega arith)
get_or-around (a ∷ p) s k d =
    ap (λ n. get_or (around p (a ∷ s)) n d) (omega arith) ∙ get_or-around p (a ∷ s) (suc k) d

pub set-around : (p s : List ℕ) (k v : ℕ) → set (around p s) (length p + k) v ≡ around p (set s k v)
set-around [] s k v = ap (λ n. set s n v) (omega arith)
set-around (a ∷ p) s k v =
    ap (λ n. set (around p (a ∷ s)) n v) (omega arith) ∙ set-around p (a ∷ s) (suc k) v

pub count-around : (v : ℕ) (p s : List ℕ) → count v (around p s) ≡ count v p + count v s
unfolding count
count-around v [] s = omega arith
count-around v (a ∷ p) s = ground (arith, count-around v p (a ∷ s))

pub count-append : (v : ℕ) (p s : List ℕ) → count v (p ++ s) ≡ count v p + count v s
unfolding count
count-append v [] s = omega arith
count-append v (a ∷ p) s = ground (arith, count-append v p s)

pub length-around : (p s : List ℕ) → length (around p s) ≡ length p + length s
length-around [] s = omega arith
length-around (a ∷ p) s = omega (arith, length-around p (a ∷ s))

-- The element at the place, and writes to it and after it.
pub get_or-place : (p s : List ℕ) (a : ℕ) → get_or (around p (a ∷ s)) (length p) 0 ≡ a
get_or-place p s a =
    ap (λ n. get_or (around p (a ∷ s)) n 0) (omega arith) ∙ get_or-around p (a ∷ s) 0 0

pub get_or-after : (p s : List ℕ) (a b : ℕ) → get_or (around p (a ∷ b ∷ s)) (suc (length p)) 0 ≡ b
get_or-after p s a b =
    ap (λ n. get_or (around p (a ∷ b ∷ s)) n 0) (omega arith) ∙ get_or-around p (a ∷ b ∷ s) 1 0

pub set-place : (p s : List ℕ) (a v : ℕ) → set (around p (a ∷ s)) (length p) v ≡ around p (v ∷ s)
set-place p s a v = ap (λ n. set (around p (a ∷ s)) n v) (omega arith) ∙ set-around p (a ∷ s) 0 v

pub set-after :
    (p s : List ℕ) (a b v : ℕ)
    → set (around p (a ∷ b ∷ s)) (suc (length p)) v ≡ around p (a ∷ v ∷ s)
set-after p s a b v =
    ap (λ n. set (around p (a ∷ b ∷ s)) n v) (omega arith) ∙ set-around p (a ∷ b ∷ s) 1 v

pub length-append : (p s : List ℕ) → length (p ++ s) ≡ length p + length s
length-append [] s = omega arith
length-append (a ∷ p) s = omega (arith, length-append p s)
