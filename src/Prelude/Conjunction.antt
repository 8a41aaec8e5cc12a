-- ===== src/Prelude/Conjunction.antt =====
-- A long chain of `&&`, as its operands.
use mathlib.Core.Path.{◌≡◌, refl}
use mathlib.Core.Bool.{Bool, true, false, not, ◌&&◌}
use mathlib.Core.List.{List, [], ◌∷◌}
use native.Mathlib.Omega.{arith}
use Prim.Native.Nat.{ℕ, zero, suc}
use pret_iss.Prelude.Tests.{xor}
use pret_iss.Prelude.Lists.{get_or}

-- `==` on `bool`
abbrev pub same : Bool → Bool → Bool
same a b = not (xor a b)

pub same-eq : (a b : Bool) → same a b ≡ true → a ≡ b
same-eq true b h = ground arith
same-eq false b h = ground arith

pub same_refl : (a : Bool) → same a a ≡ true
same_refl true = refl
same_refl false = refl

unfoldable pub all : List Bool → Bool
all [] = true
all (b ∷ l) = b && all l

abbrev pub AreTrue : List Bool → Type 0
AreTrue [] = Unit {0}
AreTrue (b ∷ l) = (b ≡ true) × AreTrue l

pub all-AreTrue : (l : List Bool) → all l ≡ true → AreTrue l
unfolding all
all-AreTrue [] h = tt
all-AreTrue (true ∷ l) h = (refl, all-AreTrue l h)
all-AreTrue (false ∷ l) h = absurd (cc)

pub AreTrue-all : (l : List Bool) → AreTrue l → all l ≡ true
unfolding all
AreTrue-all [] h = refl
AreTrue-all (true ∷ l) h = AreTrue-all l h.1
AreTrue-all (false ∷ l) h = absurd (cc)

-- One operand by its place.
pub AreTrue-get_or : (n : ℕ) (l : List Bool) → AreTrue l → get_or l n true ≡ true
AreTrue-get_or n [] h = refl
AreTrue-get_or zero (b ∷ l) h = h.0
AreTrue-get_or (suc n) (b ∷ l) h = AreTrue-get_or n l h.1

-- A true operand before others.
infixr 10 ◌also◌
abbrev pub ◌also◌ : {P Q : Type 0} → P → Q → P × Q
p also q = (p, q)
