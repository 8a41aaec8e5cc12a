-- ===== src/Memory/Unit.antt =====
-- The class `memory_unit` of src/core/memory_unit.cpp: words under addresses, as `std::map` keeps them.
use pret_iss.Prelude.{ℕ, ◌==◌, if◌then◌else◌, Bool, false, ◌||◌, ◌≡◌, refl, List, [], ◌∷◌, arith}

abbrev pub MemoryUnit : Type 0
MemoryUnit = List (ℕ × ℕ)

unfoldable pub add_address : MemoryUnit → ℕ → ℕ → MemoryUnit
add_address [] addr word = (addr, word) ∷ []
add_address ((a, w) ∷ m) addr word =
    if a == addr then (addr, word) ∷ m else (a, w) ∷ add_address m addr word

unfoldable pub has_address : MemoryUnit → ℕ → Bool
has_address [] addr = false
has_address ((a, w) ∷ m) addr = a == addr || has_address m addr

-- `operator[]`: an address that was never written reads 0.
unfoldable pub read_word : MemoryUnit → ℕ → ℕ
read_word [] addr = 0
read_word ((a, w) ∷ m) addr = if a == addr then w else read_word m addr

unfoldable pub remove_address : MemoryUnit → ℕ → MemoryUnit
remove_address [] addr = []
remove_address ((a, w) ∷ m) addr =
    if a == addr then remove_address m addr else (a, w) ∷ remove_address m addr

pub read_word-add_address :
    (m : MemoryUnit) (addr word k : ℕ)
    → read_word (add_address m addr word) k ≡ (if addr == k then word else read_word m k)
unfolding read_word add_address
read_word-add_address [] addr word k = refl
read_word-add_address ((a, w) ∷ m) addr word k = ground (arith, read_word-add_address m addr word k)

pub has_address-add_address :
    (m : MemoryUnit) (addr word k : ℕ)
    → has_address (add_address m addr word) k ≡ (addr == k || has_address m k)
unfolding has_address add_address
has_address-add_address [] addr word k = refl
has_address-add_address ((a, w) ∷ m) addr word k =
    ground (arith, has_address-add_address m addr word k)

pub has_address-remove_address :
    (m : MemoryUnit) (addr k : ℕ)
    → has_address (remove_address m addr) k ≡ (if addr == k then false else has_address m k)
unfolding has_address remove_address
has_address-remove_address [] addr k = ground arith
has_address-remove_address ((a, w) ∷ m) addr k = ground (arith, has_address-remove_address m addr k)

pub read_word-remove_address :
    (m : MemoryUnit) (addr k : ℕ)
    → read_word (remove_address m addr) k ≡ (if addr == k then 0 else read_word m k)
unfolding read_word remove_address
read_word-remove_address [] addr k = ground arith
read_word-remove_address ((a, w) ∷ m) addr k = ground (arith, read_word-remove_address m addr k)
