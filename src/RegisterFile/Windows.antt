-- ===== src/RegisterFile/Windows.antt =====
-- Which registers share storage: the windows overlap as in the SPARC V8 manual, the outs of a window
-- being the ins of the next, and nothing else is shared.
use pret_iss.Prelude.{
  ℕ, ◌+◌, ◌%◌, ◌≤◌, ◌<◌, ◌==◌, if◌then◌else◌, leb, ltb, Bool, true, false, ◌&&◌, ◌||◌, ◌≡◌, ◌≢◌,
  length, length-set, get_or-set_self, get_or-set_ne, arith,
}
use pret_iss.RegisterFile.{RegisterFile, window_index, get_reg, set_reg}

-- The arrays have their sizes.
pub record IsSized (f : RegisterFile) : Type 0 where
  pub globals : length f.global_reg ≡ 8
  pub windows : length f.window_reg ≡ 512

-- A register number and a window pointer of an instruction.
abbrev pub InRange : ℕ → ℕ → Type 0
InRange rn wp = (rn < 32) × (wp < 32)

-- The window that SAVE leads to from `wp`.
abbrev pub next_window : ℕ → ℕ
next_window wp = (wp + 31) % 32

-- Register `a` in window `w` is register `b` in window `v`: a global, the same register of the same
-- window, or an out (8 to 15) of one that is the in (24 to 31) of the next.
abbrev pub same_register : ℕ → ℕ → ℕ → ℕ → Bool
same_register a w b v =
    ltb a 8 && a == b
    || leb 8 a && (a == b && w == v)
    || leb 8 a && (ltb a 16 && (b == a + 16 && v == next_window w))
    || leb 8 b && (ltb b 16 && (a == b + 16 && w == next_window v))

pub set_reg-IsSized :
    (f : RegisterFile) (rn value wp : ℕ) → IsSized f → IsSized (set_reg f rn value wp)
unfolding set_reg
set_reg-IsSized f rn value wp s =
    ground
      (arith, length-set f.global_reg rn value, length-set f.window_reg (window_index rn wp) value)

-- Two window registers have one index exactly where they are one register.
index_same :
    (a w b v : ℕ)
    → InRange a w
    → InRange b v
    → 8 ≤ a
    → 8 ≤ b
    → window_index a w ≡ window_index b v
    → same_register a w b v ≡ true
index_same a w b v p q h k e = ground arith

index_distinct :
    (a w b v : ℕ)
    → InRange a w
    → InRange b v
    → 8 ≤ a
    → 8 ≤ b
    → window_index a w ≢ window_index b v
    → same_register a w b v ≡ false
index_distinct a w b v p q h k ne = ground arith

-- In arrays of their sizes, for register numbers and window pointers below 32, a read after a write
-- gives the value written where the two names are one register, and the old value everywhere else.
pub get_reg-set_reg :
    (f : RegisterFile) (a w b v value : ℕ)
    → IsSized f
    → InRange a w
    → InRange b v
    → get_reg (set_reg f a value w) b v ≡ (if same_register a w b v then value else get_reg f b v)
unfolding get_reg set_reg
get_reg-set_reg f a w b v value s p q = ground (
  arith,
  index_same a w b v p q,
  index_distinct a w b v p q,
  get_or-set_self f.window_reg (window_index b v) value 0,
  get_or-set_ne f.window_reg (window_index a w) (window_index b v) value 0,
  get_or-set_self f.global_reg b value 0,
  get_or-set_ne f.global_reg a b value 0,
)
