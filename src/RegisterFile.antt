-- ===== src/RegisterFile.antt =====
-- The class `register_file`: include/register_file.h and src/core/register_file.cpp. There are 8 global
-- registers and a ring of 512 window registers, of which a window pointer shows 24.
pub mod Windows
use pret_iss.Prelude.{
  ℕ, ◌+◌, ◌-◌, ◌*◌, ◌%◌, ◌==◌, if◌then◌else◌, ltb, Bool, true, false, ◌&&◌, List, [], ◌∷◌, get_or,
  set, replicate, u16,
}

pub record RegisterFile : Type 0 where
  pub global_reg : List ℕ
  pub window_reg : List ℕ

abbrev pub register_windows : ℕ
register_windows = 32

-- The index into `_window_reg`; the operands are `unsigned short`.
abbrev pub window_index : ℕ → ℕ → ℕ
window_index register_number window_pointer =
    (u16 (window_pointer * 16) + (register_number - 8)) % (16 * register_windows)

unfoldable pub get_reg : RegisterFile → ℕ → ℕ → ℕ
get_reg f register_number window_pointer =
    if ltb register_number 8
    then get_or f.global_reg register_number 0
    else get_or f.window_reg (window_index register_number window_pointer) 0

unfoldable pub set_reg : RegisterFile → ℕ → ℕ → ℕ → RegisterFile
set_reg f register_number value window_pointer =
    if ltb register_number 8
    then record f { global_reg = set f.global_reg register_number value }
    else record f {
      window_reg = set f.window_reg (window_index register_number window_pointer) value;
    }

-- `reset_register_window` clears the windows alone; the constructor clears the globals alone, and
-- leaves the windows as it finds them.
unfoldable pub reset_register_window : RegisterFile → RegisterFile
reset_register_window f = record f { window_reg = replicate (16 * register_windows) 0 }

unfoldable pub register_file : List ℕ → RegisterFile
register_file garbage = record { global_reg = replicate 8 0; window_reg = garbage }

-- The loops of `operator==`, which leave at the first difference.
unfoldable pub same_upto : List ℕ → List ℕ → Bool
same_upto [] ys = true
same_upto (x ∷ xs) [] = true
same_upto (x ∷ xs) (y ∷ ys) = x == y && same_upto xs ys

unfoldable pub equal : RegisterFile → RegisterFile → Bool
equal f g = same_upto f.window_reg g.window_reg && same_upto f.global_reg g.global_reg
