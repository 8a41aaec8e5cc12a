-- ===== src/Load/Bounds.antt =====
-- The class `static_bound_parser` of src/core/static_bound_parser.cpp: which ranges of main memory are
-- copied into a thread's scratchpad before the simulation. A file is the text of its bytes, or nothing
-- where it cannot be opened. The message of an overloaded scratchpad is left out.
pub mod Slots
pub mod Keeps
pub mod Copies
pub mod Ranges
use pret_iss.Prelude.{
  ℕ, zero, suc, ◌+◌, ◌-◌, ◌/◌, ◌^◌, ◌==◌, leb, ltb, if◌then◌else◌, Bool, true, false, Option, none,
  some, List, [], ◌∷◌, length, add32, u32,
}
use pret_iss.Memory.Unit.{MemoryUnit, read_word}
use pret_iss.Memory.Scratch.{L1Scratch, scratch_size, add_addr}
use pret_iss.Load.Scan.{Text, skip_space, unsigned_hex}

-- Whether there is a minus sign, and what follows the sign.
abbrev pub split_sign : Text → Bool × Text
split_sign [] = (false, [])
split_sign (c ∷ l) =
    if c == b'-' then (true, l) else if c == b'+' then (false, l) else (false, c ∷ l)

-- A number out of range sets the largest, and what is no number sets 0; in both cases the stream fails.
abbrev pub in_range : Bool → ℕ × Bool × Text → ℕ × Option Text
in_range negative (value, true, rest) =
    if ltb value (2 ^ 32)
    then (if negative then u32 (2 ^ 32 - value) else value, some rest)
    else (2 ^ 32 - 1, none)
in_range negative (value, false, rest) = (0, none)

unfoldable pub extract_word : ℕ → Text → ℕ × Option Text
unfolding unsigned_hex
extract_word old [] = (old, none)
extract_word old (c ∷ l) =
    let (negative, digits) = split_sign (c ∷ l) in
    in_range negative (unsigned_hex (length digits) digits)

-- `>> hex` into an `uint32_t` that holds `old`; nothing stands for a stream that has failed, which at
-- the end of the text leaves the variable as it is.
unfoldable pub extract : ℕ → Option Text → ℕ × Option Text
unfolding skip_space extract_word
extract old none = (old, none)
extract old (some l) = extract_word old (skip_space l)

-- `getline` up to the end of the file: a file that ends with a newline has an empty last line.
unfoldable pub getlines : Text → List Text
getlines [] = [] ∷ []
getlines (c ∷ l) =
    let rest = getlines l in
    if c == 10 then [] ∷ rest else elim rest [ [] ↦ (c ∷ []) ∷ [] | x ∷ xs ↦ (c ∷ x) ∷ xs ]

pub data Copied : Type 0 where
  copied : L1Scratch → Copied
  overloaded : L1Scratch → Copied
  out_of_fuel : Copied

-- The `for` loop over the addresses of a line.
unfoldable pub copy : ℕ → L1Scratch → MemoryUnit → ℕ → ℕ → ℕ → ℕ → Copied
copy zero s main_memory addr max spm_addr scratch_end_addr = out_of_fuel
copy (suc fuel) s main_memory addr max spm_addr scratch_end_addr =
    let rest =
      copy fuel (add_addr s addr spm_addr (read_word main_memory addr)) main_memory (add32 addr 4)
        max (add32 spm_addr 4) scratch_end_addr in
    if ltb addr max then if leb scratch_end_addr spm_addr then overloaded s else rest else copied s

-- Half of the scratchpad, and rounds enough for its words: a line that goes on longer is stopped.
abbrev pub half : ℕ
half = scratch_size / 2

abbrev pub copy_fuel : ℕ
copy_fuel = half / 4 + 2

unfoldable pub copy_line : L1Scratch → MemoryUnit → ℕ → ℕ → ℕ → Text → Copied
copy_line s main_memory start min max [] = copied s
copy_line s main_memory start min max (c ∷ l) =
    copy copy_fuel s main_memory min max start (start + half)

-- The loop over the lines; `min` and `max` keep their values from line to line.
unfoldable pub load_lines : L1Scratch → MemoryUnit → ℕ → ℕ → ℕ → List Text → Option L1Scratch
load_lines s main_memory start min max [] = some s
load_lines s main_memory start min max (line ∷ lines) =
    let (min', stream) = extract min (some line) in
    let (max', stream') = extract max stream in
    elim (copy_line s main_memory start min' max' line) [
      | copied t ↦ load_lines t main_memory start min' max' lines
      | overloaded t ↦ some t
      | out_of_fuel ↦ none
    ]

-- `load_spm`
unfoldable pub load_spm : L1Scratch → MemoryUnit → Option Text → ℕ → Option L1Scratch
load_spm s main_memory none start = some s
load_spm s main_memory (some file) start = load_lines s main_memory start 0 0 (getlines file)

abbrev pub inst_scratch_start : ℕ
inst_scratch_start = 0

abbrev pub data_scratch_start : ℕ
data_scratch_start = scratch_size / 2

unfoldable pub load_inst_spm : L1Scratch → MemoryUnit → Option Text → Option L1Scratch
load_inst_spm s main_memory file = load_spm s main_memory file inst_scratch_start

unfoldable pub load_data_spm : L1Scratch → MemoryUnit → Option Text → Option L1Scratch
load_data_spm s main_memory file = load_spm s main_memory file data_scratch_start
