-- ===== src/Load/Srec.antt =====
-- The class `srec_parser` of src/core/srec_parser.cpp. A file is the text of its bytes, or nothing where
-- it cannot be opened; the text that is left stands in the state. Warnings are left out.
pub mod Ends
pub mod Print
pub mod Records
pub mod Files
use pret_iss.Prelude.{
  ℕ, zero, suc, ◌+◌, ◌-◌, ◌*◌, ◌/◌, ◌%◌, ◌==◌, leb, if◌then◌else◌, Bool, true, false, ◌&&◌, ◌||◌,
  Option, none, some, List, [], ◌∷◌, length, get_or, add32, sub32, is_neg,
}
use pret_iss.Memory.Unit.{MemoryUnit, add_address}
use pret_iss.Load.Scan.{Text, scan_token, scan_hex}

pub record SrecParser : Type 0 where
  pub starting_addr : ℕ
  pub mem : MemoryUnit
  pub input : Text

-- A line is read, `EOF` is returned, or an assertion fails.
pub data Line : Type 0 where
  more : SrecParser → Line
  eof : SrecParser → Line
  failed : Line

-- `return fscanf(srec_file, "%2s", trash)`, or with `%s`.
unfoldable pub skip_token : ℕ → SrecParser → Line
unfolding scan_token
skip_token width p = elim (scan_token width p.input) [
  | none ↦ eof (record p { input = [] })
  | some (t, rest) ↦ more (record p { input = rest })
]

-- The loop over the words of a record.
unfoldable pub read_words : ℕ → ℕ → SrecParser → Option SrecParser
unfolding scan_hex
read_words zero addr p = some p
read_words (suc n) addr p = elim (scan_hex 8 p.input) [
  | none ↦ none
  | some (word, rest) ↦
      read_words n (add32 addr 4) (record p { mem = add_address p.mem addr word; input = rest })
]

-- What follows the address, for the type of the record and the bytes that remain, as an `int`.
unfoldable pub read_record : ℕ → ℕ → ℕ → SrecParser → Line
unfolding skip_token read_words
read_record kind remaining_bytes addr p =
    let words : Line = elim (read_words (remaining_bytes / 4) addr p) [
      | none ↦ failed
      | some q ↦ skip_token 2 q
    ] in
    if kind == b'7' || kind == b'8' || kind == b'9'
    then skip_token 2 (record p { starting_addr = addr })
    else if is_neg remaining_bytes
    then eof p
    else if remaining_bytes % 4 == 1
    then words
    else eof p

-- The address of `bytes` bytes, and what follows it.
unfoldable pub with_address : ℕ → ℕ → ℕ → SrecParser → Line
unfolding scan_hex read_record
with_address kind remaining_bytes bytes p = elim (scan_hex (2 * bytes) p.input) [
  | none ↦ failed
  | some (addr, rest) ↦
      read_record kind (sub32 remaining_bytes bytes) addr (record p { input = rest })
]

-- `%s` takes all that stands before the next white space.
unfoldable pub after_count : ℕ → ℕ → SrecParser → Line
unfolding with_address skip_token
after_count kind remaining_bytes p =
    if kind == b'1' || kind == b'9'
    then with_address kind remaining_bytes 2 p
    else if kind == b'2' || kind == b'8'
    then with_address kind remaining_bytes 3 p
    else if kind == b'3' || kind == b'7'
    then with_address kind remaining_bytes 4 p
    else skip_token (length p.input) p

-- `_readline`. `s_type[1]` is the terminator where a single byte was read.
unfoldable pub readline : SrecParser → Line
unfolding scan_token scan_hex after_count
readline p = elim (scan_token 2 p.input) [
  | none ↦ eof (record p { input = [] })
  | some (s_type, rest) ↦ elim (scan_hex 2 rest) [
    | none ↦ failed
    | some (remaining_bytes, rest') ↦
        after_count (get_or s_type 1 0) remaining_bytes (record p { input = rest' })
  ]
]

pub data Parsed : Type 0 where
  parsed : SrecParser → Parsed
  assertion : Parsed
  out_of_fuel : Parsed

-- The loop of `parse`.
unfoldable pub read_lines : ℕ → SrecParser → Parsed
unfolding readline
read_lines zero p = out_of_fuel
read_lines (suc fuel) p = elim (readline p) [
  | more q ↦ read_lines fuel q
  | eof q ↦ parsed q
  | failed ↦ assertion
]

-- `parse`, whose result is the field `starting_addr` for a file that can be opened, else 0. The fuel is
-- more than the bytes of the file, and each line takes one at least.
unfoldable pub parse : SrecParser → Option Text → Parsed × ℕ
unfolding read_lines
parse p none = (parsed p, 0)
parse p (some file) =
    let result = read_lines (suc (length file)) (record p { input = file }) in
    (result, elim result [ parsed q ↦ q.starting_addr | _ ↦ 0 ])
