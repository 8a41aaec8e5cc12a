-- ===== src/Load/Bounds/Ranges.antt =====
-- What `load_spm` of src/core/static_bound_parser.cpp does with a file of one range.
use pret_iss.Prelude.{
  ℕ, zero, suc, ◌+◌, ◌*◌, ◌/◌, ◌%◌, ◌^◌, ◌≤◌, ◌<◌, ◌==◌, true, false, ◌≡◌, ◌≢◌, refl, ap, ◌∙◌,
  Option, none, some, [], ◌∷◌, length, arith,
}
use mathlib.Core.Path.{ap₂}
use pret_iss.Memory.Unit.{MemoryUnit, read_word}
use pret_iss.Memory.Scratch.{L1Scratch, scratch_size, is_addr_in_spm, add_addr}
use pret_iss.Memory.Scratch
use pret_iss.Dma.{fill}
use pret_iss.Dma.Fill.{Fits, read-fill}
use pret_iss.Load.Scan.{Text, skip_space, digits, unsigned_hex, hex_value}
use pret_iss.Load.Scan.Digits.{hex_char, print_hex, digits-print_hex, Front, print_hex-Front}
use pret_iss.Load.Bounds.{
  Copied, copied, overloaded, out_of_fuel, half, copy_line, extract, extract_word, getlines,
  load_lines, load_spm, in_range,
}
use pret_iss.Load.Bounds.Slots.{IsStart}
use pret_iss.Load.Bounds.Copies.{main_words, length-main_words, get_or-main_words, copy_line-fill}

-- The line of a range.
abbrev pub print_range : ℕ → ℕ → Text
print_range min max = print_hex 8 min (b' ' ∷ print_hex 8 max [])

abbrev NoNewline : Text → Type 0
NoNewline [] = Unit {0}
NoNewline (c ∷ l) = (c == 10 ≡ false) × NoNewline l

getlines-line : (l : Text) → NoNewline l → getlines l ≡ l ∷ []
unfolding getlines
getlines-line [] h = refl
getlines-line (c ∷ l) h = ground (arith, getlines-line l h.1)

print_hex-NoNewline :
    (width n : ℕ) (rest : Text) → NoNewline rest → NoNewline (print_hex width n rest)
print_hex-NoNewline zero n rest h = h
print_hex-NoNewline (suc width) n rest h =
    print_hex-NoNewline width (n / 16) (hex_char (n % 16) ∷ rest) (hex_char-10 (n % 16), h)
  where
    hex_char-10 : (d : ℕ) → (hex_char d == 10) ≡ false
    hex_char-10 d = ground arith

-- A text at which a number ends.
abbrev EndsNumber : Text → Type 0
EndsNumber [] = Unit {0}
EndsNumber (c ∷ l) = c ≡ b' '

digits-end : (v n : ℕ) (rest : Text) → EndsNumber rest → digits v n true rest ≡ (n, true, rest)
unfolding digits hex_value
digits-end zero n rest h = refl
digits-end (suc v) n [] h = refl
digits-end (suc v) n (c ∷ l) h = ground arith

extract-Front :
    (old : ℕ) (l : Text)
    → Front l
    → extract old (some l) ≡ in_range false (digits (length l) 0 false l)
unfolding extract skip_space extract_word unsigned_hex
extract-Front old (c ∷ []) h = elim h [ ]
extract-Front old [] h = elim h [ ]
extract-Front old (c ∷ x ∷ l) h = ground arith

extract-print_hex :
    (old n : ℕ) (rest : Text)
    → n < 2 ^ 32
    → EndsNumber rest
    → extract old (some (print_hex 8 n rest)) ≡ (n, some rest)
extract-print_hex old n rest h e =
    extract-Front old (print_hex 8 n rest) (print_hex-Front 6 n rest)
    ∙ ap (λ k. in_range false (digits k 0 false (print_hex 8 n rest))) {y = 8 + length rest}
        (omega arith)
    ∙ ap (in_range false)
        (digits-print_hex 8 (length rest) n rest (omega arith) ∙ digits-end (length rest) n rest e)
    ∙ ground arith

extract-space : (old : ℕ) (l : Text) → extract old (some (b' ' ∷ l)) ≡ extract old (some l)
unfolding extract skip_space
extract-space old l = refl

print_hex-cons :
    (width n : ℕ) (rest : Text) → (c : ℕ) × (l : Text) × (print_hex (suc width) n rest ≡ c ∷ l)
print_hex-cons zero n rest = (hex_char (n % 16), rest, refl)
print_hex-cons (suc width) n rest = print_hex-cons width (n / 16) (hex_char (n % 16) ∷ rest)

after_copy : L1Scratch → MemoryUnit → ℕ → ℕ → ℕ → Text → Option L1Scratch
after_copy s m start min max line = elim (copy_line s m start min max line) [
  | copied t ↦ some t
  | overloaded t ↦ some t
  | out_of_fuel ↦ none
]

load_lines-one :
    (s : L1Scratch) (m : MemoryUnit) (start : ℕ) (line : Text)
    → load_lines s m start 0 0 (line ∷ [])
      ≡ after_copy s m start (extract 0 (some line)).0 (extract 0 (extract 0 (some line)).1).0 line
unfolding load_lines after_copy
load_lines-one s m start line = refl

load_line-fill :
    (s : L1Scratch) (m : MemoryUnit) (start min max n : ℕ) (line : Text)
    → IsStart start
    → max < 2 ^ 32
    → n ≤ half / 4
    → max ≡ min + 4 * n
    → ((c : ℕ) × (l : Text) × (line ≡ c ∷ l))
    → extract 0 (some line) ≡ (min, some (b' ' ∷ print_hex 8 max []))
    → load_lines s m start 0 0 (line ∷ []) ≡ some (fill s min start 0 (main_words m min n))
unfolding after_copy
load_line-fill s m start min max n line i h k e (c, l, shape) first =
    let second : (extract 0 (some (b' ' ∷ print_hex 8 max []))).0 ≡ max =
      ap (λ r. r.0) (extract-space 0 (print_hex 8 max []) ∙ extract-print_hex 0 max [] h tt) in
    load_lines-one s m start line
    ∙ ap (λ r. after_copy s m start r.0 (extract 0 r.1).0 line) first
    ∙ ap₂ (λ b t. after_copy s m start min b t) second shape
    ∙ ap
        (λ (o : Copied). elim o as (λ x. Option L1Scratch) [
          | copied t ↦ some t
          | overloaded t ↦ some t
          | out_of_fuel ↦ none
        ])
        (copy_line-fill s m start min max n c l i h k e)

file-fill :
    (s : L1Scratch) (m : MemoryUnit) (start min n : ℕ)
    → IsStart start
    → min + 4 * n < 2 ^ 32
    → n ≤ half / 4
    → load_spm s m (some (print_range min (min + 4 * n))) start
      ≡ some (fill s min start 0 (main_words m min n))
unfolding load_spm
file-fill s m start min n i h k =
    let max = min + 4 * n in
    let rest = b' ' ∷ print_hex 8 max [] in
    ap (load_lines s m start 0 0) (
      getlines-line (print_range min max)
        (print_hex-NoNewline 8 min rest (refl, print_hex-NoNewline 8 max [] tt)))
    ∙ load_line-fill s m start min max n (print_range min max) i h k refl
        (print_hex-cons 7 min rest) (extract-print_hex 0 min rest (omega arith) refl)

-- A file of one range of words above 0, no longer than the half of the scratchpad, and a scratchpad
-- that holds no address of the range in that half: after `load_spm`, every word of the range is in the
-- scratchpad under its address, as main memory has it.
pub load_spm-resident :
    (s : L1Scratch) (m : MemoryUnit) (start min n k : ℕ)
    → IsStart start
    → 0 < min
    → min + 4 * n < 2 ^ 32
    → n ≤ half / 4
    → ((i : ℕ) → i < n → (j : ℕ) → j < n → s.main_memory_address (start / 4 + j) ≢ min + 4 * i)
    → k < n
    → (t : L1Scratch) × (load_spm s m (some (print_range min (min + 4 * n))) start ≡ some t)
      × (is_addr_in_spm t (min + 4 * k) ≡ true)
      × (Scratch.read t (min + 4 * k) ≡ read_word m (min + 4 * k))
load_spm-resident s m start min n k i p h le r lt =
    let ws = main_words m min n in
    let e = length-main_words m min n in
    let fits : Fits min start (length ws) = record {
      positive = p;
      no_wrap = omega (arith, e);
      aligned = i.0;
      in_range = omega (arith, e, i.1);
    } in
    let found =
      read-fill s min start ws k fits
        (λ a below j below'. r a (omega (arith, e)) j (omega (arith, e))) (omega (arith, e)) in
    (
      fill s min start 0 ws,
      file-fill s m start min n i h le,
      found.0,
      found.1 ∙ get_or-main_words m n min k lt,
    )
