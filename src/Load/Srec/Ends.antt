-- ===== src/Load/Srec/Ends.antt =====
-- Why the loop of `parse` in src/core/srec_parser.cpp comes to an end: each line takes a byte.
use pret_iss.Prelude.{
  ℕ, zero, suc, ◌*◌, ◌/◌, ◌≤◌, ◌<◌, ◌≢◌, Option, none, some, [], ◌∷◌, length, get_or, sub32, add32,
  arith,
}
use pret_iss.Memory.Unit.{add_address}
use pret_iss.Load.Scan.{Text, scan_token, scan_hex, skip_space}
use pret_iss.Load.Scan.Lengths.{Leaves, scan_token-Leaves, scan_hex-Leaves}
use pret_iss.Load.Srec.{
  SrecParser, Line, more, eof, failed, Parsed, parsed, assertion, out_of_fuel, skip_token,
  read_words, read_record, with_address, after_count, readline, read_lines, parse,
}

-- If there is more to read, then it is less than `n` bytes.
abbrev Shrinks : ℕ → Line → Type 0
Shrinks n (more p) = length p.input < n
Shrinks n (eof p) = Unit {0}
Shrinks n failed = Unit {0}

Shrinks-weaken : (m n : ℕ) (l : Line) → m ≤ n → Shrinks m l → Shrinks n l
Shrinks-weaken m n (more p) h k = omega arith
Shrinks-weaken m n (eof p) h k = tt
Shrinks-weaken m n failed h k = tt

skip_token-Shrinks :
    (width : ℕ) (p : SrecParser) → Shrinks (length p.input) (skip_token (suc width) p)
unfolding skip_token
skip_token-Shrinks width p = ground (arith, scan_token-Leaves width p.input)

skip_all-Shrinks :
    (l : Text) (p : SrecParser)
    → Shrinks (length l) (skip_token (length l) (record p { input = l }))
unfolding skip_token scan_token skip_space
skip_all-Shrinks [] p = tt
skip_all-Shrinks (c ∷ l) p = skip_token-Shrinks (length l) (record p { input = c ∷ l })

-- A scan of the text, and what is done with its result.
on_scan {ℓ} :
    {A : Type ℓ} (n m : ℕ) (o : Option (A × Text)) (f : A → Text → Line)
    → Leaves n o
    → ((a : A) (rest : Text) → length rest < n → Shrinks m (f a rest))
    → Shrinks m (elim o as (λ x. Line) [ none ↦ failed | some (a, rest) ↦ f a rest ])
on_scan n m none f h step = tt
on_scan n m (some (a, rest)) f h step = step a rest h

-- The words that are read leave no more than there was.
abbrev Kept : ℕ → Option SrecParser → Type 0
Kept n none = Unit {0}
Kept n (some p) = length p.input ≤ n

Kept-weaken : (m n : ℕ) (o : Option SrecParser) → m ≤ n → Kept m o → Kept n o
Kept-weaken m n none h k = tt
Kept-weaken m n (some p) h k = omega arith

on_word :
    (m : ℕ) (o : Option (ℕ × Text)) (f : ℕ → Text → Option SrecParser)
    → Leaves (suc m) o
    → ((w : ℕ) (rest : Text) → Kept (length rest) (f w rest))
    → Kept m (elim o as (λ x. Option SrecParser) [ none ↦ none | some (w, rest) ↦ f w rest ])
on_word m none f h step = tt
on_word m (some (w, rest)) f h step =
    Kept-weaken (length rest) m (f w rest) (omega arith) (step w rest)

read_words-Kept : (n addr : ℕ) (p : SrecParser) → Kept (length p.input) (read_words n addr p)
unfolding read_words
read_words-Kept zero addr p = omega arith
read_words-Kept (suc n) addr p =
    let rest_of : ℕ → Text → SrecParser =
      λ w rest. record p { mem = add_address p.mem addr w; input = rest } in
    on_word (length p.input) (scan_hex 8 p.input)
      (λ w rest. read_words n (add32 addr 4) (rest_of w rest)) (scan_hex-Leaves 8 p.input)
      (λ w rest. read_words-Kept n (add32 addr 4) (rest_of w rest))

on_words :
    (m : ℕ) (o : Option SrecParser)
    → Kept m o
    → Shrinks m (elim o as (λ x. Line) [ none ↦ failed | some q ↦ skip_token 2 q ])
on_words m none h = tt
on_words m (some q) h =
    Shrinks-weaken (length q.input) m (skip_token 2 q) h (skip_token-Shrinks 1 q)

read_record-Shrinks :
    (kind remaining_bytes addr : ℕ) (p : SrecParser)
    → Shrinks (length p.input) (read_record kind remaining_bytes addr p)
unfolding read_record
read_record-Shrinks kind remaining_bytes addr p =
    let started = skip_token-Shrinks 1 (record p { starting_addr = addr }) in
    let words = read_words (remaining_bytes / 4) addr p in
    let h = on_words (length p.input) words (read_words-Kept (remaining_bytes / 4) addr p) in
    ground (arith, started, h)

with_address-Shrinks :
    (kind remaining_bytes bytes : ℕ) (p : SrecParser)
    → Shrinks (length p.input) (with_address kind remaining_bytes bytes p)
unfolding with_address
with_address-Shrinks kind remaining_bytes bytes p =
    let f = λ (addr : ℕ) (rest : Text).
      read_record kind (sub32 remaining_bytes bytes) addr (record p { input = rest }) in
    on_scan (suc (length p.input)) (length p.input) (scan_hex (2 * bytes) p.input) f
      (scan_hex-Leaves (2 * bytes) p.input)
      (λ addr rest h.
        Shrinks-weaken (length rest) (length p.input) (f addr rest) (omega arith)
          (read_record-Shrinks kind (sub32 remaining_bytes bytes) addr (record p { input = rest })))

after_count-Shrinks :
    (kind remaining_bytes : ℕ) (p : SrecParser)
    → Shrinks (length p.input) (after_count kind remaining_bytes p)
unfolding after_count
after_count-Shrinks kind remaining_bytes p = ground (
  arith,
  with_address-Shrinks kind remaining_bytes 2 p,
  with_address-Shrinks kind remaining_bytes 3 p,
  with_address-Shrinks kind remaining_bytes 4 p,
  skip_all-Shrinks p.input p,
)

counted-Shrinks :
    (kind : ℕ) (p : SrecParser) (rest : Text)
    → Shrinks (suc (length rest)) (elim (scan_hex 2 rest) as (λ x. Line) [
      | none ↦ failed
      | some (remaining_bytes, rest') ↦
          after_count kind remaining_bytes (record p { input = rest' })
    ])
counted-Shrinks kind p rest =
    let f = λ (remaining_bytes : ℕ) (rest' : Text).
      after_count kind remaining_bytes (record p { input = rest' }) in
    on_scan (suc (length rest)) (suc (length rest)) (scan_hex 2 rest) f (scan_hex-Leaves 2 rest)
      (λ remaining_bytes rest' h.
        Shrinks-weaken (length rest') (suc (length rest)) (f remaining_bytes rest') (omega arith)
          (after_count-Shrinks kind remaining_bytes (record p { input = rest' })))

on_type :
    (p : SrecParser) (o : Option (Text × Text))
    → Leaves (length p.input) o
    → Shrinks (length p.input) (elim o as (λ x. Line) [
      | none ↦ eof (record p { input = [] })
      | some (s_type, rest) ↦ elim (scan_hex 2 rest) as (λ x. Line) [
        | none ↦ failed
        | some (remaining_bytes, rest') ↦
            after_count (get_or s_type 1 0) remaining_bytes (record p { input = rest' })
      ]
    ])
on_type p none h = tt
on_type p (some (s_type, rest)) h =
    Shrinks-weaken (suc (length rest)) (length p.input) _ h
      (counted-Shrinks (get_or s_type 1 0) p rest)

after_line :
    (fuel : ℕ) (l : Line) (n : ℕ)
    → n ≤ fuel
    → Shrinks n l
    → ((q : SrecParser) → length q.input < fuel → read_lines fuel q ≢ out_of_fuel)
    → (elim l as (λ x. Parsed) [
      | more q ↦ read_lines fuel q
      | eof q ↦ parsed q
      | failed ↦ assertion
    ])
      ≢ out_of_fuel
after_line fuel (more q) n h s step = step q (omega arith)
after_line fuel (eof q) n h s step = λ e. cc
after_line fuel failed n h s step = λ e. cc

readline-Shrinks : (p : SrecParser) → Shrinks (length p.input) (readline p)
unfolding readline
readline-Shrinks p = on_type p (scan_token 2 p.input) (scan_token-Leaves 1 p.input)

read_lines-ends :
    (fuel : ℕ) (p : SrecParser) → length p.input < fuel → read_lines fuel p ≢ out_of_fuel
unfolding read_lines
read_lines-ends zero p h = absurd (omega arith)
read_lines-ends (suc fuel) p h =
    after_line fuel (readline p) (length p.input) (omega arith) (readline-Shrinks p)
      (λ q k. read_lines-ends fuel q k)

-- `parse` comes to an end for every file: the fuel, one more than the bytes of the file, is enough.
pub parse-ends : (p : SrecParser) (file : Option Text) → (parse p file).0 ≢ out_of_fuel
unfolding parse
parse-ends p none = λ e. cc
parse-ends p (some file) =
    read_lines-ends (suc (length file)) (record p { input = file }) (omega arith)
