-- ===== src/Load/Scan/Digits.antt =====
-- Printing a number in hexadecimal with a fixed width, as the files have it, and scanning it again.
use pret_iss.Prelude.{
  ℕ, zero, suc, ◌+◌, ◌*◌, ◌/◌, ◌%◌, ◌<◌, ◌==◌, ltb, if◌then◌else◌, Bool, true, false, ◌||◌, ◌≡◌, ap,
  sym, ◌∙◌, none, some, [], ◌∷◌, arith,
}
use pret_iss.Load.Scan.{
  Text, is_space, skip_space, hex_value, digits, unsigned_hex, finish_hex, signed_hex, scan_hex,
}

abbrev pub hex_char : ℕ → ℕ
hex_char d = if ltb d 10 then d + 48 else d + 55

-- The last `width` digits of a number, before a text.
abbrev pub print_hex : ℕ → ℕ → Text → Text
print_hex zero n rest = rest
print_hex (suc width) n rest = print_hex width (n / 16) (hex_char (n % 16) ∷ rest)

-- The number has no more digits.
abbrev pub Fits : ℕ → ℕ → Type 0
Fits zero n = n ≡ 0
Fits (suc width) n = Fits width (n / 16)

pub hex_value-hex_char : (d : ℕ) → d < 16 → hex_value (hex_char d) ≡ some d
unfolding hex_value
hex_value-hex_char d h = ground arith

add_suc : (a b : ℕ) → a + suc b ≡ suc a + b
add_suc a b = omega arith

add_zero : (a : ℕ) → a + 0 ≡ a
add_zero a = omega arith

abbrev pub seen : ℕ → Bool
seen zero = false
seen (suc width) = true

digits-suc :
    (v value : ℕ) (b : Bool) (d : ℕ) (rest : Text)
    → d < 16
    → digits (suc v) value b (hex_char d ∷ rest) ≡ digits v (value * 16 + d) true rest
unfolding digits
digits-suc v value b d rest h =
    ap
      (λ o. elim o as (λ x. ℕ × Bool × Text) [
        | none ↦ (value, b, hex_char d ∷ rest)
        | some e ↦ digits v (value * 16 + e) true rest
      ])
      (hex_value-hex_char d h)

pub digits-print_hex :
    (width v n : ℕ) (rest : Text)
    → Fits width n
    → digits (width + v) 0 false (print_hex width n rest) ≡ digits v n (seen width) rest
digits-print_hex zero v n rest h = ground arith
digits-print_hex (suc width) v n rest h =
    ap (λ k. digits k 0 false (print_hex width (n / 16) (hex_char (n % 16) ∷ rest)))
      (sym (add_suc width v))
    ∙ digits-print_hex width (suc v) (n / 16) (hex_char (n % 16) ∷ rest) h
    ∙ digits-suc v (n / 16) (seen width) (n % 16) rest (omega arith)
    ∙ ap (λ k. digits v k true rest) (omega arith)

-- The text starts with two bytes that are neither white space nor part of a sign or a prefix.
abbrev pub Front : Text → Type 0
Front [] = ⊥
Front (c ∷ []) = ⊥
Front (c ∷ x ∷ l) =
    (is_space c ≡ false)
    × (c == b'-' ≡ false)
    × (c == b'+' ≡ false)
    × ((x == b'x' || x == b'X') ≡ false)

two-Front : (d e : ℕ) (l : Text) → d < 16 → e < 16 → Front (hex_char d ∷ hex_char e ∷ l)
two-Front d e l h k = (ground arith, ground arith, ground arith, ground arith)

pub print_hex-Front : (width n : ℕ) (rest : Text) → Front (print_hex (suc (suc width)) n rest)
print_hex-Front zero n rest = two-Front (n / 16 % 16) (n % 16) rest (omega arith) (omega arith)
print_hex-Front (suc width) n rest = print_hex-Front width (n / 16) (hex_char (n % 16) ∷ rest)

scan_hex-Front :
    (width : ℕ) (l : Text)
    → Front l
    → scan_hex (suc (suc width)) l ≡ finish_hex false (digits (suc (suc width)) 0 false l)
unfolding scan_hex skip_space signed_hex unsigned_hex
scan_hex-Front width [] h = elim h [ ]
scan_hex-Front width (c ∷ []) h = elim h [ ]
scan_hex-Front width (c ∷ x ∷ l) h = ground arith

-- A number printed with a width of two or more that holds it is scanned with that width as it was.
pub scan_hex-print_hex :
    (width n : ℕ) (rest : Text)
    → Fits (suc (suc width)) n
    → scan_hex (suc (suc width)) (print_hex (suc (suc width)) n rest) ≡ some (n, rest)
unfolding digits
scan_hex-print_hex width n rest h =
    scan_hex-Front width (print_hex (suc (suc width)) n rest) (print_hex-Front width n rest)
    ∙ ap (λ k. finish_hex false (digits k 0 false (print_hex (suc (suc width)) n rest)))
        (sym (add_zero (suc (suc width))))
    ∙ ap (finish_hex false) (digits-print_hex (suc (suc width)) 0 n rest h)
