-- ===== src/Load/Scan/Lengths.antt =====
-- What the scanners leave is never longer than what they were given.
use pret_iss.Prelude.{
  ℕ, zero, suc, ◌+◌, ◌*◌, ◌≤◌, ◌<◌, Bool, true, false, ◌≡◌, Option, none, some, [], ◌∷◌, length,
  arith,
}
use pret_iss.Load.Scan.{
  Text, is_space, skip_space, token, token_of, scan_token, hex_value, digits, unsigned_hex,
  finish_hex, signed_hex, scan_hex,
}

pub length-skip_space : (l : Text) → length (skip_space l) ≤ length l
unfolding skip_space
length-skip_space [] = omega arith
length-skip_space (c ∷ l) = ground (arith, length-skip_space l)

-- The first byte that is left is no white space.
abbrev pub StartsWord : Text → Type 0
StartsWord [] = Unit {0}
StartsWord (c ∷ l) = is_space c ≡ false

pub skip_space-StartsWord : (l : Text) → StartsWord (skip_space l)
unfolding skip_space
skip_space-StartsWord [] = tt
skip_space-StartsWord (c ∷ l) = ground (arith, skip_space-StartsWord l)

length-token : (width : ℕ) (l : Text) → length (token width l).1 ≤ length l
unfolding token
length-token zero l = omega arith
length-token (suc width) [] = omega arith
length-token (suc width) (c ∷ l) = ground (arith, length-token width l)

length-token_word :
    (width c : ℕ) (l : Text)
    → is_space c ≡ false
    → length (token (suc width) (c ∷ l)).1 < length (c ∷ l)
unfolding token
length-token_word width c l h = ground (arith, length-token width l)

-- What the result leaves is shorter than `n` bytes.
abbrev pub Leaves {ℓ} : {A : Type ℓ} → ℕ → Option (A × Text) → Type 0
Leaves n none = Unit {0}
Leaves n (some (a, rest)) = length rest < n

Leaves-weaken {ℓ} : {A : Type ℓ} (m n : ℕ) (o : Option (A × Text)) → m ≤ n → Leaves m o → Leaves n o
Leaves-weaken m n none h k = tt
Leaves-weaken m n (some (a, rest)) h k = omega arith

token_of-Leaves : (width : ℕ) (l : Text) → StartsWord l → Leaves (length l) (token_of (suc width) l)
token_of-Leaves width [] h = tt
token_of-Leaves width (c ∷ l) h = length-token_word width c l h

-- A token takes a byte at least.
pub scan_token-Leaves : (width : ℕ) (l : Text) → Leaves (length l) (scan_token (suc width) l)
unfolding scan_token
scan_token-Leaves width l =
    Leaves-weaken (length (skip_space l)) (length l) (token_of (suc width) (skip_space l))
      (length-skip_space l) (token_of-Leaves width (skip_space l) (skip_space-StartsWord l))

length-digits :
    (width value : ℕ) (seen : Bool) (l : Text) → length (digits width value seen l).2 ≤ length l
unfolding digits
length-digits zero value seen l = omega arith
length-digits (suc width) value seen [] = omega arith
length-digits (suc width) value seen (c ∷ l) =
    elim (hex_value c)
      as (λ o.
        length
          (elim o as (λ x. ℕ × Bool × Text) [
            | none ↦ (value, seen, c ∷ l)
            | some d ↦ digits width (value * 16 + d) true l
          ]).2
        ≤ suc (length l)) [
          | none ↦ omega arith
          | some d ↦ omega (arith, length-digits width (value * 16 + d) true l)
        ]

length-unsigned_hex : (width : ℕ) (l : Text) → length (unsigned_hex width l).2 ≤ length l
unfolding unsigned_hex
length-unsigned_hex (suc (suc width)) (c ∷ x ∷ l) =
    ground
      (arith, length-digits width 0 false l, length-digits (suc (suc width)) 0 false (c ∷ x ∷ l))
length-unsigned_hex zero l = length-digits zero 0 false l
length-unsigned_hex (suc zero) l = length-digits (suc zero) 0 false l
length-unsigned_hex (suc (suc width)) [] = length-digits (suc (suc width)) 0 false []
length-unsigned_hex (suc (suc width)) (c ∷ []) = length-digits (suc (suc width)) 0 false (c ∷ [])

finish_hex-Leaves :
    (negative : Bool) (n : ℕ) (r : ℕ × Bool × Text)
    → length r.2 < n
    → Leaves n (finish_hex negative r)
finish_hex-Leaves negative n (value, true, rest) h = h
finish_hex-Leaves negative n (value, false, rest) h = tt

signed_hex-Leaves : (width : ℕ) (l : Text) → Leaves (suc (length l)) (signed_hex width l)
unfolding signed_hex
signed_hex-Leaves zero l = tt
signed_hex-Leaves (suc width) [] = tt
signed_hex-Leaves (suc width) (c ∷ l) = ground (
  arith,
  finish_hex-Leaves true (suc (suc (length l))) (unsigned_hex width l)
      (omega (arith, length-unsigned_hex width l)),
  finish_hex-Leaves false (suc (suc (length l))) (unsigned_hex width l)
      (omega (arith, length-unsigned_hex width l)),
  finish_hex-Leaves false (suc (suc (length l))) (unsigned_hex (suc width) (c ∷ l))
      (omega (arith, length-unsigned_hex (suc width) (c ∷ l))),
)

pub scan_hex-Leaves : (width : ℕ) (l : Text) → Leaves (suc (length l)) (scan_hex width l)
unfolding scan_hex
scan_hex-Leaves width l =
    Leaves-weaken (suc (length (skip_space l))) (suc (length l)) (signed_hex width (skip_space l))
      (omega (arith, length-skip_space l)) (signed_hex-Leaves width (skip_space l))
