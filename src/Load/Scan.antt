-- ===== src/Load/Scan.antt =====
-- What `fscanf` and the stream operators do with a text of bytes, as the parsers of src/core use them:
-- `%2s` and `%s`, and `%4x` with a width.
pub mod Lengths
pub mod Digits
use pret_iss.Prelude.{
  ℕ, zero, suc, ◌+◌, ◌-◌, ◌*◌, ◌^◌, ◌==◌, leb, if◌then◌else◌, Bool, true, false, ◌&&◌, ◌||◌, Option,
  none, some, List, [], ◌∷◌, u32,
}

abbrev pub Text : Type 0
Text = List ℕ

-- `isspace`
abbrev pub is_space : ℕ → Bool
is_space c = c == b' ' || (leb 9 c && leb c 13)

unfoldable pub skip_space : Text → Text
skip_space [] = []
skip_space (c ∷ l) = let rest = skip_space l in if is_space c then rest else c ∷ l

-- At most `width` bytes up to the next white space, and what follows them.
unfoldable pub token : ℕ → Text → Text × Text
token zero l = ([], l)
token (suc width) [] = ([], [])
token (suc width) (c ∷ l) =
    let (t, rest) = token width l in if is_space c then ([], c ∷ l) else (c ∷ t, rest)

abbrev pub token_of : ℕ → Text → Option (Text × Text)
token_of width [] = none
token_of width (c ∷ l) = some (token width (c ∷ l))

-- `%s` with a width: nothing at the end of the text.
unfoldable pub scan_token : ℕ → Text → Option (Text × Text)
unfolding skip_space token
scan_token width l = token_of width (skip_space l)

unfoldable pub hex_value : ℕ → Option ℕ
hex_value c =
    if leb b'0' c && leb c b'9'
    then some (c - b'0')
    else if leb b'A' c && leb c b'F'
    then some (c - 55)
    else if leb b'a' c && leb c b'f'
    then some (c - 87)
    else none

-- At most `width` digits: the number, whether there was one, and what follows.
unfoldable pub digits : ℕ → ℕ → Bool → Text → ℕ × Bool × Text
unfolding hex_value
digits zero value seen l = (value, seen, l)
digits (suc width) value seen [] = (value, seen, [])
digits (suc width) value seen (c ∷ l) = elim (hex_value c) [
  | none ↦ (value, seen, c ∷ l)
  | some d ↦ digits width (value * 16 + d) true l
]

-- After the sign: `0x` and the digits. Of the text "0x" with no digit after it nothing is read.
unfoldable pub unsigned_hex : ℕ → Text → ℕ × Bool × Text
unfolding digits
unsigned_hex (suc (suc width)) (c ∷ x ∷ l) =
    if c == b'0' && (x == b'x' || x == b'X')
    then digits width 0 false l
    else digits (suc (suc width)) 0 false (c ∷ x ∷ l)
unsigned_hex width l = digits width 0 false l

abbrev pub finish_hex : Bool → ℕ × Bool × Text → Option (ℕ × Text)
finish_hex negative (value, true, rest) =
    some (if negative then u32 (2 ^ 32 - value) else value, rest)
finish_hex negative (value, false, rest) = none

unfoldable pub signed_hex : ℕ → Text → Option (ℕ × Text)
unfolding unsigned_hex
signed_hex (suc width) (c ∷ l) =
    if c == b'-'
    then finish_hex true (unsigned_hex width l)
    else if c == b'+'
    then finish_hex false (unsigned_hex width l)
    else finish_hex false (unsigned_hex (suc width) (c ∷ l))
signed_hex width l = none

-- `%x` with a width of at most 8, into a word: nothing if there is no number.
unfoldable pub scan_hex : ℕ → Text → Option (ℕ × Text)
unfolding skip_space signed_hex
scan_hex width l = signed_hex width (skip_space l)
