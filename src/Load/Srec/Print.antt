-- ===== src/Load/Srec/Print.antt =====
-- Files of S3 records and a closing S7 record, and what `parse` of src/core/srec_parser.cpp makes of them.
use pret_iss.Prelude.{
  ℕ, ◌+◌, ◌*◌, ◌^◌, ◌≤◌, ◌<◌, ◌≡◌, refl, ap, ◌∙◌, Option, none, some, List, [], ◌∷◌, length, add32,
  arith,
}
use pret_iss.Memory.Unit.{MemoryUnit, add_address}
use pret_iss.Load.Scan.{Text, skip_space, token, scan_token, scan_hex}
use pret_iss.Load.Scan.Digits.{print_hex, scan_hex-print_hex}
use pret_iss.Load.Srec.{SrecParser, more, skip_token, read_words}

-- A record of words from an address on, with a checksum, which the parser does not look at.
pub record Record : Type 0 where
  pub addr : ℕ
  pub words : List ℕ
  pub checksum : ℕ

abbrev pub print_words : List ℕ → Text → Text
print_words [] rest = rest
print_words (w ∷ ws) rest = print_hex 8 w (print_words ws rest)

-- A record of a kind with its bytes counted, and the end of the line.
abbrev pub print_record : ℕ → Record → Text → Text
print_record kind r rest =
    b'S'
    ∷ kind
    ∷ print_hex 2 (length r.words * 4 + 5)
        (print_hex 8 r.addr (print_words r.words (print_hex 2 r.checksum (10 ∷ rest))))

abbrev pub print_image : List Record → ℕ → ℕ → Text
print_image [] start checksum =
    print_record b'7' (record { addr = start; words = []; checksum = checksum }) []
print_image (r ∷ rs) start checksum = print_record b'3' r (print_image rs start checksum)

abbrev pub store_words : MemoryUnit → ℕ → List ℕ → MemoryUnit
store_words m addr [] = m
store_words m addr (w ∷ ws) = store_words (add_address m addr w) (add32 addr 4) ws

abbrev pub store_image : MemoryUnit → List Record → MemoryUnit
store_image m [] = m
store_image m (r ∷ rs) = store_image (store_words m r.addr r.words) rs

abbrev pub AreWords : List ℕ → Type 0
AreWords [] = Unit {0}
AreWords (w ∷ ws) = (w < 2 ^ 32) × AreWords ws

-- The fields are as wide as their digits, and the bytes can be counted by two digits.
abbrev pub IsRecord : Record → Type 0
IsRecord r = (r.addr < 2 ^ 32) × (length r.words ≤ 62) × AreWords r.words × (r.checksum < 2 ^ 8)

abbrev pub AreRecords : List Record → Type 0
AreRecords [] = Unit {0}
AreRecords (r ∷ rs) = IsRecord r × AreRecords rs

pub scan-word :
    (n : ℕ) (rest : Text) → n < 2 ^ 32 → scan_hex 8 (print_hex 8 n rest) ≡ some (n, rest)
scan-word n rest h = scan_hex-print_hex 6 n rest (omega arith)

pub scan-byte : (n : ℕ) (rest : Text) → n < 2 ^ 8 → scan_hex 2 (print_hex 2 n rest) ≡ some (n, rest)
scan-byte n rest h = scan_hex-print_hex 0 n rest (omega arith)

pub read_words-print :
    (ws : List ℕ) (addr : ℕ) (p : SrecParser) (rest : Text)
    → AreWords ws
    → read_words (length ws) addr (record p { input = print_words ws rest })
      ≡ some (record p { mem = store_words p.mem addr ws; input = rest })
unfolding read_words
read_words-print [] addr p rest h = refl
read_words-print (w ∷ ws) addr p rest h =
    ap
      (λ o. elim o as (λ x. Option SrecParser) [
        | none ↦ none
        | some (word, after) ↦
            read_words (length ws) (add32 addr 4)
              (record p { mem = add_address p.mem addr word; input = after })
      ])
      (scan-word w (print_words ws rest) h.0)
    ∙ read_words-print ws (add32 addr 4) (record p { mem = add_address p.mem addr w }) rest h.1

pub skip_checksum :
    (n : ℕ) (p : SrecParser) (rest : Text)
    → n < 2 ^ 8
    → skip_token 2 (record p { input = print_hex 2 n (10 ∷ rest) })
      ≡ more (record p { input = 10 ∷ rest })
unfolding skip_token scan_token skip_space token
skip_checksum n p rest h = ground arith
