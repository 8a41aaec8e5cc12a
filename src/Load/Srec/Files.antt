-- ===== src/Load/Srec/Files.antt =====
-- What `parse` of src/core/srec_parser.cpp does with a printed file.
use pret_iss.Prelude.{
  ℕ, zero, suc, ◌+◌, ◌^◌, ◌≤◌, ◌<◌, ◌≡◌, refl, ap, ◌∙◌, some, List, [], ◌∷◌, length, arith,
}
use pret_iss.Load.Scan.{Text, skip_space, scan_token}
use pret_iss.Load.Scan.Digits.{print_hex}
use pret_iss.Load.Srec.{
  SrecParser, more, eof, failed, Parsed, parsed, assertion, readline, read_lines, parse,
}
use pret_iss.Load.Srec.Print.{
  Record, print_words, print_record, print_image, store_words, store_image, AreRecords,
}
use pret_iss.Load.Srec.Records.{readline-data, readline-start}

length-print_words : (ws : List ℕ) (rest : Text) → length rest ≤ length (print_words ws rest)
length-print_words [] rest = omega arith
length-print_words (w ∷ ws) rest = omega (arith, length-print_words ws rest)

length-print_image :
    (rs : List Record) (start checksum : ℕ) → length rs + 2 ≤ length (print_image rs start checksum)
length-print_image [] start checksum = omega arith
length-print_image (r ∷ rs) start checksum = omega (
  arith,
  length-print_image rs start checksum,
  length-print_words r.words (print_hex 2 r.checksum (10 ∷ print_image rs start checksum)),
)

read_lines-more :
    (fuel : ℕ) (p q : SrecParser)
    → readline p ≡ more q
    → read_lines (suc fuel) p ≡ read_lines fuel q
unfolding read_lines
read_lines-more fuel p q e =
    ap
      (λ l. elim l as (λ x. Parsed) [
        | more q ↦ read_lines fuel q
        | eof q ↦ parsed q
        | failed ↦ assertion
      ])
      e

read_lines-newline :
    (fuel : ℕ) (p : SrecParser) (l : Text)
    → read_lines fuel (record p { input = 10 ∷ l }) ≡ read_lines fuel (record p { input = l })
unfolding read_lines
read_lines-newline zero p l = refl
read_lines-newline (suc fuel) p l = refl

read_lines-end :
    (fuel : ℕ) (p : SrecParser)
    → read_lines (suc fuel) (record p { input = [] }) ≡ parsed (record p { input = [] })
unfolding read_lines readline scan_token skip_space
read_lines-end fuel p = refl

read_lines-image :
    (rs : List Record) (fuel : ℕ) (p : SrecParser) (start checksum : ℕ)
    → length rs + 2 ≤ fuel
    → AreRecords rs
    → start < 2 ^ 32
    → checksum < 2 ^ 8
    → read_lines fuel (record p { input = print_image rs start checksum })
      ≡ parsed (record { starting_addr = start; mem = store_image p.mem rs; input = [] })
read_lines-image rs zero p start checksum h k s c = absurd (omega arith)
read_lines-image [] (suc zero) p start checksum h k s c = absurd (omega arith)
read_lines-image [] (suc (suc fuel)) p start checksum h k s c =
    read_lines-more (suc fuel) (record p { input = print_image [] start checksum })
      (record p { starting_addr = start; input = 10 ∷ [] }) (readline-start p start checksum s c)
    ∙ read_lines-newline (suc fuel) (record p { starting_addr = start }) []
    ∙ read_lines-end fuel (record p { starting_addr = start })
read_lines-image (r ∷ rs) (suc fuel) p start checksum h k s c =
    let q = record p { mem = store_words p.mem r.addr r.words } in
    let rest = print_image rs start checksum in
    read_lines-more fuel (record p { input = print_record b'3' r rest })
      (record q { input = 10 ∷ rest }) (readline-data p r rest k.0)
    ∙ read_lines-newline fuel q rest
    ∙ read_lines-image rs fuel q start checksum (omega arith) k.1 s c

-- A file of S3 records whose addresses, words and checksums are as wide as their digits, of 62 words
-- each at most, with an S7 record at the end, whatever the checksums are: `parse` stores the words of
-- all records in main memory from their addresses on, in order, and returns the address of the last
-- record.
pub parse-print_image :
    (rs : List Record) (p : SrecParser) (start checksum : ℕ)
    → AreRecords rs
    → start < 2 ^ 32
    → checksum < 2 ^ 8
    → parse p (some (print_image rs start checksum))
      ≡ (parsed (record { starting_addr = start; mem = store_image p.mem rs; input = [] }), start)
unfolding parse
parse-print_image rs p start checksum h s c =
    ap {B = Parsed × ℕ} (λ r. (r, elim r as (λ x. ℕ) [ parsed q ↦ q.starting_addr | _ ↦ 0 ]))
      (read_lines-image rs (suc (length (print_image rs start checksum))) p start checksum
        (omega (arith, length-print_image rs start checksum)) h s c)
