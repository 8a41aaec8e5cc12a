-- ===== src/Load/Srec/Records.antt =====
-- What `_readline` of src/core/srec_parser.cpp does with a printed record.
use pret_iss.Prelude.{
  ℕ, ◌+◌, ◌*◌, ◌/◌, ◌%◌, ◌^◌, ◌≤◌, ◌<◌, false, ◌≡◌, refl, ap, ◌∙◌, none, some, [], ◌∷◌, length,
  get_or, sub32, arith,
}
use pret_iss.Load.Scan.{Text, is_space, skip_space, token, scan_token, scan_hex}
use pret_iss.Load.Scan.Digits.{print_hex}
use pret_iss.Load.Srec.{
  SrecParser, Line, more, eof, failed, skip_token, read_words, read_record, with_address,
  after_count, readline,
}
use pret_iss.Load.Srec.Print.{
  Record, print_words, print_record, print_image, store_words, IsRecord, scan-word, scan-byte,
  read_words-print, skip_checksum,
}

pub readline-newline :
    (p : SrecParser) (l : Text)
    → readline (record p { input = 10 ∷ l }) ≡ readline (record p { input = l })
unfolding readline scan_token skip_space
readline-newline p l = refl

scan_type :
    (kind : ℕ) (l : Text)
    → is_space kind ≡ false
    → scan_token 2 (b'S' ∷ kind ∷ l) ≡ some (b'S' ∷ kind ∷ [], l)
unfolding scan_token skip_space token
scan_type kind l h = ground arith

-- The type and the count are read, and the rest of the line is left to `after_count`.
readline-count :
    (kind count : ℕ) (p : SrecParser) (l : Text)
    → is_space kind ≡ false
    → count < 2 ^ 8
    → readline (record p { input = b'S' ∷ kind ∷ print_hex 2 count l })
      ≡ after_count kind count (record p { input = l })
unfolding readline
readline-count kind count p l h k =
    ap
      (λ o. elim o as (λ x. Line) [
        | none ↦ eof (record p { input = [] })
        | some (s_type, rest) ↦ elim (scan_hex 2 rest) as (λ x. Line) [
          | none ↦ failed
          | some (remaining_bytes, after) ↦
              after_count (get_or s_type 1 0) remaining_bytes (record p { input = after })
        ]
      ])
      (scan_type kind (print_hex 2 count l) h)
    ∙ ap
        (λ o. elim o as (λ x. Line) [
          | none ↦ failed
          | some (remaining_bytes, after) ↦
              after_count kind remaining_bytes (record p { input = after })
        ])
        (scan-byte count l k)

with_address-print :
    (kind count addr : ℕ) (p : SrecParser) (l : Text)
    → addr < 2 ^ 32
    → with_address kind count 4 (record p { input = print_hex 8 addr l })
      ≡ read_record kind (sub32 count 4) addr (record p { input = l })
unfolding with_address
with_address-print kind count addr p l h =
    ap
      (λ o. elim o as (λ x. Line) [
        | none ↦ failed
        | some (a, after) ↦ read_record kind (sub32 count 4) a (record p { input = after })
      ])
      (scan-word addr l h)

after_count-data :
    (count : ℕ) (p : SrecParser) → after_count b'3' count p ≡ with_address b'3' count 4 p
unfolding after_count
after_count-data count p = refl

after_count-start :
    (count : ℕ) (p : SrecParser) → after_count b'7' count p ≡ with_address b'7' count 4 p
unfolding after_count
after_count-start count p = refl

read_record-words :
    (m addr : ℕ) (p : SrecParser)
    → m < 2 ^ 31
    → m % 4 ≡ 1
    → read_record b'3' m addr p
      ≡ elim (read_words (m / 4) addr p) as (λ x. Line) [ none ↦ failed | some q ↦ skip_token 2 q ]
unfolding read_record
read_record-words m addr p h k = ground arith

read_record-data :
    (n addr : ℕ) (p : SrecParser)
    → n ≤ 62
    → read_record b'3' (sub32 (n * 4 + 5) 4) addr p
      ≡ elim (read_words n addr p) as (λ x. Line) [ none ↦ failed | some q ↦ skip_token 2 q ]
read_record-data n addr p h =
    read_record-words (sub32 (n * 4 + 5) 4) addr p (omega arith) (omega arith)
    ∙ ap
        (λ k. elim (read_words k addr p) as (λ x. Line) [ none ↦ failed | some q ↦ skip_token 2 q ])
        (omega arith)

pub readline-data :
    (p : SrecParser) (r : Record) (rest : Text)
    → IsRecord r
    → readline (record p { input = print_record b'3' r rest })
      ≡ more (record p { mem = store_words p.mem r.addr r.words; input = 10 ∷ rest })
readline-data p r rest h =
    let n = length r.words in
    let tail = print_hex 2 r.checksum (10 ∷ rest) in
    let words = print_words r.words tail in
    readline-count b'3' (n * 4 + 5) p (print_hex 8 r.addr words) refl (omega arith)
    ∙ after_count-data (n * 4 + 5) (record p { input = print_hex 8 r.addr words })
    ∙ with_address-print b'3' (n * 4 + 5) r.addr p words h.0
    ∙ read_record-data n r.addr (record p { input = words }) h.1
    ∙ ap (λ o. elim o as (λ x. Line) [ none ↦ failed | some q ↦ skip_token 2 q ])
        (read_words-print r.words r.addr p tail h.2)
    ∙ skip_checksum r.checksum (record p { mem = store_words p.mem r.addr r.words }) rest h.3

pub readline-start :
    (p : SrecParser) (start checksum : ℕ)
    → start < 2 ^ 32
    → checksum < 2 ^ 8
    → readline (record p { input = print_image [] start checksum })
      ≡ more (record p { starting_addr = start; input = 10 ∷ [] })
unfolding read_record
readline-start p start checksum h k =
    let tail = print_hex 2 checksum (10 ∷ []) in
    readline-count b'7' 5 p (print_hex 8 start tail) refl (omega arith)
    ∙ after_count-start 5 (record p { input = print_hex 8 start tail })
    ∙ with_address-print b'7' 5 start p tail h
    ∙ skip_checksum checksum (record p { starting_addr = start }) [] k
