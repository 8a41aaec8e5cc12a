-- ===== src/Load/Threads/Images.antt =====
-- What a thread starts with when its SREC file is a printed image.
use pret_iss.Prelude.{
  ℕ, ◌<◌, ◌^◌, ◌≡◌, ◌≢◌, refl, ap, ◌∙◌, Option, none, some, List, [], arith, ==_refl,
}
use pret_iss.Load.Srec.{SrecParser, Parsed, parsed, assertion, out_of_fuel, parse}
use pret_iss.Load.Srec.Print.{Record, print_image, store_image, AreRecords}
use pret_iss.Load.Srec.Files.{parse-print_image}
use pret_iss.Load.Threads.{ThreadFiles, Loading, with_spms, load_thread, start_thread}
use pret_iss.Load.Threads.Failures.{with_spms-some}

-- Loaded, with the thread at the address and the parser as it is.
abbrev Starts : ℕ → ℕ → SrecParser → Option Loading → Type 0
Starts i start p none = ⊥
Starts i start p (some l) = ((l.controller.pool i).pc ≡ start) × (l.parser ≡ p)

started-Starts :
    (i start : ℕ) (f : ThreadFiles) (p : SrecParser) (l : Loading)
    → with_spms i f start p l ≢ none
    → Starts i start p (with_spms i f start p l)
unfolding with_spms start_thread
started-Starts i start f p l h = ground (arith, ==_refl i)

Starts-some :
    (i start : ℕ) (p : SrecParser) (o : Option Loading)
    → Starts i start p o
    → (l : Loading) × (o ≡ some l) × ((l.controller.pool i).pc ≡ start) × (l.parser ≡ p)
Starts-some i start p none h = elim h [ ]
Starts-some i start p (some l) h = (l, refl, h.0, h.1)

-- Whatever the scratchpad files hold, a thread whose SREC file is an image of S3 records with fields as
-- wide as their digits is loaded: it starts at the address of the last record, and main memory holds
-- the words of the records.
pub load_thread-image :
    (i : ℕ) (f : ThreadFiles) (l : Loading) (rs : List Record) (start checksum : ℕ)
    → f.srec ≡ some (print_image rs start checksum)
    → AreRecords rs
    → start < 2 ^ 32
    → checksum < 2 ^ 8
    → (l' : Loading) × (load_thread i f l ≡ some l')
      × ((l'.controller.pool i).pc ≡ start)
      × (l'.parser.mem ≡ store_image l.parser.mem rs)
unfolding load_thread
load_thread-image i f l rs start checksum e h s c =
    let p : SrecParser = record {
      starting_addr = start;
      mem = store_image l.parser.mem rs;
      input = [];
    } in
    let found =
      Starts-some i start p (with_spms i f start p l)
        (started-Starts i start f p l (with_spms-some i start f p l)) in
    let read = ap (parse l.parser) e ∙ parse-print_image rs l.parser start checksum h s c in
    (
      found.0,
      ap
            (λ (r : Parsed × ℕ). elim r.0 as (λ x. Option Loading) [
              | parsed q ↦ with_spms i f r.1 q l
              | assertion ↦ none
              | out_of_fuel ↦ none
            ])
            read
          ∙ found.1,
      found.2,
      ap (λ q. q.mem) found.3,
    )
