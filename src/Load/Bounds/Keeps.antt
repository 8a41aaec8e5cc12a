-- ===== src/Load/Bounds/Keeps.antt =====
-- What `load_spm` of src/core/static_bound_parser.cpp leaves as it was.
use pret_iss.Prelude.{
  ℕ, zero, suc, ◌+◌, ◌/◌, ◌^◌, ◌≤◌, ◌<◌, ltb, leb, ◌≡◌, ◌≢◌, ◌⊎◌, inl, inr, refl, ◌∙◌, Option, none,
  some, List, [], ◌∷◌, add32, arith, Bool-cases,
}
use pret_iss.Memory.Unit.{
  MemoryUnit, read_word, has_address, remove_address, read_word-add_address,
  has_address-add_address, has_address-remove_address, read_word-remove_address,
}
use pret_iss.Memory.Scratch.{L1Scratch, add_addr}
use pret_iss.Load.Scan.{Text}
use pret_iss.Load.Bounds.{
  Copied, copied, overloaded, out_of_fuel, copy, half, copy_fuel, copy_line, extract, getlines,
  load_lines, load_spm,
}
use pret_iss.Load.Bounds.Slots.{IsStart, Loaded, load_spm-Loaded}

-- No slot of the half holds the address.
abbrev pub Spared : ℕ → ℕ → L1Scratch → Type 0
Spared start x s =
    (slot : ℕ) → start / 4 ≤ slot → slot < (start + half) / 4 → s.main_memory_address slot ≢ x

-- The addresses from one on, up to an end, are not `x`; below an end this close to 2 ^ 32 they may wrap.
abbrev pub Misses : ℕ → ℕ → ℕ → Type 0
Misses x addr max = (max ≤ x) ⊎ ((x < addr) × (max + 3 < 2 ^ 32))

-- No range of the lines has `x`.
abbrev pub MissedBy : ℕ → ℕ → ℕ → List Text → Type 0
MissedBy x min max [] = Unit {0}
MissedBy x min max (line ∷ lines) =
    let min' = (extract min (some line)).0 in
    let max' = (extract max (extract min (some line)).1).0 in
    Misses x min' max' × MissedBy x min' max' lines

abbrev pub MissedByFile : ℕ → Option Text → Type 0
MissedByFile x none = Unit {0}
MissedByFile x (some file) = MissedBy x 0 0 (getlines file)

-- `x` is in the second scratchpad with the same word as in the first, or in neither.
abbrev pub SameAt : ℕ → L1Scratch → L1Scratch → Type 0
SameAt x s t = (has_address t.mem x ≡ has_address s.mem x) × (read_word t.mem x ≡ read_word s.mem x)

abbrev Kept : ℕ → ℕ → L1Scratch → L1Scratch → Type 0
Kept start x s t = Spared start x t × SameAt x s t

Kept-trans :
    (start x : ℕ) (s t u : L1Scratch) → Kept start x s t → Kept start x t u → Kept start x s u
Kept-trans start x s t u h k = (k.0, (k.1.0 ∙ h.1.0, k.1.1 ∙ h.1.1))

add_addr-Kept :
    (start x : ℕ) (s : L1Scratch) (addr spm_addr word : ℕ)
    → IsStart start
    → start ≤ spm_addr
    → spm_addr < start + half
    → addr ≢ x
    → Spared start x s
    → Kept start x s (add_addr s addr spm_addr word)
unfolding add_addr
add_addr-Kept start x s addr spm_addr word i h k ne spared =
    let old = s.main_memory_address (spm_addr / 4) in
    let free : old ≢ x = spared (spm_addr / 4) (omega arith) (omega (arith, i.0)) in
    (
      λ slot lo hi. ground (arith, spared slot lo hi),
      (
        ground (
          arith,
          free,
          has_address-add_address (remove_address s.mem old) addr word x,
          has_address-remove_address s.mem old x,
        ),
        ground (
          arith,
          free,
          read_word-add_address (remove_address s.mem old) addr word x,
          read_word-remove_address s.mem old x,
        ),
      ),
    )

abbrev KeptBy : ℕ → ℕ → L1Scratch → Copied → Type 0
KeptBy start x s (copied t) = Kept start x s t
KeptBy start x s (overloaded t) = Kept start x s t
KeptBy start x s out_of_fuel = Unit {0}

KeptBy-trans :
    (start x : ℕ) (s t : L1Scratch) (c : Copied)
    → Kept start x s t
    → KeptBy start x t c
    → KeptBy start x s c
KeptBy-trans start x s t (copied u) h k = Kept-trans start x s t u h k
KeptBy-trans start x s t (overloaded u) h k = Kept-trans start x s t u h k
KeptBy-trans start x s t out_of_fuel h k = tt

copy-KeptBy :
    (fuel start x : ℕ) (s : L1Scratch) (m : MemoryUnit) (addr max spm_addr : ℕ)
    → IsStart start
    → start ≤ spm_addr
    → Misses x addr max
    → Spared start x s
    → KeptBy start x s (copy fuel s m addr max spm_addr (start + half))
unfolding copy
copy-KeptBy zero start x s m addr max spm_addr i h miss spared = tt
copy-KeptBy (suc fuel) start x s m addr max spm_addr i h miss spared =
    elim (Bool-cases (ltb addr max)) [
      | inr e ↦ rw e (spared, (refl, refl))
      | inl e ↦ rw e (elim (Bool-cases (leb (start + half) spm_addr)) [
        | inl e' ↦ rw e' (spared, (refl, refl))
        | inr e' ↦
            let t = add_addr s addr spm_addr (read_word m addr) in
            let one =
              add_addr-Kept start x s addr spm_addr (read_word m addr) i h (ground arith)
                (ground arith) spared in
            rw e' (
              KeptBy-trans start x s t _ one (
                copy-KeptBy fuel start x t m (add32 addr 4) max (add32 spm_addr 4) i (ground arith)
                  (ground arith) one.0))
      ])
    ]

copy_line-KeptBy :
    (start x : ℕ) (s : L1Scratch) (m : MemoryUnit) (min max : ℕ) (line : Text)
    → IsStart start
    → Misses x min max
    → Spared start x s
    → KeptBy start x s (copy_line s m start min max line)
unfolding copy_line
copy_line-KeptBy start x s m min max [] i miss spared = (spared, (refl, refl))
copy_line-KeptBy start x s m min max (c ∷ l) i miss spared =
    copy-KeptBy copy_fuel start x s m min max start i (omega arith) miss spared

abbrev KeptIn : ℕ → L1Scratch → Option L1Scratch → Type 0
KeptIn x s none = Unit {0}
KeptIn x s (some t) = SameAt x s t

after_line :
    (start x : ℕ) (s : L1Scratch) (c : Copied) (f : L1Scratch → Option L1Scratch)
    → KeptBy start x s c
    → ((t : L1Scratch) → Spared start x t → KeptIn x t (f t))
    → KeptIn x s (elim c as (λ y. Option L1Scratch) [
      | copied t ↦ f t
      | overloaded t ↦ some t
      | out_of_fuel ↦ none
    ])
after_line start x s (copied t) f h step = kept_trans (f t) (step t h.0)
  where
    kept_trans : (o : Option L1Scratch) → KeptIn x t o → KeptIn x s o
    kept_trans none k = tt
    kept_trans (some u) k = (k.0 ∙ h.1.0, k.1 ∙ h.1.1)
after_line start x s (overloaded t) f h step = h.1
after_line start x s out_of_fuel f h step = tt

load_lines-KeptIn :
    (lines : List Text) (start x : ℕ) (s : L1Scratch) (m : MemoryUnit) (min max : ℕ)
    → IsStart start
    → MissedBy x min max lines
    → Spared start x s
    → KeptIn x s (load_lines s m start min max lines)
unfolding load_lines
load_lines-KeptIn [] start x s m min max i miss spared = (refl, refl)
load_lines-KeptIn (line ∷ lines) start x s m min max i miss spared =
    let min' = (extract min (some line)).0 in
    let max' = (extract max (extract min (some line)).1).0 in
    after_line start x s (copy_line s m start min' max' line)
      (λ t. load_lines t m start min' max' lines)
      (copy_line-KeptBy start x s m min' max' line i miss.0 spared)
      (λ t spared'. load_lines-KeptIn lines start x t m min' max' i miss.1 spared')

load_spm-KeptIn :
    (start x : ℕ) (s : L1Scratch) (m : MemoryUnit) (file : Option Text)
    → IsStart start
    → MissedByFile x file
    → Spared start x s
    → KeptIn x s (load_spm s m file start)
unfolding load_spm
load_spm-KeptIn start x s m none i miss spared = (refl, refl)
load_spm-KeptIn start x s m (some file) i miss spared =
    load_lines-KeptIn (getlines file) start x s m 0 0 i miss spared

-- The loading ends, the slot has the address that it had, and `x` the word that it had.
abbrev pub Keeps : ℕ → ℕ → L1Scratch → Option L1Scratch → Type 0
Keeps slot x s none = ⊥
Keeps slot x s (some t) = (t.main_memory_address slot ≡ s.main_memory_address slot) × SameAt x s t

both :
    (start slot x : ℕ) (s : L1Scratch) (o : Option L1Scratch)
    → (slot < start / 4) ⊎ ((start + half) / 4 ≤ slot)
    → Loaded start s o
    → KeptIn x s o
    → Keeps slot x s o
both start slot x s none out l k = l
both start slot x s (some t) out l k = (l slot out, k)

-- For a half that starts at a word and lies in the scratchpad, a slot outside it, and an address `x` that
-- no slot of the half holds and no range of the file copies, where a range whose end is less than four
-- below 2 ^ 32 may wrap and so counts for every address below its end: `load_spm` comes to an end, with a
-- fuel of two rounds more than the half has words for each line; the slot holds the address that it held;
-- and `x` is in the scratchpad with the word that it had, or is still not there.
pub load_spm-Keeps :
    (start slot x : ℕ) (s : L1Scratch) (m : MemoryUnit) (file : Option Text)
    → IsStart start
    → (slot < start / 4) ⊎ ((start + half) / 4 ≤ slot)
    → MissedByFile x file
    → Spared start x s
    → Keeps slot x s (load_spm s m file start)
load_spm-Keeps start slot x s m file i out miss spared =
    both start slot x s (load_spm s m file start) out (load_spm-Loaded start s m file i)
      (load_spm-KeptIn start x s m file i miss spared)
