-- ===== src/Load/Bounds/Slots.antt =====
-- Which slots `load_spm` of src/core/static_bound_parser.cpp fills, and why its loops end.
use pret_iss.Prelude.{
  ℕ, zero, suc, ◌+◌, ◌*◌, ◌/◌, ◌%◌, ◌≤◌, ◌<◌, ltb, leb, ◌≡◌, ◌⊎◌, inl, inr, refl, ◌∙◌, Option, none,
  some, List, [], ◌∷◌, add32, arith, Bool-cases,
}
use pret_iss.Memory.Unit.{MemoryUnit, read_word}
use pret_iss.Memory.Scratch.{L1Scratch, scratch_size, add_addr}
use pret_iss.Load.Scan.{Text}
use pret_iss.Load.Bounds.{
  Copied, copied, overloaded, out_of_fuel, copy, half, copy_fuel, copy_line, extract, getlines,
  load_lines, load_spm,
}

-- The slots outside the half that begins at `start` hold the same addresses.
abbrev pub KeepsOthers : ℕ → L1Scratch → L1Scratch → Type 0
KeepsOthers start s t =
    (slot : ℕ)
    → (slot < start / 4) ⊎ ((start + half) / 4 ≤ slot)
    → t.main_memory_address slot ≡ s.main_memory_address slot

abbrev Within : ℕ → L1Scratch → Copied → Type 0
Within start s (copied t) = KeepsOthers start s t
Within start s (overloaded t) = KeepsOthers start s t
Within start s out_of_fuel = ⊥

Within-trans :
    (start : ℕ) (s t : L1Scratch) (c : Copied)
    → KeepsOthers start s t
    → Within start t c
    → Within start s c
Within-trans start s t (copied u) h k = λ slot out. k slot out ∙ h slot out
Within-trans start s t (overloaded u) h k = λ slot out. k slot out ∙ h slot out
Within-trans start s t out_of_fuel h k = k

-- Where a half can start.
abbrev pub IsStart : ℕ → Type 0
IsStart start = (start % 4 ≡ 0) × (start + half ≤ scratch_size)

add_addr-KeepsOthers :
    (start : ℕ) (s : L1Scratch) (addr spm_addr word : ℕ)
    → IsStart start
    → start ≤ spm_addr
    → spm_addr < start + half
    → KeepsOthers start s (add_addr s addr spm_addr word)
unfolding add_addr
add_addr-KeepsOthers start s addr spm_addr word i h k slot out = ground arith

copy-Within :
    (fuel start : ℕ) (s : L1Scratch) (m : MemoryUnit) (addr max spm_addr : ℕ)
    → IsStart start
    → start ≤ spm_addr
    → spm_addr % 4 ≡ 0
    → spm_addr ≤ start + half
    → start + half < spm_addr + 4 * fuel
    → Within start s (copy fuel s m addr max spm_addr (start + half))
unfolding copy
copy-Within zero start s m addr max spm_addr i h a k f = absurd (omega arith)
copy-Within (suc fuel) start s m addr max spm_addr i h a k f = elim (Bool-cases (ltb addr max)) [
  | inr e ↦ rw e (λ slot out. refl)
  | inl e ↦ rw e (elim (Bool-cases (leb (start + half) spm_addr)) [
    | inl e' ↦ rw e' (λ slot out. refl)
    | inr e' ↦ rw e' (
        Within-trans start s (add_addr s addr spm_addr (read_word m addr)) _
          (add_addr-KeepsOthers start s addr spm_addr (read_word m addr) i h (ground arith))
          (copy-Within fuel start (add_addr s addr spm_addr (read_word m addr)) m (add32 addr 4) max
            (add32 spm_addr 4) i (ground arith) (ground arith) (ground arith) (ground arith)))
  ])
]

copy_line-Within :
    (start : ℕ) (s : L1Scratch) (m : MemoryUnit) (min max : ℕ) (line : Text)
    → IsStart start
    → Within start s (copy_line s m start min max line)
unfolding copy_line
copy_line-Within start s m min max [] i = λ slot out. refl
copy_line-Within start s m min max (c ∷ l) i =
    copy-Within copy_fuel start s m min max start i (omega arith) i.0 (omega arith) (omega arith)

-- The loops come to an end, and the slots outside the half hold the addresses that they held.
abbrev pub Loaded : ℕ → L1Scratch → Option L1Scratch → Type 0
Loaded start s none = ⊥
Loaded start s (some t) = KeepsOthers start s t

after_line :
    (start : ℕ) (s : L1Scratch) (c : Copied) (f : L1Scratch → Option L1Scratch)
    → Within start s c
    → ((t : L1Scratch) → Loaded start t (f t))
    → Loaded start s (elim c as (λ x. Option L1Scratch) [
      | copied t ↦ f t
      | overloaded t ↦ some t
      | out_of_fuel ↦ none
    ])
after_line start s (copied t) f h step = loaded_trans (f t) (step t)
  where
    loaded_trans : (o : Option L1Scratch) → Loaded start t o → Loaded start s o
    loaded_trans none k = k
    loaded_trans (some u) k = λ slot out. k slot out ∙ h slot out
after_line start s (overloaded t) f h step = h
after_line start s out_of_fuel f h step = h

load_lines-Loaded :
    (lines : List Text) (start : ℕ) (s : L1Scratch) (m : MemoryUnit) (min max : ℕ)
    → IsStart start
    → Loaded start s (load_lines s m start min max lines)
unfolding load_lines
load_lines-Loaded [] start s m min max i = λ slot out. refl
load_lines-Loaded (line ∷ lines) start s m min max i =
    let min' = (extract min (some line)).0 in
    let max' = (extract max (extract min (some line)).1).0 in
    after_line start s (copy_line s m start min' max' line)
      (λ t. load_lines t m start min' max' lines) (copy_line-Within start s m min' max' line i)
      (λ t. load_lines-Loaded lines start t m min' max' i)

-- `load_spm` comes to an end for every file, and every slot outside the half holds the address that it
-- held.
pub load_spm-Loaded :
    (start : ℕ) (s : L1Scratch) (m : MemoryUnit) (file : Option Text)
    → IsStart start
    → Loaded start s (load_spm s m file start)
unfolding load_spm
load_spm-Loaded start s m none i = λ slot out. refl
load_spm-Loaded start s m (some file) i = load_lines-Loaded (getlines file) start s m 0 0 i
