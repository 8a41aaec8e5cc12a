-- ===== src/Memory/Scratch/Owned.antt =====
-- What is in the scratchpad is owned by one of its slots.
use pret_iss.Prelude.{
  ℕ, ◌/◌, ◌%◌, ◌<◌, ◌==◌, ltb, if◌then◌else◌, true, false, ◌&&◌, ◌||◌, ◌≡◌, ◌≢◌, sym, ap, ◌∙◌,
  arith, Bool-cases, inl, inr, not,
}
use pret_iss.Memory.Unit.{
  add_address, has_address, remove_address, read_word-add_address, has_address-add_address,
  has_address-remove_address, read_word-remove_address,
}
use pret_iss.Memory.Scratch.{
  L1Scratch, scratch_size, update, l1_scratch, is_addr_in_spm, read, in_spm_range, add_addr,
}

-- Each resident address has a slot of the scratchpad that was filled with it, so no more addresses are
-- resident than there are slots.
abbrev pub IsOwned : L1Scratch → Type 0
IsOwned s =
    (a : ℕ)
    → has_address s.mem a ≡ true
    → (slot : ℕ) × (slot < scratch_size / 4) × (s.main_memory_address slot ≡ a)

pub l1_scratch-IsOwned : IsOwned l1_scratch
unfolding l1_scratch has_address
l1_scratch-IsOwned a h = cc

abbrev filled : L1Scratch → ℕ → ℕ → ℕ → L1Scratch
filled s mem_addr slot word = record {
  main_memory_address = update s.main_memory_address slot mem_addr;
  mem = add_address (remove_address s.mem (s.main_memory_address slot)) mem_addr word;
}

filled-IsOwned :
    (s : L1Scratch) (mem_addr slot word : ℕ)
    → slot < scratch_size / 4
    → IsOwned s
    → IsOwned (filled s mem_addr slot word)
filled-IsOwned s mem_addr slot word within owned a h = elim (Bool-cases (mem_addr == a)) [
  | inl e ↦ (slot, within, ground arith)
  | inr ne ↦ kept (owned a (ground (arith, resident))) (ground (arith, resident))
]
  where
    old : ℕ
    old = s.main_memory_address slot

    resident : (mem_addr == a || (if old == a then false else has_address s.mem a)) ≡ true
    resident =
        sym (
          has_address-add_address (remove_address s.mem old) mem_addr word a
          ∙ ap (λ b. mem_addr == a || b) (has_address-remove_address s.mem old a))
        ∙ h

    kept :
        ((j : ℕ) × (j < scratch_size / 4) × (s.main_memory_address j ≡ a))
        → (old == a) ≡ false
        → (j : ℕ) × (j < scratch_size / 4) × (update s.main_memory_address slot mem_addr j ≡ a)
    kept (j, lt, e) ne = (j, lt, ground (arith, ap (λ (k : ℕ). s.main_memory_address k)))

-- Filling a slot keeps every resident address owned, whatever address and target are asked for: the
-- address that loses its slot is removed.
pub add_addr-IsOwned :
    (s : L1Scratch) (mem_addr spm_addr word : ℕ)
    → IsOwned s
    → IsOwned (add_addr s mem_addr spm_addr word)
unfolding add_addr
add_addr-IsOwned s mem_addr spm_addr word owned =
    elim (Bool-cases (spm_addr % 4 == 0 && ltb spm_addr scratch_size)) [
      | inl ok ↦ rw ok (filled-IsOwned s mem_addr (spm_addr / 4) word (ground arith) owned)
      | inr bad ↦ rw bad owned
    ]

-- After a slot in range is filled, the new address reads the new word, the address that the slot held
-- before is gone, and every other address is as it was.
pub read-add_addr :
    (s : L1Scratch) (mem_addr spm_addr word k : ℕ)
    → in_spm_range spm_addr ≡ true
    → mem_addr ≢ 0
    → k ≢ 0
    → let t = add_addr s mem_addr spm_addr word in
      let old = s.main_memory_address (spm_addr / 4) in
      (is_addr_in_spm t k ≡ (mem_addr == k || not (old == k) && is_addr_in_spm s k))
      × (read t k ≡ (if mem_addr == k then word else if old == k then 0 else read s k))
unfolding add_addr is_addr_in_spm read
read-add_addr s mem_addr spm_addr word k ok h₁ h₂ =
    let old = s.main_memory_address (spm_addr / 4) in
    (
      ground (
        arith,
        has_address-add_address (remove_address s.mem old) mem_addr word k,
        has_address-remove_address s.mem old k,
      ),
      ground (
        arith,
        read_word-add_address (remove_address s.mem old) mem_addr word k,
        read_word-remove_address s.mem old k,
      ),
    )
