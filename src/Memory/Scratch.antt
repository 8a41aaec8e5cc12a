-- ===== src/Memory/Scratch.antt =====
-- The class `l1_scratch` of src/core/l1_scratch.cpp: a scratchpad of SCRATCH_SIZE bytes whose slots
-- each hold the word of one main memory address. Messages to the error stream are left out.
pub mod Owned
use pret_iss.Prelude.{ℕ, ◌/◌, ◌%◌, ◌==◌, ltb, if◌then◌else◌, Bool, false, ◌&&◌, []}
use pret_iss.Memory.Unit.{MemoryUnit, add_address, has_address, read_word, remove_address}

-- `main_memory_address` is an array of SCRATCH_SIZE / 4 entries.
pub record L1Scratch : Type 0 where
  pub main_memory_address : ℕ → ℕ
  pub mem : MemoryUnit

abbrev pub scratch_size : ℕ
scratch_size = 0x10000

abbrev pub update : (ℕ → ℕ) → ℕ → ℕ → ℕ → ℕ
update f i v j = if j == i then v else f j

unfoldable pub l1_scratch : L1Scratch
l1_scratch = record { main_memory_address = λ i. 0; mem = [] }

-- An address of 0 is never in the scratchpad.
unfoldable pub is_addr_in_spm : L1Scratch → ℕ → Bool
is_addr_in_spm s mem_addr = if mem_addr == 0 then false else has_address s.mem mem_addr

-- Neither access stalls.
unfoldable pub read : L1Scratch → ℕ → ℕ
read s mem_addr = read_word s.mem mem_addr

unfoldable pub write : L1Scratch → ℕ → ℕ → L1Scratch
write s mem_addr word = record s { mem = add_address s.mem mem_addr word }

unfoldable pub update_addr : L1Scratch → ℕ → ℕ → L1Scratch
unfolding is_addr_in_spm
update_addr s mem_addr inst =
    if is_addr_in_spm s mem_addr then record s { mem = add_address s.mem mem_addr inst } else s

unfoldable pub in_spm_range : ℕ → Bool
in_spm_range spm_addr = spm_addr % 4 == 0 && ltb spm_addr scratch_size

unfoldable pub add_addr : L1Scratch → ℕ → ℕ → ℕ → L1Scratch
unfolding in_spm_range
add_addr s mem_addr spm_addr word =
    let old_mem_addr = s.main_memory_address (spm_addr / 4) in
    if in_spm_range spm_addr
    then record {
      main_memory_address = update s.main_memory_address (spm_addr / 4) mem_addr;
      mem = add_address (remove_address s.mem old_mem_addr) mem_addr word;
    }
    else s
