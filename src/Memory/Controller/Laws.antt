-- ===== src/Memory/Controller/Laws.antt =====
-- The memory that a thread sees: reads after writes through the controller, whichever memory serves
-- the address.
use pret_iss.Prelude.{
  ℕ, ◌==◌, ==_refl, if◌then◌else◌, Bool, ◌≡◌, ◌≢◌, Option, none, some, arith, ◌&&◌, not,
}
use pret_iss.Memory.Unit.{read_word, read_word-add_address, has_address-add_address}
use pret_iss.Memory.Scratch
use pret_iss.Memory.Scratch.{L1Scratch, is_addr_in_spm}
use pret_iss.Memory.Wheel.{is_scheduled}
use pret_iss.Memory.Wheel.Access.{IsIdle, read_lem, write_lem}
use pret_iss.Memory.Io
use pret_iss.Memory.Controller.{MemoryController, in_main_mem, read_data, write_data}

-- The word that a thread sees at an address, with no regard to time.
unfoldable pub seen : MemoryController → ℕ → ℕ → ℕ
unfolding is_addr_in_spm in_main_mem
seen m tid addr =
    let spm = m.inst_scratchpad tid in
    if is_addr_in_spm spm addr
    then read_word spm.mem addr
    else if in_main_mem addr
    then read_word m.main_mem.mem addr
    else read_word m.io.mem addr

-- An access waits exactly when main memory serves it and the wheel has not scheduled the thread.
unfoldable pub waits : MemoryController → ℕ → ℕ → ℕ → Bool
unfolding is_addr_in_spm in_main_mem
waits m cycles tid addr =
    not (is_addr_in_spm (m.inst_scratchpad tid) addr)
    && (in_main_mem addr && not (is_scheduled m.main_mem cycles tid))

-- The result of an access that did not abort.
abbrev pub word_of : Option (ℕ × Bool × MemoryController) → Option (ℕ × Bool)
word_of none = none
word_of (some (word, stalled, m)) = some (word, stalled)

-- A read never aborts on an idle wheel: it returns the word that the thread sees, and stalls exactly
-- when the access waits.
pub read_data_lem :
    (m : MemoryController) (cycles tid addr : ℕ)
    → IsIdle m.main_mem
    → word_of (read_data m cycles tid addr) ≡ some (seen m tid addr, waits m cycles tid addr)
unfolding read_data seen waits Scratch.read Io.read
read_data_lem m cycles tid addr v = ground (arith, read_lem m.main_mem cycles tid addr v)

abbrev pub stall_of : Option (Bool × MemoryController) → Option Bool
stall_of none = none
stall_of (some (stalled, m)) = some stalled

-- The memories after an access, or those before it if it aborted.
abbrev pub after : MemoryController → Option (Bool × MemoryController) → MemoryController
after m none = m
after m (some (stalled, m')) = m'

-- A write never aborts on an idle wheel, and stalls exactly when the access waits.
pub stall_of-write_data :
    (m : MemoryController) (cycles tid addr word : ℕ)
    → IsIdle m.main_mem
    → stall_of (write_data m cycles tid addr word) ≡ some (waits m cycles tid addr)
unfolding write_data waits
stall_of-write_data m cycles tid addr word v =
    ground (arith, write_lem m.main_mem cycles tid addr word v)

-- On an idle wheel: after a write that does not stall, the writing thread sees the word at the
-- address and what it saw before everywhere else; after one that stalls it sees what it saw before.
pub seen-write_data :
    (m : MemoryController) (cycles tid addr word k : ℕ)
    → IsIdle m.main_mem
    → seen (after m (write_data m cycles tid addr word)) tid k
      ≡ (if not (waits m cycles tid addr) && addr == k then word else seen m tid k)
unfolding write_data waits seen Scratch.write Io.write Io.out_uart Io.out_file
seen-write_data m cycles tid addr word k v =
    let spm = m.inst_scratchpad tid in
    ground (
      arith,
      write_lem m.main_mem cycles tid addr word v,
      ==_refl tid,
      has_address-add_address spm.mem addr word k,
      read_word-add_address spm.mem addr word k,
      read_word-add_address m.main_mem.mem addr word k,
      read_word-add_address m.io.mem addr word k,
    )

-- On an idle wheel, another thread sees the write only if the word went to main memory or a device,
-- and only at an address that its own scratchpad does not hold.
pub seen-write_data_other :
    (m : MemoryController) (cycles tid other addr word k : ℕ)
    → IsIdle m.main_mem
    → other ≢ tid
    → seen (after m (write_data m cycles tid addr word)) other k ≡ (
        if not (waits m cycles tid addr)
          && (not (is_addr_in_spm (m.inst_scratchpad tid) addr)
              && (not (is_addr_in_spm (m.inst_scratchpad other) k) && addr == k))
        then word
        else seen m other k)
unfolding write_data waits seen Scratch.write Io.write Io.out_uart Io.out_file
seen-write_data_other m cycles tid other addr word k v ne = ground (
  arith,
  write_lem m.main_mem cycles tid addr word v,
  read_word-add_address m.main_mem.mem addr word k,
  read_word-add_address m.io.mem addr word k,
)
