-- ===== src/Memory/Controller/Accesses.antt =====
-- Accesses of src/core/memory_controller.cpp that do not stall: the memories that they leave.
use pret_iss.Prelude.{ℕ, ==_refl, if◌then◌else◌, Bool, false, not, ◌&&◌, ◌≡◌, some, arith}
use pret_iss.Memory.Unit.{add_address, read_word-add_address, has_address-add_address}
use pret_iss.Memory.Scratch
use pret_iss.Memory.Scratch.{is_addr_in_spm}
use pret_iss.Memory.Wheel.{is_scheduled}
use pret_iss.Memory.Wheel.Access.{IsIdle, granted, granted-IsIdle, read_lem, write_lem}
use pret_iss.Memory.Io
use pret_iss.Memory.Controller
use pret_iss.Memory.Controller.{MemoryController, in_main_mem, put_spm}
use pret_iss.Memory.Controller.Laws.{seen, waits}

-- Whether an access goes to the wheel.
abbrev by_wheel : MemoryController → ℕ → ℕ → Bool
by_wheel m tid addr = not (is_addr_in_spm (m.inst_scratchpad tid) addr) && in_main_mem addr

-- The memories after a read that does not stall: the wheel has noted the access.
pub noted : MemoryController → ℕ → ℕ → MemoryController
noted m tid addr =
    if by_wheel m tid addr then record m { main_mem = granted m.main_mem addr 1 } else m

pub read_done :
    (m : MemoryController) (cycles tid addr : ℕ)
    → IsIdle m.main_mem
    → waits m cycles tid addr ≡ false
    → Controller.read_data m cycles tid addr ≡ some (seen m tid addr, false, noted m tid addr)
unfolding Controller.read_data seen waits noted Scratch.read Io.read in_main_mem
read_done m cycles tid addr v w = ground (arith, read_lem m.main_mem cycles tid addr v)

pub noted-IsIdle :
    (m : MemoryController) (tid addr : ℕ) → IsIdle m.main_mem → IsIdle (noted m tid addr).main_mem
unfolding noted
noted-IsIdle m tid addr v = ground (arith, granted-IsIdle m.main_mem addr 1 v)

pub seen-noted :
    (m : MemoryController) (tid addr k : ℕ) → seen (noted m tid addr) tid k ≡ seen m tid k
unfolding seen noted
seen-noted m tid addr k = ground arith

pub waits-noted :
    (m : MemoryController) (cycles tid addr k : ℕ)
    → waits (noted m tid addr) cycles tid k ≡ waits m cycles tid k
unfolding waits noted is_scheduled
waits-noted m cycles tid addr k = ground arith

-- The memories after a write that does not stall.
pub written : MemoryController → ℕ → ℕ → ℕ → MemoryController
unfolding Scratch.write Io.write
written m tid addr w =
    let spm = Scratch.write (m.inst_scratchpad tid) addr w in
    if is_addr_in_spm (m.inst_scratchpad tid) addr
    then record m { inst_scratchpad = put_spm m.inst_scratchpad tid spm }
    else if in_main_mem addr
    then record m {
      main_mem = record (granted m.main_mem addr 1) { mem = add_address m.main_mem.mem addr w };
    }
    else record m { io = Io.write m.io addr w }

pub write_done :
    (m : MemoryController) (cycles tid addr w : ℕ)
    → IsIdle m.main_mem
    → waits m cycles tid addr ≡ false
    → Controller.write_data m cycles tid addr w ≡ some (false, written m tid addr w)
unfolding Controller.write_data waits written
write_done m cycles tid addr w v h = ground (arith, write_lem m.main_mem cycles tid addr w v)

pub written-IsIdle :
    (m : MemoryController) (tid addr w : ℕ)
    → IsIdle m.main_mem
    → IsIdle (written m tid addr w).main_mem
unfolding written
written-IsIdle m tid addr w v = ground (arith, granted-IsIdle m.main_mem addr 1 v)

pub seen-written :
    (m : MemoryController) (tid addr w : ℕ) → seen (written m tid addr w) tid addr ≡ w
unfolding seen written is_addr_in_spm Io.out_uart Io.out_file Io.write
seen-written m tid addr w =
    let spm = m.inst_scratchpad tid in
    ground (
      arith,
      ==_refl tid,
      ==_refl addr,
      has_address-add_address spm.mem addr w addr,
      read_word-add_address spm.mem addr w addr,
      read_word-add_address m.main_mem.mem addr w addr,
      read_word-add_address m.io.mem addr w addr,
    )

pub waits-written :
    (m : MemoryController) (cycles tid addr w k : ℕ)
    → waits (written m tid addr w) cycles tid k ≡ waits m cycles tid k
unfolding waits written is_scheduled is_addr_in_spm
waits-written m cycles tid addr w k =
    let spm = m.inst_scratchpad tid in
    ground (arith, ==_refl tid, has_address-add_address spm.mem addr w k)
