-- ===== src/Instruction/Transfer.antt =====
-- `read_data` and `get_write_data` of src/core/instruction.cpp: a load takes its bytes out of the
-- word read, a store puts its bytes into the word that was there. Byte 0 is the highest.
use pret_iss.Prelude.{ℕ, ◌-◌, ◌*◌, bit_and, bit_or, shl32, shr, sar32, not32}
use pret_iss.Instruction.Enums.{MemorySize}
use pret_iss.Instruction.Defs.{Instruction}

-- What `read_data` stores into `_alu_result`.
unfoldable pub loaded : MemorySize → ℕ → ℕ → ℕ
loaded MemorySize.signed_byte data_in offset = sar32 (shl32 data_in (offset * 8)) 24
loaded MemorySize.unsigned_byte data_in offset = shr (shl32 data_in (offset * 8)) 24
loaded MemorySize.signed_halfword data_in offset = sar32 (shl32 data_in (offset * 8)) 16
loaded MemorySize.unsigned_halfword data_in offset = shr (shl32 data_in (offset * 8)) 16
loaded MemorySize.word data_in offset = data_in
loaded MemorySize.doubleword data_in offset = data_in

unfoldable pub read_data : Instruction → ℕ → ℕ → Instruction
unfolding loaded
read_data i data_in offset = record i { alu_result = loaded i.memory_size data_in offset }

-- `shamt`. An offset that leaves no room makes C shift by a negative amount, which it does not
-- define; the subtraction stops at 0 there.
unfoldable pub write_shift : MemorySize → ℕ → ℕ
write_shift MemorySize.signed_byte offset = (3 - offset) * 8
write_shift MemorySize.unsigned_byte offset = (3 - offset) * 8
write_shift MemorySize.signed_halfword offset = (2 - offset) * 8
write_shift MemorySize.unsigned_halfword offset = (2 - offset) * 8
write_shift MemorySize.word offset = 0
write_shift MemorySize.doubleword offset = 0

unfoldable pub write_mask : MemorySize → ℕ → ℕ
write_mask MemorySize.signed_byte shamt = shl32 0xff shamt
write_mask MemorySize.unsigned_byte shamt = shl32 0xff shamt
write_mask MemorySize.signed_halfword shamt = shl32 0xffff shamt
write_mask MemorySize.unsigned_halfword shamt = shl32 0xffff shamt
write_mask MemorySize.word shamt = 0xffffffff
write_mask MemorySize.doubleword shamt = 0xffffffff

unfoldable pub get_write_data : Instruction → ℕ → ℕ → ℕ
unfolding write_shift write_mask
get_write_data i old_data offset =
    let shamt = write_shift i.memory_size offset in
    let mask = write_mask i.memory_size shamt in
    bit_or (bit_and (shl32 i.op3_value shamt) mask) (bit_and old_data (not32 mask))
