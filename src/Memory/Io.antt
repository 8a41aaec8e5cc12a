-- ===== src/Memory/Io.antt =====
-- The class `mem_mapped_io` of src/core/mem_mapped_io.cpp. What goes to the serial line and to the
-- output file is a list of bytes, the newest first; that the file opens is taken for granted.
use pret_iss.Prelude.{ℕ, ◌==◌, if◌then◌else◌, List, [], ◌∷◌, u8}
use pret_iss.Memory.Unit.{MemoryUnit, add_address, read_word}

pub record MemMappedIo : Type 0 where
  pub mem : MemoryUnit
  pub uart : List ℕ
  pub fout : List ℕ

unfoldable pub mem_mapped_io : MemMappedIo
unfolding add_address
mem_mapped_io = record { mem = add_address [] 0x80000104 6; uart = []; fout = [] }

-- Neither access stalls.
unfoldable pub read : MemMappedIo → ℕ → ℕ
read io addr = read_word io.mem addr

-- A carriage return is not printed.
unfoldable pub out_uart : MemMappedIo → ℕ → MemMappedIo
out_uart io word =
    let out_char = u8 word in
    if out_char == 0x0d then io else record io { uart = out_char ∷ io.uart }

unfoldable pub out_file : MemMappedIo → ℕ → MemMappedIo
out_file io word = record io { fout = u8 word ∷ io.fout }

unfoldable pub write : MemMappedIo → ℕ → ℕ → MemMappedIo
unfolding out_uart out_file
write io addr word =
    let io₁ = if addr == 0x80000100 then out_uart io word else io in
    let io₂ = if addr == 0x80000600 then out_file io₁ word else io₁ in
    record io₂ { mem = add_address io₂.mem addr word }
