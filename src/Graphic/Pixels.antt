-- ===== src/Graphic/Pixels.antt =====
-- A word of 16 pixels of two bits each, as soft/graphic/vga.c and soft/graphic/thread2.c write one.
pub mod Laws
use pret_iss.Prelude.{ℕ, ◌+◌, ◌*◌, ◌%◌, bit_and, bit_or, not32, shl32, shr}

abbrev pub n_vga_pixel_per_once : ℕ
n_vga_pixel_per_once = 16

-- `&= ~( 0x03 << shift )`, then `|= ( ( color & 0x03 ) << shift )`
unfoldable pub set_pixel : ℕ → ℕ → ℕ → ℕ
set_pixel word col color =
    let shift = col % n_vga_pixel_per_once * 2 in
    bit_or (bit_and word (not32 (shl32 0x03 shift))) (shl32 (bit_and color 0x03) shift)
