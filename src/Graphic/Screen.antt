-- ===== src/Graphic/Screen.antt =====
-- The two screen buffers of soft/graphic/vga.c, and how soft/graphic/thread2.c draws dots and sprites. An
-- array is a function from indices to words, so a write past its end changes none of the others.
pub mod Laws
pub mod Sprites
use pret_iss.Prelude.{
  ℕ, zero, suc, ◌+◌, ◌-◌, ◌*◌, ◌/◌, ◌%◌, ◌==◌, if◌then◌else◌, Bool, true, false, bit_and, bit_xor,
  shr, u8, u32, add32, sub32,
}
use pret_iss.Graphic.Queue.{put_at}
use pret_iss.Graphic.Pixels.{n_vga_pixel_per_once, set_pixel}

abbrev pub vga_resolution_height : ℕ
vga_resolution_height = 480

-- `VGA_RESOLUTION_WIDTH / N_VGA_PIXEL_PER_ONCE`
abbrev pub words_of_row : ℕ
words_of_row = 640 / n_vga_pixel_per_once

pub record Display : Type 0 where
  pub screen : ℕ → ℕ
  pub current_buffer : ℕ
  pub is_refreshing : Bool

-- The word of a pixel in the buffer that is not shown.
abbrev pub back_word : Display → ℕ → ℕ → ℕ
back_word d row col = u32 (
    bit_xor d.current_buffer 1 * vga_resolution_height * words_of_row
    + row * words_of_row
    + col / n_vga_pixel_per_once)

unfoldable pub vga_set_color : Display → ℕ → ℕ → ℕ → Display
unfolding set_pixel
vga_set_color d row col color =
    let i = back_word d row col in
    record d { screen = put_at d.screen i (set_pixel (d.screen i) col (u8 color)) }

-- The loop of `vga_copy_into_back_buffer`, for `n` more words from `i` on.
unfoldable pub copy_words : ℕ → ℕ → ℕ → (ℕ → ℕ) → Display → Display
copy_words zero i j source d = d
copy_words (suc n) i j source d = copy_words n (i + 1) (j + 1) source (record d {
  screen =
      put_at d.screen
        (i + bit_xor d.current_buffer 1 * vga_resolution_height * 640 / n_vga_pixel_per_once)
        (source j);
})

unfoldable pub vga_copy_into_back_buffer : (ℕ → ℕ) → ℕ → ℕ → ℕ → ℕ → Display → Display
vga_copy_into_back_buffer source start_x start_y width height d =
    let from = u32 (u32 (start_y * 640) / n_vga_pixel_per_once + start_x / n_vga_pixel_per_once) in
    let to = u32 (
      u32 ((start_y + height) * 640) / n_vga_pixel_per_once
      + u32 (start_x + width) / n_vga_pixel_per_once) in
    copy_words (to - from) from 0 source d

unfoldable pub vga_toggle_graphic_buffer : Display → Display
vga_toggle_graphic_buffer d = record d {
  current_buffer = bit_xor d.current_buffer 1;
  is_refreshing = false;
}

-- A pixel of a sprite, moved down to the lowest bits of its word.
abbrev pub sprite_word : (ℕ → ℕ) → ℕ → ℕ → ℕ
sprite_word sprite i j = shr (sprite (i * 4 + j / 16)) (2 * (j % 16))

-- The body of the inner loop of `locate_sprite_direct`; `0x03 != 0` is 1, and binds tighter than `&`.
unfoldable pub draw_pixel : (ℕ → ℕ) → ℕ → ℕ → ℕ → ℕ → Display → Display
unfolding vga_set_color
draw_pixel sprite x y i j d =
    let p = sprite_word sprite i j in
    if bit_and p 1 == 0 then d else vga_set_color d (add32 i y) (add32 j x) (bit_and p 0x03)

-- The inner loop, for `n` more columns from `j` on, and the outer, for `n` more rows from `i` on.
unfoldable pub draw_row : ℕ → (ℕ → ℕ) → ℕ → ℕ → ℕ → ℕ → Display → Display
unfolding draw_pixel
draw_row zero sprite x y i j d = d
draw_row (suc n) sprite x y i j d = draw_row n sprite x y i (j + 1) (draw_pixel sprite x y i j d)

unfoldable pub draw_rows : ℕ → (ℕ → ℕ) → ℕ → ℕ → ℕ → ℕ → Display → Display
unfolding draw_row
draw_rows zero sprite x y width i d = d
draw_rows (suc n) sprite x y width i d =
    draw_rows n sprite x y width (i + 1) (draw_row width sprite x y i 0 d)

-- `sprites` is the array of sprites, one after the other.
unfoldable pub locate_sprite_direct : (ℕ → ℕ → ℕ) → ℕ → ℕ → ℕ → ℕ → ℕ → Display → Display
unfolding draw_rows
locate_sprite_direct sprites zero x y width height d = d
locate_sprite_direct sprites (suc id) x y width height d =
    draw_rows height (sprites id) x y width 0 d
