-- ===== src/Examples/Pictures.antt =====
-- The screen of soft/graphic with small sprites.
use pret_iss.Prelude.{ℕ, ◌+◌, ◌-◌, ◌*◌, ◌≡◌, refl, leb, ltb, if◌then◌else◌, ◌&&◌, false, arith}
use pret_iss.Graphic.Screen.{Display, sprite_word, locate_sprite_direct, vga_copy_into_back_buffer}
use pret_iss.Graphic.Screen.Laws.{pixel_at, screen-vga_copy_into_back_buffer}
use pret_iss.Graphic.Screen.Sprites.{over, IsDrawable, pixel_at-locate_sprite_direct}

abbrev display : Display
display = record { screen = λ i. 0; current_buffer = 1; is_refreshing = false }

-- Rows of red and green pixels in turn.
abbrev sprites : ℕ → ℕ → ℕ
sprites id i = 0x99999999

display-IsDrawable : IsDrawable 0 display
display-IsDrawable = record { back = refl; buffer = omega arith; words = λ i. omega arith }

pixel_at-locate_sprite_direct_example :
    pixel_at (locate_sprite_direct sprites 1 290 380 64 64 display) 0 381 293 ≡ (
      if (leb 380 381 && ltb 381 (380 + 64)) && (leb 290 293 && ltb 293 (290 + 64))
      then over (sprite_word (sprites 0) (381 - 380) (293 - 290)) (pixel_at display 0 381 293)
      else pixel_at display 0 381 293)
pixel_at-locate_sprite_direct_example =
    pixel_at-locate_sprite_direct sprites 0 0 290 380 64 64 381 293 display display-IsDrawable
      (omega arith) (omega arith) (omega arith)

screen-vga_copy_into_back_buffer_example :
    (vga_copy_into_back_buffer (λ i. i) 0 0 640 480 display).screen 19210 ≡ (
      if leb (0 * 19200) 19210 && ltb 19210 (0 * 19200 + 19200 + 40)
      then 19210 - 0 * 19200
      else display.screen 19210)
screen-vga_copy_into_back_buffer_example =
    screen-vga_copy_into_back_buffer display (λ i. i) 0 19210 refl
