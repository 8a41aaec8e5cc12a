-- ===== src/Graphic/Screen/Sprites.antt =====
-- What `locate_sprite_direct` of soft/graphic/thread2.c shows of a sprite.
use pret_iss.Prelude.{
  ℕ, zero, suc, ◌+◌, ◌-◌, ◌*◌, ◌/◌, ◌%◌, ◌^◌, ◌≤◌, ◌<◌, ◌==◌, leb, ltb, if◌then◌else◌, ◌&&◌, ◌≡◌,
  ap, ◌∙◌, bit_and, bit_xor, add32, u8, arith, Bool-cases, inl, inr,
}
use mathlib.Core.Path.{ap₂}
use pret_iss.Prelude.Bits.{bit_and_mask}
use pret_iss.Graphic.Pixels.Laws.{set_pixel-lt}
use pret_iss.Graphic.Screen.{
  Display, back_word, vga_set_color, sprite_word, draw_pixel, draw_row, draw_rows,
  locate_sprite_direct,
}
use pret_iss.Graphic.Screen.Laws.{pixel_at, OnScreen, pixel_at-vga_set_color}

-- The color of a sprite's pixel where it is odd, and what was there before where it is even.
abbrev pub over : ℕ → ℕ → ℕ
over p old = if p % 2 == 1 then p % 4 else old

-- Buffer `b` is not shown, and all words have 32 bits.
pub record IsDrawable (b : ℕ) (d : Display) : Type 0 where
  pub back : bit_xor d.current_buffer 1 ≡ b
  pub buffer : b < 2
  pub words : (i : ℕ) → d.screen i < 2 ^ 32

vga_set_color-IsDrawable :
    (b : ℕ) (d : Display) (row col color : ℕ)
    → IsDrawable b d
    → IsDrawable b (vga_set_color d row col color)
unfolding vga_set_color
vga_set_color-IsDrawable b d row col color w = record {
  back = w.back;
  buffer = w.buffer;
  words = λ k.
      let i = back_word d row col in
      elim (Bool-cases (k == i)) [
        | inl e ↦ rw e (set_pixel-lt (d.screen i) col (u8 color) (w.words i))
        | inr e ↦ rw e (w.words k)
      ];
}

draw_pixel-IsDrawable :
    (sprite : ℕ → ℕ) (b x y i j : ℕ) (d : Display)
    → IsDrawable b d
    → IsDrawable b (draw_pixel sprite x y i j d)
unfolding draw_pixel
draw_pixel-IsDrawable sprite b x y i j d w =
    let p = sprite_word sprite i j in
    elim (Bool-cases (bit_and p 1 == 0)) [
      | inl e ↦ rw e w
      | inr e ↦ rw e (vga_set_color-IsDrawable b d (add32 i y) (add32 j x) (bit_and p 3) w)
    ]

pixel_at-draw_pixel :
    (sprite : ℕ → ℕ) (b x y i j r c : ℕ) (d : Display)
    → IsDrawable b d
    → OnScreen (y + i) (x + j)
    → OnScreen r c
    → pixel_at (draw_pixel sprite x y i j d) b r c ≡ (
        if r == y + i && c == x + j
        then over (sprite_word sprite i j) (pixel_at d b r c)
        else pixel_at d b r c)
unfolding draw_pixel
pixel_at-draw_pixel sprite b x y i j r c d w o o' =
    let p = sprite_word sprite i j in
    let old = pixel_at d b r c in
    let row : add32 i y ≡ y + i = omega arith in
    let col : add32 j x ≡ x + j = omega arith in
    let set =
      pixel_at-vga_set_color d (y + i) (x + j) (bit_and p 3) b b r c w.back w.buffer o o'
        (w.words (b * 19200 + (y + i) * 40 + (x + j) / 16)) in
    elim (Bool-cases (bit_and p 1 == 0)) [
      | inl e ↦ rw e (ground (arith, bit_and_mask 1 p))
      | inr e ↦ rw e (
          ap₂ (λ m n. pixel_at (vga_set_color d m n (bit_and p 3)) b r c) row col
          ∙ set
          ∙ ground (arith, bit_and_mask 1 p, bit_and_mask 2 p))
    ]

draw_row-IsDrawable :
    (n : ℕ) (sprite : ℕ → ℕ) (b x y i j : ℕ) (d : Display)
    → IsDrawable b d
    → IsDrawable b (draw_row n sprite x y i j d)
unfolding draw_row
draw_row-IsDrawable zero sprite b x y i j d w = w
draw_row-IsDrawable (suc n) sprite b x y i j d w =
    draw_row-IsDrawable n sprite b x y i (j + 1) (draw_pixel sprite x y i j d)
      (draw_pixel-IsDrawable sprite b x y i j d w)

-- A column at the end of a stretch, or in it.
row_step :
    (sprite : ℕ → ℕ) (x y i j n r c old : ℕ)
    → let here = if r == y + i && c == x + j then over (sprite_word sprite i j) old else old in
      (if r == y + i && (leb (x + (j + 1)) c && ltb c (x + (j + 1) + n))
        then over (sprite_word sprite i (c - x)) here
        else here)
      ≡ (if r == y + i && (leb (x + j) c && ltb c (x + j + suc n))
          then over (sprite_word sprite i (c - x)) old
          else old)
row_step sprite x y i j n r c old = elim (Bool-cases (c == x + j)) [
  | inl e ↦ (let same : c - x ≡ j = ground arith in rw (e, same) (ground arith))
  | inr e ↦ ground arith
]

pixel_at-draw_row :
    (n : ℕ) (sprite : ℕ → ℕ) (b x y i j r c : ℕ) (d : Display)
    → IsDrawable b d
    → y + i < 480
    → x + j + n ≤ 640
    → OnScreen r c
    → pixel_at (draw_row n sprite x y i j d) b r c ≡ (
        if r == y + i && (leb (x + j) c && ltb c (x + j + n))
        then over (sprite_word sprite i (c - x)) (pixel_at d b r c)
        else pixel_at d b r c)
unfolding draw_row
pixel_at-draw_row zero sprite b x y i j r c d w h k o = ground arith
pixel_at-draw_row (suc n) sprite b x y i j r c d w h k o =
    let d' = draw_pixel sprite x y i j d in
    pixel_at-draw_row n sprite b x y i (j + 1) r c d' (draw_pixel-IsDrawable sprite b x y i j d w) h
      (omega arith) o
    ∙ ap
        (λ p.
          if r == y + i && (leb (x + (j + 1)) c && ltb c (x + (j + 1) + n))
          then over (sprite_word sprite i (c - x)) p
          else p)
        (pixel_at-draw_pixel sprite b x y i j r c d w (h, omega arith) o)
    ∙ row_step sprite x y i j n r c (pixel_at d b r c)

-- A row at the end of a stretch of rows, or in it.
rows_step :
    (sprite : ℕ → ℕ) (x y width i n r c old : ℕ)
    → let here =
        if r == y + i && (leb (x + 0) c && ltb c (x + 0 + width))
        then over (sprite_word sprite i (c - x)) old
        else old in
      (if (leb (y + (i + 1)) r && ltb r (y + (i + 1) + n)) && (leb x c && ltb c (x + width))
        then over (sprite_word sprite (r - y) (c - x)) here
        else here)
      ≡ (if (leb (y + i) r && ltb r (y + i + suc n)) && (leb x c && ltb c (x + width))
          then over (sprite_word sprite (r - y) (c - x)) old
          else old)
rows_step sprite x y width i n r c old = elim (Bool-cases (r == y + i)) [
  | inl e ↦ (let same : r - y ≡ i = ground arith in rw (e, same) (ground arith))
  | inr e ↦ ground arith
]

pixel_at-draw_rows :
    (n : ℕ) (sprite : ℕ → ℕ) (b x y width i r c : ℕ) (d : Display)
    → IsDrawable b d
    → y + i + n ≤ 480
    → x + width ≤ 640
    → OnScreen r c
    → pixel_at (draw_rows n sprite x y width i d) b r c ≡ (
        if (leb (y + i) r && ltb r (y + i + n)) && (leb x c && ltb c (x + width))
        then over (sprite_word sprite (r - y) (c - x)) (pixel_at d b r c)
        else pixel_at d b r c)
unfolding draw_rows
pixel_at-draw_rows zero sprite b x y width i r c d w h k o = ground arith
pixel_at-draw_rows (suc n) sprite b x y width i r c d w h k o =
    let d' = draw_row width sprite x y i 0 d in
    pixel_at-draw_rows n sprite b x y width (i + 1) r c d'
      (draw_row-IsDrawable width sprite b x y i 0 d w) (omega arith) k o
    ∙ ap
        (λ p.
          if (leb (y + (i + 1)) r && ltb r (y + (i + 1) + n)) && (leb x c && ltb c (x + width))
          then over (sprite_word sprite (r - y) (c - x)) p
          else p)
        (pixel_at-draw_row width sprite b x y i 0 r c d w (omega arith) (omega arith) o)
    ∙ rows_step sprite x y width i n r c (pixel_at d b r c)

-- Where buffer `b` is not shown, all words have 32 bits and the rectangle lies on the screen: drawing sprite
-- `id + 1` at a place sets each pixel of the rectangle in that buffer to the sprite's color if the color is odd,
-- and leaves it if it is even, which black and green are; the pixels around the rectangle are left.
pub pixel_at-locate_sprite_direct :
    (sprites : ℕ → ℕ → ℕ) (id b x y width height r c : ℕ) (d : Display)
    → IsDrawable b d
    → y + height ≤ 480
    → x + width ≤ 640
    → OnScreen r c
    → pixel_at (locate_sprite_direct sprites (suc id) x y width height d) b r c ≡ (
        if (leb y r && ltb r (y + height)) && (leb x c && ltb c (x + width))
        then over (sprite_word (sprites id) (r - y) (c - x)) (pixel_at d b r c)
        else pixel_at d b r c)
unfolding locate_sprite_direct
pixel_at-locate_sprite_direct sprites id b x y width height r c d w h k o =
    pixel_at-draw_rows height (sprites id) b x y width 0 r c d w (omega arith) k o
    ∙ ap
        (λ (t : ℕ).
          if (leb t r && ltb r (t + height)) && (leb x c && ltb c (x + width))
          then over (sprite_word (sprites id) (r - y) (c - x)) (pixel_at d b r c)
          else pixel_at d b r c)
        (omega arith)
