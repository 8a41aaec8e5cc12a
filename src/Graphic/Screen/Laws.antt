-- ===== src/Graphic/Screen/Laws.antt =====
-- Which pixels of the two buffers the functions of soft/graphic/vga.c change.
use pret_iss.Prelude.{
  ℕ, zero, suc, ◌+◌, ◌-◌, ◌*◌, ◌/◌, ◌%◌, ◌^◌, ◌<◌, ◌==◌, leb, ltb, if◌then◌else◌, Bool, false, ◌&&◌,
  ◌≡◌, inl, inr, refl, ap, sym, ◌∙◌, bit_xor, u32, u8, arith, ==_iff, Bool-cases,
}
use mathlib.Core.Path.{ap₂}
use pret_iss.Graphic.Queue.{put_at}
use pret_iss.Graphic.Pixels.{set_pixel, n_vga_pixel_per_once}
use pret_iss.Graphic.Pixels.Laws.{pixel, pixel-set_pixel}
use pret_iss.Graphic.Screen.{
  Display, back_word, vga_set_color, copy_words, vga_copy_into_back_buffer, vga_resolution_height,
  words_of_row,
}

-- A pixel of buffer `b`.
abbrev pub pixel_at : Display → ℕ → ℕ → ℕ → ℕ
pixel_at d b row col = pixel (d.screen (b * 19200 + row * 40 + col / 16)) (col % 16)

-- A row and a column of the screen.
abbrev pub OnScreen : ℕ → ℕ → Type 0
OnScreen row col = (row < 480) × (col < 640)

-- The buffer that is not shown.
back_word_lem :
    (d : Display) (row col b : ℕ)
    → bit_xor d.current_buffer 1 ≡ b
    → b < 2
    → OnScreen row col
    → back_word d row col ≡ b * 19200 + row * 40 + col / 16
back_word_lem d row col b e h o =
    ap
      (λ x. u32 (
        x * vga_resolution_height * words_of_row + row * words_of_row + col / n_vga_pixel_per_once))
      e
    ∙ omega arith

-- Two pixels are in one word exactly where their buffers, rows and groups of 16 columns are.
same_word :
    (b r c b' r' c' : ℕ)
    → OnScreen r c
    → OnScreen r' c'
    → b * 19200 + r * 40 + c / 16 ≡ b' * 19200 + r' * 40 + c' / 16
    → (b ≡ b') × (r ≡ r') × (c / 16 ≡ c' / 16)
same_word b r c b' r' c' o o' e = (omega arith, omega arith, omega arith)

abbrev is_same_pixel : ℕ → ℕ → ℕ → ℕ → ℕ → ℕ → Bool
is_same_pixel b r c b' r' c' = b == b' && (r == r' && c == c')

same_in_word :
    (b r c b' r' c' : ℕ)
    → (b ≡ b') × (r ≡ r') × (c / 16 ≡ c' / 16)
    → (c % 16 == c' % 16) ≡ is_same_pixel b r c b' r' c'
same_in_word b r c b' r' c' h = ground arith

same_elsewhere :
    (b r c b' r' c' : ℕ)
    → (b' * 19200 + r' * 40 + c' / 16 == b * 19200 + r * 40 + c / 16) ≡ false
    → is_same_pixel b r c b' r' c' ≡ false
same_elsewhere b r c b' r' c' h = ground arith

-- Where the shown buffer is 0 or 1 and the word of the pixel has 32 bits: `vga_set_color` sets the pixel of
-- its row and column in the buffer that is not shown to the lower two bits of the color, and leaves every
-- other pixel of both buffers.
pub pixel_at-vga_set_color :
    (d : Display) (row col color b b' row' col' : ℕ)
    → bit_xor d.current_buffer 1 ≡ b
    → b < 2
    → OnScreen row col
    → OnScreen row' col'
    → d.screen (b * 19200 + row * 40 + col / 16) < 2 ^ 32
    → pixel_at (vga_set_color d row col color) b' row' col'
      ≡ (if b == b' && (row == row' && col == col') then color % 4 else pixel_at d b' row' col')
unfolding vga_set_color
pixel_at-vga_set_color d row col color b b' row' col' e h o o' w =
    let i = b * 19200 + row * 40 + col / 16 in
    let k = b' * 19200 + row' * 40 + col' / 16 in
    let new = set_pixel (d.screen i) col (u8 color) in
    let eighth : u8 color % 4 ≡ color % 4 = omega arith in
    ap (λ n. pixel (put_at d.screen n (set_pixel (d.screen n) col (u8 color)) k) (col' % 16))
      (back_word_lem d row col b e h o)
    ∙ elim (Bool-cases (k == i)) [
      | inl q ↦
          (let at : k ≡ i = (==_iff k i).0 q in
            ap (λ w. pixel w (col' % 16)) (rw q refl)
            ∙ pixel-set_pixel (d.screen i) col (u8 color) (col' % 16) w
            ∙ ap₂ (λ x y. if col % 16 == col' % 16 then x else pixel (d.screen y) (col' % 16))
                eighth (sym at)
            ∙ ap (λ t. if t then color % 4 else pixel (d.screen k) (col' % 16))
                (same_in_word b row col b' row' col'
                  (same_word b row col b' row' col' o o' (sym at))))
      | inr q ↦
          ap (λ w. pixel w (col' % 16)) (rw q refl)
          ∙ ap (λ t. if t then color % 4 else pixel (d.screen k) (col' % 16))
              (sym (same_elsewhere b row col b' row' col' q))
    ]

copy_words_lem :
    (n i j m : ℕ) (source : ℕ → ℕ) (d : Display) (base : ℕ)
    → bit_xor d.current_buffer 1 * vga_resolution_height * 640 / n_vga_pixel_per_once ≡ base
    → (copy_words n i j source d).screen m ≡ (
        if leb (i + base) m && ltb m (i + base + n)
        then source (j + (m - (i + base)))
        else d.screen m)
unfolding copy_words
copy_words_lem zero i j m source d base e = ground arith
copy_words_lem (suc n) i j m source d base e =
    let with_word = λ (x : ℕ). record d { screen = put_at d.screen (i + x) (source j) } in
    ap (λ x. (copy_words n (i + 1) (j + 1) source (with_word x)).screen m) e
    ∙ copy_words_lem n (i + 1) (j + 1) m source (with_word base) base e
    ∙ elim (Bool-cases (m == i + base)) [
      | inl q ↦ ground (arith, ap source {x = j} {y = j + (m - (i + base))})
      | inr q ↦
          ground (arith, ap source {x = j + 1 + (m - (i + 1 + base))} {y = j + (m - (i + base))})
    ]

-- Where buffer `b` is not shown: the copy of a whole screen writes the 19200 words of that buffer from the
-- source, and 40 words more, which are the first row of the shown buffer if that is the second one; every
-- other word is left.
pub screen-vga_copy_into_back_buffer :
    (d : Display) (source : ℕ → ℕ) (b m : ℕ)
    → bit_xor d.current_buffer 1 ≡ b
    → (vga_copy_into_back_buffer source 0 0 640 480 d).screen m ≡ (
        if leb (b * 19200) m && ltb m (b * 19200 + 19200 + 40)
        then source (m - b * 19200)
        else d.screen m)
unfolding vga_copy_into_back_buffer
screen-vga_copy_into_back_buffer d source b m e =
    let base : bit_xor d.current_buffer 1 * vga_resolution_height * 640 / n_vga_pixel_per_once
        ≡ b * 19200 =
      ap (λ (x : ℕ). x * vga_resolution_height * 640 / n_vga_pixel_per_once) e ∙ omega arith in
    copy_words_lem 19240 0 0 m source d (b * 19200) base
    ∙ ground (arith, ap source {x = 0 + (m - (0 + b * 19200))} {y = m - b * 19200} (omega arith))
