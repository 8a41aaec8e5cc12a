-- ===== src/Graphic/Pixels/Laws.antt =====
-- Which pixels of a word are changed by the write of one.
use pret_iss.Prelude.{
  ℕ, zero, suc, ◌+◌, ◌-◌, ◌*◌, ◌/◌, ◌%◌, ◌^◌, ◌<◌, ◌==◌, if◌then◌else◌, Bool, true, false, ◌&&◌,
  ◌≡◌, refl, ap, sym, ◌∙◌, bit_and, bit_or, not32, shl32, u32, arith, ==_iff, Bool-cases, inl, inr,
}
use mathlib.Core.Path.{ap₂, subst}
use pret_iss.Prelude.Bits.{
  bit_and_split, bit_or_split, bit_and_mask, bit_and-zero, bit_or-zero, bit_or_fields,
}
use pret_iss.Graphic.Pixels.{set_pixel, n_vga_pixel_per_once}

-- Pixel `k` of a word, and the word with another.
unfoldable pub pixel : ℕ → ℕ → ℕ
pixel word zero = word % 4
pixel word (suc k) = pixel (word / 4) k

with_pixel : ℕ → ℕ → ℕ → ℕ
with_pixel word zero color = word / 4 * 4 + color
with_pixel word (suc k) color = with_pixel (word / 4) k color * 4 + word % 4

pixel-with_pixel :
    (k j word color : ℕ)
    → color < 4
    → pixel (with_pixel word k color) j ≡ (if k == j then color else pixel word j)
unfolding pixel with_pixel
pixel-with_pixel zero zero word color h = omega arith
pixel-with_pixel zero (suc j) word color h =
    let above : (word / 4 * 4 + color) / 4 ≡ word / 4 = omega arith in
    ap (λ w. pixel w j) above ∙ ground arith
pixel-with_pixel (suc k) zero word color h = ground arith
pixel-with_pixel (suc k) (suc j) word color h =
    let above : (with_pixel (word / 4) k color * 4 + word % 4) / 4 ≡ with_pixel (word / 4) k color =
      omega arith in
    ap (λ w. pixel w j) above ∙ pixel-with_pixel k j (word / 4) color h ∙ ground arith

-- The word has `n` pixels at most.
abbrev pub HasPixels : ℕ → ℕ → Type 0
HasPixels zero word = word ≡ 0
HasPixels (suc n) word = HasPixels n (word / 4)

ones : ℕ → ℕ
ones zero = 0
ones (suc n) = ones n * 4 + 3

-- All pixels but pixel `k`, above which there are `n`.
mask : ℕ → ℕ → ℕ
mask n zero = ones n * 4
mask n (suc k) = mask n k * 4 + 3

placed : ℕ → ℕ → ℕ
placed color zero = color
placed color (suc k) = placed color k * 4

bit_and_quad :
    (word m l : ℕ)
    → l < 4
    → bit_and word (m * 4 + l) ≡ bit_and (word / 4) m * 4 + bit_and (word % 4) l
bit_and_quad word m l h =
    ap (λ w. bit_and w (m * 4 + l)) (omega arith)
    ∙ bit_and_split 2 (word / 4) (word % 4) m l (omega arith) (omega arith)

bit_and-ones : (n word : ℕ) → HasPixels n word → bit_and word (ones n) ≡ word
unfolding ones
bit_and-ones zero word h = bit_and-zero word ∙ sym h
bit_and-ones (suc n) word h =
    bit_and_quad word (ones n) 3 (omega arith)
    ∙ omega (arith, bit_and-ones n (word / 4) h, bit_and_mask 2 (word % 4))

bit_or_quad : (x y z : ℕ) → y < 4 → bit_or (x * 4 + y) (z * 4) ≡ bit_or x z * 4 + y
bit_or_quad x y z h =
    ap (bit_or (x * 4 + y)) (omega arith)
    ∙ bit_or_split 2 x y z 0 (omega arith) (omega arith)
    ∙ ap (λ t. bit_or x z * 4 + t) (bit_or-zero y)

plus_zero : (n : ℕ) → n ≡ n + 0
plus_zero n = omega arith

abbrev total : ℕ → ℕ → ℕ
total n zero = suc n
total n (suc k) = suc (total n k)

masked-placed :
    (k n word color : ℕ)
    → color < 4
    → HasPixels (total n k) word
    → bit_or (bit_and word (mask n k)) (placed color k) ≡ with_pixel word k color
unfolding mask placed with_pixel
masked-placed zero n word color h b =
    let masked : bit_and word (ones n * 4) ≡ word / 4 * 4 =
      ap (bit_and word) (plus_zero (ones n * 4))
      ∙ bit_and_quad word (ones n) 0 (omega arith)
      ∙ omega (arith, bit_and-ones n (word / 4) b, bit_and-zero (word % 4)) in
    ap (λ w. bit_or w color) masked ∙ bit_or_fields 2 (word / 4) color h
masked-placed (suc k) n word color h b =
    let masked : bit_and word (mask n k * 4 + 3) ≡ bit_and (word / 4) (mask n k) * 4 + word % 4 =
      bit_and_quad word (mask n k) 3 (omega arith) ∙ omega (arith, bit_and_mask 2 (word % 4)) in
    ap (λ w. bit_or w (placed color k * 4)) masked
    ∙ bit_or_quad (bit_and (word / 4) (mask n k)) (word % 4) (placed color k) (omega arith)
    ∙ ap (λ w. w * 4 + word % 4) (masked-placed k n (word / 4) color h b)

and_left : (a b : Bool) → (a && b) ≡ true → a ≡ true
and_left true b h = refl
and_left false b h = h

and_right : (a b : Bool) → (a && b) ≡ true → b ≡ true
and_right true b h = h
and_right false b h = absurd (cc)

-- A test of all numbers below one.
all_below : ℕ → (ℕ → Bool) → Bool
all_below zero f = true
all_below (suc n) f = f n && all_below n f

all_below-lt : (n k : ℕ) (f : ℕ → Bool) → all_below n f ≡ true → k < n → f k ≡ true
unfolding all_below
all_below-lt zero k f h lt = absurd (omega arith)
all_below-lt (suc n) k f h lt = elim (Bool-cases (k == n)) [
  | inl e ↦ ap f ((==_iff k n).0 e) ∙ and_left (f n) (all_below n f) h
  | inr e ↦ all_below-lt n k f (and_right (f n) (all_below n f) h) (ground arith)
]

mask_test : ℕ → Bool
mask_test k = not32 (shl32 0x03 (k * 2)) == mask (15 - k) k

mask_value : (k : ℕ) → k < 16 → not32 (shl32 0x03 (k * 2)) ≡ mask (15 - k) k
unfolding mask_test all_below mask ones
mask_value k h =
    (==_iff (not32 (shl32 0x03 (k * 2))) (mask (15 - k) k)).0 (all_below-lt 16 k mask_test refl h)

placed_value : (k color : ℕ) → k < 16 → color < 4 → shl32 color (k * 2) ≡ placed color k
unfolding all_below placed
placed_value k color h c =
    let test = λ (v j : ℕ). u32 (v * 2 ^ (j * 2)) == placed v j in
    (==_iff (shl32 color (k * 2)) (placed color k)).0
      (all_below-lt 16 k (test color) (all_below-lt 4 color (λ v. all_below 16 (test v)) refl c) h)

total_lem : (k : ℕ) → k < 16 → total (15 - k) k ≡ 16
total_lem k h = total-plus k (15 - k) ∙ omega arith
  where
    total-plus : (k n : ℕ) → total n k ≡ n + 1 + k
    total-plus zero n = omega arith
    total-plus (suc k) n = omega (arith, total-plus k n)

set_pixel_lem :
    (word col color : ℕ)
    → word < 2 ^ 32
    → set_pixel word col color ≡ with_pixel word (col % n_vga_pixel_per_once) (color % 4)
unfolding set_pixel
set_pixel_lem word col color h =
    let k = col % n_vga_pixel_per_once in
    let below : k < 16 = omega arith in
    let whole : HasPixels 16 word = omega arith in
    ap₂ (λ m c. bit_or (bit_and word m) (shl32 c (k * 2))) (mask_value k below)
      (bit_and_mask 2 color)
    ∙ ap (bit_or (bit_and word (mask (15 - k) k))) (placed_value k (color % 4) below (omega arith))
    ∙ masked-placed k (15 - k) word (color % 4) (omega arith)
        (subst (λ n. HasPixels n word) (sym (total_lem k below)) whole)

-- The write of a pixel sets that pixel to the lower two bits of the color, and leaves the others.
pub pixel-set_pixel :
    (word col color j : ℕ)
    → word < 2 ^ 32
    → pixel (set_pixel word col color) j
      ≡ (if col % n_vga_pixel_per_once == j then color % 4 else pixel word j)
pixel-set_pixel word col color j h =
    ap (λ w. pixel w j) (set_pixel_lem word col color h)
    ∙ pixel-with_pixel (col % n_vga_pixel_per_once) j word (color % 4) (omega arith)

with_pixel-HasPixels :
    (n k word color : ℕ)
    → k < n
    → color < 4
    → HasPixels n word
    → HasPixels n (with_pixel word k color)
unfolding with_pixel
with_pixel-HasPixels zero k word color h c b = absurd (omega arith)
with_pixel-HasPixels (suc n) zero word color h c b =
    let above : word / 4 ≡ (word / 4 * 4 + color) / 4 = omega arith in subst (HasPixels n) above b
with_pixel-HasPixels (suc n) (suc k) word color h c b =
    let inner = with_pixel (word / 4) k color in
    let above : inner ≡ (inner * 4 + word % 4) / 4 = omega arith in
    subst (HasPixels n) above (with_pixel-HasPixels n k (word / 4) color (omega arith) c b)

pub set_pixel-lt : (word col color : ℕ) → word < 2 ^ 32 → set_pixel word col color < 2 ^ 32
set_pixel-lt word col color h =
    let whole : HasPixels 16 word = omega arith in
    let b = with_pixel-HasPixels 16 (col % 16) word (color % 4) (omega arith) (omega arith) whole in
    omega (arith, b, set_pixel_lem word col color h)
