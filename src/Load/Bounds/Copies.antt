-- ===== src/Load/Bounds/Copies.antt =====
-- The loop over the addresses in `load_spm` of src/core/static_bound_parser.cpp, for a range that fits.
use pret_iss.Prelude.{
  ℕ, zero, suc, ◌+◌, ◌*◌, ◌/◌, ◌^◌, ◌≤◌, ◌<◌, ◌≡◌, refl, ap, ◌∙◌, List, [], ◌∷◌, length, get_or,
  add32, arith,
}
use pret_iss.Memory.Unit.{MemoryUnit, read_word}
use pret_iss.Memory.Scratch.{L1Scratch, add_addr}
use pret_iss.Dma.{fill}
use pret_iss.Load.Scan.{Text}
use pret_iss.Load.Bounds.{Copied, copied, copy, half, copy_fuel, copy_line}
use pret_iss.Load.Bounds.Slots.{IsStart}

-- The words of main memory from an address on.
abbrev pub main_words : MemoryUnit → ℕ → ℕ → List ℕ
main_words m addr zero = []
main_words m addr (suc n) = read_word m addr ∷ main_words m (addr + 4) n

pub length-main_words : (m : MemoryUnit) (addr n : ℕ) → length (main_words m addr n) ≡ n
length-main_words m addr zero = refl
length-main_words m addr (suc n) = ap suc (length-main_words m (addr + 4) n)

pub get_or-main_words :
    (m : MemoryUnit) (n addr i : ℕ)
    → i < n
    → get_or (main_words m addr n) i 0 ≡ read_word m (addr + 4 * i)
get_or-main_words m zero addr i h = absurd (omega arith)
get_or-main_words m (suc n) addr zero h = ap (read_word m) (omega arith)
get_or-main_words m (suc n) addr (suc i) h =
    get_or-main_words m n (addr + 4) i (omega arith) ∙ ap (read_word m) (omega arith)

copy-suc :
    (fuel : ℕ) (s : L1Scratch) (m : MemoryUnit) (addr max spm_addr end : ℕ)
    → addr < max
    → spm_addr < end
    → copy (suc fuel) s m addr max spm_addr end
      ≡ copy fuel
          (add_addr s addr spm_addr (read_word m addr))
          m
          (add32 addr 4)
          max
          (add32 spm_addr 4)
          end
unfolding copy
copy-suc fuel s m addr max spm_addr end h k = ground arith

copy-done :
    (fuel : ℕ) (s : L1Scratch) (m : MemoryUnit) (addr max spm_addr end : ℕ)
    → addr ≡ max
    → copy (suc fuel) s m addr max spm_addr end ≡ copied s
unfolding copy
copy-done fuel s m addr max spm_addr end e = ground arith

-- The loop over `r` more addresses is the loop that moves a finished transfer.
copy-fill :
    (r fuel k : ℕ) (s : L1Scratch) (m : MemoryUnit) (min start addr max spm_addr : ℕ)
    → IsStart start
    → max < 2 ^ 32
    → k + r ≤ half / 4
    → r < fuel
    → addr ≡ min + 4 * k
    → spm_addr ≡ start + 4 * k
    → max ≡ min + 4 * (k + r)
    → copy fuel s m addr max spm_addr (start + half)
      ≡ copied (fill s min start k (main_words m addr r))
unfolding fill
copy-fill r zero k s m min start addr max spm_addr i h n f a b c = absurd (omega arith)
copy-fill zero (suc fuel) k s m min start addr max spm_addr i h n f a b c =
    copy-done fuel s m addr max spm_addr (start + half) (omega arith)
copy-fill (suc r) (suc fuel) k s m min start addr max spm_addr i h n f a b c =
    let next = add_addr s addr spm_addr (read_word m addr) in
    copy-suc fuel s m addr max spm_addr (start + half) (omega arith) (omega arith)
    ∙ copy-fill r fuel (k + 1) next m min start (add32 addr 4) max (add32 spm_addr 4) i h
        (omega arith) (omega arith) (omega arith) (omega arith) (omega arith)
    ∙ ap (λ a'. copied (fill next min start (k + 1) (main_words m a' r))) (omega arith)
    ∙ ap (λ (a' : ℕ). filled a' spm_addr) (omega arith)
    ∙ ap (λ (a' : ℕ). filled (add32 min (k * 4)) a') (omega (arith, i))
  where
    filled : ℕ → ℕ → Copied
    filled a' b' =
        copied
          (fill (add_addr s a' b' (read_word m addr)) min start (k + 1) (main_words m (addr + 4) r))

pub copy_line-fill :
    (s : L1Scratch) (m : MemoryUnit) (start min max n c : ℕ) (l : Text)
    → IsStart start
    → max < 2 ^ 32
    → n ≤ half / 4
    → max ≡ min + 4 * n
    → copy_line s m start min max (c ∷ l) ≡ copied (fill s min start 0 (main_words m min n))
unfolding copy_line
copy_line-fill s m start min max n c l i h k e =
    copy-fill n copy_fuel 0 s m min start min max start i h (omega arith) (omega arith)
      (omega arith) (omega arith) (omega arith)
