-- ===== src/Dma/Fill.antt =====
-- What a finished transfer leaves in the scratchpad.
use pret_iss.Prelude.{
  ℕ, zero, suc, ◌+◌, ◌*◌, ◌/◌, ◌%◌, ◌^◌, ◌≤◌, ◌<◌, ◌==◌, if◌then◌else◌, true, ◌≡◌, ◌≢◌, sym, ap,
  List, [], ◌∷◌, length, get_or, arith, add32,
}
use mathlib.Core.Path.{ap₂, subst}
use pret_iss.Memory.Scratch
use pret_iss.Memory.Scratch.{
  L1Scratch, scratch_size, update, is_addr_in_spm, in_spm_range, add_addr,
}
use pret_iss.Memory.Scratch.Owned.{read-add_addr}
use pret_iss.Dma.{fill}

-- `n` words fit: the source is a range of addresses above 0, and the target one of slots.
pub record Fits (source target n : ℕ) : Type 0 where
  pub positive : 0 < source
  pub no_wrap : source + 4 * n ≤ 2 ^ 32
  pub aligned : target % 4 ≡ 0
  pub in_range : target + 4 * n ≤ scratch_size

-- The address is resident with the word.
abbrev pub Holds : L1Scratch → ℕ → ℕ → Type 0
Holds s a w = (is_addr_in_spm s a ≡ true) × (Scratch.read s a ≡ w)

abbrev filled_one : L1Scratch → ℕ → ℕ → ℕ → ℕ → L1Scratch
filled_one s source target n w = add_addr s (add32 source (n * 4)) (add32 target (n * 4)) w

slot-filled_one :
    (s : L1Scratch) (source target n w slot : ℕ)
    → Fits source target (suc n)
    → (filled_one s source target n w).main_memory_address slot
      ≡ (if slot == target / 4 + n then source + 4 * n else s.main_memory_address slot)
unfolding add_addr in_spm_range
slot-filled_one s source target n w slot f =
    ground (arith, f.positive, f.no_wrap, f.aligned, f.in_range)

place_lem :
    (s : L1Scratch) (source target n w : ℕ)
    → Fits source target (suc n)
    → filled_one s source target n w ≡ add_addr s (source + 4 * n) (target + 4 * n) w
place_lem s source target n w f =
    ap₂ (λ (a b : ℕ). add_addr s a b w) (omega (arith, f.no_wrap)) (omega (arith, f.in_range))

slot_lem : (target n : ℕ) → target % 4 ≡ 0 → (target + 4 * n) / 4 ≡ target / 4 + n
slot_lem target n h = omega arith

other-filled_one :
    (s : L1Scratch) (source target n w a v : ℕ)
    → Fits source target (suc n)
    → a ≢ 0
    → a ≢ source + 4 * n
    → s.main_memory_address (target / 4 + n) ≢ a
    → Holds s a v
    → Holds (filled_one s source target n w) a v
unfolding in_spm_range
other-filled_one s source target n w a v f p q r h =
    let law =
      read-add_addr s (source + 4 * n) (target + 4 * n) w a (ground (arith, f.aligned, f.in_range))
        (omega (arith, f.positive)) p in
    let old = ap s.main_memory_address (slot_lem target n f.aligned) in
    subst (λ t. Holds t a v) (sym (place_lem s source target n w f)) (ground (arith, law, old, h))

new-filled_one :
    (s : L1Scratch) (source target n w : ℕ)
    → Fits source target (suc n)
    → Holds (filled_one s source target n w) (source + 4 * n) w
unfolding in_spm_range
new-filled_one s source target n w f =
    let law =
      read-add_addr s (source + 4 * n) (target + 4 * n) w (source + 4 * n)
        (ground (arith, f.aligned, f.in_range)) (omega (arith, f.positive))
        (omega (arith, f.positive)) in
    subst (λ t. Holds t (source + 4 * n) w) (sym (place_lem s source target n w f))
      (ground (arith, law))

-- The slots of the target do not hold the address.
abbrev Spares : L1Scratch → ℕ → ℕ → ℕ → ℕ → Type 0
Spares s target n len a = (j : ℕ) → n ≤ j → j < n + len → s.main_memory_address (target / 4 + j) ≢ a

fill_keeps :
    (s : L1Scratch) (source target n a v : ℕ) (ws : List ℕ)
    → Fits source target (n + length ws)
    → a ≢ 0
    → ((j : ℕ) → n ≤ j → j < n + length ws → a ≢ source + 4 * j)
    → Spares s target n (length ws) a
    → Holds s a v
    → Holds (fill s source target n ws) a v
unfolding fill
fill_keeps s source target n a v [] f p q r h = h
fill_keeps s source target n a v (w ∷ ws) f p q r h =
    let one : Fits source target (suc n) = record {
      positive = f.positive;
      no_wrap = omega (arith, f.no_wrap);
      aligned = f.aligned;
      in_range = omega (arith, f.in_range);
    } in
    let all : Fits source target (n + 1 + length ws) = record {
      positive = f.positive;
      no_wrap = omega (arith, f.no_wrap);
      aligned = f.aligned;
      in_range = omega (arith, f.in_range);
    } in
    fill_keeps (filled_one s source target n w) source target (n + 1) a v ws all p
      (λ j le lt. q j (omega arith) (omega arith))
      (λ j le lt e.
        r j (omega arith) (omega arith)
          (ground (arith, slot-filled_one s source target n w (target / 4 + j) one)))
      (other-filled_one s source target n w a v one p (q n (omega arith) (omega arith))
        (r n (omega arith) (omega arith)) h)

fill_from :
    (s : L1Scratch) (source target n : ℕ) (ws : List ℕ)
    → Fits source target (n + length ws)
    → ((k : ℕ) → n ≤ k → k < n + length ws → Spares s target n (length ws) (source + 4 * k))
    → (i : ℕ) → i < length ws
    → Holds (fill s source target n ws) (source + 4 * (n + i)) (get_or ws i 0)
unfolding fill
fill_from s source target n [] f r i lt = absurd (omega arith)
fill_from s source target n (w ∷ ws) f r i lt =
    at
      (λ j below.
        fill_from next source target (n + 1) ws all
          (λ k le lt. spared k (omega arith) (omega arith)) j below)
      i lt
  where
    one : Fits source target (suc n)
    one = record {
      positive = f.positive;
      no_wrap = omega (arith, f.no_wrap);
      aligned = f.aligned;
      in_range = omega (arith, f.in_range);
    }

    all : Fits source target (n + 1 + length ws)
    all = record {
      positive = f.positive;
      no_wrap = omega (arith, f.no_wrap);
      aligned = f.aligned;
      in_range = omega (arith, f.in_range);
    }

    next : L1Scratch
    next = filled_one s source target n w

    spared :
        (k : ℕ)
        → n ≤ k
        → k < n + suc (length ws)
        → Spares next target (n + 1) (length ws) (source + 4 * k)
    spared k le lt j le' lt' e =
        r k le lt j (omega arith) (omega arith)
          (ground (arith, slot-filled_one s source target n w (target / 4 + j) one))

    at :
        ((j : ℕ)
          → j < length ws
          → Holds (fill next source target (n + 1) ws) (source + 4 * (n + 1 + j)) (get_or ws j 0))
        → (i : ℕ) → i < suc (length ws)
        → Holds (fill next source target (n + 1) ws) (source + 4 * (n + i)) (get_or (w ∷ ws) i 0)
    at later zero lt =
        subst (λ a. Holds (fill next source target (n + 1) ws) a w) (omega arith)
          (fill_keeps next source target (n + 1) (source + 4 * n) w ws all
            (omega (arith, f.positive)) (λ j le lt e. absurd (omega arith))
            (spared n (omega arith) (omega arith)) (new-filled_one s source target n w one))
    at later (suc i) lt =
        subst (λ a. Holds (fill next source target (n + 1) ws) a (get_or ws i 0)) (omega arith)
          (later i (omega arith))

-- Where the words fit and no slot of the target holds an address of the source beforehand, every
-- word of a transfer of any length is resident under its address when the loop is over.
pub read-fill :
    (s : L1Scratch) (source target : ℕ) (ws : List ℕ) (i : ℕ)
    → Fits source target (length ws)
    → ((k : ℕ)
        → k < length ws
        → (j : ℕ) → j < length ws
        → s.main_memory_address (target / 4 + j) ≢ source + 4 * k)
    → i < length ws
    → (is_addr_in_spm (fill s source target 0 ws) (source + 4 * i) ≡ true)
      × (Scratch.read (fill s source target 0 ws) (source + 4 * i) ≡ get_or ws i 0)
read-fill s source target ws i f r lt =
    subst (λ k. Holds (fill s source target 0 ws) (source + 4 * k) (get_or ws i 0)) (omega arith)
      (fill_from s source target 0 ws
        (record {
          positive = f.positive;
          no_wrap = omega (arith, f.no_wrap);
          aligned = f.aligned;
          in_range = omega (arith, f.in_range);
        })
        (λ k le lt j le' lt'. r k (omega arith) j (omega arith)) i lt)
