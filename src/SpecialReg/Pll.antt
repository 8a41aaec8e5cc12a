-- ===== src/SpecialReg/Pll.antt =====
-- The phase-locked timers: a timer counts down, and takes a new period from its mailbox when it
-- has reached 0.
use pret_iss.Prelude.{
  ℕ, zero, suc, ◌-◌, ◌^◌, ◌≤◌, ◌<◌, ◌≡◌, refl, arith, List, [], ◌∷◌, get_or, length,
}
use pret_iss.SpecialReg.{tick_pll, tick_plls}

-- `n` ticks of one timer and its mailbox.
pub ticks : ℕ → ℕ × ℕ → ℕ × ℕ
ticks zero s = s
ticks (suc n) s = let (t, l) = ticks n s in tick_pll t l

-- A timer at 0 with the period `p` in its mailbox takes it at the first tick, empties the mailbox,
-- and is at 0 again after exactly `p` ticks, not before; no tick makes it wrap below 0.
pub pll_period :
    (p n : ℕ)
    → 0 < p
    → p < 2 ^ 32
    → 0 < n
    → n ≤ p
    → ((ticks n (0, p)).0 ≡ p - n) × ((ticks n (0, p)).1 ≡ 0)
unfolding ticks tick_pll
pll_period p zero h fits pos le = absurd (omega arith)
pll_period p (suc zero) h fits pos le = ground arith
pll_period p (suc (suc n)) h fits pos le =
    ground (arith, pll_period p (suc n) h fits (omega arith) (omega arith))

-- An idle timer with an empty mailbox stays idle.
pub pll_idle : (n : ℕ) → ticks n (0, 0) ≡ (0, 0)
unfolding ticks tick_pll
pll_idle zero = refl
pll_idle (suc n) = ground (arith, pll_idle n)

-- Every timer of the array makes its own tick with its own mailbox.
pub decrement_pll_timers-at :
    (ts ls : List ℕ) (i : ℕ)
    → length ts ≡ length ls
    → i < length ts
    → (get_or (tick_plls ts ls).0 i 0 ≡ (tick_pll (get_or ts i 0) (get_or ls i 0)).0)
      × (get_or (tick_plls ts ls).1 i 0 ≡ (tick_pll (get_or ts i 0) (get_or ls i 0)).1)
unfolding tick_plls
decrement_pll_timers-at [] ls i e h = absurd (omega arith)
decrement_pll_timers-at (t ∷ ts) [] i e h = absurd (omega arith)
decrement_pll_timers-at (t ∷ ts) (l ∷ ls) zero e h = (refl, refl)
decrement_pll_timers-at (t ∷ ts) (l ∷ ls) (suc i) e h =
    decrement_pll_timers-at ts ls i (omega arith) (omega arith)
