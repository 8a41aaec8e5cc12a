-- ===== src/Core/Clocks/Counts.antt =====
-- What the cycle counter of the core reads after rounds of `run`.
use pret_iss.Prelude.{ℕ, zero, suc, ◌+◌, ◌/◌, ◌^◌, ◌<◌, add32, ◌≡◌, refl, arith}
use native.Mathlib.Decide.{dec_lt}
use pret_iss.Core.{
  Core, cycle, pll_behavior, except_stage, memories, mem_stage, execute_stage, regacc_stage,
  decode_stage, fetch_stage, advance,
}
use pret_iss.Core.Turns.{Going, then_step}
use pret_iss.Core.Clocks.{Clocked, Ran, returned, caught, aborted, then_ran, clocked, round, rounds}

-- What the cycle counter of the core reads after a number of cycles.
abbrev Counts : ℕ → Core → Type 0
Counts n c = c.cycles ≡ n

except_stage-Counts : (n : ℕ) (c : Core) → Counts n c → Going (Counts n) (except_stage c)
unfolding except_stage
except_stage-Counts n c h = ground arith

memories-Counts : (n : ℕ) (c : Core) → Counts n c → Going (Counts n) (memories c)
unfolding memories
memories-Counts n c h = ground arith

mem_stage-Counts : (n : ℕ) (c : Core) → Counts n c → Going (Counts n) (mem_stage c)
unfolding mem_stage
mem_stage-Counts n c h = ground arith

fetch_stage-Counts : (n : ℕ) (c : Core) → Counts n c → Going (Counts n) (fetch_stage c)
unfolding fetch_stage
fetch_stage-Counts n c h = ground arith

middle-Counts :
    (n : ℕ) (c : Core) → Counts n c → Counts n (decode_stage (regacc_stage (execute_stage c)))
unfolding decode_stage regacc_stage execute_stage
middle-Counts n c h = ground arith

advance-Counts : (n : ℕ) (c : Core) → Counts n c → Counts (add32 n 1) (advance c)
unfolding advance
advance-Counts n c h = ground arith

cycle-Counts : (n : ℕ) (c : Core) → Counts n c → Going (Counts (add32 n 1)) (cycle c)
unfolding cycle
cycle-Counts n c h =
    let Q = Counts (add32 n 1) in
    then_step (Counts n) Q (except_stage c) _
      (λ c₁ h₁.
        then_step (Counts n) Q (memories c₁) _
          (λ c₂ h₂.
            then_step (Counts n) Q (mem_stage c₂) _
              (λ c₃ h₃.
                then_step (Counts n) Q
                  (fetch_stage (decode_stage (regacc_stage (execute_stage c₃)))) _
                  (λ c₄ h₄. advance-Counts n c₄ h₄)
                  (fetch_stage-Counts n (decode_stage (regacc_stage (execute_stage c₃)))
                    (middle-Counts n c₃ h₃)))
              (mem_stage-Counts n c₂ h₂))
          (memories-Counts n c₁ h₁))
      (except_stage-Counts n c h)

abbrev pub Returning : (Clocked → Type 0) → Ran → Type 0
Returning P (returned c) = P c
Returning P caught = Unit {0}
Returning P aborted = Unit {0}

-- The clock has ticked `n` rounds ago and the counter reads `m`.
abbrev Stands : ℕ → ℕ → Clocked → Type 0
Stands n m c = (c.clock.period ≡ 5) × (c.clock.count ≡ n) × (c.core.cycles ≡ m)

pll_behavior-cycles : (c : Core) → (pll_behavior c).cycles ≡ c.cycles
unfolding pll_behavior
pll_behavior-cycles c = refl

round-quiet :
    (n m : ℕ) (c : Clocked) → n < 4 → Stands n m c → Returning (Stands (n + 1) m) (round c)
unfolding round
round-quiet n m c h s = ground (arith, pll_behavior-cycles c.core)

round-Stands :
    (m : ℕ) (c : Clocked) → m + 1 < 2 ^ 32 → Stands 4 m c → Returning (Stands 0 (m + 1)) (round c)
unfolding round pll_behavior
round-Stands m c h s = ground (arith, cycle-Counts m c.core s.2)

then_Returning :
    (P Q : Clocked → Type 0) (r : Ran) (f : Clocked → Ran)
    → ((c : Clocked) → P c → Returning Q (f c))
    → Returning P r
    → Returning Q (then_ran r f)
then_Returning P Q (returned c) f step h = step c h
then_Returning P Q caught f step h = tt
then_Returning P Q aborted f step h = tt

rounds-Stands :
    (k n m t : ℕ) (c : Clocked)
    → n < 5
    → t ≡ m + (n + k) / 5
    → t < 2 ^ 32
    → Stands n m c
    → Returning (λ d. d.core.cycles ≡ t) (rounds k c)
unfolding rounds
rounds-Stands zero n m t c hn e h s = omega (arith, s.2)
rounds-Stands (suc k) n m t c hn e h s =
    let Q = λ (d : Clocked). d.core.cycles ≡ t in
    elim (dec_lt n 4) [
      | yes p ↦
          then_Returning (Stands (n + 1) m) Q (round c) (rounds k)
            (λ d w. rounds-Stands k (n + 1) m t d (omega arith) (omega arith) h w)
            (round-quiet n m c p s)
      | no p ↦
          then_Returning (Stands 0 (m + 1)) Q (round c) (rounds k)
            (λ d w. rounds-Stands k 0 (m + 1) t d (omega arith) (omega arith) h w)
            (round-Stands m c (omega arith) (ground arith))
    ]

-- Of `k` rounds of `run` from the clocks that the constructor makes, as long as the counter does not
-- wrap: if `run` returns true, the cycle counter has moved by a fifth of the rounds.
pub rounds-cycles :
    (k : ℕ) (c : Core)
    → c.cycles + k / 5 < 2 ^ 32
    → Returning (λ d. d.core.cycles ≡ c.cycles + k / 5) (rounds k (clocked c))
rounds-cycles k c h =
    rounds-Stands k 0 c.cycles (c.cycles + k / 5) (clocked c) (omega arith) (omega arith) h
      (ground arith)
