-- ===== src/Core/Clocks/Cycles.antt =====
-- How the rounds of `run` group into cycles of the core.
use pret_iss.Prelude.{
  ℕ, zero, suc, ◌+◌, ◌*◌, ◌^◌, ◌<◌, ◌≡◌, refl, sym, ap, ◌∙◌, arith, Option, none, some,
}
use pret_iss.Core.{Core, Outcome, running, ended, failed, and_then, cycle, pll_behavior}
use pret_iss.Core.Clocks.{
  Clocked, Ran, returned, caught, aborted, then_ran, clocked, round, rounds, forever, run,
  run_for_instruction, pret_clock,
}

-- Between two ticks of the core's clock only the timers move; the tick itself is a cycle of the core
-- and a last move of the timers.
unfoldable pub cycle_of_five : Core → Outcome
unfolding pll_behavior
cycle_of_five c =
    and_then (cycle (pll_behavior (pll_behavior (pll_behavior (pll_behavior c)))))
      (λ d. running (pll_behavior d))

unfoldable pub cycles_of_five : ℕ → Core → Outcome
unfolding cycle_of_five
cycles_of_five zero c = running c
cycles_of_five (suc n) c = and_then (cycle_of_five c) (cycles_of_five n)

abbrev pub ran_of : Outcome → Ran
ran_of (running c) = returned (clocked c)
ran_of ended = caught
ran_of failed = aborted

abbrev at : ℕ → Core → Clocked
at n c = record { core = c; clock = record { period = 5; count = n }; pll_clock = pret_clock 1 }

round-at : (n : ℕ) (c : Core) → n < 4 → round (at n c) ≡ returned (at (n + 1) (pll_behavior c))
unfolding round
round-at n c h = ground arith

round-tick :
    (c : Core) → round (at 4 c) ≡ ran_of (and_then (cycle c) (λ d. running (pll_behavior d)))
unfolding round
round-tick c = ground arith

rounds-suc : (n : ℕ) (c : Clocked) → rounds (suc n) c ≡ then_ran (round c) (rounds n)
unfolding rounds
rounds-suc n c = refl

rounds-returned : (n : ℕ) (c d : Clocked) → round c ≡ returned d → rounds (suc n) c ≡ rounds n d
rounds-returned n c d e = rounds-suc n c ∙ ap (λ r. then_ran r (rounds n)) e

four :
    (k : ℕ) (c : Core)
    → rounds (suc (suc (suc (suc k)))) (clocked c)
      ≡ rounds k (at 4 (pll_behavior (pll_behavior (pll_behavior (pll_behavior c)))))
four k c =
    let p = λ (d : Core). pll_behavior d in
    rounds-returned _ (at 0 c) (at 1 (p c)) (round-at 0 c (omega arith))
    ∙ rounds-returned _ (at 1 (p c)) (at 2 (p (p c))) (round-at 1 _ (omega arith))
    ∙ rounds-returned _ (at 2 (p (p c))) (at 3 (p (p (p c)))) (round-at 2 _ (omega arith))
    ∙ rounds-returned k (at 3 (p (p (p c)))) (at 4 (p (p (p (p c))))) (round-at 3 _ (omega arith))

five :
    (k : ℕ) (c : Core)
    → rounds (suc (suc (suc (suc (suc k))))) (clocked c)
      ≡ then_ran (ran_of (cycle_of_five c)) (rounds k)
unfolding cycle_of_five
five k c = four (suc k) c ∙ rounds-suc k (at 4 _) ∙ ap (λ r. then_ran r (rounds k)) (round-tick _)

then_ran-ran_of :
    (o : Outcome) (f : Core → Outcome) (g : Clocked → Ran)
    → ((c : Core) → g (clocked c) ≡ ran_of (f c))
    → then_ran (ran_of o) g ≡ ran_of (and_then o f)
then_ran-ran_of (running c) f g h = h c
then_ran-ran_of ended f g h = refl
then_ran-ran_of failed f g h = refl

times_five : (n : ℕ) → suc n * 5 ≡ suc (suc (suc (suc (suc (n * 5)))))
times_five n = omega arith

rounds-five : (n : ℕ) (c : Core) → rounds (n * 5) (clocked c) ≡ ran_of (cycles_of_five n c)
unfolding rounds cycles_of_five
rounds-five zero c = refl
rounds-five (suc n) c =
    ap (λ k. rounds k (clocked c)) (times_five n)
    ∙ five (n * 5) c
    ∙ then_ran-ran_of (cycle_of_five c) (cycles_of_five n) (rounds (n * 5)) (rounds-five n)

-- From the clocks that the constructor makes, for a count `n` such that `n * 5` is an `int`:
-- `run_for_instruction` is `n` cycles of the core, each after four and before one move of the timers. It
-- returns true when all are made, returns false at the first that ends the simulation, and aborts at the
-- first in which an assertion fails.
pub run_for_instruction-cycles :
    (fuel n : ℕ) (c : Core)
    → n * 5 < 2 ^ 31
    → run_for_instruction fuel n (clocked c) ≡ some (ran_of (cycles_of_five n c))
unfolding run_for_instruction run
run_for_instruction-cycles fuel n c h = ground (arith, rounds-five n c)

-- What the endless loop has come to: it goes on as long as `run` would have returned true.
abbrev unless_returned : Ran → Option Ran
unless_returned (returned c) = none
unless_returned caught = some caught
unless_returned aborted = some aborted

forever-suc :
    (fuel : ℕ) (c : Clocked) (r : Ran)
    → round c ≡ r
    → ((d : Clocked) → forever fuel d ≡ unless_returned (rounds fuel d))
    → forever (suc fuel) c ≡ unless_returned (then_ran r (rounds fuel))
unfolding forever rounds
forever-suc fuel c (returned d) e later = rw (forever, e) (later d)
forever-suc fuel c caught e later = rw (forever, e) refl
forever-suc fuel c aborted e later = rw (forever, e) refl

forever-rounds : (fuel : ℕ) (c : Clocked) → forever fuel c ≡ unless_returned (rounds fuel c)
unfolding forever rounds
forever-rounds zero c = refl
forever-rounds (suc fuel) c = forever-suc fuel c (round c) refl (λ d. forever-rounds fuel d)

unless_returned-ne : (r : Ran) (d : Clocked) → ¬ (unless_returned r ≡ some (returned d))
unless_returned-ne (returned c) d e = cc
unless_returned-ne caught d e = cc
unless_returned-ne aborted d e = cc

-- 858993459 * 5 has the low bits of -1: whatever the fuel, `run_for_instruction` does not return true.
pub run_for_instruction-endless :
    (fuel : ℕ) (c : Core) (d : Clocked)
    → ¬ (run_for_instruction fuel 858993459 (clocked c) ≡ some (returned d))
unfolding run_for_instruction run
run_for_instruction-endless fuel c d e =
    unless_returned-ne (rounds fuel (clocked c)) d (sym (forever-rounds fuel (clocked c)) ∙ e)
