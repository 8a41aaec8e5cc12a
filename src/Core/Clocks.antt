-- ===== src/Core/Clocks.antt =====
-- The clocks of src/core/pret_clock.cpp, and `core::run` and `run_for_instruction` of src/core/core.cpp,
-- which tick them; with the queries of the core that `run`'s callers use.
pub mod Cycles
pub mod Counts
use pret_iss.Prelude.{
  ℕ, zero, suc, ◌+◌, ◌-◌, ◌*◌, ◌/◌, ◌%◌, ◌^◌, ◌==◌, ltb, if◌then◌else◌, Bool, true, false, add32,
  u32, Option, none, some,
}
use pret_iss.Core.{Core, Outcome, running, ended, failed, cycle, pll_behavior}

pub record PretClock : Type 0 where
  pub period : ℕ
  pub count : ℕ

abbrev pub pret_clock : ℕ → PretClock
pret_clock period = record { period = period; count = 0 }

abbrev pub get_tick : PretClock → Bool
get_tick c = c.count % c.period == 0

abbrev pub tick : PretClock → PretClock
tick c = record c { count = u32 (c.count + 1) % c.period }

-- The core with its two clocks.
pub record Clocked : Type 0 where
  pub core : Core
  pub clock : PretClock
  pub pll_clock : PretClock

-- The constructor of the core gives its clock the period 5 and that of the timers the period 1.
abbrev pub clocked : Core → Clocked
clocked c = record { core = c; clock = pret_clock 5; pll_clock = pret_clock 1 }

-- `run` returns true, or catches an exception and returns false, or an assertion fails in it.
pub data Ran : Type 0 where
  returned : Clocked → Ran
  caught : Ran
  aborted : Ran

abbrev pub then_ran : Ran → (Clocked → Ran) → Ran
then_ran (returned c) f = f c
then_ran caught f = caught
then_ran aborted f = aborted

-- One round of the loop of `run`.
unfoldable pub round : Clocked → Ran
unfolding cycle pll_behavior
round c =
    let clock = tick c.clock in
    let pll_clock = tick c.pll_clock in
    elim (if get_tick clock then cycle c.core else running c.core) [
      | ended ↦ caught
      | failed ↦ aborted
      | running d ↦ returned (record {
        core = if get_tick pll_clock then pll_behavior d else d;
        clock = clock;
        pll_clock = pll_clock;
      })
    ]

unfoldable pub rounds : ℕ → Clocked → Ran
unfolding round
rounds zero c = returned c
rounds (suc n) c = then_ran (round c) (rounds n)

-- `get_period`
abbrev pub get_period : Clocked → ℕ
get_period c = c.clock.period

-- The endless loop of `run`, which only an exception or a failed assertion leaves; nothing if it goes on
-- after `fuel` rounds.
unfoldable pub forever : ℕ → Clocked → Option Ran
unfolding round
forever zero c = none
forever (suc fuel) c = elim (round c) [
  | returned d ↦ forever fuel d
  | caught ↦ some caught
  | aborted ↦ some aborted
]

-- `run`, for the pattern of the `int` that it takes: -1 is the endless loop, and other negative counts
-- make no round.
unfoldable pub run : ℕ → ℕ → Clocked → Option Ran
unfolding rounds forever
run fuel cycle_count c =
    if cycle_count == 2 ^ 32 - 1
    then forever fuel c
    else if ltb cycle_count (2 ^ 31)
    then some (rounds cycle_count c)
    else some (returned c)

-- The product is a `long int`, of which `run` takes the low 32 bits.
unfoldable pub run_for_instruction : ℕ → ℕ → Clocked → Option Ran
unfolding run
run_for_instruction fuel instruction_count c = run fuel (u32 (instruction_count * get_period c)) c

-- The queries of a thread and of the counter.
abbrev pub is_memory_read : Core → ℕ → Bool
is_memory_read c tid = (c.pool tid).inst.read_memory

abbrev pub is_memory_write : Core → ℕ → Bool
is_memory_write c tid = (c.pool tid).inst.write_memory

abbrev pub get_aligned_memory_address : Core → ℕ → ℕ
get_aligned_memory_address c tid = 4 * ((c.pool tid).inst.alu_result / 4)

abbrev pub get_instruction_count : Core → ℕ → ℕ
get_instruction_count c tid = (c.pool tid).cnt_instr

abbrev pub get_cycle_count : Core → ℕ
get_cycle_count c = c.cycles

abbrev pub get_pc : Core → ℕ → ℕ
get_pc c tid = (c.pool tid).pc

abbrev pub is_fetch_stalled : Core → ℕ → Bool
is_fetch_stalled c tid = (c.pool tid).fetch_stalled

abbrev pub is_memory_stalled : Core → ℕ → Bool
is_memory_stalled c tid = (c.pool tid).memory_stalled
