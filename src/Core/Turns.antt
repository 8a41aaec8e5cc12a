-- ===== src/Core/Turns.antt =====
-- Who is in which stage.
use pret_iss.Prelude.{
  ℕ, zero, suc, ◌+◌, ◌-◌, ◌%◌, ◌^◌, ◌<◌, ltb, if◌then◌else◌, ◌≡◌, ◌∙◌, Option, none, some, arith,
}
use mathlib.Core.Path.{subst}
use pret_iss.Core.{
  Core, Outcome, running, ended, failed, and_then, except_stage, memories, mem_stage, execute_stage,
  regacc_stage, decode_stage, fetch_stage, advance, cycle,
}

-- `n` calls of `behavior` in a row, with no clock; Core.Clocks has the loop of `core::run`.
pub run : ℕ → Core → Outcome
run zero c = running c
run (suc n) c = and_then (run n c) cycle

-- The thread that has been under way for `k` stages when `n` threads have been sent out.
abbrev pub sent : ℕ → ℕ → Option ℕ
sent n k = if ltb k n then some ((n - 1 - k) % 6) else none

-- The six latches hold the last six threads sent out, in order.
pub record IsInTurn (n : ℕ) (c : Core) : Type 0 where
  pub count : c.tcount ≡ n
  pub at_fetch : c.latches.pool_to_f ≡ sent n 0
  pub at_decode : c.latches.f_to_d ≡ sent n 1
  pub at_regacc : c.latches.d_to_ra ≡ sent n 2
  pub at_execute : c.latches.ra_to_ex ≡ sent n 3
  pub at_memory : c.latches.ex_to_mem ≡ sent n 4
  pub at_except : c.latches.mem_to_except ≡ sent n 5

-- What holds of the core if the simulation goes on.
abbrev pub Going : (Core → Type 0) → Outcome → Type 0
Going P (running c) = P c
Going P ended = Unit {0}
Going P failed = Unit {0}

-- The latches and the counter are as they were.
abbrev Kept : Core → Core → Type 0
Kept c d = (d.latches ≡ c.latches) × (d.tcount ≡ c.tcount)

abbrev Moved : Core → Core → Type 0
Moved c d =
    (d.latches ≡ record {
      pool_to_f = c.latches.pool_to_f;
      f_to_d = c.latches.pool_to_f;
      d_to_ra = c.latches.f_to_d;
      ra_to_ex = c.latches.d_to_ra;
      ex_to_mem = c.latches.ra_to_ex;
      mem_to_except = c.latches.ex_to_mem;
    })
    × (d.tcount ≡ c.tcount)

pub then_step :
    (P Q : Core → Type 0) (o : Outcome) (f : Core → Outcome)
    → ((c : Core) → P c → Going Q (f c))
    → Going P o
    → Going Q (and_then o f)
then_step P Q (running c) f step h = step c h
then_step P Q ended f step h = tt
then_step P Q failed f step h = tt

except_stage-Kept : (c : Core) → Going (Kept c) (except_stage c)
unfolding except_stage
except_stage-Kept c = ground arith

memories-Kept : (c : Core) → Going (Kept c) (memories c)
unfolding memories
memories-Kept c = ground arith

abbrev Passed : Core → Core → Type 0
Passed c d =
    (d.latches ≡ record (c.latches) { mem_to_except = c.latches.ex_to_mem }) × (d.tcount ≡ c.tcount)

mem_stage-Passed : (c : Core) → Going (Passed c) (mem_stage c)
unfolding mem_stage
mem_stage-Passed c = ground arith

tcount-middle : (c : Core) → (decode_stage (regacc_stage (execute_stage c))).tcount ≡ c.tcount
unfolding decode_stage regacc_stage execute_stage
tcount-middle c = ground arith

abbrev FetchedFrom : Core → Core → Type 0
FetchedFrom c d =
    (d.latches ≡ record (c.latches) { f_to_d = c.latches.pool_to_f }) × (d.tcount ≡ c.tcount)

fetch_stage-Fetched : (c : Core) → Going (FetchedFrom c) (fetch_stage c)
unfolding fetch_stage
fetch_stage-Fetched c = ground arith

latches-middle :
    (c : Core)
    → (decode_stage (regacc_stage (execute_stage c))).latches ≡ record (c.latches) {
      ex_to_mem = c.latches.ra_to_ex;
      ra_to_ex = c.latches.d_to_ra;
      d_to_ra = c.latches.f_to_d;
    }
unfolding decode_stage regacc_stage execute_stage
latches-middle c = ground arith

pub on_running :
    (P Q : Core → Type 0) (o : Outcome) → ((c : Core) → P c → Q c) → Going P o → Going Q o
on_running P Q (running c) step h = step c h
on_running P Q ended step h = tt
on_running P Q failed step h = tt

front_chain :
    (c d e f : Core)
    → Passed c d
    → (e.latches ≡ record (d.latches) {
      ex_to_mem = d.latches.ra_to_ex;
      ra_to_ex = d.latches.d_to_ra;
      d_to_ra = d.latches.f_to_d;
    })
    → e.tcount ≡ d.tcount
    → FetchedFrom e f
    → Moved c f
front_chain c d e f p q r g = ground (arith, p, q, r, g)

-- The stages from execute to fetch.
front-Moved :
    (c d : Core)
    → Passed c d
    → Going (Moved c) (fetch_stage (decode_stage (regacc_stage (execute_stage d))))
front-Moved c d p =
    let e = decode_stage (regacc_stage (execute_stage d)) in
    on_running (FetchedFrom e) (Moved c) (fetch_stage e)
      (λ f g. front_chain c d e f p (latches-middle d) (tcount-middle d) g) (fetch_stage-Fetched e)

mem_chain : (c d e : Core) → Kept c d → Passed d e → Passed c e
mem_chain c d e k p = ground (arith, k, p)

keep_chain : (c d e : Core) → Kept c d → Kept d e → Kept c e
keep_chain c d e k l = (l.0 ∙ k.0, l.1 ∙ k.1)

advance-IsInTurn :
    (n : ℕ) (c d : Core) → n + 1 < 2 ^ 32 → IsInTurn n c → Moved c d → IsInTurn (n + 1) (advance d)
unfolding advance
advance-IsInTurn n c d h t m =
    ground (arith, t.count, t.at_fetch, t.at_decode, t.at_regacc, t.at_execute, t.at_memory, m)

advanced :
    (n : ℕ) (c : Core) (o : Outcome)
    → n + 1 < 2 ^ 32
    → IsInTurn n c
    → Going (Moved c) o
    → Going (IsInTurn (n + 1)) (and_then o (λ d. running (advance d)))
advanced n c o h t m =
    then_step (Moved c) (IsInTurn (n + 1)) o (λ d. running (advance d))
      (λ d k. advance-IsInTurn n c d h t k) m

cycle-IsInTurn :
    (n : ℕ) (c : Core) → n + 1 < 2 ^ 32 → IsInTurn n c → Going (IsInTurn (n + 1)) (cycle c)
unfolding cycle
cycle-IsInTurn n c h t =
    then_step (Kept c) (IsInTurn (n + 1)) (except_stage c) _
      (λ c₁ k₁.
        then_step (Kept c) (IsInTurn (n + 1)) (memories c₁) _
          (λ c₂ k₂.
            then_step (Passed c) (IsInTurn (n + 1)) (mem_stage c₂) _
              (λ c₃ k₃.
                advanced n c (fetch_stage (decode_stage (regacc_stage (execute_stage c₃)))) h t
                  (front-Moved c c₃ k₃))
              (on_running (Passed c₂) (Passed c) (mem_stage c₂) (λ e p. mem_chain c c₂ e k₂ p)
                (mem_stage-Passed c₂)))
          (on_running (Kept c₁) (Kept c) (memories c₁) (λ d l. keep_chain c c₁ d k₁ l)
            (memories-Kept c₁)))
      (except_stage-Kept c)

-- A core before its first cycle: nothing is in the latches.
abbrev pub IsReset : Core → Type 0
IsReset c =
    (c.tcount ≡ 0)
    × (c.latches ≡ record {
      pool_to_f = none;
      f_to_d = none;
      d_to_ra = none;
      ra_to_ex = none;
      ex_to_mem = none;
      mem_to_except = none;
    })

reset-IsInTurn : (c : Core) → IsReset c → IsInTurn 0 c
reset-IsInTurn c h = ground (arith, h)

-- From a reset core on, as long as the counter of the threads does not wrap: after `n` cycles, if
-- the simulation still goes on, the latches before the six stages hold the last six threads sent
-- out, in the order in which they were sent, and the threads are sent out in turn.
pub run-IsInTurn : (n : ℕ) (c : Core) → n < 2 ^ 32 → IsReset c → Going (IsInTurn n) (run n c)
unfolding run
run-IsInTurn zero c h r = reset-IsInTurn c r
run-IsInTurn (suc n) c h r =
    then_step (IsInTurn n) (IsInTurn (suc n)) (run n c) cycle
      (λ d t.
        subst (λ k. Going (IsInTurn k) (cycle d)) (omega arith)
          (cycle-IsInTurn n d (omega arith) t))
      (run-IsInTurn n c (omega arith) r)
