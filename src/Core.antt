-- ===== src/Core.antt =====
-- The core without SystemC: `behavior` of src/core/core.cpp and src/core/cycle_counter.cpp. The handles
-- between the stages point at the threads of the pool, so a latch holds a thread's number, or nothing
-- before the first thread arrives.
pub mod Turns
pub mod Clocks
use pret_iss.Prelude.{ℕ, ◌==◌, if◌then◌else◌, Option, none, some, add32}
use pret_iss.Thread.{HwThread}
use pret_iss.SpecialReg.{decrement_pll_timers}
use pret_iss.Execute.{execute}
use pret_iss.Regacc.{access}
use pret_iss.Stages
use pret_iss.Stages.{Fetched, fetched, aborted, end_of_simulation}
use pret_iss.Except
use pret_iss.Except.{Commit}
use pret_iss.Sync.{SyncTable, free_entry, next_thread}
use pret_iss.Dma
use pret_iss.Dma.{Dma, Machine, dma}
use pret_iss.Memory.Controller
use pret_iss.Memory.Controller.{MemoryController}

pub record Latches : Type 0 where
  pub pool_to_f : Option ℕ
  pub f_to_d : Option ℕ
  pub d_to_ra : Option ℕ
  pub ra_to_ex : Option ℕ
  pub ex_to_mem : Option ℕ
  pub mem_to_except : Option ℕ

pub record Core : Type 0 where
  pub pool : ℕ → HwThread
  pub latches : Latches
  pub tcount : ℕ
  pub cycles : ℕ
  pub memory : MemoryController
  pub engine : Dma
  pub table : SyncTable

-- A cycle goes on, ends the simulation, or aborts: an assertion fails, or the sync table is full.
pub data Outcome : Type 0 where
  running : Core → Outcome
  ended : Outcome
  failed : Outcome

abbrev pub and_then : Outcome → (Core → Outcome) → Outcome
and_then (running c) f = f c
and_then ended f = ended
and_then failed f = failed

abbrev pub put : Core → ℕ → HwThread → Core
put c tid t = record c { pool = λ j. if j == tid then t else c.pool j }

unfoldable pub except_stage : Core → Outcome
unfolding Except.behavior
except_stage c = elim c.latches.mem_to_except [
  | none ↦ running c
  | some tid ↦ elim (Except.behavior (c.pool tid) c.engine c.table) [
    | none ↦ failed
    | some r ↦ running (record (put c tid r.thread) { engine = r.engine; table = r.table })
  ]
]

-- The memory controller, then the DMA engine, on the same wheel and scratchpads.
unfoldable pub memories : Core → Outcome
unfolding Controller.tick Dma.behavior
memories c =
    let m = Controller.tick c.memory in
    elim (Dma.behavior (record { engine = c.engine; wheel = m.main_mem; spms = m.inst_scratchpad })
      c.cycles) [
        | none ↦ failed
        | some r ↦ running (record c {
          engine = r.engine;
          memory = record m { main_mem = r.wheel; inst_scratchpad = r.spms };
        })
      ]

unfoldable pub mem_stage : Core → Outcome
unfolding Stages.memory
mem_stage c =
    let moved : Core → Core =
      λ d. record d { latches = record (d.latches) { mem_to_except = d.latches.ex_to_mem } } in
    elim c.latches.ex_to_mem [
      | none ↦ running (moved c)
      | some tid ↦ elim (Stages.memory (c.pool tid) c.memory c.cycles) [
        | none ↦ failed
        | some (t, m) ↦ running (moved (record (put c tid t) { memory = m }))
      ]
    ]

abbrev on_latch : Option ℕ → (HwThread → HwThread) → Core → Core
on_latch none f c = c
on_latch (some tid) f c = put c tid (f (c.pool tid))

unfoldable pub execute_stage : Core → Core
unfolding execute
execute_stage c =
    let d = on_latch c.latches.ra_to_ex execute c in
    record d { latches = record (c.latches) { ex_to_mem = c.latches.ra_to_ex } }

unfoldable pub regacc_stage : Core → Core
unfolding access
regacc_stage c =
    let d = on_latch c.latches.d_to_ra access c in
    record d { latches = record (c.latches) { ra_to_ex = c.latches.d_to_ra } }

unfoldable pub decode_stage : Core → Core
unfolding Stages.decode
decode_stage c =
    let d = on_latch c.latches.f_to_d Stages.decode c in
    record d { latches = record (c.latches) { d_to_ra = c.latches.f_to_d } }

unfoldable pub fetch_stage : Core → Outcome
unfolding Stages.fetch
fetch_stage c =
    let moved : Core → Core =
      λ d. record d { latches = record (d.latches) { f_to_d = d.latches.pool_to_f } } in
    elim c.latches.pool_to_f [
      | none ↦ running (moved c)
      | some tid ↦ elim (Stages.fetch (c.pool tid) c.memory c.cycles) [
        | end_of_simulation ↦ ended
        | aborted ↦ failed
        | fetched t m ↦ running (moved (record (put c tid t) { memory = m }))
      ]
    ]

-- The thread controller and the cycle counter.
unfoldable pub advance : Core → Core
unfolding next_thread
advance c =
    let (tid, count) = next_thread c.tcount in
    record c {
      latches = record (c.latches) { pool_to_f = some tid };
      tcount = count;
      cycles = add32 c.cycles 1;
    }

-- The stages in the order of the calls, from the last to the first.
unfoldable pub cycle : Core → Outcome
unfolding except_stage memories mem_stage execute_stage regacc_stage decode_stage fetch_stage
    advance
cycle c = and_then (except_stage c) (λ c₁. and_then (memories c₁) (λ c₂.
    and_then (mem_stage c₂) (λ c₃.
      and_then (fetch_stage (decode_stage (regacc_stage (execute_stage c₃))))
        (λ c₄. running (advance c₄)))))

-- `pll_behavior`, once a tick of the PLL clock.
unfoldable pub pll_behavior : Core → Core
unfolding decrement_pll_timers
pll_behavior c = record c {
  pool = λ j. record (c.pool j) { spec_regs = decrement_pll_timers (c.pool j).spec_regs };
}
