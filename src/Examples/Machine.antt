-- ===== src/Examples/Machine.antt =====
-- Special registers and the barrier: src/core/special_reg.cpp and src/core/hw_thread_controller.cpp.
use pret_iss.Prelude.{
  if◌then◌else◌, ◌==◌, ◌%◌, true, inr, ℕ, ◌+◌, ◌*◌, ◌/◌, ◌%◌, ◌^◌, leb, if◌then◌else◌, ◌&&◌, ◌≡◌,
  ◌⊎◌, refl, ◌∷◌, none, some, replicate, arith, sub32,
}
use pret_iss.SpecialReg.{
  SpecialReg, DtStatus, special_reg, set_psr, get_psr, missed_deadline, set_dt, get_dt,
  set_dt_status, get_dt_status,
}
use pret_iss.SpecialReg.Psr.{get_psr-set_psr}
use pret_iss.SpecialReg.Deadlines.{
  decrements, NoneMissed, IsLastMissed, missed_deadline_lem, deadline_exact,
}
use pret_iss.Sync.{SyncTable, free_entry, check_sync_table, arrive}
use pret_iss.Prelude.{◌↔◌, []}
use pret_iss.Instruction.Enums.{SregMux}
use pret_iss.Instruction.Defs.{nop_instruction}
use pret_iss.Thread.{HwThread, hw_thread}
use pret_iss.Dma.{dma}
use pret_iss.Except
use pret_iss.Regacc.Deadline.{pass, Waits, pass-Waits}
use pret_iss.Sync.Barrier.{calls, opened_for, AllCalled, calls-arrive}
use pret_iss.Prelude.{none}
use pret_iss.Memory.Scratch.{l1_scratch}
use pret_iss.Memory.Controller.{memory_controller}
use pret_iss.Core.{Core}
use pret_iss.Core.Turns.{run, IsInTurn, Going, run-IsInTurn}
use pret_iss.Core.Clocks.{clocked, run_for_instruction}
use pret_iss.Core.Clocks.Cycles.{ran_of, cycles_of_five, run_for_instruction-cycles}
use pret_iss.Prelude.{suc, length}
use pret_iss.Sync.Count.{ones, all_here, arrive-frees}
use pret_iss.Sync.Table.{Checked, Distinct, check_sync_table_lem}

get_psr-set_psr_example :
    get_psr (set_psr special_reg 0xf38fffff) ≡ 0xf38fffff / 2 ^ 20 * 2 ^ 20 + 0xf38fffff % 2 ^ 14
get_psr-set_psr_example = get_psr-set_psr special_reg 0xf38fffff (omega arith)

abbrev written : SpecialReg
written = set_psr special_reg 0xf3800fa1

missed_deadline_lem_example :
    ((missed_deadline special_reg ≡ none) × NoneMissed 0 special_reg.dt_status)
    ⊎ ((j : ℕ) × (missed_deadline special_reg ≡ some j) × IsLastMissed special_reg.dt_status j)
missed_deadline_lem_example = missed_deadline_lem special_reg

deadline_exact_example :
    let s = decrements 5 (set_dt_status (set_dt special_reg 3 2) DtStatus.armed 2) in
    (get_dt s 2 ≡ sub32 3 5)
    × (get_dt_status s 2 ≡ (if leb 1 5 && leb 3 5 then DtStatus.missed else DtStatus.armed))
unfolding special_reg
deadline_exact_example =
    deadline_exact special_reg 2 3 5 (omega arith) (omega arith) (omega arith) (omega arith)

-- A table in which the threads 1 and 2 wait for each other.
abbrev table : SyncTable
table = record { mask = 0b110; waiting = 0b100; passed = 0 } ∷ replicate 5 free_entry

table-Distinct : Distinct table
table-Distinct = (
  λ ne. refl,
  (
    λ ne. absurd (ne refl),
    (
      λ ne. absurd (ne refl),
      (λ ne. absurd (ne refl), (λ ne. absurd (ne refl), (λ ne. absurd (ne refl), tt))),
    ),
  ),
)

check_sync_table_lem_example : Checked table 0b110 2 (check_sync_table table 0b110 2)
check_sync_table_lem_example = check_sync_table_lem table 0b110 2 (omega arith) table-Distinct

-- Threads 1 and 2 have called, thread 2 twice.
calls-arrive_example :
    ((arrive (calls (opened_for 0b110) (2 ∷ 1 ∷ 2 ∷ [])) 1).0 ≡ true)
    ↔ AllCalled 0b110 (2 ∷ 1 ∷ 2 ∷ [])
calls-arrive_example =
    calls-arrive 0b110 (2 ∷ 1 ∷ 2 ∷ []) 1 (omega arith)
      (omega arith, (omega arith, (omega arith, tt)))

arrive-frees_example :
    ((calls (all_here 0b110) (2 ∷ [])).mask ≡ 0b110)
    × ((arrive (calls (all_here 0b110) (2 ∷ [])) 1).0 ≡ true)
    × ((arrive (calls (all_here 0b110) (2 ∷ [])) 1).1.mask
        ≡ (if suc (length {A = ℕ} (2 ∷ [])) == ones 6 0b110 then 0 else 0b110))
arrive-frees_example = arrive-frees 0b110 (2 ∷ []) 1 (omega arith) (omega arith)

-- A deadline instruction on the timer `rd`.
abbrev deadline : ℕ → HwThread
deadline rd = record (hw_thread 0 0x40001000 (replicate 512 0)) {
  enabled = true;
  inst = record (nop_instruction) { select_special_register = SregMux.dt; rd = rd; rs1 = 2 };
}

pass-Waits_example :
    Except.Keeps.Returns (Waits (deadline 8)) (pass (deadline 8) dma (replicate 6 free_entry))
unfolding hw_thread special_reg set_psr
pass-Waits_example =
    pass-Waits (deadline 8) dma (replicate 6 free_entry) (refl, refl, refl) (omega arith) (inr refl)

-- Six threads before the first cycle.
abbrev reset : Core
reset = record {
  pool = λ j. hw_thread j (0x40000000 + j * 0x10000) (replicate 512 0);
  latches = record {
    pool_to_f = none;
    f_to_d = none;
    d_to_ra = none;
    ra_to_ex = none;
    ex_to_mem = none;
    mem_to_except = none;
  };
  tcount = 0;
  cycles = 0;
  memory = memory_controller (λ tid. l1_scratch);
  engine = dma;
  table = replicate 6 free_entry;
}

run-IsInTurn_example : Going (IsInTurn 7) (run 7 reset)
run-IsInTurn_example = run-IsInTurn 7 reset (omega arith) (refl, refl)

run_for_instruction-cycles_example :
    run_for_instruction 0 2 (clocked reset) ≡ some (ran_of (cycles_of_five 2 reset))
run_for_instruction-cycles_example = run_for_instruction-cycles 0 2 reset (omega arith)
