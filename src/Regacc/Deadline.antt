-- ===== src/Regacc/Deadline.antt =====
-- When a deadline instruction waits.
use pret_iss.Prelude.{
  ◌%◌, ◌^◌, ◌<◌, ◌==◌, leb, if◌then◌else◌, Bool, true, false, not, ◌||◌, ◌≡◌, ◌⊎◌, sym, ap, ◌∙◌,
  Option, none, some, arith,
}
use pret_iss.Prelude.Bits.{bit_and_mask}
use mathlib.Core.Path.{subst}
use pret_iss.Instruction.Enums.{SregMux}
use pret_iss.SpecialReg.{get_dt}
use pret_iss.Thread.{HwThread}
use pret_iss.Sync.{SyncTable}
use pret_iss.Dma.{Dma}
use pret_iss.Execute.{execute, perform_alu_operations, alu}
use pret_iss.Regacc.{
  selects_dt, pll_deadline, regular_deadline, deadline_instruction, check_deadline,
  double_word_instruction, immediate_instruction, third_operand, access,
}
use pret_iss.Except
use pret_iss.Except.{Commit}
use pret_iss.Except.Keeps.{Returns, Untouched, behavior-Untouched}

-- A thread that goes through the stages with a deadline instruction.
abbrev pub IsDeadline : HwThread → Type 0
IsDeadline t =
    (t.enabled ≡ true) × (t.fetch_stalled ≡ false) × (t.inst.select_special_register ≡ SregMux.dt)

-- The time of the timer is over: it is 0 or negative.
abbrev pub is_over : HwThread → Bool
is_over t = let timer = get_dt t.spec_regs t.inst.rd in timer == 0 || leb (2 ^ 31) timer

-- A deadline instruction on one of the timers 0 to 7 waits exactly when the time is not over and it is
-- not a "deadload", and it writes its timer when it does not wait.
pub access-deadline :
    (t : HwThread)
    → IsDeadline t
    → t.inst.rd < 8
    → let waits = not (is_over t || t.inst.rs1 % 2 == 1) in
      ((access t).deadline_stalled ≡ waits)
      × ((access t).inst.write_special_registers
          ≡ (if waits then t.inst.write_special_registers else true))
unfolding access deadline_instruction check_deadline double_word_instruction immediate_instruction
    third_operand regular_deadline selects_dt
access-deadline t h small = ground (arith, bit_and_mask 1 t.inst.rs1)

-- What the next stages need to stall a PLL deadline.
pub record IsStuck (t : HwThread) : Type 0 where
  pub deadline : IsDeadline t
  pub on_pll : 7 < t.inst.rd
  pub stalled : t.deadline_stalled ≡ true

after_deadline :
    (t : HwThread)
    → IsDeadline t
    → 7 < t.inst.rd
    → (t.deadline_stalled ≡ true) ⊎ (t.spec_regs.pll_loaded ≡ false)
    → let u = deadline_instruction t in IsStuck u × (u.pc ≡ t.pc) × (u.regs ≡ t.regs)
unfolding deadline_instruction selects_dt pll_deadline
after_deadline t h big s = ground arith

check_keeps :
    (t : HwThread)
    → IsStuck t
    → IsStuck (check_deadline t)
      × ((check_deadline t).pc ≡ t.pc)
      × ((check_deadline t).regs ≡ t.regs)
unfolding check_deadline
check_keeps t s = ground (arith, s.deadline, s.on_pll, s.stalled)

operands_keep :
    (t : HwThread)
    → IsStuck t
    → let u = third_operand (immediate_instruction (double_word_instruction t)) in
      IsStuck u × (u.pc ≡ t.pc) × (u.regs ≡ t.regs)
unfolding third_operand immediate_instruction double_word_instruction
operands_keep t s = ground (arith, s.deadline, s.on_pll, s.stalled)

execute_keeps :
    (t : HwThread)
    → IsStuck t
    → IsStuck (execute t) × ((execute t).pc ≡ t.pc) × ((execute t).regs ≡ t.regs)
unfolding execute perform_alu_operations alu
execute_keeps t s = ground (arith, s.deadline, s.on_pll, s.stalled)

-- A pass of the thread through register access, execute and commit.
abbrev pub pass : HwThread → Dma → SyncTable → Option Commit
pass t d table = Except.behavior (execute (access t)) d table

ready_keeps :
    (t : HwThread)
    → IsDeadline t
    → 7 < t.inst.rd
    → (t.deadline_stalled ≡ true) ⊎ (t.spec_regs.pll_loaded ≡ false)
    → let u = execute (access t) in IsStuck u × (u.pc ≡ t.pc) × (u.regs ≡ t.regs)
unfolding access
ready_keeps t h big s =
    let first = after_deadline t h big s in
    let second = check_keeps (deadline_instruction t) first.0 in
    let third = operands_keep (check_deadline (deadline_instruction t)) second.0 in
    let whole : access t
        ≡ third_operand (
            immediate_instruction
              (double_word_instruction (check_deadline (deadline_instruction t)))) =
      λ k.
        if not (h.0 k) || h.1 k
        then t
        else third_operand (
            immediate_instruction
              (double_word_instruction (check_deadline (deadline_instruction t)))) in
    let last = execute_keeps (access t) (subst IsStuck (sym whole) third.0) in
    (
      last.0,
      last.1 ∙ ap (λ (u : HwThread). u.pc) whole ∙ third.1 ∙ second.1 ∙ first.1,
      last.2 ∙ ap (λ (u : HwThread). u.regs) whole ∙ third.2 ∙ second.2 ∙ first.2,
    )

-- The thread stays stuck, at its instruction.
pub record Waits (t : HwThread) (c : Commit) : Type 0 where
  pub stuck : IsStuck c.thread
  pub same_pc : c.thread.pc ≡ t.pc
  pub same_regs : c.thread.regs ≡ t.regs

stays_stuck :
    (t u : HwThread) (d : Dma) (table : SyncTable) (o : Option Commit)
    → IsStuck u
    → (u.pc ≡ t.pc) × (u.regs ≡ t.regs)
    → Returns (Untouched u d table) o
    → Returns (Waits t) o
stays_stuck t u d table none s e r = r
stays_stuck t u d table (some c) s e r = record {
  stuck = ground (arith, s.deadline, s.on_pll, s.stalled, r.same_inst, r.same_stalls);
  same_pc = r.same_pc ∙ e.0;
  same_regs = r.same_regs ∙ e.1;
}

-- A deadline instruction on a PLL timer, numbers above 7, that comes in with no value loaded or
-- with the deadline stall set: the pass through register access, execute and commit leaves the
-- thread stalled at the same instruction with its registers unchanged, and with the stall set, so
-- the next pass does the same.
pub pass-Waits :
    (t : HwThread) (d : Dma) (table : SyncTable)
    → IsDeadline t
    → 7 < t.inst.rd
    → (t.deadline_stalled ≡ true) ⊎ (t.spec_regs.pll_loaded ≡ false)
    → Returns (Waits t) (pass t d table)
pass-Waits t d table h big s =
    let u = execute (access t) in
    let r = ready_keeps t h big s in
    stays_stuck t u d table (Except.behavior u d table) r.0 (r.1, r.2)
      (behavior-Untouched u d table (ground (arith, r.0.stalled)))
