-- ===== src/Except/Branch.antt =====
-- Branch conditions against the comparisons that they stand for, and where `inc_pc` goes next.
use pret_iss.Prelude.{
  ℕ, ◌+◌, ◌-◌, ◌*◌, ◌%◌, ◌^◌, ◌<◌, ◌==◌, leb, ltb, if◌then◌else◌, Bool, true, false, not, xor, ◌&&◌,
  ◌||◌, ◌≡◌, ap, ◌∙◌, Option, none, some, arith,
}
use pret_iss.Prelude.Bits.{bit_and_field}
use pret_iss.SpecialReg.{get_carry_bit}
use pret_iss.Instruction.Enums.{Alu}
use pret_iss.Instruction.Defs.{Instruction}
use pret_iss.Thread.{HwThread}
use pret_iss.Execute.{perform_alu_operations}
use pret_iss.Execute.Flags.{IsReady, biased, flags, sub_flags, perform_alu_operations-sub}
use pret_iss.Except.NextPc.{
  condition_holds, branch_check, addr_calc, take_icc, leave_slot, transfer, link, inc_pc,
}

-- Every condition and the condition 8 above it are opposites.
pub condition_holds-add_8 :
    (cond icc : ℕ) → cond < 8 → condition_holds (cond + 8) icc ≡ not (condition_holds cond icc)
unfolding condition_holds
condition_holds-add_8 cond icc h = ground arith

-- The comparison of two words that a condition below 6 stands for: never, equal, less or equal and
-- less as signed numbers, less or equal and less as unsigned ones.
abbrev pub compares : ℕ → ℕ → ℕ → Bool
compares cond a b =
    if cond == 1
    then a == b
    else if cond == 2
    then leb (biased a) (biased b)
    else if cond == 3
    then ltb (biased a) (biased b)
    else if cond == 4
    then leb a b
    else if cond == 5
    then ltb a b
    else false

holds_flags :
    (n z v c : Bool) (cond : ℕ)
    → cond < 6
    → condition_holds cond (flags n z v c) ≡ (
        if cond == 1
        then z
        else if cond == 2
        then z || xor n v
        else if cond == 3
        then xor n v
        else if cond == 4
        then c || z
        else if cond == 5
        then c
        else false)
unfolding condition_holds
holds_flags n z v c cond h = ground (
  arith,
  bit_and_field 3 1 (flags n z v c),
  bit_and_field 2 1 (flags n z v c),
  bit_and_field 1 1 (flags n z v c),
  bit_and_field 0 1 (flags n z v c),
)

compares_flags :
    (a b cond : ℕ)
    → a < 2 ^ 32
    → b < 2 ^ 32
    → cond < 6
    → condition_holds cond (sub_flags a b 0) ≡ compares cond a b
compares_flags a b cond h₁ h₂ h₃ =
    let r = (a + 2 ^ 33 - b - 0) % 2 ^ 32 in
    holds_flags (leb (2 ^ 31) r) (r == 0)
      (ltb (biased a + 2 ^ 31) (biased b + 0) || leb (biased b + 0 + 2 ^ 31) (biased a))
      (ltb a (b + 0)) cond h₃
    ∙ ground arith

-- After a subtraction of two words without carry that sets the condition codes, clear before, every
-- condition below 6 holds exactly when the two operands compare as it says.
pub condition_holds-sub :
    (t : HwThread) (cond : ℕ)
    → IsReady t
    → t.inst.aluop ≡ Alu.sub
    → t.inst.write_icc ≡ true
    → t.inst.carry ≡ false
    → cond < 6
    → condition_holds cond (perform_alu_operations t).inst.icc
      ≡ compares cond t.inst.op1_value t.inst.op2_value
condition_holds-sub t cond r e w c h =
    ap (condition_holds cond) (
      (perform_alu_operations-sub t r e w).1
      ∙ ap
          (λ b.
            sub_flags t.inst.op1_value t.inst.op2_value
              (if b then get_carry_bit t.spec_regs else 0))
          c)
    ∙ compares_flags t.inst.op1_value t.inst.op2_value cond r.0 r.1 h

-- Where a thread outside a delay slot goes next, with the condition codes `icc`: its PC, the address
-- that waits in the delay slot, and the result that its instruction then writes.
abbrev pub next : ℕ → HwThread → ℕ × ℕ × ℕ
next icc t =
    let pc = t.pc in
    let taken = condition_holds t.inst.conditional_branch icc in
    let to : ℕ → ℕ = λ disp. (pc + 4 * disp) % 2 ^ 32 in
    let result = t.inst.alu_result in
    if t.inst.call
    then (to 1, to t.inst.disp30, pc)
    else if t.inst.jump
    then (to 1, result, pc)
    else if t.inst.branch && taken
    then if t.inst.annul && t.inst.conditional_branch == 8
      then (to t.inst.disp22, 0, result)
      else (to 1, to t.inst.disp22, result)
    else if t.inst.branch && t.inst.annul
    then (to 2, 0, result)
    else (to 1, 0, result)

-- The condition codes that a branch sees: those that the instruction itself writes, if it does.
abbrev pub seen_icc : HwThread → ℕ
seen_icc t = if t.inst.write_icc then t.inst.icc else t.spec_regs.icc

abbrev pub fate : Option HwThread → Option (ℕ × ℕ × ℕ)
fate none = none
fate (some t) = some (t.pc, t.branch_slot, t.inst.alu_result)

-- An instruction that transfers control in one way at most.
pub record IsSingle (i : Instruction) : Type 0 where
  pub call_alone : i.call ≡ true → (i.branch ≡ false) × (i.jump ≡ false)
  pub jump_alone : i.jump ≡ true → i.branch ≡ false

abbrev moved : HwThread → Option HwThread
moved t = elim (transfer (leave_slot t)) [ none ↦ none | some t' ↦ some (link t') ]

moved_lem :
    (t : HwThread)
    → t.pc < 2 ^ 32
    → t.inst.pc ≡ 0
    → t.branch_slot ≡ 0
    → IsSingle t.inst
    → fate (moved t) ≡ some (next t.spec_regs.icc t)
unfolding leave_slot transfer link branch_check addr_calc condition_holds
moved_lem t h z slot s = ground (arith, s.call_alone, s.jump_alone)

-- For a thread outside a delay slot whose PC is a word, and whose instruction holds the PC 0 and
-- transfers control in one way at most, `inc_pc` never fails its assertion. A call or a jump writes
-- the thread's PC as its result and goes on at its target after the delay slot, and so does a
-- branch that is taken; "branch always" with the annul bit goes to its target at once; a branch
-- that is not taken skips the delay slot if it has the annul bit; anything else goes on to the next
-- instruction.
pub inc_pc_lem :
    (t : HwThread)
    → t.pc < 2 ^ 32
    → t.inst.pc ≡ 0
    → t.branch_slot ≡ 0
    → IsSingle t.inst
    → fate (inc_pc t) ≡ some (next (seen_icc t) t)
unfolding inc_pc take_icc
inc_pc_lem t h z slot s = by_write t.inst.write_icc
  where
    written : HwThread
    written = record t { spec_regs = record (t.spec_regs) { icc = t.inst.icc } }

    by_write :
        (b : Bool)
        → fate (moved (if b then written else t))
          ≡ some (next (if b then t.inst.icc else t.spec_regs.icc) t)
    by_write true = moved_lem written h z slot s
    by_write false = moved_lem t h z slot s
