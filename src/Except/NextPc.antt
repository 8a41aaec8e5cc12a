-- ===== src/Except/NextPc.antt =====
-- `addr_calc`, `branch_check` and `inc_pc` of src/core/except.cpp: where a thread goes next.
use pret_iss.Prelude.{
  ℕ, ◌*◌, ◌==◌, if◌then◌else◌, Bool, true, false, not, xor, ◌&&◌, ◌||◌, Option, none, some, add32,
  sub32, u32, bit_and,
}
use pret_iss.Thread.{HwThread}

-- The target of a branch or a call; `none` is the assertion that fails for any other instruction.
unfoldable pub addr_calc : HwThread → Option ℕ
addr_calc t =
    if t.inst.branch
    then some (add32 t.inst.pc (u32 (t.inst.disp22 * 4)))
    else if t.inst.call
    then some (add32 t.inst.pc (u32 (t.inst.disp30 * 4)))
    else none

-- The `switch` of `branch_check` on the condition; 8 and 0 are BA and BN.
unfoldable pub condition_holds : ℕ → ℕ → Bool
condition_holds cond icc =
    let neg = not (bit_and icc 0x08 == 0) in
    let zero = not (bit_and icc 0x04 == 0) in
    let ovfl = not (bit_and icc 0x02 == 0) in
    let carry = not (bit_and icc 0x01 == 0) in
    if cond == 8
    then true
    else if cond == 0
    then false
    else if cond == 9
    then not zero
    else if cond == 1
    then zero
    else if cond == 10
    then not (zero || xor neg ovfl)
    else if cond == 2
    then zero || xor neg ovfl
    else if cond == 11
    then not (xor neg ovfl)
    else if cond == 3
    then xor neg ovfl
    else if cond == 12
    then not (carry || zero)
    else if cond == 4
    then carry || zero
    else if cond == 13
    then not carry
    else if cond == 5
    then carry
    else if cond == 14
    then not neg
    else if cond == 6
    then neg
    else if cond == 15
    then not ovfl
    else if cond == 7
    then ovfl
    else false

unfoldable pub branch_check : HwThread → Bool
unfolding condition_holds
branch_check t =
    if not t.inst.branch && not t.inst.call
    then false
    else if t.inst.call
    then true
    else condition_holds t.inst.conditional_branch t.spec_regs.icc

-- The parts of `inc_pc` in turn: the condition codes, the delay slot, the transfer of control and the
-- link.
unfoldable pub take_icc : HwThread → HwThread
take_icc t =
    if t.inst.write_icc
    then record t { spec_regs = record (t.spec_regs) { icc = t.inst.icc } }
    else t

unfoldable pub leave_slot : HwThread → HwThread
leave_slot t =
    if t.branch_slot == 0
    then record t { pc = add32 t.pc 4 }
    else if not t.inst.db_word_instruction
    then record t { pc = t.branch_slot; branch_slot = 0 }
    else t

unfoldable pub transfer : HwThread → Option HwThread
unfolding addr_calc branch_check
transfer t =
    let annuls_always = t.inst.branch && t.inst.annul && t.inst.conditional_branch == 8 in
    let other =
      if t.inst.jump
      then record t { branch_slot = t.inst.alu_result }
      else if t.inst.branch && t.inst.annul
      then record t { pc = add32 t.pc 4 }
      else t in
    let to : ℕ → HwThread = λ addr.
      let target = sub32 (add32 t.pc addr) 4 in
      if not annuls_always then record t { branch_slot = target } else record t { pc = target } in
    if branch_check t
    then elim (addr_calc t) [ none ↦ none | some addr ↦ some (to addr) ]
    else some other

unfoldable pub link : HwThread → HwThread
link t =
    if t.inst.jump || t.inst.call
    then record t { inst = record (t.inst) { alu_result = sub32 t.pc 4 } }
    else t

unfoldable pub inc_pc : HwThread → Option HwThread
unfolding take_icc leave_slot transfer link
inc_pc t = elim (transfer (leave_slot (take_icc t))) [ none ↦ none | some t' ↦ some (link t') ]
