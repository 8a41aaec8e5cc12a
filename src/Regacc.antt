-- ===== src/Regacc.antt =====
-- The register access stage: src/core/regacc.cpp.
pub mod Deadline
use pret_iss.Prelude.{
  ℕ, ◌+◌, ◌-◌, ◌*◌, ◌%◌, ◌^◌, ◌==◌, leb, ltb, if◌then◌else◌, Bool, true, false, not, ◌&&◌, ◌||◌,
  Option, none, some, add32, u16, u32, is_neg, bit_and,
}
use pret_iss.Instruction.Enums.{SregMux, ExceptionState}
use pret_iss.Instruction.Defs.{Instruction}
use pret_iss.SpecialReg.{SpecialReg, DtStatus, get_dt, get_pll_load, set_dt_status, missed_deadline}
use pret_iss.RegisterFile.{register_windows, get_reg}
use pret_iss.Thread.{HwThread, is_trapped}

abbrev pub register : HwThread → ℕ → ℕ
register t rn = get_reg t.regs rn t.spec_regs.curr_wp

-- `_destination_phaselockloop_deadlines`: the three cases of the mailbox.
unfoldable pub pll_deadline : HwThread → HwThread
pll_deadline t =
    let mailbox = get_pll_load t.spec_regs (t.inst.rd - 8) in
    if not (mailbox == 0)
    then record t { deadline_stalled = true }
    else if not t.spec_regs.pll_loaded
    then record t {
      deadline_stalled = true;
      inst = record (t.inst) { write_special_registers = true };
      spec_regs = record (t.spec_regs) { pll_loaded = true };
    }
    else record t { spec_regs = record (t.spec_regs) { pll_loaded = false } }

-- `_destination_regular_deadlines`: the timer is an `int32_t`.
unfoldable pub regular_deadline : HwThread → HwThread
regular_deadline t =
    let deadload = not (bit_and t.inst.rs1 0x1 == 0) in
    let deadbranch = not (bit_and t.inst.rs1 0x2 == 0) in
    let timer = get_dt t.spec_regs t.inst.rd in
    let status = if deadbranch then DtStatus.armed else DtStatus.unset in
    if (timer == 0 || is_neg timer) || deadload
    then record t {
      inst = record (t.inst) { write_special_registers = true };
      deadline_stalled = false;
      spec_regs = set_dt_status t.spec_regs status t.inst.rd;
    }
    else record t { deadline_stalled = true }

unfoldable pub selects_dt : SregMux → Bool
selects_dt SregMux.dt = true
selects_dt _ = false

unfoldable pub deadline_instruction : HwThread → HwThread
unfolding selects_dt pll_deadline regular_deadline
deadline_instruction t =
    if selects_dt t.inst.select_special_register
    then if ltb 7 t.inst.rd then pll_deadline t else regular_deadline t
    else t

-- `_check_deadline` traps a thread that has missed a deadline, unless it is in a trap already.
unfoldable pub check_deadline : HwThread → HwThread
unfolding missed_deadline is_trapped
check_deadline t = elim (missed_deadline t.spec_regs) [
  | none ↦ t
  | some i ↦
      if not (is_trapped t)
      then record t { trapped = ExceptionState.trapped; trap_type = u16 (0x70 + i) }
      else t
]

-- The second word of a double word is 4 bytes on and goes to the next register.
unfoldable pub double_word_instruction : HwThread → HwThread
unfolding get_reg
double_word_instruction t =
    let op1 = register t t.inst.rs1 in
    if t.db_word_stalled && not t.deadline_stalled
    then record t {
      inst = record (t.inst) {
        rd = u16 (t.inst.rd + 1);
        op1_value = add32 op1 4;
        db_word_instruction = false;
      };
      db_word_stalled = false;
    }
    else record t { inst = record (t.inst) { op1_value = op1 } }

unfoldable pub immediate_instruction : HwThread → HwThread
unfolding get_reg
immediate_instruction t =
    let op2 = if t.inst.use_imm then t.inst.imm else register t t.inst.rs2 in
    record t { inst = record (t.inst) { op2_value = op2 } }

-- The end of `behavior`: the third operand, and the window of SAVE and RESTORE.
unfoldable pub third_operand : HwThread → HwThread
unfolding get_reg
third_operand t =
    let wp = u16 (t.spec_regs.curr_wp + t.inst.increment_window_pointer) % register_windows in
    record t {
      inst = record (t.inst) { op3_value = register t t.inst.rd };
      spec_regs = record (t.spec_regs) { curr_wp = wp };
    }

unfoldable pub access : HwThread → HwThread
unfolding deadline_instruction check_deadline double_word_instruction immediate_instruction
    third_operand
access t =
    if not t.enabled || t.fetch_stalled
    then t
    else third_operand
        (immediate_instruction (double_word_instruction (check_deadline (deadline_instruction t))))
