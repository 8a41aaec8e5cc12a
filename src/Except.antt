-- ===== src/Except.antt =====
-- The exception stage: src/core/except.cpp. The counters wrap as `unsigned int`. The trap type is a
-- `short`, by its pattern.
pub mod NextPc
pub mod Branch
pub mod Trap
pub mod Keeps
use pret_iss.Prelude.{
  ℕ, ◌+◌, ◌-◌, ◌*◌, ◌%◌, ◌^◌, ◌==◌, leb, ltb, if◌then◌else◌, Bool, true, false, not, xor, ◌&&◌,
  ◌||◌, Option, none, some, add32, sub32, shl32, u16, u32, bit_and, bit_or,
}
use pret_iss.Instruction.Enums.{SregMux, ExceptionState}
use pret_iss.Instruction.Defs.{Instruction}
use pret_iss.SpecialReg.{
  SpecialReg, DtStatus, num_deadline_timers, set_psr, get_psr, set_asr, get_asr, set_dt,
  set_pll_load, set_dt_status,
}
use pret_iss.RegisterFile.{RegisterFile, register_windows, set_reg}
use pret_iss.Thread.{HwThread, is_trapped}
use pret_iss.Sync.{SyncTable, check_sync_table}
use pret_iss.Except.NextPc.{inc_pc}
use pret_iss.Dma.{Dma, set_mem_source, set_spm_target, make_transfer}

unfoldable pub set_dword_state : HwThread → HwThread
set_dword_state t =
    if t.inst.db_word_instruction && not t.db_word_stalled
    then record t { db_word_stalled = true }
    else t

-- Whether the deadline stalls, and the thread, whose PLL mailbox may be loaded all the same.
unfoldable pub dead_stalled : HwThread → Bool × HwThread
dead_stalled t =
    let loaded = record t {
      spec_regs = set_pll_load t.spec_regs t.inst.alu_result (t.inst.rd - 8);
    } in
    if t.deadline_stalled
    then (true, if t.spec_regs.pll_loaded && t.inst.write_special_registers then loaded else t)
    else (false, t)

-- `get_trap_type() > 0x7F && get_trap_type() < 0x70`
unfoldable pub outside_deadlines : ℕ → Bool
outside_deadlines trap_type =
    let neg = leb (2 ^ 15) trap_type in not neg && ltb 0x7f trap_type && (neg || ltb trap_type 0x70)

-- `(uint32_t) get_trap_type()`
abbrev pub trap_offset : ℕ → ℕ
trap_offset trap_type = if leb (2 ^ 15) trap_type then trap_type + 0xffff0000 else trap_type

-- The instruction of a thread that is saving `value` in the register `rd`.
abbrev saving : Instruction → ℕ → ℕ → Instruction
saving i value rd = record i {
  write_special_registers = false;
  alu_result = value;
  rd = rd;
  write_registers = true;
}

-- The first pass opens a window and saves the PC in register 17.
unfoldable pub first_pass : HwThread → HwThread
unfolding outside_deadlines
first_pass t =
    let r = record (t.spec_regs) {
      curr_wp = u16 (t.spec_regs.curr_wp + 2 ^ 16 - 1) % register_windows;
    } in
    record t {
      inst = saving t.inst t.pc 17;
      spec_regs = if outside_deadlines t.trap_type then record r { ps = r.s; s = true } else r;
      trapped = ExceptionState.trapped2;
    }

-- The second pass saves the next PC in register 18 and jumps to the handler.
unfoldable pub second_pass : HwThread → HwThread
unfolding outside_deadlines
second_pass t =
    let offset = trap_offset t.trap_type in
    let npc = if t.branch_slot == 0 then add32 t.pc 4 else t.branch_slot in
    let r =
      if leb 0x70 offset && ltb offset 0x79
      then set_dt_status t.spec_regs DtStatus.unset (offset - 0x70)
      else t.spec_regs in
    record t {
      inst = saving t.inst npc 18;
      trapped = ExceptionState.normal;
      pc = bit_or t.spec_regs.tbr (shl32 offset 4);
      branch_slot = 0;
      spec_regs = if outside_deadlines t.trap_type then record r { et = false } else r;
    }

abbrev no_special_write : HwThread → HwThread
no_special_write t = record t { inst = record (t.inst) { write_special_registers = false } }

-- Whether there is nothing to handle, and the thread.
unfoldable pub handle_exceptions : HwThread → Bool × HwThread
unfolding is_trapped first_pass second_pass
handle_exceptions t =
    let handled : HwThread = elim t.trapped [
      | ExceptionState.trapped ↦ first_pass t
      | ExceptionState.trapped2 ↦ second_pass t
      | _ ↦ no_special_write t
    ] in
    if not (is_trapped t)
    then (true, t)
    else if not t.spec_regs.et
    then (true, record t { trapped = ExceptionState.normal })
    else (false, handled)

unfoldable pub return_from_trap : HwThread → HwThread
return_from_trap t =
    if not t.spec_regs.s
    then record t { trapped = ExceptionState.trapped; trap_type = 0x03 }
    else if t.spec_regs.et
    then record t { trapped = ExceptionState.trapped; trap_type = 0x02 }
    else record t { spec_regs = record (t.spec_regs) { s = t.spec_regs.ps; et = true } }

-- The value that `write_regs` writes.
unfoldable pub register_value : SregMux → HwThread → ℕ
register_value SregMux.y t = t.spec_regs.y
register_value SregMux.asr t = get_asr t.spec_regs t.inst.rs1
register_value SregMux.psr t = get_psr t.spec_regs
register_value SregMux.wim t = t.spec_regs.wim
register_value SregMux.tbr t = t.spec_regs.tbr
register_value SregMux.none t = t.inst.alu_result
register_value SregMux.dt t = t.inst.alu_result
register_value SregMux.mem2sp t = t.inst.alu_result

unfoldable pub write_regs : HwThread → HwThread
unfolding register_value
write_regs t =
    let value = register_value t.inst.select_special_register t in
    if t.inst.write_registers
    then record t { regs = set_reg t.regs t.inst.rd value t.spec_regs.curr_wp }
    else t

-- The `switch` of `write_special_regs`, on the thread and the DMA engine; SREG_NONE only prints.
unfoldable pub special_write : SregMux → HwThread → Dma → HwThread × Dma
special_write SregMux.y t d =
    (record t { spec_regs = record (t.spec_regs) { y = t.inst.alu_result } }, d)
special_write SregMux.asr t d =
    (record t { spec_regs = set_asr t.spec_regs t.inst.alu_result t.inst.rd }, d)
special_write SregMux.psr t d = (record t { spec_regs = set_psr t.spec_regs t.inst.alu_result }, d)
special_write SregMux.wim t d =
    (record t { spec_regs = record (t.spec_regs) { wim = t.inst.alu_result } }, d)
special_write SregMux.tbr t d =
    (record t { spec_regs = record (t.spec_regs) { tbr = t.inst.alu_result } }, d)
special_write SregMux.dt t d =
    let r = t.spec_regs in
    let r' =
      if ltb t.inst.rd num_deadline_timers
      then set_dt r t.inst.alu_result t.inst.rd
      else set_pll_load r t.inst.alu_result (t.inst.rd - 8) in
    (record t { spec_regs = r' }, d)
special_write SregMux.mem2sp t d = (
  t,
  make_transfer (set_spm_target (set_mem_source d t.id t.inst.alu_result) t.id t.inst.op3_value)
      t.id,
)
special_write SregMux.none t d = (t, d)

unfoldable pub write_special_regs : HwThread → Dma → HwThread × Dma
unfolding special_write
write_special_regs t d =
    if t.inst.write_special_registers
    then special_write t.inst.select_special_register t d
    else (t, d)

-- What the stage works on: the thread, the DMA engine and the controller's table.
pub record Commit : Type 0 where
  pub thread : HwThread
  pub engine : Dma
  pub table : SyncTable

-- The end of `behavior`, from `write_regs` on.
unfoldable pub finish : HwThread → Dma → SyncTable → Commit
unfolding write_regs write_special_regs return_from_trap
finish t d table =
    let (t₁, d') = write_special_regs (write_regs t) d in
    let t₂ = if t₁.inst.is_rett then return_from_trap t₁ else t₁ in
    record { thread = record t₂ { cnt_instr = add32 t₂.cnt_instr 1 }; engine = d'; table = table }

-- `check_sync_table`, called for a `sync` instruction alone.
unfoldable pub synchronise : HwThread → SyncTable → Option (Bool × SyncTable)
unfolding check_sync_table
synchronise t table =
    if t.inst.sync_instruction
    then check_sync_table table (u16 t.inst.imm) t.id
    else some (true, table)

-- `behavior` after its early returns.
unfoldable pub complete : HwThread → Dma → SyncTable → Option Commit
unfolding synchronise handle_exceptions inc_pc finish
complete t d table = elim (synchronise t table) [
  | none ↦ none
  | some (not_stalled, table') ↦
      let (clear, t') = handle_exceptions t in
      let moved : Option Commit = elim (inc_pc t') [
        | none ↦ none
        | some t'' ↦ some (finish t'' d table')
      ] in
      if clear && not t'.db_word_stalled && not_stalled then moved else some (finish t' d table')
]

unfoldable pub behavior : HwThread → Dma → SyncTable → Option Commit
unfolding set_dword_state dead_stalled complete
behavior t d table =
    let counted = record t { cnt_cycles = add32 t.cnt_cycles 6 } in
    let (dead, t₁) = dead_stalled (set_dword_state counted) in
    if not t.enabled
    then some (record { thread = t; engine = d; table = table })
    else if t.fetch_stalled
    then some (record { thread = counted; engine = d; table = table })
    else if dead || t₁.memory_stalled
    then some (record { thread = t₁; engine = d; table = table })
    else complete t₁ d table
