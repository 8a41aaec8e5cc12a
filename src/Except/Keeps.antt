-- ===== src/Except/Keeps.antt =====
-- What the commit stage keeps: registers of a stalled thread, register 0, the sizes of the arrays.
use pret_iss.Prelude.{
  ℕ, if◌then◌else◌, Bool, true, false, not, ◌&&◌, ◌||◌, ◌≡◌, ◌≢◌, sym, ◌∙◌, Option, none, some,
  arith, add32, u16, get_or-set_ne,
}
use mathlib.Core.Path.{subst}
use pret_iss.Instruction.Enums.{SregMux}
use pret_iss.Instruction.Defs.{Instruction}
use pret_iss.RegisterFile.{RegisterFile, get_reg, set_reg}
use pret_iss.RegisterFile.Windows.{IsSized, set_reg-IsSized}
use pret_iss.Thread.{HwThread}
use pret_iss.Sync.{SyncTable, check_sync_table}
use pret_iss.Dma.{Dma}
use pret_iss.Except.{
  Commit, first_pass, second_pass, handle_exceptions, synchronise, write_regs, register_value,
  write_special_regs, return_from_trap, finish, complete, behavior, dead_stalled, set_dword_state,
  special_write,
}
use pret_iss.Except.NextPc.{inc_pc, transfer, branch_check, addr_calc, leave_slot, take_icc, link}

-- The result is there, and has the property.
abbrev pub Returns : {A : Type 0} → (A → Type 0) → Option A → Type 0
Returns P none = ⊥
Returns P (some a) = P a

-- Nothing of the thread that a program sees has changed, nor the engine, nor the table.
pub record Untouched (t : HwThread) (d : Dma) (table : SyncTable) (c : Commit) : Type 0 where
  pub same_regs : c.thread.regs ≡ t.regs
  pub same_pc : c.thread.pc ≡ t.pc
  pub same_slot : c.thread.branch_slot ≡ t.branch_slot
  pub same_icc : c.thread.spec_regs.icc ≡ t.spec_regs.icc
  pub same_trap : c.thread.trapped ≡ t.trapped
  pub same_inst : c.thread.inst ≡ t.inst
  pub same_stalls :
      (c.thread.enabled ≡ t.enabled)
      × (c.thread.fetch_stalled ≡ t.fetch_stalled)
      × (c.thread.deadline_stalled ≡ t.deadline_stalled)
      × (c.thread.memory_stalled ≡ t.memory_stalled)
  pub same_count : c.thread.cnt_instr ≡ t.cnt_instr
  pub same_engine : c.engine ≡ d
  pub same_table : c.table ≡ table

-- A thread that is disabled, or stalled in fetch, by a deadline or by memory, passes the stage with no
-- effect that a program sees, so it does the same instruction again.
pub behavior-Untouched :
    (t : HwThread) (d : Dma) (table : SyncTable)
    → (not t.enabled || t.fetch_stalled || t.deadline_stalled || t.memory_stalled) ≡ true
    → Returns (Untouched t d table) (behavior t d table)
unfolding behavior dead_stalled set_dword_state
behavior-Untouched t d table h = ground arith

-- Register 0 is 0, and the arrays have their sizes.
pub record IsSound (f : RegisterFile) : Type 0 where
  pub sized : IsSized f
  pub zero_reads_zero : (wp : ℕ) → get_reg f 0 wp ≡ 0

-- An instruction that does not write register 0.
abbrev pub SparesZero : Instruction → Type 0
SparesZero i = i.rd ≡ 0 → i.write_registers ≡ false

set_reg-IsSound :
    (f : RegisterFile) (rn value wp : ℕ) → rn ≢ 0 → IsSound f → IsSound (set_reg f rn value wp)
unfolding set_reg get_reg
set_reg-IsSound f rn value wp ne s = record {
  sized = set_reg-IsSized f rn value wp s.sized;
  zero_reads_zero =
      λ v. ground (arith, get_or-set_ne f.global_reg rn 0 value 0, s.zero_reads_zero v);
}

-- What `inc_pc` and `handle_exceptions` leave for the writes that follow.
abbrev Ready : HwThread → HwThread → Type 0
Ready t u = (u.regs ≡ t.regs) × SparesZero u.inst

transfer-Ready : (t : HwThread) → SparesZero t.inst → Returns (Ready t) (transfer t)
unfolding transfer branch_check addr_calc
transfer-Ready t h = ground arith

linked : Option HwThread → Option HwThread
linked o = elim o [ none ↦ none | some u ↦ some (link u) ]

linked-Ready :
    (t : HwThread) (o : Option HwThread) → Returns (Ready t) o → Returns (Ready t) (linked o)
unfolding linked link
linked-Ready t none r = r
linked-Ready t (some u) r = ground (arith, r.1)

-- The thread on which the transfer of control is decided.
abbrev forwarded : HwThread → HwThread
forwarded t = leave_slot (take_icc t)

forwarded_lem : (t : HwThread) → ((forwarded t).regs ≡ t.regs) × ((forwarded t).inst ≡ t.inst)
unfolding take_icc leave_slot
forwarded_lem t = ground arith

Ready-forwarded :
    (t : HwThread) (o : Option HwThread) → Returns (Ready (forwarded t)) o → Returns (Ready t) o
Ready-forwarded t none r = r
Ready-forwarded t (some u) r = (r.0 ∙ (forwarded_lem t).0, r.1)

inc_pc-Ready : (t : HwThread) → SparesZero t.inst → Returns (Ready t) (inc_pc t)
unfolding inc_pc linked
inc_pc-Ready t h =
    let spared : SparesZero (forwarded t).inst = subst SparesZero (sym (forwarded_lem t).1) h in
    linked-Ready t (transfer (forwarded t))
      (Ready-forwarded t (transfer (forwarded t)) (transfer-Ready (forwarded t) spared))

handle_exceptions-Ready : (t : HwThread) → SparesZero t.inst → Ready t (handle_exceptions t).1
unfolding handle_exceptions first_pass second_pass
handle_exceptions-Ready t h = ground arith

-- The commit leaves the registers sound.
abbrev pub Sound : Commit → Type 0
Sound c = IsSound c.thread.regs

write_regs-IsSound :
    (t : HwThread) → SparesZero t.inst → IsSound t.regs → IsSound (write_regs t).regs
unfolding write_regs
write_regs-IsSound t h s = ground (
  arith,
  set_reg-IsSound t.regs t.inst.rd (register_value t.inst.select_special_register t)
      t.spec_regs.curr_wp,
)

regs-special_write : (m : SregMux) (t : HwThread) (d : Dma) → (special_write m t d).0.regs ≡ t.regs
unfolding special_write
regs-special_write m t d = ground arith

finish-Sound :
    (t : HwThread) (d : Dma) (table : SyncTable)
    → SparesZero t.inst
    → IsSound t.regs
    → Sound (finish t d table)
unfolding finish write_special_regs return_from_trap
finish-Sound t d table h s = ground (
  arith,
  write_regs-IsSound t h s,
  regs-special_write t.inst.select_special_register (write_regs t) d,
)

abbrev Writable : HwThread → HwThread → Type 0
Writable t u = SparesZero u.inst × IsSound u.regs

carried : (t u : HwThread) → IsSound t.regs → Ready t u → Writable t u
carried t u s r = (r.1, subst IsSound (sym r.0) s)

-- The end of the stage after `inc_pc`.
finished :
    (t : HwThread) (d : Dma) (table : SyncTable) (o : Option HwThread)
    → IsSound t.regs
    → Returns (Ready t) o
    → Returns Sound (elim o [ none ↦ none | some u ↦ some (finish u d table) ])
finished t d table none s r = r
finished t d table (some u) s r = let c = carried t u s r in finish-Sound u d table c.0 c.1

abbrev continued : HwThread → Dma → Option (Bool × SyncTable) → Option Commit
continued t d none = none
continued t d (some (not_stalled, table)) =
    let (clear, u) = handle_exceptions t in
    if clear && not u.db_word_stalled && not_stalled
    then elim (inc_pc u) [ none ↦ none | some v ↦ some (finish v d table) ]
    else some (finish u d table)

continued-Sound :
    (t : HwThread) (d : Dma) (b : Bool) (table : SyncTable)
    → SparesZero t.inst
    → IsSound t.regs
    → Returns Sound (continued t d (some (b, table)))
continued-Sound t d b table h s =
    let u = (handle_exceptions t).1 in
    let c = carried t u s (handle_exceptions-Ready t h) in
    by_case u c ((handle_exceptions t).0 && not u.db_word_stalled && b)
  where
    by_case :
        (u : HwThread)
        → Writable t u
        → (clear : Bool)
        → Returns Sound (
            if clear
            then elim (inc_pc u) [ none ↦ none | some v ↦ some (finish v d table) ]
            else some (finish u d table))
    by_case u c true = finished u d table (inc_pc u) c.1 (inc_pc-Ready u c.0)
    by_case u c false = finish-Sound u d table c.0 c.1

complete-Sound :
    (t : HwThread) (d : Dma) (table : SyncTable) (r : Bool × SyncTable)
    → synchronise t table ≡ some r
    → SparesZero t.inst
    → IsSound t.regs
    → Returns Sound (complete t d table)
unfolding complete
complete-Sound t d table r e h s =
    subst (λ o. Returns Sound (continued t d o)) (sym e) (continued-Sound t d r.0 r.1 h s)

-- The thread after the flags for double words and deadlines.
abbrev flagged : HwThread → HwThread
flagged t = (dead_stalled (set_dword_state (record t { cnt_cycles = add32 t.cnt_cycles 6 }))).1

flagged_lem :
    (t : HwThread)
    → ((flagged t).regs ≡ t.regs) × ((flagged t).inst ≡ t.inst) × ((flagged t).id ≡ t.id)
unfolding dead_stalled set_dword_state
flagged_lem t = ground arith

synchronise-flagged :
    (t : HwThread) (table : SyncTable) → synchronise (flagged t) table ≡ synchronise t table
unfolding synchronise
synchronise-flagged t table =
    let e = flagged_lem t in
    λ k.
      if (e.1 k).sync_instruction
      then check_sync_table table (u16 (e.1 k).imm) (e.2 k)
      else some (true, table)

-- Where the instruction does not write register 0 and the sync table has room for it, the stage
-- returns, and it keeps sound registers sound: they have their sizes, and register 0 reads 0 in
-- every window, whether the thread commits, stalls, or enters a trap.
pub behavior-Sound :
    (t : HwThread) (d : Dma) (table : SyncTable) (r : Bool × SyncTable)
    → synchronise t table ≡ some r
    → SparesZero t.inst
    → IsSound t.regs
    → Returns Sound (behavior t d table)
unfolding behavior
behavior-Sound t d table r e h s =
    let f = flagged_lem t in
    let sound = subst IsSound (sym f.0) s in
    let run =
      complete-Sound (flagged t) d table r (synchronise-flagged t table ∙ e)
        (subst SparesZero (sym f.1) h) sound in
    by_case t.enabled t.fetch_stalled
      ((dead_stalled (set_dword_state (record t { cnt_cycles = add32 t.cnt_cycles 6 }))).0
        || (flagged t).memory_stalled)
      sound run
  where
    by_case :
        (enabled fetch stalled : Bool)
        → IsSound (flagged t).regs
        → Returns Sound (complete (flagged t) d table)
        → Returns Sound (
            if not enabled
            then some (record { thread = t; engine = d; table = table })
            else if fetch
            then some (record {
              thread = record t { cnt_cycles = add32 t.cnt_cycles 6 };
              engine = d;
              table = table;
            })
            else if stalled
            then some (record { thread = flagged t; engine = d; table = table })
            else complete (flagged t) d table)
    by_case false fetch stalled sound run = s
    by_case true true stalled sound run = s
    by_case true false true sound run = sound
    by_case true false false sound run = run
