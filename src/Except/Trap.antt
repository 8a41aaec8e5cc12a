-- ===== src/Except/Trap.antt =====
-- Trap entry in two passes, and what the stage keeps.
use pret_iss.Prelude.{
  ℕ, ◌+◌, ◌-◌, ◌%◌, ◌^◌, ◌<◌, ◌==◌, leb, ltb, if◌then◌else◌, Bool, true, false, ◌&&◌, ◌≡◌, refl, ap,
  ◌∙◌, Option, none, some, arith, u16, bit_or, shl32, set, List,
}
use pret_iss.Instruction.Enums.{SregMux, ExceptionState}
use pret_iss.Instruction.Defs.{Instruction}
use pret_iss.SpecialReg.{DtStatus, set_dt_status}
use pret_iss.RegisterFile.{RegisterFile, register_windows, get_reg, set_reg}
use pret_iss.RegisterFile.Windows.{IsSized, set_reg-IsSized, get_reg-set_reg}
use pret_iss.Thread.{HwThread}
use pret_iss.Sync.{SyncTable}
use pret_iss.Dma.{Dma}
use pret_iss.Except.{
  Commit, saving, outside_deadlines, trap_offset, first_pass, second_pass, handle_exceptions,
  synchronise, write_regs, register_value, write_special_regs, return_from_trap, finish, complete,
}

-- Handling a trap leaves the privilege bits S and PS and the trap enable bit ET as they are, whatever
-- the state and the type of the trap: the range of types that the code tests for is empty.
pub handle_exceptions-mode :
    (t : HwThread)
    → let r = (handle_exceptions t).1.spec_regs in
      (r.s ≡ t.spec_regs.s) × (r.ps ≡ t.spec_regs.ps) × (r.et ≡ t.spec_regs.et)
unfolding handle_exceptions outside_deadlines
handle_exceptions-mode t = ground arith

-- A thread in the commit stage whose instruction is an ordinary one.
pub record IsPlain (i : Instruction) : Type 0 where
  pub selects_result : i.select_special_register ≡ SregMux.none
  pub no_sync : i.sync_instruction ≡ false
  pub no_rett : i.is_rett ≡ false

-- The two passes: the thread comes back with the instruction `i`, and with the other state as it was
-- left.
abbrev pub thread_of : Option Commit → Option HwThread
thread_of none = none
thread_of (some c) = some c.thread

abbrev pub visit_again : Option Commit → Instruction → Option HwThread
visit_again none i = none
visit_again (some c) i = thread_of (complete (record (c.thread) { inst = i }) c.engine c.table)

pub two_passes : HwThread → Instruction → Dma → SyncTable → Option HwThread
two_passes t i d table = visit_again (complete t d table) i

-- A trapped thread with traps enabled and an ordinary instruction, written so that the stage computes.
abbrev trapping : HwThread → ExceptionState → HwThread
trapping t s = record t {
  trapped = s;
  spec_regs = record (t.spec_regs) { et = true };
  inst = record (t.inst) {
    select_special_register = SregMux.none;
    sync_instruction = false;
    is_rett = false;
  };
}

trapping_lem :
    (t : HwThread) (s : ExceptionState)
    → IsPlain t.inst
    → t.spec_regs.et ≡ true
    → t.trapped ≡ s
    → t ≡ trapping t s
trapping_lem t s p e h = λ k. record t {
  trapped = h k;
  spec_regs = record (t.spec_regs) { et = e k };
  inst = record (t.inst) {
    select_special_register = p.selects_result k;
    sync_instruction = p.no_sync k;
    is_rett = p.no_rett k;
  };
}

outside_deadlines-false : (n : ℕ) → outside_deadlines n ≡ false
unfolding outside_deadlines
outside_deadlines-false n = ground arith

abbrev window_below : ℕ → ℕ
window_below wp = u16 (wp + 2 ^ 16 - 1) % register_windows

after_first : HwThread → HwThread
after_first t = record t {
  inst = saving t.inst t.pc 17;
  spec_regs = record (t.spec_regs) { curr_wp = window_below t.spec_regs.curr_wp };
  trapped = ExceptionState.trapped2;
}

first_pass_lem : (t : HwThread) → first_pass t ≡ after_first t
unfolding first_pass after_first
first_pass_lem t =
    ap
      (λ b.
        let r = record (t.spec_regs) { curr_wp = window_below t.spec_regs.curr_wp } in
        record t {
          inst = saving t.inst t.pc 17;
          spec_regs = if b then record r { ps = r.s; s = true } else r;
          trapped = ExceptionState.trapped2;
        })
      (outside_deadlines-false t.trap_type)

-- The next PC that the second pass saves.
abbrev pub next_pc : HwThread → ℕ
next_pc t = if t.branch_slot == 0 then (t.pc + 4) % 2 ^ 32 else t.branch_slot

abbrev pub handler : HwThread → ℕ
handler t = bit_or t.spec_regs.tbr (shl32 (trap_offset t.trap_type) 4)

abbrev timers_after : Bool → HwThread → List DtStatus
timers_after b t =
    if b
    then set t.spec_regs.dt_status (trap_offset t.trap_type - 0x70) DtStatus.unset
    else t.spec_regs.dt_status

abbrev is_deadline : ℕ → Bool
is_deadline offset = leb 0x70 offset && ltb offset 0x79

after_second : HwThread → HwThread
after_second t = record t {
  inst = saving t.inst (next_pc t) 18;
  trapped = ExceptionState.normal;
  pc = handler t;
  branch_slot = 0;
  spec_regs = record (t.spec_regs) {
    dt_status = timers_after (is_deadline (trap_offset t.trap_type)) t;
  };
}

second_pass_lem : (t : HwThread) → second_pass t ≡ after_second t
unfolding second_pass after_second
second_pass_lem t = by_type (is_deadline (trap_offset t.trap_type))
  where
    by_type :
        (b : Bool)
        → (let r =
              if b
              then set_dt_status t.spec_regs DtStatus.unset (trap_offset t.trap_type - 0x70)
              else t.spec_regs in
            record t {
              inst = saving t.inst (next_pc t) 18;
              trapped = ExceptionState.normal;
              pc = handler t;
              branch_slot = 0;
              spec_regs = if outside_deadlines t.trap_type then record r { et = false } else r;
            })
          ≡ record t {
            inst = saving t.inst (next_pc t) 18;
            trapped = ExceptionState.normal;
            pc = handler t;
            branch_slot = 0;
            spec_regs = record (t.spec_regs) { dt_status = timers_after b t };
          }
    by_type true = rw (outside_deadlines-false t.trap_type) refl
    by_type false = rw (outside_deadlines-false t.trap_type) refl

complete-first :
    (t : HwThread) (d : Dma) (table : SyncTable)
    → complete (trapping t ExceptionState.trapped) d table
      ≡ some (finish (after_first (trapping t ExceptionState.trapped)) d table)
unfolding complete synchronise handle_exceptions
complete-first t d table =
    ap (λ u. some (finish u d table)) (first_pass_lem (trapping t ExceptionState.trapped))

complete-second :
    (t : HwThread) (d : Dma) (table : SyncTable)
    → complete (trapping t ExceptionState.trapped2) d table
      ≡ some (finish (after_second (trapping t ExceptionState.trapped2)) d table)
unfolding complete synchronise handle_exceptions
complete-second t d table =
    ap (λ u. some (finish u d table)) (second_pass_lem (trapping t ExceptionState.trapped2))

-- What a trap has done to a thread when both passes are over.
pub record Entered (t u : HwThread) : Type 0 where
  pub at_handler : u.pc ≡ handler t
  pub slot_clear : u.branch_slot ≡ 0
  pub not_trapped : u.trapped ≡ ExceptionState.normal
  pub window : u.spec_regs.curr_wp ≡ window_below t.spec_regs.curr_wp
  pub pc_saved : get_reg u.regs 17 (window_below t.spec_regs.curr_wp) ≡ t.pc
  pub npc_saved : get_reg u.regs 18 (window_below t.spec_regs.curr_wp) ≡ next_pc t

saved :
    (f : RegisterFile) (pc npc wp : ℕ)
    → IsSized f
    → wp < 32
    → let g = set_reg (set_reg f 17 pc wp) 18 npc wp in
      (get_reg g 17 wp ≡ pc) × (get_reg g 18 wp ≡ npc)
saved f pc npc wp s h =
    let mid = set_reg-IsSized f 17 pc wp s in
    let last = get_reg-set_reg (set_reg f 17 pc wp) 18 wp in
    (
      ground (arith, last 17 wp npc mid, get_reg-set_reg f 17 wp 17 wp pc s),
      ground (arith, last 18 wp npc mid),
    )

-- A trapped thread with traps enabled, an ordinary instruction and register arrays of their sizes
-- enters the handler in two passes of the stage, whatever ordinary instruction it brings the second
-- time: it goes on at the base address with the trap type set in from bit 4 on, one window down,
-- with its PC in register 17 of the new window and the next PC, which is the pending branch target
-- if there is one, in register 18.
pub two_passes-Entered :
    (t : HwThread) (i : Instruction) (d : Dma) (table : SyncTable)
    → IsPlain t.inst
    → IsPlain i
    → t.spec_regs.et ≡ true
    → t.trapped ≡ ExceptionState.trapped
    → IsSized t.regs
    → (u : HwThread) × (two_passes t i d table ≡ some u) × Entered t u
unfolding two_passes finish write_regs write_special_regs return_from_trap after_first after_second
    register_value
two_passes-Entered t i d table p q e h sized =
    let t₁ = trapping t ExceptionState.trapped in
    let c = finish (after_first t₁) d table in
    let mid = record (c.thread) { inst = i } in
    let t₂ = trapping mid ExceptionState.trapped2 in
    let u = (finish (after_second t₂) d table).thread in
    let first : complete t d table ≡ some c =
      ap (λ x. complete x d table) (trapping_lem t ExceptionState.trapped p e h)
      ∙ complete-first t d table in
    let second : complete mid d table ≡ some (finish (after_second t₂) d table) =
      ap (λ x. complete x d table) (trapping_lem mid ExceptionState.trapped2 q refl refl)
      ∙ complete-second mid d table in
    let kept =
      saved t.regs t.pc (next_pc t) (window_below t.spec_regs.curr_wp) sized (omega arith) in
    (
      u,
      ap (λ o. visit_again o i) first ∙ ap thread_of second,
      record {
        at_handler = refl;
        slot_clear = refl;
        not_trapped = refl;
        window = refl;
        pc_saved = kept.0;
        npc_saved = kept.1;
      },
    )
