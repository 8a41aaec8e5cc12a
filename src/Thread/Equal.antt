-- ===== src/Thread/Equal.antt =====
-- `operator==` of src/core/hw_thread.cpp; the pointer to the thread controller, which all threads share, is
-- left out.
use pret_iss.Prelude.{
  ℕ, ◌==◌, ==_iff, ==_refl, Bool, true, false, ◌≡◌, ◌↔◌, refl, sym, ap, ◌∙◌, List, [], ◌∷◌, arith,
}
use pret_iss.Prelude.Conjunction.{
  same, same-eq, same_refl, all, AreTrue, all-AreTrue, AreTrue-all, AreTrue-get_or, ◌also◌,
}
use pret_iss.Instruction.Enums.{ExceptionState}
use pret_iss.Instruction
use pret_iss.RegisterFile
use pret_iss.RegisterFile.Windows
use pret_iss.SpecialReg.Equal.{same_upto-eq, same_upto_refl}
use pret_iss.SpecialReg
use pret_iss.Thread.{HwThread}

unfoldable pub trap_code : ExceptionState → ℕ
trap_code ExceptionState.normal = 0
trap_code ExceptionState.trapped = 1
trap_code ExceptionState.trapped2 = 2
trap_code ExceptionState.error = 3

abbrev pub tests : HwThread → HwThread → List Bool
tests t u =
    (t.id == u.id)
    ∷ (Instruction.Equal.equal t.inst u.inst)
    ∷ (t.pc == u.pc)
    ∷ (same t.enabled u.enabled)
    ∷ (SpecialReg.Equal.equal t.spec_regs u.spec_regs)
    ∷ (t.branch_slot == u.branch_slot)
    ∷ (RegisterFile.equal t.regs u.regs)
    ∷ (same t.deadline_stalled u.deadline_stalled)
    ∷ (same t.memory_stalled u.memory_stalled)
    ∷ (same t.fetch_stalled u.fetch_stalled)
    ∷ (same t.fixed_schedule u.fixed_schedule)
    ∷ (trap_code t.trapped == trap_code u.trapped)
    ∷ (t.trap_type == u.trap_type)
    ∷ []

unfoldable pub equal : HwThread → HwThread → Bool
equal t u = all (tests t u)

-- The thread without what `operator==` does not look at.
abbrev pub compared : HwThread → HwThread
compared t = record t {
  cnt_cycles = 0;
  cnt_instr = 0;
  db_word_stalled = false;
  inst = Instruction.Equal.compared t.inst;
  spec_regs = SpecialReg.Equal.compared t.spec_regs;
}

trap_code-eq : (a b : ExceptionState) → (trap_code a == trap_code b) ≡ true → a ≡ b
unfolding trap_code
trap_code-eq a b h = ground arith

regs-eq :
    (f g : RegisterFile.RegisterFile)
    → Windows.IsSized f
    → Windows.IsSized g
    → RegisterFile.equal f g ≡ true
    → f ≡ g
unfolding RegisterFile.equal
regs-eq f g m n h k = record {
  global_reg = same_upto-eq f.global_reg g.global_reg (m.globals ∙ sym n.globals) (ground arith) k;
  window_reg = same_upto-eq f.window_reg g.window_reg (m.windows ∙ sym n.windows) (ground arith) k;
}

regs_refl : (f : RegisterFile.RegisterFile) → RegisterFile.equal f f ≡ true
unfolding RegisterFile.equal
regs_refl f = ground (arith, same_upto_refl f.window_reg, same_upto_refl f.global_reg)

-- The register arrays have the lengths of the source.
pub record IsSized (t : HwThread) : Type 0 where
  pub regs : Windows.IsSized t.regs
  pub spec_regs : SpecialReg.Equal.IsSized t.spec_regs

compared-eq :
    (t u : HwThread) → IsSized t → IsSized u → AreTrue (tests t u) → compared t ≡ compared u
compared-eq t u m n h k = record (compared t) {
  id = (==_iff t.id u.id).0 (AreTrue-get_or 0 (tests t u) h) k;
  inst = (Instruction.Equal.equal_iff t.inst u.inst).0 (AreTrue-get_or 1 (tests t u) h) k;
  pc = (==_iff t.pc u.pc).0 (AreTrue-get_or 2 (tests t u) h) k;
  enabled = same-eq t.enabled u.enabled (AreTrue-get_or 3 (tests t u) h) k;
  spec_regs =
      (SpecialReg.Equal.equal_iff t.spec_regs u.spec_regs m.spec_regs n.spec_regs).0
        (AreTrue-get_or 4 (tests t u) h) k;
  branch_slot = (==_iff t.branch_slot u.branch_slot).0 (AreTrue-get_or 5 (tests t u) h) k;
  regs = regs-eq t.regs u.regs m.regs n.regs (AreTrue-get_or 6 (tests t u) h) k;
  deadline_stalled =
      same-eq t.deadline_stalled u.deadline_stalled (AreTrue-get_or 7 (tests t u) h) k;
  memory_stalled = same-eq t.memory_stalled u.memory_stalled (AreTrue-get_or 8 (tests t u) h) k;
  fetch_stalled = same-eq t.fetch_stalled u.fetch_stalled (AreTrue-get_or 9 (tests t u) h) k;
  fixed_schedule = same-eq t.fixed_schedule u.fixed_schedule (AreTrue-get_or 10 (tests t u) h) k;
  trapped = trap_code-eq t.trapped u.trapped (AreTrue-get_or 11 (tests t u) h) k;
  trap_type = (==_iff t.trap_type u.trap_type).0 (AreTrue-get_or 12 (tests t u) h) k;
}

tests_refl : (t : HwThread) → IsSized t → AreTrue (tests t t)
tests_refl t m =
    ==_refl t.id
    also (Instruction.Equal.equal_iff t.inst t.inst).1 refl
    also ==_refl t.pc
    also same_refl t.enabled
    also (SpecialReg.Equal.equal_iff t.spec_regs t.spec_regs m.spec_regs m.spec_regs).1 refl
    also ==_refl t.branch_slot
    also regs_refl t.regs
    also same_refl t.deadline_stalled
    also same_refl t.memory_stalled
    also same_refl t.fetch_stalled
    also same_refl t.fixed_schedule
    also ==_refl (trap_code t.trapped)
    also ==_refl t.trap_type
    also tt

-- For threads whose register arrays have their lengths, `operator==` holds exactly of those that agree
-- in everything but the two counts, which a comment in the source leaves out, and also the stall of a
-- double word, the window increment of the instruction, and the version and the deadline statuses of
-- the special registers.
pub equal_iff :
    (t u : HwThread) → IsSized t → IsSized u → (equal t u ≡ true) ↔ (compared t ≡ compared u)
unfolding equal Instruction.Equal.equal SpecialReg.Equal.equal
equal_iff t u m n = (
  λ h. compared-eq t u m n (all-AreTrue (tests t u) h),
  λ e. ap (equal (compared t)) (sym e) ∙ AreTrue-all (tests t t) (tests_refl t m),
)
