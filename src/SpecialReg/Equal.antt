-- ===== src/SpecialReg/Equal.antt =====
-- `operator==` of src/core/special_reg.cpp.
use mathlib.Core.Path.{ap₂}
use pret_iss.Prelude.{
  ℕ, ◌==◌, ==_iff, ==_refl, Bool, true, ◌&&◌, ◌≡◌, ◌↔◌, refl, sym, ap, ◌∙◌, List, [], ◌∷◌, length,
  arith,
}
use pret_iss.Prelude.Conjunction.{
  same, same-eq, same_refl, all, AreTrue, all-AreTrue, AreTrue-all, AreTrue-get_or, ◌also◌,
}
use pret_iss.RegisterFile.{same_upto}
use pret_iss.SpecialReg.{SpecialReg, num_deadline_timers, num_pll_timers}

-- What the flag stands for at the end: the first test and those of the three loops.
abbrev pub tests : SpecialReg → SpecialReg → List Bool
tests r q =
    (r.curr_wp == q.curr_wp)
    ∷ (r.icc == q.icc)
    ∷ (same r.s q.s)
    ∷ (same r.ps q.ps)
    ∷ (r.tbr == q.tbr)
    ∷ (r.wim == q.wim)
    ∷ (same r.et q.et)
    ∷ (same r.ec q.ec)
    ∷ (same r.ef q.ef)
    ∷ (r.pil == q.pil)
    ∷ (r.y == q.y)
    ∷ (same r.pll_loaded q.pll_loaded)
    ∷ (same_upto r.asr q.asr)
    ∷ (same_upto r.dt q.dt)
    ∷ (same_upto r.plldt q.plldt && same_upto r.pll_load q.pll_load)
    ∷ []

unfoldable pub equal : SpecialReg → SpecialReg → Bool
equal r q = all (tests r q)

-- The registers without what `operator==` does not look at.
abbrev pub compared : SpecialReg → SpecialReg
compared r = record r { imp_ver = 0; dt_status = [] }

-- The arrays have the lengths of the source.
pub record IsSized (r : SpecialReg) : Type 0 where
  pub ancillary : length r.asr ≡ 32
  pub timers : length r.dt ≡ num_deadline_timers
  pub loops : length r.plldt ≡ num_pll_timers
  pub loads : length r.pll_load ≡ num_pll_timers

pub same_upto-eq : (xs ys : List ℕ) → length xs ≡ length ys → same_upto xs ys ≡ true → xs ≡ ys
unfolding same_upto
same_upto-eq [] [] e h = refl
same_upto-eq [] (y ∷ ys) e h = absurd (omega arith)
same_upto-eq (x ∷ xs) [] e h = absurd (omega arith)
same_upto-eq (x ∷ xs) (y ∷ ys) e h =
    ap₂ (λ a l. a ∷ l) ((==_iff x y).0 (ground arith))
      (same_upto-eq xs ys (omega arith) (ground arith))

pub same_upto_refl : (l : List ℕ) → same_upto l l ≡ true
unfolding same_upto
same_upto_refl [] = refl
same_upto_refl (x ∷ xs) = ground (arith, same_upto_refl xs)

both : (a b : Bool) → (a && b) ≡ true → (a ≡ true) × (b ≡ true)
both a b h = ground arith

compared-eq :
    (r q : SpecialReg) → IsSized r → IsSized q → AreTrue (tests r q) → compared r ≡ compared q
compared-eq r q m n h k =
    let plls = both _ _ (AreTrue-get_or 14 (tests r q) h) in
    record (compared r) {
      curr_wp = (==_iff r.curr_wp q.curr_wp).0 (AreTrue-get_or 0 (tests r q) h) k;
      icc = (==_iff r.icc q.icc).0 (AreTrue-get_or 1 (tests r q) h) k;
      s = same-eq r.s q.s (AreTrue-get_or 2 (tests r q) h) k;
      ps = same-eq r.ps q.ps (AreTrue-get_or 3 (tests r q) h) k;
      tbr = (==_iff r.tbr q.tbr).0 (AreTrue-get_or 4 (tests r q) h) k;
      wim = (==_iff r.wim q.wim).0 (AreTrue-get_or 5 (tests r q) h) k;
      et = same-eq r.et q.et (AreTrue-get_or 6 (tests r q) h) k;
      ec = same-eq r.ec q.ec (AreTrue-get_or 7 (tests r q) h) k;
      ef = same-eq r.ef q.ef (AreTrue-get_or 8 (tests r q) h) k;
      pil = (==_iff r.pil q.pil).0 (AreTrue-get_or 9 (tests r q) h) k;
      y = (==_iff r.y q.y).0 (AreTrue-get_or 10 (tests r q) h) k;
      pll_loaded = same-eq r.pll_loaded q.pll_loaded (AreTrue-get_or 11 (tests r q) h) k;
      asr =
          same_upto-eq r.asr q.asr (m.ancillary ∙ sym n.ancillary) (AreTrue-get_or 12 (tests r q) h)
            k;
      dt = same_upto-eq r.dt q.dt (m.timers ∙ sym n.timers) (AreTrue-get_or 13 (tests r q) h) k;
      plldt = same_upto-eq r.plldt q.plldt (m.loops ∙ sym n.loops) plls.0 k;
      pll_load = same_upto-eq r.pll_load q.pll_load (m.loads ∙ sym n.loads) plls.1 k;
    }

tests_refl : (r : SpecialReg) → AreTrue (tests r r)
tests_refl r =
    let plls : (same_upto r.plldt r.plldt && same_upto r.pll_load r.pll_load) ≡ true =
      ground (arith, same_upto_refl r.plldt, same_upto_refl r.pll_load) in
    ==_refl r.curr_wp
    also ==_refl r.icc
    also same_refl r.s
    also same_refl r.ps
    also ==_refl r.tbr
    also ==_refl r.wim
    also same_refl r.et
    also same_refl r.ec
    also same_refl r.ef
    also ==_refl r.pil
    also ==_refl r.y
    also same_refl r.pll_loaded
    also same_upto_refl r.asr
    also same_upto_refl r.dt
    also plls
    also tt

-- `operator==` holds exactly of registers that agree in everything but the version and the deadline
-- statuses.
pub equal_iff :
    (r q : SpecialReg) → IsSized r → IsSized q → (equal r q ≡ true) ↔ (compared r ≡ compared q)
unfolding equal
equal_iff r q m n = (
  λ h. compared-eq r q m n (all-AreTrue (tests r q) h),
  λ e. ap (equal (compared r)) (sym e) ∙ AreTrue-all (tests r r) (tests_refl r),
)
