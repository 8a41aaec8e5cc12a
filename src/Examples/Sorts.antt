-- ===== src/Examples/Sorts.antt =====
-- The programs of soft that sort, on the array that they hold, and the comparison of threads.
use pret_iss.Prelude.{
  ℕ, ◌+◌, ◌≡◌, ◌↔◌, length-replicate, inr, refl, true, List, [], ◌∷◌, replicate, some, arith,
}
use pret_iss.Sorting.Orders.{IsSorted, SameCounts}
use pret_iss.Sorting.Merge.{merge_sort}
use pret_iss.Sorting.Merge.Laws.{merge_sort-IsSorted}
use pret_iss.SpecialReg.{special_reg, set_psr}
use pret_iss.Thread.{HwThread, hw_thread}
use pret_iss.Thread.Equal

abbrev iarray : List ℕ
iarray = 5 ∷ 3 ∷ 600 ∷ 302 ∷ 1 ∷ 62 ∷ 14 ∷ 6 ∷ 2 ∷ 0 ∷ []

merge_sort-IsSorted_example :
    (r : List ℕ) × (merge_sort (9 + 1) iarray 0 9 5 ≡ some r) × IsSorted r × SameCounts r iarray
merge_sort-IsSorted_example = merge_sort-IsSorted iarray 9 5 refl (inr (omega arith))

abbrev thread : HwThread
thread = hw_thread 3 0x40300000 (replicate 512 0)

-- A thread that differs in its PC and in nothing else that the comparison leaves out.
abbrev ahead : HwThread
ahead = record thread { pc = 0x40300004; cnt_instr = 1 }

equal_iff_example :
    (Equal.equal thread ahead ≡ true) ↔ (Equal.compared thread ≡ Equal.compared ahead)
unfolding hw_thread special_reg set_psr
equal_iff_example = Equal.equal_iff thread ahead (sized 0x40300000 0) (sized 0x40300004 1)
  where
    sized : (pc instr : ℕ) → Equal.IsSized (record thread { pc = pc; cnt_instr = instr })
    sized pc instr = record {
      regs = record { globals = refl; windows = length-replicate {A = ℕ} 512 0 };
      spec_regs = record { ancillary = refl; timers = refl; loops = refl; loads = refl };
    }
