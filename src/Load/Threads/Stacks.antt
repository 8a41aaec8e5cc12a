-- ===== src/Load/Threads/Stacks.antt =====
-- What the threads start with after `parse_srec_files` of src/core/hw_thread_controller.cpp.
use pret_iss.Prelude.{
  ℕ, ◌+◌, ◌-◌, ◌*◌, ◌≤◌, ◌<◌, ◌==◌, if◌then◌else◌, ◌≡◌, inl, inr, sym, ◌∙◌, Option, none, some,
  List, [], ◌∷◌, length, arith, Bool-cases, ==_iff,
}
use mathlib.Core.Path.{subst}
use pret_iss.Thread.{HwThread}
use pret_iss.RegisterFile.{get_reg, set_reg}
use pret_iss.RegisterFile.Windows.{IsSized, set_reg-IsSized, get_reg-set_reg}
use pret_iss.Memory.Wheel.{num_threads}
use pret_iss.Load.Srec.{SrecParser, parsed, assertion, out_of_fuel, parse}
use pret_iss.Load.Bounds.{load_inst_spm, load_data_spm}
use pret_iss.Load.Threads.{
  ThreadFiles, Loading, thread0_start, thread_mem_size, stack_top, start_thread, load_thread,
  with_spms, started, parse_srec_files,
}

-- The stack and the frame pointer of thread `i` in the first window are the last word of its part of
-- memory, and the arrays of its registers have their sizes.
pub record HasStack (i : ℕ) (t : HwThread) : Type 0 where
  pub sized : IsSized t.regs
  pub stack_pointer :
      get_reg t.regs 14 0 ≡ thread0_start + thread_mem_size * i + (thread_mem_size - 4)
  pub frame_pointer :
      get_reg t.regs 30 0 ≡ thread0_start + thread_mem_size * i + (thread_mem_size - 4)

stack_top_lem :
    (i : ℕ)
    → i < num_threads
    → stack_top i ≡ thread0_start + thread_mem_size * i + (thread_mem_size - 4)
unfolding stack_top
stack_top_lem i h = omega arith

start_thread-HasStack :
    (i start : ℕ) (t : HwThread)
    → i < num_threads
    → IsSized t.regs
    → HasStack i (start_thread t i start)
unfolding start_thread
start_thread-HasStack i start t h s =
    let top = stack_top i in
    let first = set_reg t.regs 30 top 0 in
    let s' = set_reg-IsSized t.regs 30 top 0 s in
    record {
      sized = set_reg-IsSized first 14 top 0 s';
      stack_pointer =
          get_reg-set_reg first 14 0 14 0 top s' (omega arith) (omega arith) ∙ stack_top_lem i h;
      frame_pointer =
          get_reg-set_reg first 14 0 30 0 top s' (omega arith) (omega arith)
          ∙ get_reg-set_reg t.regs 30 0 30 0 top s (omega arith) (omega arith)
          ∙ stack_top_lem i h;
    }

-- The registers of all threads have their sizes, and the threads before `n` have their stacks.
record HasStacks (n : ℕ) (l : Loading) : Type 0 where
  all_sized : (j : ℕ) → IsSized (l.controller.pool j).regs
  before : (j : ℕ) → j < n → HasStack j (l.controller.pool j)

-- If all files are read, then `P` holds.
abbrev pub IfLoaded : (Loading → Type 0) → Option Loading → Type 0
IfLoaded P none = Unit {0}
IfLoaded P (some l) = P l

abbrev next_pool : Loading → ℕ → ℕ → ℕ → HwThread
next_pool l i start j =
    if j == i then start_thread (l.controller.pool i) i start else l.controller.pool j

next_pool-IsSized :
    (i start j : ℕ) (l : Loading)
    → i < num_threads
    → HasStacks i l
    → IsSized (next_pool l i start j).regs
next_pool-IsSized i start j l h s = elim (Bool-cases (j == i)) [
  | inl e ↦ rw e (start_thread-HasStack i start (l.controller.pool i) h (s.all_sized i)).sized
  | inr e ↦ rw e (s.all_sized j)
]

next_pool-HasStack :
    (i start j : ℕ) (l : Loading)
    → i < num_threads
    → HasStacks i l
    → j < i + 1
    → HasStack j (next_pool l i start j)
next_pool-HasStack i start j l h s lt = elim (Bool-cases (j == i)) [
  | inl e ↦
      subst (λ k. HasStack k (next_pool l i start j)) (sym ((==_iff j i).0 e))
        (rw e (start_thread-HasStack i start (l.controller.pool i) h (s.all_sized i)))
  | inr e ↦ rw e (s.before j (ground arith))
]

with_spms-HasStacks :
    (i start : ℕ) (f : ThreadFiles) (p : SrecParser) (l : Loading)
    → i < num_threads
    → HasStacks i l
    → IfLoaded (HasStacks (i + 1)) (with_spms i f start p l)
unfolding with_spms
with_spms-HasStacks i start f p l h s =
    elim (load_inst_spm (l.spms i) p.mem f.ispm)
      as (λ o. IfLoaded (HasStacks (i + 1)) (elim o as (λ x. Option Loading) [
        | none ↦ none
        | some t ↦ elim (load_data_spm t p.mem f.dspm) as (λ x. Option Loading) [
          | none ↦ none
          | some u ↦ some (started i start p u l)
        ]
      ])) [
        | none ↦ tt
        | some t ↦
            elim (load_data_spm t p.mem f.dspm)
              as (λ o. IfLoaded (HasStacks (i + 1)) (elim o as (λ x. Option Loading) [
                | none ↦ none
                | some u ↦ some (started i start p u l)
              ])) [
                | none ↦ tt
                | some u ↦ record {
                  all_sized = λ j. next_pool-IsSized i start j l h s;
                  before = λ j lt. next_pool-HasStack i start j l h s lt;
                }
              ]
      ]

load_thread-HasStacks :
    (i : ℕ) (f : ThreadFiles) (l : Loading)
    → i < num_threads
    → HasStacks i l
    → IfLoaded (HasStacks (i + 1)) (load_thread i f l)
unfolding load_thread
load_thread-HasStacks i f l h s =
    elim (parse l.parser f.srec).0
      as (λ r. IfLoaded (HasStacks (i + 1)) (elim r as (λ x. Option Loading) [
        | parsed p ↦ with_spms i f (parse l.parser f.srec).1 p l
        | assertion ↦ none
        | out_of_fuel ↦ none
      ])) [
        | parsed p ↦ with_spms-HasStacks i (parse l.parser f.srec).1 f p l h s
        | assertion ↦ tt
        | out_of_fuel ↦ tt
      ]

next_loaded :
    (P Q : Loading → Type 0) (o : Option Loading) (f : Loading → Option Loading)
    → IfLoaded P o
    → ((l : Loading) → P l → IfLoaded Q (f l))
    → IfLoaded Q (elim o as (λ x. Option Loading) [ none ↦ none | some l ↦ f l ])
next_loaded P Q none f h step = tt
next_loaded P Q (some l) f h step = step l h

parse_srec_files-HasStacks :
    (fs : List ThreadFiles) (i n : ℕ) (l : Loading)
    → n ≡ i + length fs
    → n ≤ num_threads
    → HasStacks i l
    → IfLoaded (HasStacks n) (parse_srec_files i fs l)
unfolding parse_srec_files
parse_srec_files-HasStacks [] i n l e h s = subst (λ k. HasStacks k l) (omega arith) s
parse_srec_files-HasStacks (f ∷ fs) i n l e h s =
    next_loaded (HasStacks (i + 1)) (HasStacks n) (load_thread i f l) (parse_srec_files (i + 1) fs)
      (load_thread-HasStacks i f l (omega arith) s)
      (λ l' s'. parse_srec_files-HasStacks fs (i + 1) n l' (omega arith) h s')

-- When `parse_srec_files` has read the files of all six threads, whatever they hold: the stack and the
-- frame pointer of each thread are the last word of its own part of memory.
pub parse_srec_files-HasStack :
    (fs : List ThreadFiles) (l : Loading)
    → length fs ≡ num_threads
    → ((j : ℕ) → IsSized (l.controller.pool j).regs)
    → IfLoaded
        (λ l'. (j : ℕ) → j < num_threads → HasStack j (l'.controller.pool j))
        (parse_srec_files 0 fs l)
parse_srec_files-HasStack fs l e s = weaken (parse_srec_files 0 fs l) (
    parse_srec_files-HasStacks fs 0 num_threads l (omega arith) (omega arith)
      (record { all_sized = s; before = λ j lt. absurd (omega arith) }))
  where
    weaken :
        (o : Option Loading)
        → IfLoaded (HasStacks num_threads) o
        → IfLoaded (λ l'. (j : ℕ) → j < num_threads → HasStack j (l'.controller.pool j)) o
    weaken none h = tt
    weaken (some l') h = h.before
