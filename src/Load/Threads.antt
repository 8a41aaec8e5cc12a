-- ===== src/Load/Threads.antt =====
-- The thread controller's constructor and `parse_srec_files` of src/core/hw_thread_controller.cpp.
pub mod Stacks
pub mod Failures
pub mod Images
use pret_iss.Prelude.{
  ℕ, zero, suc, ◌+◌, ◌*◌, ◌==◌, if◌then◌else◌, true, Option, none, some, List, [], ◌∷◌, replicate,
  add32, sub32, u32,
}
use pret_iss.Thread.{HwThread, hw_thread}
use pret_iss.RegisterFile.{set_reg}
use pret_iss.Sync.{SyncTable, free_entry}
use pret_iss.Memory.Wheel.{num_threads}
use pret_iss.Memory.Scratch.{L1Scratch}
use pret_iss.Load.Scan.{Text}
use pret_iss.Load.Srec.{SrecParser, Parsed, parsed, assertion, out_of_fuel, parse}
use pret_iss.Load.Bounds.{load_inst_spm, load_data_spm}

abbrev pub thread0_start : ℕ
thread0_start = 0x40000000

abbrev pub thread_mem_size : ℕ
thread_mem_size = 0x100000

-- The controller's threads, its table and its counter; the windows of thread `i` hold `garbage i`.
pub record ThreadController : Type 0 where
  pub pool : ℕ → HwThread
  pub sync_table : SyncTable
  pub tcount : ℕ

unfoldable pub hw_thread_controller : (ℕ → List ℕ) → ThreadController
unfolding hw_thread
hw_thread_controller garbage = record {
  pool = λ i. record (hw_thread i thread0_start (garbage i)) { enabled = true };
  sync_table = replicate num_threads free_entry;
  tcount = 0;
}

abbrev pub update_spm : (ℕ → L1Scratch) → ℕ → L1Scratch → ℕ → L1Scratch
update_spm spms i s j = if j == i then s else spms j

-- The three files of a thread.
pub record ThreadFiles : Type 0 where
  pub srec : Option Text
  pub ispm : Option Text
  pub dspm : Option Text

-- The controller, the SREC parser with main memory, and the scratchpads.
pub record Loading : Type 0 where
  pub controller : ThreadController
  pub parser : SrecParser
  pub spms : ℕ → L1Scratch

unfoldable pub stack_top : ℕ → ℕ
stack_top i = sub32 (u32 (thread0_start + thread_mem_size * u32 (i + 1))) 4

-- `regs.set_reg` of the frame and the stack pointer, and `set_pc`.
unfoldable pub start_thread : HwThread → ℕ → ℕ → HwThread
unfolding set_reg stack_top
start_thread t i starting_addr = record t {
  regs = set_reg (set_reg t.regs 30 (stack_top i) 0) 14 (stack_top i) 0;
  pc = starting_addr;
}

abbrev pub started : ℕ → ℕ → SrecParser → L1Scratch → Loading → Loading
started i start p s l = record {
  controller = record (l.controller) {
    pool = λ j. if j == i then start_thread (l.controller.pool i) i start else l.controller.pool j;
  };
  parser = p;
  spms = update_spm l.spms i s;
}

-- The two scratchpad files, and the registers of the thread.
unfoldable pub with_spms : ℕ → ThreadFiles → ℕ → SrecParser → Loading → Option Loading
with_spms i f start p l = elim (load_inst_spm (l.spms i) p.mem f.ispm) [
  | none ↦ none
  | some s ↦ elim (load_data_spm s p.mem f.dspm) [
    | none ↦ none
    | some s' ↦ some (started i start p s' l)
  ]
]

-- The body of the loop for one thread; `none` if an assertion of the SREC parser fails.
unfoldable pub load_thread : ℕ → ThreadFiles → Loading → Option Loading
unfolding with_spms
load_thread i f l =
    let (result, start) = parse l.parser f.srec in
    elim result [ parsed p ↦ with_spms i f start p l | assertion ↦ none | out_of_fuel ↦ none ]

-- The loop over the threads, from thread `i` on. A directory that is not there, where the simulator
-- exits, is no input.
unfoldable pub parse_srec_files : ℕ → List ThreadFiles → Loading → Option Loading
parse_srec_files i [] l = some l
parse_srec_files i (f ∷ fs) l = elim (load_thread i f l) [
  | none ↦ none
  | some l' ↦ parse_srec_files (i + 1) fs l'
]
