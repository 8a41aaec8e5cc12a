-- ===== src/Dma.antt =====
-- The class `dma` of src/core/dma.cpp and include/dma.h: per thread, a transfer of four words from main
-- memory into the thread's scratchpad.
pub mod Sweep
pub mod Progress
pub mod Fill
use pret_iss.Prelude.{
  ℕ, zero, suc, ◌+◌, ◌*◌, Bool, true, false, Option, none, some, List, [], ◌∷◌, get_or, set,
  replicate, add32,
}
use pret_iss.Memory.Scratch.{L1Scratch, add_addr}
use pret_iss.Memory.Wheel.{WheeledMem, read_burst}
use pret_iss.Memory.Controller.{put_spm}

-- `transfer_state_t`
pub data TransferState : Type 0 where
  idle complete busy scheduled : TransferState

-- The arrays over the threads. The pointers to the wheel and the scratchpads are arguments of
-- `behavior`, and `_received_data` is empty between calls.
pub record Dma : Type 0 where
  pub mem_source_reg : List ℕ
  pub spm_target_reg : List ℕ
  pub transfer_complete : List TransferState

-- `_initialize`
unfoldable pub dma : Dma
dma = record {
  mem_source_reg = replicate 6 0;
  spm_target_reg = replicate 6 0;
  transfer_complete = replicate 6 TransferState.idle;
}

abbrev pub state_of : Dma → ℕ → TransferState
state_of d tid = get_or d.transfer_complete tid TransferState.idle

unfoldable pub is_transfer_idle : Dma → ℕ → Bool
is_transfer_idle d tid = elim (state_of d tid) [ TransferState.idle ↦ true | _ ↦ false ]

unfoldable pub is_transfer_complete : Dma → ℕ → Bool
is_transfer_complete d tid = elim (state_of d tid) [ TransferState.complete ↦ true | _ ↦ false ]

unfoldable pub make_transfer : Dma → ℕ → Dma
make_transfer d tid = record d {
  transfer_complete = set d.transfer_complete tid TransferState.busy;
}

unfoldable pub set_mem_source : Dma → ℕ → ℕ → Dma
set_mem_source d tid source = record d { mem_source_reg = set d.mem_source_reg tid source }

unfoldable pub set_spm_target : Dma → ℕ → ℕ → Dma
set_spm_target d tid target = record d { spm_target_reg = set d.spm_target_reg tid target }

-- The loop that moves the words into the scratchpad, from word `n` on.
unfoldable pub fill : L1Scratch → ℕ → ℕ → ℕ → List ℕ → L1Scratch
fill s source target n [] = s
fill s source target n (w ∷ ws) =
    fill (add_addr s (add32 source (n * 4)) (add32 target (n * 4)) w) source target (n + 1) ws

-- The engine with the memories that it works on.
pub record Machine : Type 0 where
  pub engine : Dma
  pub wheel : WheeledMem
  pub spms : ℕ → L1Scratch

-- The body of the loop of `behavior`; `none` if an assertion of the wheel fails.
unfoldable pub step : Machine → ℕ → ℕ → Option Machine
unfolding fill
step m cycles tid =
    let source = get_or m.engine.mem_source_reg tid 0 in
    let target = get_or m.engine.spm_target_reg tid 0 in
    let moved : Option Machine = elim (read_burst m.wheel cycles tid source 4) [
      | none ↦ none
      | some (words, true, w) ↦ some (record m { wheel = w })
      | some (words, false, w) ↦ some (record {
        engine = record (m.engine) {
          transfer_complete = set m.engine.transfer_complete tid TransferState.idle;
        };
        wheel = w;
        spms = put_spm m.spms tid (fill (m.spms tid) source target 0 words);
      })
    ] in
    elim (state_of m.engine tid) [ TransferState.busy ↦ moved | _ ↦ some m ]

-- `behavior`: the threads in turn, `n` of them from `tid` on.
unfoldable pub behavior_from : ℕ → ℕ → ℕ → Machine → Option Machine
unfolding step
behavior_from zero tid cycles m = some m
behavior_from (suc n) tid cycles m = elim (step m cycles tid) [
  | none ↦ none
  | some m' ↦ behavior_from n (tid + 1) cycles m'
]

unfoldable pub behavior : Machine → ℕ → Option Machine
unfolding behavior_from
behavior m cycles = behavior_from 6 0 cycles m
