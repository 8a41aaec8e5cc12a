-- ===== src/Dma/Sweep.antt =====
-- What one call of `dma::behavior` of src/core/dma.cpp does to the states of the threads on an idle wheel.
use pret_iss.Prelude.{
  ℕ, zero, suc, ◌+◌, ◌/◌, ◌%◌, ◌≤◌, ◌<◌, ◌==◌, leb, ltb, if◌then◌else◌, Bool, ◌&&◌, ◌≡◌, Option,
  none, some, arith, length, get_or, length-set, get_or-set_self, get_or-set_ne,
}
use pret_iss.Memory.Wheel.Schedule.{IsStandard, is_scheduled_lem}
use pret_iss.Memory.Wheel.Access.{IsIdle, read_burst_lem}
use pret_iss.Dma.{TransferState, Machine, state_of, step, behavior_from}

-- The wheel is set up as the controller sets it up and is idle, and there is a state for each thread.
pub record IsWell (m : Machine) : Type 0 where
  pub standard : IsStandard m.wheel
  pub idle_wheel : IsIdle m.wheel
  pub six : length m.engine.transfer_complete ≡ 6

-- The cycles at which the wheel takes an access of the thread.
abbrev pub taken : ℕ → ℕ → Bool
taken cycles tid = tid == (1 + cycles % 114 / 19) % 6 && leb (cycles % 19) 5

abbrev pub cleared : TransferState → TransferState
cleared TransferState.busy = TransferState.idle
cleared TransferState.idle = TransferState.idle
cleared TransferState.complete = TransferState.complete
cleared TransferState.scheduled = TransferState.scheduled

abbrev pub Returns : (Machine → Type 0) → Option Machine → Type 0
Returns P none = ⊥
Returns P (some m) = P m

-- After a step for the thread `j`, the state of `tid`.
abbrev Stepped : Machine → ℕ → ℕ → ℕ → Machine → Type 0
Stepped m cycles j tid m' =
    IsWell m'
    × (state_of m'.engine tid ≡ (
        if j == tid && taken cycles tid
        then cleared (state_of m.engine tid)
        else state_of m.engine tid))

step_lem :
    (m : Machine) (cycles j tid : ℕ)
    → IsWell m
    → j < 6
    → Returns (Stepped m cycles j tid) (step m cycles j)
unfolding step
step_lem m cycles j tid w h =
    let states = m.engine.transfer_complete in
    ground (
      arith,
      w.standard,
      w.idle_wheel,
      w.six,
      is_scheduled_lem m.wheel cycles j w.standard,
      read_burst_lem m.wheel cycles j (get_or m.engine.mem_source_reg j 0) 4 w.idle_wheel,
      length-set states j TransferState.idle,
      get_or-set_self states j TransferState.idle TransferState.idle,
      get_or-set_ne states j tid TransferState.idle TransferState.idle,
    )

abbrev pub in_turn : ℕ → ℕ → ℕ → Bool
in_turn n j tid = leb j tid && ltb tid (j + n)

abbrev pub Swept : Machine → ℕ → ℕ → ℕ → ℕ → Machine → Type 0
Swept m cycles n j tid m' =
    IsWell m'
    × (state_of m'.engine tid ≡ (
        if in_turn n j tid && taken cycles tid
        then cleared (state_of m.engine tid)
        else state_of m.engine tid))

cleared_twice : (s : TransferState) → cleared (cleared s) ≡ cleared s
cleared_twice s = ground arith

swept :
    (m m' : Machine) (cycles n j tid : ℕ) (o : Option Machine)
    → Stepped m cycles j tid m'
    → Returns (Swept m' cycles n (j + 1) tid) o
    → Returns (Swept m cycles (suc n) j tid) o
swept m m' cycles n j tid none s r = r
swept m m' cycles n j tid (some m'') s r =
    (r.0, ground (arith, cleared_twice (state_of m.engine tid)))

onward : Option Machine → ℕ → ℕ → ℕ → Option Machine
onward o n j cycles = elim o [ none ↦ none | some m' ↦ behavior_from n j cycles m' ]

onward_lem :
    (m : Machine) (o : Option Machine) (cycles n j tid : ℕ)
    → ((m' : Machine)
        → IsWell m'
        → Returns (Swept m' cycles n (j + 1) tid) (behavior_from n (j + 1) cycles m'))
    → Returns (Stepped m cycles j tid) o
    → Returns (Swept m cycles (suc n) j tid) (onward o n (j + 1) cycles)
unfolding onward
onward_lem m none cycles n j tid later s = s
onward_lem m (some m') cycles n j tid later s =
    swept m m' cycles n j tid (behavior_from n (j + 1) cycles m') s (later m' s.0)

pub behavior_from_lem :
    (n j : ℕ) (m : Machine) (cycles tid : ℕ)
    → IsWell m
    → j + n ≤ 6
    → Returns (Swept m cycles n j tid) (behavior_from n j cycles m)
unfolding behavior_from onward
behavior_from_lem zero j m cycles tid w h = (w, ground arith)
behavior_from_lem (suc n) j m cycles tid w h =
    onward_lem m (step m cycles j) cycles n j tid
      (λ m' w'. behavior_from_lem n (j + 1) m' cycles tid w' (omega arith))
      (step_lem m cycles j tid w (omega arith))
