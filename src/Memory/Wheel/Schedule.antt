-- ===== src/Memory/Wheel/Schedule.antt =====
-- The schedule of the wheel as `memory_controller` builds it: latency 14, throughput 4, and so a window
-- of 19 cycles and a rotation of 114.
use pret_iss.Prelude.{
  add32, ◌^◌, ℕ, ◌+◌, ◌-◌, ◌*◌, ◌/◌, ◌%◌, ◌≤◌, ◌<◌, ◌==◌, leb, false, ◌&&◌, ◌≡◌, ◌≢◌, ◌&&◌, false,
  ◌≢◌, arith,
}
use pret_iss.Memory.Wheel.{WheeledMem, num_threads, wheeled_mem, is_scheduled}

-- The delays and the window that the memory controller gives.
abbrev pub IsStandard : WheeledMem → Type 0
IsStandard w = (w.lat_d ≡ 14) × (w.throughput_d ≡ 4) × (w.memory_window ≡ 19)

pub wheeled_mem-IsStandard : IsStandard (wheeled_mem 14 4)
unfolding wheeled_mem
wheeled_mem-IsStandard = omega arith

-- The schedule in numbers.
pub is_scheduled_lem :
    (w : WheeledMem) (cycles tid : ℕ)
    → IsStandard w
    → is_scheduled w cycles tid ≡ (tid == (1 + cycles % 114 / 19) % 6 && leb (cycles % 19) 5)
unfolding is_scheduled
is_scheduled_lem w cycles tid (h₁, h₂, h₃) = ground arith

-- At each cycle at most one thread may start an access.
pub is_scheduled_unique :
    (w : WheeledMem) (cycles tid tid' : ℕ)
    → tid ≢ tid'
    → (is_scheduled w cycles tid && is_scheduled w cycles tid') ≡ false
unfolding is_scheduled
is_scheduled_unique w cycles tid tid' ne = ground arith

-- The round of the thread's own turns at which it may start.
abbrev pub turn : ℕ → ℕ → ℕ
turn tid cycles =
    let window = (tid + 5) % 6 in
    let target = window * 19 + (cycles + 5 * window) % 6 in (target + 114 - cycles % 114) / 6 % 19

turn-lt : (tid cycles : ℕ) → turn tid cycles < 19
turn-lt tid cycles = omega arith

-- At its turn the cycle lies in the thread's window, early enough.
at_turn :
    (tid cycles : ℕ)
    → tid < 6
    → let c = cycles + 6 * turn tid cycles in (c % 114 / 19 ≡ (tid + 5) % 6) × (c % 114 % 19 ≤ 5)
at_turn tid cycles h = omega arith

only_turn :
    (tid cycles k : ℕ)
    → tid < 6
    → k < 19
    → (cycles + 6 * k) % 114 / 19 ≡ (tid + 5) % 6
    → (cycles + 6 * k) % 114 % 19 ≤ 5
    → k ≡ turn tid cycles
only_turn tid cycles k h small e le = omega arith

-- On the standard wheel, as long as the cycle counter does not wrap in between, a thread that asks once
-- every 6 cycles, as its place in the pipeline lets it, is scheduled at exactly one of any 19 turns in
-- a row.
pub is_scheduled-turn :
    (w : WheeledMem) (cycles tid k : ℕ)
    → IsStandard w
    → tid < num_threads
    → cycles + 108 < 2 ^ 32
    → k < 19
    → (turn tid cycles < 19) × (is_scheduled w (add32 cycles (6 * k)) tid ≡ (k == turn tid cycles))
is_scheduled-turn w cycles tid k s h fits small = (
  turn-lt tid cycles,
  ground (
    arith,
    is_scheduled_lem w (add32 cycles (6 * k)) tid s,
    at_turn tid cycles h,
    only_turn tid cycles k h small,
  ),
)
