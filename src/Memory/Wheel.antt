-- ===== src/Memory/Wheel.antt =====
-- The class `wheeled_mem` of src/core/wheeled_mem.cpp: main memory behind a time-triggered schedule.
-- The cycle count of the shared counter is an argument; `requested_addr` is the static variable of
-- `is_stalled_helper`, and `none` a failed assertion.
pub mod Schedule
pub mod Access
use pret_iss.Prelude.{
  ℕ, zero, suc, ◌+◌, ◌-◌, ◌*◌, ◌/◌, ◌%◌, ◌==◌, leb, ltb, if◌then◌else◌, Bool, true, false, not,
  ◌&&◌, ◌||◌, Option, none, some, List, [], ◌∷◌, u32, add32, sub32,
}
use pret_iss.Memory.Unit.{MemoryUnit, add_address, read_word}

pub record WheeledMem : Type 0 where
  pub mem : MemoryUnit
  pub lat_d : ℕ
  pub throughput_d : ℕ
  pub memory_window : ℕ
  pub accessing : Bool
  pub remaining_cycles : ℕ
  pub requested_addr : ℕ

abbrev pub num_threads : ℕ
num_threads = 6

-- `MAX_WORDS` without `USE_BURST`
abbrev pub max_words : ℕ
max_words = 1

abbrev pub round_up : ℕ → ℕ → ℕ
round_up x y = (x + y - 1) / y * y

-- The constructor that computes the window from the delays.
unfoldable pub wheeled_mem : ℕ → ℕ → WheeledMem
wheeled_mem l_d t_d = record {
  mem = [];
  lat_d = l_d;
  throughput_d = t_d;
  memory_window = round_up (l_d + t_d * (max_words - 1)) num_threads + 1;
  accessing = false;
  remaining_cycles = 0;
  requested_addr = 0;
}

-- The accessor makes no difference.
unfoldable pub get_delay : WheeledMem → ℕ → ℕ
get_delay w num_words = w.lat_d + w.throughput_d * (num_words - 1)

unfoldable pub current_thread : WheeledMem → ℕ → ℕ
current_thread w cycles =
    let window_cycle = cycles % (w.memory_window * num_threads) in
    let tid = window_cycle / w.memory_window in (1 + tid) % num_threads

-- `start_window` is an `unsigned int`: a window shorter than the delay would wrap.
unfoldable pub is_scheduled : WheeledMem → ℕ → ℕ → Bool
unfolding get_delay current_thread
is_scheduled w cycles tid =
    let start_window = sub32 w.memory_window (get_delay w max_words) in
    if tid == current_thread w cycles then leb (cycles % w.memory_window) start_window else false

abbrev assert {ℓ} : {A : Type ℓ} → Bool → Option A → Option A
assert b rest = if b then rest else none

unfoldable pub is_stalled_helper : WheeledMem → ℕ → ℕ → ℕ → ℕ → Option (Bool × WheeledMem)
unfolding get_delay current_thread is_scheduled
is_stalled_helper w cycles tid addr num_words =
    let fresh = record w { remaining_cycles = get_delay w num_words; requested_addr = addr } in
    let w₁ = if w.accessing then w else fresh in
    let w₂ = record w₁ { accessing = w₁.remaining_cycles == 0 } in
    if not (tid == current_thread w cycles) || not (is_scheduled w cycles tid) && not w.accessing
    then assert (not w.accessing) (some (true, w))
    else assert (w₂.requested_addr == addr) (some (w₂.accessing, w₂))

-- `read` returns the word whether it stalls or not.
unfoldable pub read : WheeledMem → ℕ → ℕ → ℕ → Option (ℕ × Bool × WheeledMem)
unfolding is_stalled_helper
read w cycles tid addr = elim (is_stalled_helper w cycles tid addr 1) [
  | none ↦ none
  | some (stalled, w') ↦ some (read_word w'.mem addr, stalled, w')
]

unfoldable pub write : WheeledMem → ℕ → ℕ → ℕ → ℕ → Option (Bool × WheeledMem)
unfolding is_stalled_helper
write w cycles tid addr word = elim (is_stalled_helper w cycles tid addr 1) [
  | none ↦ none
  | some (stalled, w') ↦
      some (stalled, if stalled then w' else record w' { mem = add_address w'.mem addr word })
]

-- The words at `addr`, `addr + 4` and so on.
unfoldable pub words_from : MemoryUnit → ℕ → ℕ → List ℕ
words_from m addr zero = []
words_from m addr (suc n) = read_word m addr ∷ words_from m (add32 addr 4) n

unfoldable pub read_burst : WheeledMem → ℕ → ℕ → ℕ → ℕ → Option (List ℕ × Bool × WheeledMem)
unfolding is_stalled_helper words_from
read_burst w cycles tid start_addr num_words =
    elim (is_stalled_helper w cycles tid start_addr num_words) [
      | none ↦ none
      | some (stalled, w') ↦ some (words_from w'.mem start_addr num_words, stalled, w')
    ]

-- `behavior`, once a cycle.
unfoldable pub tick : WheeledMem → WheeledMem
tick w = record w {
  remaining_cycles = if w.remaining_cycles == 0 then 0 else w.remaining_cycles - 1;
}
