-- ===== src/Dma/Progress.antt =====
-- A transfer ends: the DMA engine over the cycles of src/core/core.cpp, with the wheel ticking.
use pret_iss.Prelude.{
  ℕ, zero, suc, ◌+◌, ◌*◌, ◌%◌, ◌<◌, ltb, if◌then◌else◌, Bool, true, false, ◌≡◌, ◌≢◌, refl, sym, ap,
  ◌∙◌, ◌-◌, ◌^◌, add32, List, [], ◌∷◌, Option, none, some, arith, ◌⊎◌, inl, inr,
}
use pret_iss.Memory.Wheel.{WheeledMem, is_scheduled, read_burst}
use pret_iss.Memory.Wheel
use pret_iss.Memory.Wheel.Access.{granted-IsIdle, read_lem, write_lem}
use pret_iss.Dma.{Dma, TransferState, Machine, state_of, step, behavior}
use pret_iss.Dma.Sweep.{IsWell, taken, Returns, Swept, behavior_from_lem}

-- What the other stages may ask of the wheel in a cycle: a thread reads an address, or writes a word.
pub data Request : Type 0 where
  reading : ℕ → ℕ → Request
  writing : ℕ → ℕ → ℕ → Request

abbrev left_by_read : Option (ℕ × Bool × WheeledMem) → Option WheeledMem
left_by_read none = none
left_by_read (some (word, stalled, w)) = some w

abbrev left_by_write : Option (Bool × WheeledMem) → Option WheeledMem
left_by_write none = none
left_by_write (some (stalled, w)) = some w

abbrev served : WheeledMem → ℕ → Request → Option WheeledMem
served w cycles (reading tid addr) = left_by_read (Wheel.read w cycles tid addr)
served w cycles (writing tid addr word) = left_by_write (Wheel.write w cycles tid addr word)

abbrev then_machine : Option Machine → (Machine → Option Machine) → Option Machine
then_machine none f = none
then_machine (some m) f = f m

abbrev with_wheel : Machine → Option WheeledMem → Option Machine
with_wheel m none = none
with_wheel m (some w) = some (record m { wheel = w })

-- The rest of a cycle: the requests in order, and the tick of the wheel.
settle : ℕ → List Request → Machine → Option Machine
settle cycles [] m = some (record m { wheel = Wheel.tick m.wheel })
settle cycles (r ∷ rs) m = then_machine (with_wheel m (served m.wheel cycles r)) (settle cycles rs)

-- `n` cycles from the value `cycles` of the counter on; `asked` gives the requests of each by the number
-- of cycles that are left after it.
pub run : (ℕ → List Request) → ℕ → ℕ → Machine → Option Machine
run asked zero cycles m = some m
run asked (suc n) cycles m =
    then_machine (behavior m cycles)
      (λ m'. then_machine (settle cycles (asked n) m') (run asked n (add32 cycles 1)))

then_Returns :
    (P Q : Machine → Type 0) (o : Option Machine) (f : Machine → Option Machine)
    → ((m : Machine) → P m → Returns Q (f m))
    → Returns P o
    → Returns Q (then_machine o f)
then_Returns P Q none f step h = h
then_Returns P Q (some m) f step h = step m h

Returns-mono :
    (P Q : Machine → Type 0) (o : Option Machine)
    → ((m : Machine) → P m → Q m)
    → Returns P o
    → Returns Q o
Returns-mono P Q none step h = h
Returns-mono P Q (some m) step h = step m h

-- The wheel alone has changed, and is well.
abbrev Settled : Machine → Machine → Type 0
Settled m m' = IsWell m' × (m'.engine ≡ m.engine)

served-Settled :
    (m : Machine) (cycles : ℕ) (r : Request)
    → IsWell m
    → Returns (Settled m) (with_wheel m (served m.wheel cycles r))
served-Settled m cycles (reading tid addr) w = ground (
  arith,
  w.standard,
  w.idle_wheel,
  w.six,
  read_lem m.wheel cycles tid addr w.idle_wheel,
  granted-IsIdle m.wheel addr 1 w.idle_wheel,
)
served-Settled m cycles (writing tid addr word) w = ground (
  arith,
  w.standard,
  w.idle_wheel,
  w.six,
  write_lem m.wheel cycles tid addr word w.idle_wheel,
  granted-IsIdle m.wheel addr 1 w.idle_wheel,
)

settle-Settled :
    (cycles : ℕ) (rs : List Request) (m : Machine)
    → IsWell m
    → Returns (Settled m) (settle cycles rs m)
unfolding settle Wheel.tick
settle-Settled cycles [] m w = ground (arith, w.standard, w.idle_wheel, w.six)
settle-Settled cycles (r ∷ rs) m w =
    then_Returns (Settled m) (Settled m) (with_wheel m (served m.wheel cycles r)) (settle cycles rs)
      (λ m' s.
        Returns-mono (Settled m') (Settled m) (settle cycles rs m') (λ m'' t. (t.0, t.1 ∙ s.1))
          (settle-Settled cycles rs m' s.0))
      (served-Settled m cycles r w)

-- A busy thread was given no cycle so far.
abbrev Unserved : Machine → ℕ → ℕ → ℕ → Machine → Type 0
Unserved m n cycles tid m' =
    state_of m'.engine tid ≡ TransferState.busy
    → (state_of m.engine tid ≡ TransferState.busy)
      × ((k : ℕ) → k < n → taken (add32 cycles k) tid ≡ false)

unserved :
    (m m' m₁ m₂ : Machine) (n cycles tid : ℕ)
    → tid < 6
    → cycles < 2 ^ 32
    → Swept m cycles 6 0 tid m'
    → Settled m' m₁
    → Unserved m₁ n (add32 cycles 1) tid m₂
    → Unserved m (suc n) cycles tid m₂
unserved m m' m₁ m₂ n cycles tid h small s t r busy =
    let before = r busy in
    let busy' : state_of m'.engine tid ≡ TransferState.busy =
      sym (ap (λ (e : Dma). state_of e tid) t.1) ∙ before.0 in
    (
      ground (arith, s.1, busy'),
      λ k lt. elim (zero_or_suc k) [
        | inl e ↦ ap (λ c. taken c tid) (now k e) ∙ ground (arith, s.1, busy')
        | inr (j, e) ↦ ap (λ c. taken c tid) (later k j e) ∙ before.1 j (omega arith)
      ],
    )
  where
    now : (k : ℕ) → k ≡ 0 → add32 cycles k ≡ cycles
    now k e = omega (arith, small)

    later : (k j : ℕ) → k ≡ suc j → add32 cycles k ≡ add32 (add32 cycles 1) j
    later k j e = omega (arith, small)

    zero_or_suc : (k : ℕ) → (k ≡ 0) ⊎ ((j : ℕ) × (k ≡ suc j))
    zero_or_suc zero = inl refl
    zero_or_suc (suc j) = inr (j, refl)

run_lem :
    (asked : ℕ → List Request) (n : ℕ) (m : Machine) (cycles tid : ℕ)
    → IsWell m
    → tid < 6
    → cycles < 2 ^ 32
    → Returns (Unserved m n cycles tid) (run asked n cycles m)
unfolding run behavior
run_lem asked zero m cycles tid w h small = λ busy. (busy, λ k lt. absurd (omega arith))
run_lem asked (suc n) m cycles tid w h small =
    let P = Unserved m (suc n) cycles tid in
    then_Returns (Swept m cycles 6 0 tid) P (behavior m cycles) _
      (λ m' s.
        then_Returns (Settled m') P (settle cycles (asked n) m') (run asked n (add32 cycles 1))
          (λ m₁ t.
            Returns-mono (Unserved m₁ n (add32 cycles 1) tid) P (run asked n (add32 cycles 1) m₁)
              (λ m₂ r. unserved m m' m₁ m₂ n cycles tid h small s t r)
              (run_lem asked n m₁ (add32 cycles 1) tid t.0 h (omega arith)))
          (settle-Settled cycles (asked n) m' s.0))
      (behavior_from_lem 6 0 m cycles tid w (omega arith))

-- How long it is from a cycle to the next one at which the wheel takes an access of the thread, if the
-- counter does not wrap.
ahead : ℕ → ℕ → ℕ
ahead tid cycles =
    let start = (tid + 5) % 6 * 19 in
    if taken cycles tid then 0 else (start + 114 - cycles % 114) % 114

-- And if it does.
ahead_wrapping : ℕ → ℕ → ℕ
ahead_wrapping tid cycles =
    if ltb (cycles + ahead tid cycles) (2 ^ 32)
    then ahead tid cycles
    else 2 ^ 32 - cycles + (tid + 5) % 6 * 19

-- The bound on a transfer: 2 ^ 32 is no multiple of 114, so the windows after a wrap come later.
abbrev pub longest : ℕ → ℕ
longest cycles = if ltb (cycles + 108) (2 ^ 32) then 109 else 191

taken-ahead :
    (tid cycles : ℕ)
    → tid < 6
    → (ahead tid cycles < 109) × (taken (cycles + ahead tid cycles) tid ≡ true)
unfolding ahead
taken-ahead tid cycles h = ground arith

taken-ahead_wrapping :
    (tid cycles : ℕ)
    → tid < 6
    → cycles < 2 ^ 32
    → (ahead_wrapping tid cycles < longest cycles)
      × (taken (add32 cycles (ahead_wrapping tid cycles)) tid ≡ true)
unfolding ahead_wrapping
taken-ahead_wrapping tid cycles h small = ground (arith, taken-ahead tid cycles h)

-- With the standard wheel idle and a state for each of the six threads, whatever other transfers are in
-- flight and whatever the other stages ask of the wheel: no transfer takes longer than 109 cycles, or 191
-- where the 32 bits of the cycle counter wrap in the first 109. No assertion of the wheel fails in that
-- time, and the thread is not busy at its end if no new transfer is made.
pub run-completes :
    (asked : ℕ → List Request) (m : Machine) (cycles tid : ℕ)
    → IsWell m
    → tid < 6
    → cycles < 2 ^ 32
    → Returns
        (λ m'. state_of m'.engine tid ≢ TransferState.busy)
        (run asked (longest cycles) cycles m)
run-completes asked m cycles tid w h small =
    let n = longest cycles in
    let at = taken-ahead_wrapping tid cycles h small in
    Returns-mono (Unserved m n cycles tid) _ (run asked n cycles m)
      (λ m' r busy. absurd (ground (arith, (r busy).1 (ahead_wrapping tid cycles) at.0, at.1)))
      (run_lem asked n m cycles tid w h small)
