-- ===== src/Stages/Transfers.antt =====
-- The memory stage as a program sees it: what a load gets after a store.
use pret_iss.Prelude.{
  ℕ, ◌*◌, ◌/◌, ◌%◌, ◌^◌, ◌<◌, if◌then◌else◌, Bool, true, false, not, ◌||◌, ◌≡◌, refl, ap, ◌∙◌,
  Option, none, some, arith,
}
use mathlib.Core.Path.{ap₂}
use pret_iss.Instruction.Transfer.{read_data, get_write_data}
use pret_iss.Instruction.Bytes.{Fits, width, extend, read_data-get_write_data}
use pret_iss.Thread.{HwThread}
use pret_iss.Memory.Wheel.Access.{IsIdle}
use pret_iss.Memory.Controller
use pret_iss.Memory.Controller.{MemoryController, in_main_mem, put_spm}
use pret_iss.Memory.Controller.Laws.{seen, waits}
use pret_iss.Stages.{is_word, load, store_over, store, memory}
use pret_iss.Memory.Controller.Accesses.{
  noted, written, read_done, write_done, noted-IsIdle, waits-noted, written-IsIdle, seen-written,
  waits-written,
}

abbrev aligned : HwThread → ℕ
aligned t = 4 * (t.inst.alu_result / 4)

-- The word that a store merges into, and the memories that it writes to.
abbrev old_word : HwThread → MemoryController → ℕ
old_word t m = if is_word t.inst.memory_size then 0xdeadbeef else seen m t.id (aligned t)

abbrev before : HwThread → MemoryController → MemoryController
before t m = if is_word t.inst.memory_size then m else noted m t.id (aligned t)

abbrev stored_word : HwThread → MemoryController → ℕ
stored_word t m = get_write_data t.inst (old_word t m) (t.inst.alu_result % 4)

abbrev after_store : HwThread → MemoryController → MemoryController
after_store t m = written (before t m) t.id (aligned t) (stored_word t m)

-- The access of the thread does not wait.
abbrev pub IsLet : HwThread → MemoryController → ℕ → Type 0
IsLet t m cycles = waits m cycles t.id (4 * (t.inst.alu_result / 4)) ≡ false

-- The stall of a write goes into the thread.
abbrev noting : HwThread → Option (Bool × MemoryController) → Option (HwThread × MemoryController)
noting t none = none
noting t (some (stalled, m)) = some (record t { memory_stalled = stalled }, m)

store_over_done :
    (t : HwThread) (old : ℕ) (m : MemoryController) (cycles : ℕ)
    → IsIdle m.main_mem
    → IsLet t m cycles
    → store_over t old m cycles
      ≡ some (
        record t { memory_stalled = false },
        written m t.id (aligned t) (get_write_data t.inst old (t.inst.alu_result % 4)),
      )
unfolding store_over
store_over_done t old m cycles v h =
    let word = get_write_data t.inst old (t.inst.alu_result % 4) in
    ap (noting t) (write_done m cycles t.id (aligned t) word v h)

merged_done :
    (t : HwThread) (m : MemoryController) (cycles : ℕ)
    → IsIdle m.main_mem
    → IsLet t m cycles
    → (elim (Controller.read_data m cycles t.id (aligned t))
        as (λ o. Option (HwThread × MemoryController)) [
          | none ↦ none
          | some (old_data, stalled, m') ↦ store_over t old_data m' cycles
        ])
      ≡ some (
        record t { memory_stalled = false },
        written
            (noted m t.id (aligned t))
            t.id
            (aligned t)
            (get_write_data t.inst (seen m t.id (aligned t)) (t.inst.alu_result % 4)),
      )
merged_done t m cycles v h = rw (read_done m cycles t.id (aligned t) v h) (
    store_over_done t (seen m t.id (aligned t)) (noted m t.id (aligned t)) cycles
      (noted-IsIdle m t.id (aligned t) v) (waits-noted m cycles t.id (aligned t) (aligned t) ∙ h))

store_done :
    (t : HwThread) (m : MemoryController) (cycles : ℕ)
    → IsIdle m.main_mem
    → IsLet t m cycles
    → store t m cycles ≡ some (record t { memory_stalled = false }, after_store t m)
unfolding store
store_done t m cycles v h = by_size (is_word t.inst.memory_size)
  where
    by_size :
        (b : Bool)
        → (if b
            then store_over t 0xdeadbeef m cycles
            else elim (Controller.read_data m cycles t.id (aligned t))
                as (λ o. Option (HwThread × MemoryController)) [
                  | none ↦ none
                  | some (old_data, stalled, m') ↦ store_over t old_data m' cycles
                ])
          ≡ some (
            record t { memory_stalled = false },
            written (if b then m else noted m t.id (aligned t)) t.id (aligned t) (
                get_write_data t.inst
                  (if b then 0xdeadbeef else seen m t.id (aligned t))
                  (t.inst.alu_result % 4)),
          )
    by_size true = store_over_done t 0xdeadbeef m cycles v h
    by_size false = merged_done t m cycles v h

load_done :
    (t : HwThread) (m : MemoryController) (cycles : ℕ)
    → IsIdle m.main_mem
    → IsLet t m cycles
    → load t m cycles
      ≡ some (
        record t {
          memory_stalled = false;
          inst = read_data t.inst (seen m t.id (aligned t)) (t.inst.alu_result % 4);
        },
        noted m t.id (aligned t),
      )
unfolding load
load_done t m cycles v h = ap (bringing t) (read_done m cycles t.id (aligned t) v h)
  where
    bringing :
        HwThread → Option (ℕ × Bool × MemoryController) → Option (HwThread × MemoryController)
    bringing t none = none
    bringing t (some (raw_data, stalled, m')) = some (
      record t {
        memory_stalled = stalled;
        inst = if stalled then t.inst else read_data t.inst raw_data (t.inst.alu_result % 4);
      },
      m',
    )

-- A thread in the memory stage with a load, or with a store.
abbrev pub IsLoad : HwThread → Type 0
IsLoad t = (t.enabled ≡ true) × (t.fetch_stalled ≡ false) × (t.inst.read_memory ≡ true)

abbrev pub IsStore : HwThread → Type 0
IsStore t =
    (t.enabled ≡ true)
    × (t.fetch_stalled ≡ false)
    × (t.inst.read_memory ≡ false)
    × (t.inst.write_memory ≡ true)

memory-load :
    (t : HwThread) (m : MemoryController) (cycles : ℕ)
    → IsLoad t
    → memory t m cycles ≡ load t m cycles
unfolding memory
memory-load t m cycles h = λ k.
    if not (h.0 k) || h.1 k
    then some (t, m)
    else if h.2 k
    then load t m cycles
    else if t.inst.write_memory
    then store t m cycles
    else some (t, m)

memory-store :
    (t : HwThread) (m : MemoryController) (cycles : ℕ)
    → IsStore t
    → memory t m cycles ≡ store t m cycles
unfolding memory
memory-store t m cycles h = λ k.
    if not (h.0 k) || h.1 k
    then some (t, m)
    else if h.2 k
    then load t m cycles
    else if h.3 k
    then store t m cycles
    else some (t, m)

-- The memory stage of the first thread, then of the second.
abbrev pub then_memory :
    Option (HwThread × MemoryController) → HwThread → ℕ → Option (HwThread × MemoryController)
then_memory none u cycles = none
then_memory (some (t, m)) u cycles = memory u m cycles

-- Whether the load stalls, and its result.
abbrev pub loaded_result : Option (HwThread × MemoryController) → Option (Bool × ℕ)
loaded_result none = none
loaded_result (some (t, m)) = some (t.memory_stalled, t.inst.alu_result)

before-IsIdle :
    (t : HwThread) (m : MemoryController) → IsIdle m.main_mem → IsIdle (before t m).main_mem
before-IsIdle t m v = by_size (is_word t.inst.memory_size)
  where
    by_size : (b : Bool) → IsIdle (if b then m else noted m t.id (aligned t)).main_mem
    by_size true = v
    by_size false = noted-IsIdle m t.id (aligned t) v

waits-before :
    (t : HwThread) (m : MemoryController) (cycles k : ℕ)
    → waits (before t m) cycles t.id k ≡ waits m cycles t.id k
waits-before t m cycles k = by_size (is_word t.inst.memory_size)
  where
    by_size :
        (b : Bool)
        → waits (if b then m else noted m t.id (aligned t)) cycles t.id k ≡ waits m cycles t.id k
    by_size true = refl
    by_size false = waits-noted m cycles t.id (aligned t) k

old_word-lt :
    (t : HwThread) (m : MemoryController) → seen m t.id (aligned t) < 2 ^ 32 → old_word t m < 2 ^ 32
old_word-lt t m h = ground arith

after_store-IsIdle :
    (t : HwThread) (m : MemoryController) → IsIdle m.main_mem → IsIdle (after_store t m).main_mem
after_store-IsIdle t m v =
    written-IsIdle (before t m) t.id (aligned t) (stored_word t m) (before-IsIdle t m v)

-- The two accesses name one thread's memory, one address and one size.
pub record IsSame (t u : HwThread) : Type 0 where
  pub same_id : u.id ≡ t.id
  pub same_address : u.inst.alu_result ≡ t.inst.alu_result
  pub same_size : u.inst.memory_size ≡ t.inst.memory_size

-- On an idle wheel, a load from the address of a store of the same thread and size, each where the
-- access does not wait, goes through the memory stage without a stall and gets the value stored,
-- cut to the size and extended, whichever memory serves the address. The value and the old word are
-- below 2 ^ 32, and the access lies within its word.
pub memory-memory :
    (t u : HwThread) (m : MemoryController) (cycles cycles' : ℕ)
    → IsIdle m.main_mem
    → IsStore t
    → IsLoad u
    → IsSame t u
    → t.inst.op3_value < 2 ^ 32
    → seen m t.id (aligned t) < 2 ^ 32
    → Fits t.inst.memory_size (t.inst.alu_result % 4)
    → IsLet t m cycles
    → IsLet t m cycles'
    → loaded_result (then_memory (memory t m cycles) u cycles')
      ≡ some (false, extend t.inst.memory_size (t.inst.op3_value % 2 ^ width t.inst.memory_size))
memory-memory t u m cycles cycles' v st ld same h₁ h₂ fits let₁ let₂ =
    let m' = after_store t m in
    let offset = t.inst.alu_result % 4 in
    let first = memory-store t m cycles st ∙ store_done t m cycles v let₁ in
    let free : waits m' cycles' t.id (aligned t) ≡ false =
      waits-written (before t m) cycles' t.id (aligned t) (stored_word t m) (aligned t)
      ∙ waits-before t m cycles' (aligned t)
      ∙ let₂ in
    let free' : IsLet u m' cycles' =
      ap₂ (λ (i a : ℕ). waits m' cycles' i (4 * (a / 4))) same.same_id same.same_address ∙ free in
    let second =
      memory-load u m' cycles' ld ∙ load_done u m' cycles' (after_store-IsIdle t m v) free' in
    let there : seen m' u.id (aligned u) ≡ stored_word t m =
      ap₂ (λ (i a : ℕ). seen m' i (4 * (a / 4))) same.same_id same.same_address
      ∙ seen-written (before t m) t.id (aligned t) (stored_word t m) in
    ap (λ o. loaded_result (then_memory o u cycles')) first
    ∙ ap loaded_result second
    ∙ ap₂ (λ w (a : ℕ). some (false, (read_data u.inst w (a % 4)).alu_result)) there
        same.same_address
    ∙ ap (λ r. some (false, r))
        (read_data-get_write_data t.inst u.inst (old_word t m) offset same.same_size h₁
          (old_word-lt t m h₂) fits)
