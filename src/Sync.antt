-- ===== src/Sync.antt =====
-- The barrier of the `sync` instruction and the thread order: `check_sync_table`, `bitCount`,
-- `behavior` and `pll_behavior` of src/core/hw_thread_controller.cpp.
pub mod Table
pub mod Barrier
pub mod Count
use pret_iss.Prelude.{
  ℕ, zero, suc, ◌+◌, ◌-◌, ◌*◌, ◌%◌, ◌^◌, ◌==◌, if◌then◌else◌, Bool, true, false, ◌&&◌, Option, none,
  some, List, [], ◌∷◌, get_or, set, bit_and, u16, u32, add32, sub32, shr, not32,
}

-- A row of `_sync_table`: the mask, the threads that have still to come, and those that have passed.
pub record SyncEntry : Type 0 where
  pub mask : ℕ
  pub waiting : ℕ
  pub passed : ℕ

abbrev pub SyncTable : Type 0
SyncTable = List SyncEntry

abbrev pub free_entry : SyncEntry
free_entry = record { mask = 0; waiting = 0; passed = 0 }

-- The population count; the constants are octal in the source.
unfoldable pub bit_count : ℕ → ℕ
bit_count n =
    let tmp = sub32 (sub32 n (bit_and (shr n 1) 0o33333333333)) (bit_and (shr n 2) 0o11111111111) in
    bit_and (add32 tmp (shr tmp 3)) 0o30707070707 % 63

-- Where the loop ends: at the row of the mask, or after all rows with the first free one, if any.
pub data Search : Type 0 where
  hit : ℕ → Search
  missing : Option ℕ → Search

abbrev pub first_of_two : Option ℕ → ℕ → Option ℕ
first_of_two none i = some i
first_of_two (some j) i = some j

unfoldable pub search_table : ℕ → ℕ → Option ℕ → SyncTable → Search
search_table mask i first_free [] = missing first_free
search_table mask i first_free (e ∷ es) =
    let rest =
      search_table mask (i + 1) (if e.mask == 0 then first_of_two first_free i else first_free)
        es in
    if e.mask == mask then hit i else rest

-- What is done with the row of the mask: whether the thread moves on, and the new row.
unfoldable pub arrive : SyncEntry → ℕ → Bool × SyncEntry
unfolding bit_count
arrive e id =
    let passed = u16 (e.passed + 1) in
    let through = record e {
      mask = if passed == bit_count e.mask then 0 else e.mask;
      passed = passed;
    } in
    if e.waiting == 0
    then (true, through)
    else (false, record e { waiting = bit_and e.waiting (not32 (2 ^ id)) })

-- What follows the loop. `none` is the write before the start of the table that is made when no row
-- is free.
unfoldable pub commit : SyncTable → ℕ → ℕ → Search → Option (Bool × SyncTable)
unfolding arrive
commit t mask id (hit i) = let r = arrive (get_or t i free_entry) id in some (r.0, set t i r.1)
commit t mask id (missing none) = none
commit t mask id (missing (some i)) =
    some (false, set t i (record { mask = mask; waiting = mask; passed = 0 }))

unfoldable pub check_sync_table : SyncTable → ℕ → ℕ → Option (Bool × SyncTable)
unfolding search_table commit
check_sync_table t mask id = commit t mask id (search_table mask 0 none t)

-- `behavior` hands the pipeline the threads in turn: the place in the pool and the new counter.
unfoldable pub next_thread : ℕ → ℕ × ℕ
next_thread tcount = (tcount % 6, add32 tcount 1)
