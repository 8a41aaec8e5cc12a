-- ===== src/Sync/Table.antt =====
-- The table as a map from masks to rows, and what a call of `check_sync_table` does to it.
use pret_iss.Prelude.{
  ℕ, zero, suc, ◌+◌, ◌==◌, if◌then◌else◌, Bool, false, ◌≡◌, ◌≢◌, refl, sym, ap, ◌∙◌, Option, none,
  some, [], ◌∷◌, get_or, set, arith, ◌%◌, ◌^◌, bit_and, not32, inr, ◌⊎◌, length, length-set,
}
use mathlib.Core.Path.{subst}
use pret_iss.Sync.{
  bit_count, SyncEntry, SyncTable, free_entry, Search, hit, missing, search_table, arrive, commit,
  check_sync_table, first_of_two,
}

-- The row of a mask, and where it is.
abbrev pub row : SyncTable → ℕ → Option SyncEntry
row [] mask = none
row (e ∷ es) mask = if e.mask == mask then some e else row es mask

abbrev pub shift : ℕ → Option ℕ → Option ℕ
shift i none = none
shift i (some k) = some (i + k)

abbrev pub index_of : SyncTable → ℕ → Option ℕ
index_of [] mask = none
index_of (e ∷ es) mask = if e.mask == mask then some 0 else shift 1 (index_of es mask)

-- No mask but 0, which marks the free rows, has two rows.
abbrev pub Distinct : SyncTable → Type 0
Distinct [] = Unit {0}
Distinct (e ∷ es) = (e.mask ≢ 0 → row es e.mask ≡ none) × Distinct es

abbrev or_else : Option ℕ → Option ℕ → Option ℕ
or_else none o = o
or_else (some i) o = some i

abbrev outcome : ℕ → Option ℕ → Option ℕ → Option ℕ → Search
outcome i first none free = missing (or_else first (shift i free))
outcome i first (some k) free = hit (i + k)

search_table_lem :
    (mask i : ℕ) (first : Option ℕ) (t : SyncTable)
    → search_table mask i first t ≡ outcome i first (index_of t mask) (index_of t 0)
unfolding search_table
search_table_lem mask i none [] = refl
search_table_lem mask i (some j) [] = refl
search_table_lem mask i first (e ∷ es) =
    ground (
      arith,
      search_table_lem mask (i + 1) (if e.mask == 0 then first_of_two first i else first) es,
    )

-- The row found is the row of the mask.
row-index_of :
    (t : SyncTable) (mask k : ℕ)
    → index_of t mask ≡ some k
    → (row t mask ≡ some (get_or t k free_entry)) × ((get_or t k free_entry).mask ≡ mask)
row-index_of [] mask k h = cc
row-index_of (e ∷ es) mask zero h = ground arith
row-index_of (e ∷ es) mask (suc k) h = ground (arith, row-index_of es mask k)

row-eq-none : (t : SyncTable) (mask : ℕ) → index_of t mask ≡ none → row t mask ≡ none
row-eq-none [] mask h = refl
row-eq-none (e ∷ es) mask h = ground (arith, row-eq-none es mask)

-- A new row at the place of a mask's row.
row-set_other :
    (t : SyncTable) (key k m : ℕ) (new : SyncEntry)
    → index_of t key ≡ some k
    → m ≢ key
    → m ≢ new.mask
    → row (set t k new) m ≡ row t m
row-set_other [] key k m new h ne ne' = refl
row-set_other (e ∷ es) key zero m new h ne ne' = ground arith
row-set_other (e ∷ es) key (suc k) m new h ne ne' = ground (arith, row-set_other es key k m new)

row-set_self :
    (t : SyncTable) (key k m : ℕ) (new : SyncEntry)
    → index_of t key ≡ some k
    → new.mask ≡ m
    → (m ≡ key) ⊎ (row t m ≡ none)
    → row (set t k new) m ≡ some new
row-set_self [] key k m new h e c = cc
row-set_self (r ∷ rs) key zero m new h e c = ground arith
row-set_self (r ∷ rs) key (suc k) m new h e c = ground (arith, row-set_self rs key k m new)

row-set_cleared :
    (t : SyncTable) (key k : ℕ) (new : SyncEntry)
    → Distinct t
    → key ≢ 0
    → index_of t key ≡ some k
    → new.mask ≡ 0
    → row (set t k new) key ≡ none
row-set_cleared [] key k new d ne h e = refl
row-set_cleared (r ∷ rs) key zero new d ne h e = ground (arith, d.0)
row-set_cleared (r ∷ rs) key (suc k) new d ne h e =
    ground (arith, row-set_cleared rs key k new d.1 ne)

-- What a new row may carry: no mask, the mask of the row that it replaces, or a mask with no row.
abbrev Fresh : SyncTable → ℕ → ℕ → Type 0
Fresh t key m = (m ≡ 0) ⊎ ((m ≡ key) ⊎ (row t m ≡ none))

Distinct-set :
    (t : SyncTable) (key k : ℕ) (new : SyncEntry)
    → Distinct t
    → index_of t key ≡ some k
    → Fresh t key new.mask
    → Distinct (set t k new)
Distinct-set [] key k new d h f = tt
Distinct-set (e ∷ es) key zero new d h f = (λ ne. ground (arith, d.0), d.1)
Distinct-set (e ∷ es) key (suc k) new d h f =
    let below : index_of es key ≡ some k = ground arith in
    (
      λ ne. ground (arith, d.0 ne, row-set_other es key k e.mask new below),
      Distinct-set es key k new d.1 below (ground arith),
    )

-- `t'` is `t` with the row of one mask replaced.
pub record Updated (t t' : SyncTable) (mask : ℕ) (r : Option SyncEntry) : Type 0 where
  pub here : row t' mask ≡ r
  pub elsewhere : (m : ℕ) → m ≢ 0 → m ≢ mask → row t' m ≡ row t m
  pub distinct : Distinct t'
  pub same_length : length t' ≡ length t

-- What a call leaves of the row `e`. While threads are waited for, the caller is struck from them. When
-- none is, the caller passes: the row is gone if that makes as many as the mask names (the count has 16
-- bits), and has one more that passed if not.
abbrev pub left_of : SyncEntry → ℕ → Option SyncEntry
left_of e id =
    if e.waiting == 0
    then if (e.passed + 1) % 2 ^ 16 == bit_count e.mask
      then none
      else some (record e { passed = (e.passed + 1) % 2 ^ 16 })
    else some (record e { waiting = bit_and e.waiting (not32 (2 ^ id)) })

-- A row whose mask is 0 is free.
abbrev kept : SyncEntry → Option SyncEntry
kept e = if e.mask == 0 then none else some e

kept-arrive :
    (e : SyncEntry) (id : ℕ)
    → e.mask ≢ 0
    → (kept (arrive e id).1 ≡ left_of e id) × ((arrive e id).0 ≡ (e.waiting == 0))
unfolding arrive
kept-arrive e id ne = ground arith

-- What becomes of the table, and whether the thread moves on, by the row of the mask and by whether
-- there is a free row.
pub data Checked (t : SyncTable) (mask id : ℕ) : Option (Bool × SyncTable) → Type 0 where
  known :
      (e : SyncEntry) (t' : SyncTable)
      → row t mask ≡ some e
      → Updated t t' mask (left_of e id)
      → Checked t mask id (some (e.waiting == 0, t'))
  opened :
      (t' : SyncTable)
      → row t mask ≡ none
      → Updated t t' mask (some (record { mask = mask; waiting = mask; passed = 0 }))
      → Checked t mask id (some (false, t'))
  full : row t mask ≡ none → row t 0 ≡ none → Checked t mask id none

mask-arrive :
    (e : SyncEntry) (id : ℕ) → ((arrive e id).1.mask ≡ 0) ⊎ ((arrive e id).1.mask ≡ e.mask)
unfolding arrive
mask-arrive e id = ground arith

known_row :
    (t : SyncTable) (mask id k : ℕ)
    → mask ≢ 0
    → Distinct t
    → index_of t mask ≡ some k
    → Checked t mask id (
        some ((arrive (get_or t k free_entry) id).0, set t k (arrive (get_or t k free_entry) id).1))
known_row t mask id k ne d h =
    let e = get_or t k free_entry in
    let new = (arrive e id).1 in
    let found = row-index_of t mask k h in
    let what = kept-arrive e id (λ z. ne (sym found.1 ∙ z)) in
    let here : row (set t k new) mask ≡ kept new =
      ground
        (arith, mask-arrive e id, row-set_self t mask k mask new, row-set_cleared t mask k new d) in
    subst (λ b. Checked t mask id (some (b, set t k new))) (sym what.1)
      (known e (set t k new) found.0 (record {
        here = here ∙ what.0;
        elsewhere = λ m p q. row-set_other t mask k m new h q (ground (arith, mask-arrive e id));
        distinct = Distinct-set t mask k new d h (ground (arith, mask-arrive e id));
        same_length = length-set t k new;
      }))

opened_row :
    (t : SyncTable) (mask id k : ℕ)
    → mask ≢ 0
    → Distinct t
    → index_of t mask ≡ none
    → index_of t 0 ≡ some k
    → Checked t mask id (some (false, set t k (record { mask = mask; waiting = mask; passed = 0 })))
opened_row t mask id k ne d h free =
    let new : SyncEntry = record { mask = mask; waiting = mask; passed = 0 } in
    let absent = row-eq-none t mask h in
    opened (set t k new) absent (record {
      here = row-set_self t 0 k mask new free refl (inr absent);
      elsewhere = λ m p q. row-set_other t 0 k m new free p q;
      distinct = Distinct-set t 0 k new d free (inr (inr absent));
      same_length = length-set t k new;
    })

committed :
    (t : SyncTable) (mask id : ℕ) (i free : Option ℕ)
    → mask ≢ 0
    → Distinct t
    → index_of t mask ≡ i
    → index_of t 0 ≡ free
    → Checked t mask id (commit t mask id (outcome 0 none i free))
unfolding commit
committed t mask id (some k) free ne d e f =
    known_row t mask id (0 + k) ne d (e ∙ ap some (omega arith))
committed t mask id none (some k) ne d e f =
    opened_row t mask id (0 + k) ne d e (f ∙ ap some (omega arith))
committed t mask id none none ne d e f = full (row-eq-none t mask e) (row-eq-none t 0 f)

-- A call with a mask other than 0, on a table with no mask twice. Where the mask has a row, the thread
-- moves on exactly if none is waited for any more; the row is then gone if as many threads as `bitCount`
-- finds in the mask have passed, and counts one more if not; else the caller is struck from the threads
-- waited for. Where the mask has no row, one is opened that waits for every thread of the mask. No other
-- mask's row changes and no mask gets a second row. Only where every row is taken does the call write
-- outside the table.
pub check_sync_table_lem :
    (t : SyncTable) (mask id : ℕ)
    → mask ≢ 0
    → Distinct t
    → Checked t mask id (check_sync_table t mask id)
unfolding check_sync_table
check_sync_table_lem t mask id ne d =
    rw (search_table_lem mask 0 none t)
      (committed t mask id (index_of t mask) (index_of t 0) ne d refl refl)
