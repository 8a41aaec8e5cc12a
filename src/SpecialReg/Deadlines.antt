-- ===== src/SpecialReg/Deadlines.antt =====
-- The deadline timers: `decrement_deadline_timers` and `missed_deadline`.
use pret_iss.Prelude.{
  ℕ, zero, suc, ◌+◌, ◌^◌, ◌≤◌, ◌<◌, if◌then◌else◌, leb, Bool, true, false, ◌≡◌, refl, ap, ◌∙◌, List,
  [], ◌∷◌, Option, none, some, get_or, length, length-set, get_or-set_self, sub32, arith, ◌&&◌, ◌⊎◌,
  inl, inr, Bool-cases,
}
use pret_iss.SpecialReg.{
  SpecialReg, DtStatus, is_missed, timer_status, tick_timers, tick_statuses, set_dt, set_dt_status,
  get_dt, get_dt_status, decrement_deadline_timers, missed_from, missed_deadline,
}

-- `n` rounds of `decrement_deadline_timers`.
pub decrements : ℕ → SpecialReg → SpecialReg
decrements zero r = r
decrements (suc n) r = decrement_deadline_timers (decrements n r)

get_or-tick_timers :
    (ds : List ℕ) (i : ℕ) → i < length ds → get_or (tick_timers ds) i 0 ≡ sub32 (get_or ds i 0) 1
unfolding tick_timers
get_or-tick_timers [] i h = absurd (omega arith)
get_or-tick_timers (d ∷ ds) zero h = refl
get_or-tick_timers (d ∷ ds) (suc i) h = get_or-tick_timers ds i (omega arith)

length-tick_timers : (ds : List ℕ) → length (tick_timers ds) ≡ length ds
unfolding tick_timers
length-tick_timers [] = refl
length-tick_timers (d ∷ ds) = ap suc (length-tick_timers ds)

length-tick_statuses :
    (ds : List ℕ) (sts : List DtStatus) → length (tick_statuses ds sts) ≡ length sts
unfolding tick_statuses
length-tick_statuses [] sts = refl
length-tick_statuses (d ∷ ds) [] = refl
length-tick_statuses (d ∷ ds) (st ∷ sts) = ap suc (length-tick_statuses ds sts)

get_or-tick_statuses :
    (ds : List ℕ) (sts : List DtStatus) (i : ℕ)
    → i < length ds
    → i < length sts
    → get_or (tick_statuses ds sts) i DtStatus.unset
      ≡ timer_status (sub32 (get_or ds i 0) 1) (get_or sts i DtStatus.unset)
unfolding tick_statuses
get_or-tick_statuses [] sts i h k = absurd (omega arith)
get_or-tick_statuses (d ∷ ds) [] i h k = absurd (omega arith)
get_or-tick_statuses (d ∷ ds) (st ∷ sts) zero h k = refl
get_or-tick_statuses (d ∷ ds) (st ∷ sts) (suc i) h k =
    get_or-tick_statuses ds sts i (omega arith) (omega arith)

length-decrements :
    (n : ℕ) (r : SpecialReg)
    → (length (decrements n r).dt ≡ length r.dt)
      × (length (decrements n r).dt_status ≡ length r.dt_status)
unfolding decrements decrement_deadline_timers
length-decrements zero r = (refl, refl)
length-decrements (suc n) r =
    let before = decrements n r in
    (
      length-tick_timers before.dt ∙ (length-decrements n r).0,
      length-tick_statuses before.dt before.dt_status ∙ (length-decrements n r).1,
    )

-- The value of a timer that was set to `v`, and its status, after `n` decrements.
armed_after :
    (r : SpecialReg) (i v : ℕ)
    → i < length r.dt
    → i < length r.dt_status
    → get_dt r i ≡ v
    → get_dt_status r i ≡ DtStatus.armed
    → v < 2 ^ 31
    → (n : ℕ) → n < 2 ^ 31
    → (get_dt (decrements n r) i ≡ sub32 v n)
      × (get_dt_status (decrements n r) i
          ≡ (if leb 1 n && leb v n then DtStatus.missed else DtStatus.armed))
unfolding decrements decrement_deadline_timers timer_status
armed_after r i v h k e a fits zero small = ground arith
armed_after r i v h k e a fits (suc n) small =
    let before = decrements n r in
    let ih = armed_after r i v h k e a fits n (omega arith) in
    let len = length-decrements n r in
    ground (
      arith,
      get_or-tick_timers before.dt i,
      get_or-tick_statuses before.dt before.dt_status i,
      ih,
      len,
    )

abbrev status_at : List DtStatus → ℕ → Bool
status_at sts j = is_missed (get_or sts j DtStatus.unset)

-- No timer is missed from index `lo` on.
abbrev pub NoneMissed : ℕ → List DtStatus → Type 0
NoneMissed lo sts = (k : ℕ) → lo ≤ k → k < length sts → status_at sts k ≡ false

-- `j` is the last missed timer.
pub record IsLastMissed (sts : List DtStatus) (j : ℕ) : Type 0 where
  pub within : j < length sts
  pub is_missed_at : status_at sts j ≡ true
  pub none_later : NoneMissed (suc j) sts

NoneMissed-cons :
    (lo : ℕ) (st : DtStatus) (sts : List DtStatus)
    → NoneMissed lo sts
    → NoneMissed (suc lo) (st ∷ sts)
NoneMissed-cons lo st sts h zero p q = absurd (omega arith)
NoneMissed-cons lo st sts h (suc k) p q = h k (omega arith) (omega arith)

NoneMissed-cons_zero :
    (st : DtStatus) (sts : List DtStatus)
    → is_missed st ≡ false
    → NoneMissed 0 sts
    → NoneMissed 0 (st ∷ sts)
NoneMissed-cons_zero st sts e h zero p q = e
NoneMissed-cons_zero st sts e h (suc k) p q = h k (omega arith) (omega arith)

-- What the loop returns from index `i` on, with what it has found so far.
abbrev Report : ℕ → Option ℕ → List DtStatus → Option ℕ → Type 0
Report i found sts result =
    ((result ≡ found) × NoneMissed 0 sts) ⊎ ((j : ℕ) × (result ≡ some (i + j)) × IsLastMissed sts j)

Report-cons :
    (i : ℕ) (found : Option ℕ) (st : DtStatus) (sts : List DtStatus) (result : Option ℕ)
    → Report (i + 1) (if is_missed st then some i else found) sts result
    → Report i found (st ∷ sts) result
Report-cons i found st sts result (inr (j, e, h)) = inr (
  suc j,
  ground arith,
  record {
    within = omega (arith, h.within);
    is_missed_at = h.is_missed_at;
    none_later = NoneMissed-cons (suc j) st sts h.none_later;
  },
)
Report-cons i found st sts result (inl (e, h)) = elim (Bool-cases (is_missed st)) [
  | inl hit ↦ inr (
    0,
    ground arith,
    record { within = omega arith; is_missed_at = hit; none_later = NoneMissed-cons 0 st sts h },
  )
  | inr miss ↦ inl (ground arith, NoneMissed-cons_zero st sts miss h)
]

missed_from-Report :
    (i : ℕ) (found : Option ℕ) (sts : List DtStatus) → Report i found sts (missed_from i found sts)
unfolding missed_from
missed_from-Report i found [] = inl (refl, λ k p q. absurd (omega arith))
missed_from-Report i found (st ∷ sts) =
    Report-cons i found st sts (missed_from (i + 1) (if is_missed st then some i else found) sts)
      (missed_from-Report (i + 1) (if is_missed st then some i else found) sts)

-- `missed_deadline` returns false exactly when no timer is missed, and otherwise reports the last
-- timer that is: when several are missed at once, the earlier ones are passed over.
pub missed_deadline_lem :
    (r : SpecialReg)
    → ((missed_deadline r ≡ none) × NoneMissed 0 r.dt_status)
      ⊎ ((j : ℕ) × (missed_deadline r ≡ some j) × IsLastMissed r.dt_status j)
unfolding missed_deadline
missed_deadline_lem r = elim (missed_from-Report 0 none r.dt_status) [
  | inl h ↦ inl h
  | inr (j, e, h) ↦ inr (j, ground arith, h)
]

-- A timer that is set to `v` and armed is reported as missed after `n` decrements exactly when at
-- least one decrement was made and the time `v` is over; up to then it holds `v - n` cycles, and it
-- goes on counting below 0. (Both counts are below 2 ^ 31, where the `int32_t` does not wrap.)
pub deadline_exact :
    (r : SpecialReg) (i v n : ℕ)
    → i < length r.dt
    → i < length r.dt_status
    → v < 2 ^ 31
    → n < 2 ^ 31
    → let s = decrements n (set_dt_status (set_dt r v i) DtStatus.armed i) in
      (get_dt s i ≡ sub32 v n)
      × (get_dt_status s i ≡ (if leb 1 n && leb v n then DtStatus.missed else DtStatus.armed))
deadline_exact r i v n h k fits small =
    armed_after (set_dt_status (set_dt r v i) DtStatus.armed i) i v (rw length-set h)
      (rw length-set k) (get_or-set_self r.dt i v 0 h)
      (get_or-set_self r.dt_status i DtStatus.armed DtStatus.unset k) fits n small
