-- ===== src/SpecialReg.antt =====
-- The class `special_reg`: include/special_reg.h and src/core/special_reg.cpp.
pub mod Equal
pub mod Psr
pub mod Deadlines
pub mod Pll
use pret_iss.Prelude.{
  ℕ, zero, suc, ◌+◌, ◌-◌, ◌*◌, ◌==◌, if◌then◌else◌, ltb, Bool, true, false, not, ◌&&◌, Option, none,
  some, List, [], ◌∷◌, get_or, set, replicate, bit_and, bit_or, shr, shl32, sub32, is_neg, of_bool,
}

pub data DtStatus : Type 0 where
  unset armed missed : DtStatus

-- `_asr` has 32 entries, `_dt` and `_dt_status` NUM_DEADLINE_TIMERS, `_plldt` and `_pll_load`
-- NUM_PLL_TIMERS. A `_dt` entry is an `int32_t`, by its pattern.
pub record SpecialReg : Type 0 where
  pub imp_ver : ℕ
  pub curr_wp : ℕ
  pub icc : ℕ
  pub s : Bool
  pub ps : Bool
  pub tbr : ℕ
  pub wim : ℕ
  pub et : Bool
  pub ec : Bool
  pub ef : Bool
  pub pil : ℕ
  pub asr : List ℕ
  pub y : ℕ
  pub dt : List ℕ
  pub plldt : List ℕ
  pub pll_load : List ℕ
  pub pll_loaded : Bool
  pub dt_status : List DtStatus

abbrev pub num_deadline_timers : ℕ
num_deadline_timers = 8

abbrev pub num_pll_timers : ℕ
num_pll_timers = 1

unfoldable pub set_psr : SpecialReg → ℕ → SpecialReg
set_psr r from_register = record r {
  imp_ver = shr (bit_and from_register 0xff000000) 24;
  icc = shr (bit_and from_register 0x00f00000) 20;
  ec = not (shr (bit_and from_register 0x00002000) 13 == 0);
  ef = not (shr (bit_and from_register 0x00001000) 12 == 0);
  pil = shr (bit_and from_register 0x00000f00) 8;
  s = not (shr (bit_and from_register 0x00000080) 7 == 0);
  ps = not (shr (bit_and from_register 0x00000040) 6 == 0);
  et = not (shr (bit_and from_register 0x00000020) 5 == 0);
  curr_wp = bit_and from_register 0x0000001f;
}

unfoldable pub get_psr : SpecialReg → ℕ
get_psr r =
    let a = bit_or (shl32 r.imp_ver 24) (shl32 r.icc 20) in
    let b = bit_or a (shl32 (of_bool r.ec) 13) in
    let c = bit_or b (shl32 (of_bool r.ef) 12) in
    let d = bit_or c (shl32 r.pil 8) in
    let e = bit_or d (shl32 (of_bool r.s) 7) in
    let f = bit_or e (shl32 (of_bool r.ps) 6) in
    let g = bit_or f (shl32 (of_bool r.et) 5) in bit_or g r.curr_wp

unfoldable pub get_carry_bit : SpecialReg → ℕ
get_carry_bit r = if bit_and (get_psr r) 0x00100000 == 0 then 0 else 1

-- The constructor: all clear, register 17 of `_asr` at 0xB07, then `set_psr`.
unfoldable pub special_reg : SpecialReg
unfolding set_psr
special_reg =
    set_psr
      (record {
        imp_ver = 0;
        curr_wp = 0;
        icc = 0;
        s = false;
        ps = false;
        tbr = 0x20;
        wim = 0x2;
        et = false;
        ec = false;
        ef = false;
        pil = 0;
        asr = set (replicate 32 0) 17 0xb07;
        y = 0;
        dt = replicate num_deadline_timers 0;
        plldt = replicate num_pll_timers 0;
        pll_load = replicate num_pll_timers 0;
        pll_loaded = false;
        dt_status = replicate num_deadline_timers DtStatus.unset;
      })
      0xf30000e0

abbrev pub is_missed : DtStatus → Bool
is_missed DtStatus.unset = false
is_missed DtStatus.armed = false
is_missed DtStatus.missed = true

-- The loop of `missed_deadline` from index `i` on, with what it has found so far; `none` is the
-- return of `false`, with the output argument left alone.
unfoldable pub missed_from : ℕ → Option ℕ → List DtStatus → Option ℕ
missed_from i found [] = found
missed_from i found (st ∷ sts) = missed_from (i + 1) (if is_missed st then some i else found) sts

unfoldable pub missed_deadline : SpecialReg → Option ℕ
missed_deadline r = missed_from 0 none r.dt_status

-- One round of the loop of `decrement_deadline_timers`: the status after the timer has become `dt`.
unfoldable pub timer_status : ℕ → DtStatus → DtStatus
timer_status dt DtStatus.unset = DtStatus.unset
timer_status dt DtStatus.armed = if is_neg (sub32 dt 1) then DtStatus.missed else DtStatus.armed
timer_status dt DtStatus.missed = DtStatus.missed

unfoldable pub tick_timers : List ℕ → List ℕ
tick_timers [] = []
tick_timers (d ∷ ds) = sub32 d 1 ∷ tick_timers ds

unfoldable pub tick_statuses : List ℕ → List DtStatus → List DtStatus
tick_statuses [] sts = sts
tick_statuses (d ∷ ds) [] = []
tick_statuses (d ∷ ds) (st ∷ sts) = timer_status (sub32 d 1) st ∷ tick_statuses ds sts

unfoldable pub decrement_deadline_timers : SpecialReg → SpecialReg
decrement_deadline_timers r = record r {
  dt = tick_timers r.dt;
  dt_status = tick_statuses r.dt r.dt_status;
}

-- One PLL timer and its mailbox in `decrement_pll_timers`.
unfoldable pub tick_pll : ℕ → ℕ → ℕ × ℕ
tick_pll plldt pll_load =
    if ltb 0 plldt
    then (sub32 plldt 1, pll_load)
    else if pll_load == 0
    then (plldt, pll_load)
    else (sub32 pll_load 1, 0)

unfoldable pub tick_plls : List ℕ → List ℕ → List ℕ × List ℕ
tick_plls [] loads = ([], loads)
tick_plls (t ∷ ts) [] = (t ∷ ts, [])
tick_plls (t ∷ ts) (l ∷ ls) =
    let (t', l') = tick_pll t l in let (ts', ls') = tick_plls ts ls in (t' ∷ ts', l' ∷ ls')

unfoldable pub decrement_pll_timers : SpecialReg → SpecialReg
decrement_pll_timers r =
    let (ts, ls) = tick_plls r.plldt r.pll_load in record r { plldt = ts; pll_load = ls }

-- The indexed setters and getters.
abbrev pub set_asr : SpecialReg → ℕ → ℕ → SpecialReg
set_asr r asr_value asr_index = record r { asr = set r.asr asr_index asr_value }

abbrev pub get_asr : SpecialReg → ℕ → ℕ
get_asr r asr_index = get_or r.asr asr_index 0

abbrev pub set_dt : SpecialReg → ℕ → ℕ → SpecialReg
set_dt r dt_value dt_index = record r { dt = set r.dt dt_index dt_value }

abbrev pub get_dt : SpecialReg → ℕ → ℕ
get_dt r dt_index = get_or r.dt dt_index 0

abbrev pub set_pll_load : SpecialReg → ℕ → ℕ → SpecialReg
set_pll_load r pll_load_value pll_load_index = record r {
  pll_load = set r.pll_load pll_load_index pll_load_value;
}

abbrev pub get_pll_load : SpecialReg → ℕ → ℕ
get_pll_load r pll_load_index = get_or r.pll_load pll_load_index 0

abbrev pub set_dt_status : SpecialReg → DtStatus → ℕ → SpecialReg
set_dt_status r dt_status_value dt_status_index = record r {
  dt_status = set r.dt_status dt_status_index dt_status_value;
}

abbrev pub get_dt_status : SpecialReg → ℕ → DtStatus
get_dt_status r dt_status_index = get_or r.dt_status dt_status_index DtStatus.unset
