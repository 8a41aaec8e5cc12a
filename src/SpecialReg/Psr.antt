-- ===== src/SpecialReg/Psr.antt =====
-- The processor state register as a word: `set_psr`, `get_psr` and `get_carry_bit`.
use pret_iss.Prelude.{
  ℕ, ◌+◌, ◌*◌, ◌/◌, ◌%◌, ◌^◌, ◌<◌, ◌==◌, ◌≡◌, bit_or, arith, of_bool, shl32, Bool, ◌∙◌,
}
use pret_iss.Prelude.Bits.{bit_and_mask, bit_and_field, bit_or_fields}
use pret_iss.SpecialReg.{SpecialReg, set_psr, get_psr, get_carry_bit}

-- The fields of the PSR fit their widths.
pub record IsPsr (r : SpecialReg) : Type 0 where
  pub imp_ver_fits : r.imp_ver < 2 ^ 8
  pub icc_fits : r.icc < 2 ^ 4
  pub pil_fits : r.pil < 2 ^ 4
  pub curr_wp_fits : r.curr_wp < 2 ^ 5

-- The fields laid side by side.
abbrev pub psr_sum : SpecialReg → ℕ
psr_sum r =
    r.imp_ver * 2 ^ 24
    + r.icc * 2 ^ 20
    + of_bool r.ec * 2 ^ 13
    + of_bool r.ef * 2 ^ 12
    + r.pil * 2 ^ 8
    + of_bool r.s * 2 ^ 7
    + of_bool r.ps * 2 ^ 6
    + of_bool r.et * 2 ^ 5
    + r.curr_wp

or_above : (k q acc r : ℕ) → acc ≡ q * 2 ^ k → r < 2 ^ k → bit_or acc r ≡ acc + r
or_above k q acc r e fits = rw e (bit_or_fields k q r fits)

-- Nine fields, each below the lowest bit of those before it.
or_chain :
    (v i ec ef pil s ps et w : ℕ)
    → v < 2 ^ 8
    → i < 2 ^ 4
    → ec < 2
    → ef < 2
    → pil < 2 ^ 4
    → s < 2
    → ps < 2
    → et < 2
    → w < 2 ^ 5
    → bit_or
        (bit_or
          (bit_or
            (bit_or
              (bit_or
                (bit_or (bit_or (bit_or (shl32 v 24) (shl32 i 20)) (shl32 ec 13)) (shl32 ef 12))
                (shl32 pil 8))
              (shl32 s 7))
            (shl32 ps 6))
          (shl32 et 5))
        w
      ≡ v * 2 ^ 24
        + i * 2 ^ 20
        + ec * 2 ^ 13
        + ef * 2 ^ 12
        + pil * 2 ^ 8
        + s * 2 ^ 7
        + ps * 2 ^ 6
        + et * 2 ^ 5
        + w
or_chain v i ec ef pil s ps et w h₁ h₂ h₃ h₄ h₅ h₆ h₇ h₈ h₉ =
    rw
      (
        or_above 24 v (shl32 v 24) (shl32 i 20) (omega arith) (omega arith),
        or_above 20 (v * 2 ^ 4 + i) (shl32 v 24 + shl32 i 20) (shl32 ec 13) (omega arith)
            (omega arith),
        or_above 13 (v * 2 ^ 11 + i * 2 ^ 7 + ec) (shl32 v 24 + shl32 i 20 + shl32 ec 13)
            (shl32 ef 12) (omega arith) (omega arith),
        or_above 12 (v * 2 ^ 12 + i * 2 ^ 8 + ec * 2 + ef)
            (shl32 v 24 + shl32 i 20 + shl32 ec 13 + shl32 ef 12) (shl32 pil 8) (omega arith)
            (omega arith),
        or_above 8 (v * 2 ^ 16 + i * 2 ^ 12 + ec * 2 ^ 5 + ef * 2 ^ 4 + pil)
            (shl32 v 24 + shl32 i 20 + shl32 ec 13 + shl32 ef 12 + shl32 pil 8) (shl32 s 7)
            (omega arith) (omega arith),
        or_above 7 (v * 2 ^ 17 + i * 2 ^ 13 + ec * 2 ^ 6 + ef * 2 ^ 5 + pil * 2 + s)
            (shl32 v 24 + shl32 i 20 + shl32 ec 13 + shl32 ef 12 + shl32 pil 8 + shl32 s 7)
            (shl32 ps 6) (omega arith) (omega arith),
        or_above 6 (v * 2 ^ 18 + i * 2 ^ 14 + ec * 2 ^ 7 + ef * 2 ^ 6 + pil * 4 + s * 2 + ps)
            (shl32 v 24
              + shl32 i 20
              + shl32 ec 13
              + shl32 ef 12
              + shl32 pil 8
              + shl32 s 7
              + shl32 ps 6)
            (shl32 et 5) (omega arith) (omega arith),
        or_above 5
            (v * 2 ^ 19 + i * 2 ^ 15 + ec * 2 ^ 8 + ef * 2 ^ 7 + pil * 8 + s * 4 + ps * 2 + et)
            (shl32 v 24
              + shl32 i 20
              + shl32 ec 13
              + shl32 ef 12
              + shl32 pil 8
              + shl32 s 7
              + shl32 ps 6
              + shl32 et 5)
            w (omega arith) (omega arith),
      )
      (omega arith)

bit-lt : (b : Bool) → of_bool b < 2
bit-lt b = ground arith

-- With fields that fit their widths, `get_psr` lays them side by side.
pub get_psr-eq-sum : (r : SpecialReg) → IsPsr r → get_psr r ≡ psr_sum r
unfolding get_psr
get_psr-eq-sum r v =
    or_chain r.imp_ver r.icc (of_bool r.ec) (of_bool r.ef) r.pil (of_bool r.s) (of_bool r.ps)
      (of_bool r.et) r.curr_wp v.imp_ver_fits v.icc_fits (bit-lt r.ec) (bit-lt r.ef) v.pil_fits
      (bit-lt r.s) (bit-lt r.ps) (bit-lt r.et) v.curr_wp_fits

-- What `set_psr` takes out of a word.
set_psr_slices :
    (r : SpecialReg) (w : ℕ)
    → w < 2 ^ 32
    → let t = set_psr r w in
      (t.imp_ver ≡ w / 2 ^ 24)
      × (t.icc ≡ w / 2 ^ 20 % 2 ^ 4)
      × (t.pil ≡ w / 2 ^ 8 % 2 ^ 4)
      × (t.curr_wp ≡ w % 2 ^ 5)
unfolding set_psr
set_psr_slices r w h = (
  omega (arith, bit_and_field 24 8 w),
  omega (arith, bit_and_field 20 4 w),
  omega (arith, bit_and_field 8 4 w),
  bit_and_mask 5 w,
)

set_psr_bits :
    (r : SpecialReg) (w : ℕ)
    → let t = set_psr r w in
      (t.ec ≡ (w / 2 ^ 13 % 2 == 1))
      × (t.ef ≡ (w / 2 ^ 12 % 2 == 1))
      × (t.s ≡ (w / 2 ^ 7 % 2 == 1))
      × (t.ps ≡ (w / 2 ^ 6 % 2 == 1))
      × (t.et ≡ (w / 2 ^ 5 % 2 == 1))
unfolding set_psr
set_psr_bits r w = (
  ground (arith, bit_and_field 13 1 w),
  ground (arith, bit_and_field 12 1 w),
  ground (arith, bit_and_field 7 1 w),
  ground (arith, bit_and_field 6 1 w),
  ground (arith, bit_and_field 5 1 w),
)

-- `set_psr` leaves fields that fit, whatever they were.
pub set_psr-IsPsr : (r : SpecialReg) (w : ℕ) → w < 2 ^ 32 → IsPsr (set_psr r w)
set_psr-IsPsr r w h = omega (arith, set_psr_slices r w h)

bit_of : (b : Bool) (n : ℕ) → b ≡ (n % 2 == 1) → of_bool b ≡ n % 2
bit_of b n e = ground arith

-- Reading the register back gives the word that was written, below 2 ^ 32, with the reserved bits
-- 14 to 19 clear.
pub get_psr-set_psr :
    (r : SpecialReg) (w : ℕ) → w < 2 ^ 32 → get_psr (set_psr r w) ≡ w / 2 ^ 20 * 2 ^ 20 + w % 2 ^ 14
get_psr-set_psr r w h = omega (
  arith,
  get_psr-eq-sum (set_psr r w) (set_psr-IsPsr r w h),
  set_psr_slices r w h,
  bit_of (set_psr r w).ec (w / 2 ^ 13) (set_psr_bits r w).0,
  bit_of (set_psr r w).ef (w / 2 ^ 12) (set_psr_bits r w).1,
  bit_of (set_psr r w).s (w / 2 ^ 7) (set_psr_bits r w).2,
  bit_of (set_psr r w).ps (w / 2 ^ 6) (set_psr_bits r w).3,
  bit_of (set_psr r w).et (w / 2 ^ 5) (set_psr_bits r w).4,
)

-- The carry that ADDX and SUBX use is the lowest bit of the condition codes.
pub get_carry_bit_lem : (r : SpecialReg) → IsPsr r → get_carry_bit r ≡ r.icc % 2
unfolding get_carry_bit
get_carry_bit_lem r v = ground (
  arith,
  bit_and_field 20 1 (get_psr r),
  get_psr-eq-sum r v,
  bit-lt r.ec,
  bit-lt r.ef,
  bit-lt r.s,
  bit-lt r.ps,
  bit-lt r.et,
)

-- The slices of the word that is read are the fields.
get_psr_slices :
    (r : SpecialReg)
    → IsPsr r
    → let w = get_psr r in
      (w < 2 ^ 32)
      × (w / 2 ^ 24 ≡ r.imp_ver)
      × (w / 2 ^ 20 % 2 ^ 4 ≡ r.icc)
      × (w / 2 ^ 13 % 2 ≡ of_bool r.ec)
      × (w / 2 ^ 12 % 2 ≡ of_bool r.ef)
      × (w / 2 ^ 8 % 2 ^ 4 ≡ r.pil)
      × (w / 2 ^ 7 % 2 ≡ of_bool r.s)
      × (w / 2 ^ 6 % 2 ≡ of_bool r.ps)
      × (w / 2 ^ 5 % 2 ≡ of_bool r.et)
      × (w % 2 ^ 5 ≡ r.curr_wp)
get_psr_slices r v =
    omega
      (arith, get_psr-eq-sum r v, bit-lt r.ec, bit-lt r.ef, bit-lt r.s, bit-lt r.ps, bit-lt r.et)

of_bool-eq-one : (b : Bool) (n : ℕ) → n ≡ of_bool b → (n == 1) ≡ b
of_bool-eq-one b n e = ground arith

-- With fields that fit their widths, writing back the word that was read changes nothing.
pub set_psr-get_psr : (r : SpecialReg) → IsPsr r → set_psr r (get_psr r) ≡ r
unfolding set_psr
set_psr-get_psr r v =
    let g = get_psr_slices r v in
    let f = set_psr_slices r (get_psr r) g.0 in
    let b = set_psr_bits r (get_psr r) in
    let bit = λ (c : Bool) (n : ℕ) (e : n ≡ of_bool c). of_bool-eq-one c n e in
    λ k. record r {
      imp_ver = (f.0 ∙ g.1) k;
      icc = (f.1 ∙ g.2) k;
      pil = (f.2 ∙ g.5) k;
      curr_wp = (f.3 ∙ g.9) k;
      ec = (b.0 ∙ bit r.ec _ g.3) k;
      ef = (b.1 ∙ bit r.ef _ g.4) k;
      s = (b.2 ∙ bit r.s _ g.6) k;
      ps = (b.3 ∙ bit r.ps _ g.7) k;
      et = (b.4 ∙ bit r.et _ g.8) k;
    }
