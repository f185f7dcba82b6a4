-- ===== src/Temporal/Floor.antt =====
-- DateTruncFixedUnit of temporal_ops.cpp, from the epoch on and before it.
use iceberg_cxx.Common.{
  ℕ, zero, suc, ◌+◌, ◌*◌, ◌/◌, ◌≡◌, ◌<◌, refl, sym, arith, true, false, ◌∙◌, ap,
}
use iceberg_cxx.Common.Int.{ℤ, pos, negsuc, ◌+ℤ◌, ◌-ℤ◌, ◌*ℤ◌, ◌≤ℤ◌, pos_part, neg_part, ltb_ℤ}
use native.Mathlib.Nat.{zero-div, mod-lt, div-add-mod'}
use iceberg_cxx.Common.Int.Wrap.{int64, int64-small}
use iceberg_cxx.Common.{◌^◌, ◌≤◌}
use iceberg_cxx.Temporal.Division.{trunc_div, neg}
use iceberg_cxx.Temporal.Truncate.{date_trunc_fixed_unit}

negsuc-add_one : (n : ℕ) → negsuc n +ℤ pos 1 ≡ neg n
unfolding ◌+ℤ◌
negsuc-add_one n = ground arith

trunc_div-neg : (n unit : ℕ) → trunc_div (neg n) unit ≡ neg (n / unit)
unfolding trunc_div
trunc_div-neg zero unit = rw (zero-div unit) refl
trunc_div-neg (suc n) unit = ground arith

neg-sub_one : (q : ℕ) → neg q -ℤ pos 1 ≡ neg (suc q)
unfolding ◌-ℤ◌
neg-sub_one zero = refl
neg-sub_one (suc q) = ground arith

pub pos-times : (q unit : ℕ) → pos q *ℤ pos unit ≡ pos (q * unit)
unfolding ◌*ℤ◌
pos-times q unit = ground arith

pub neg-times : (q unit : ℕ) → neg (suc q) *ℤ pos unit ≡ neg (suc q * unit)
unfolding ◌*ℤ◌
neg-times q unit = ground arith

ltb_ℤ-pos_zero : (n : ℕ) → ltb_ℤ (pos n) (pos 0) ≡ false
ltb_ℤ-pos_zero n = ground arith

ltb_ℤ-negsuc_zero : (n : ℕ) → ltb_ℤ (negsuc n) (pos 0) ≡ true
ltb_ℤ-negsuc_zero n = ground arith

pub neg_parts : (n : ℕ) → (pos_part (neg n) ≡ 0) × (neg_part (neg n) ≡ n)
neg_parts zero = (refl, refl)
neg_parts (suc n) = (ground arith, ground arith)

-- Rounding down at a number, and at a number below 0.
pub date_trunc_fixed_unit-pos :
    (unit n : ℕ) → n < 2 ^ 63 → date_trunc_fixed_unit unit (pos n) ≡ pos (n / unit * unit)
unfolding date_trunc_fixed_unit trunc_div
date_trunc_fixed_unit-pos unit n h =
    rw (date_trunc_fixed_unit, ltb_ℤ-pos_zero n)
      (ap int64 (pos-times (n / unit) unit)
        ∙ int64-small (pos (n / unit * unit)) (omega (arith, div-add-mod' n unit)))

pub date_trunc_fixed_unit-negsuc :
    (unit n : ℕ)
    → suc (n / unit) * unit < 2 ^ 63
    → date_trunc_fixed_unit unit (negsuc n) ≡ neg (suc (n / unit) * unit)
unfolding date_trunc_fixed_unit
date_trunc_fixed_unit-negsuc unit n h =
    rw (date_trunc_fixed_unit, ltb_ℤ-negsuc_zero n)
      (ap (λ z. int64 ((trunc_div z unit -ℤ pos 1) *ℤ pos unit)) (negsuc-add_one n)
        ∙ ap (λ z. int64 ((z -ℤ pos 1) *ℤ pos unit)) (trunc_div-neg n unit)
        ∙ ap (λ z. int64 (z *ℤ pos unit)) (neg-sub_one (n / unit))
        ∙ ap int64 (neg-times (n / unit) unit)
        ∙ int64-small (neg (suc (n / unit) * unit))
            (omega (arith, neg_parts (suc (n / unit) * unit))))

-- A multiple of a unit that is at most a unit before a time.
unfoldable pub IsStart : ℕ → ℤ → ℤ → Type 0
IsStart unit start time =
    ((q : ℤ) × (start ≡ q *ℤ pos unit))
    × (start ≤ℤ time)
    × (pos_part time + neg_part start < pos_part start + neg_part time + unit)

-- For a unit above 0 and a time of 64 bits that is at least a unit above the least one,
-- DateTruncFixedUnit answers a multiple of the unit that is at most the time and less than a unit
-- before it, also for a time before the epoch.
pub date_trunc_fixed_unit-IsStart :
    (unit : ℕ) (time : ℤ)
    → 0 < unit
    → pos_part time < 2 ^ 63
    → neg_part time + unit ≤ 2 ^ 63
    → IsStart unit (date_trunc_fixed_unit unit time) time
unfolding IsStart
date_trunc_fixed_unit-IsStart unit (pos n) h high low = rw (date_trunc_fixed_unit-pos unit n high) (
    (
      (pos (n / unit), sym (pos-times (n / unit) unit)),
      omega (arith, div-add-mod' n unit),
      omega (arith, div-add-mod' n unit, mod-lt n h),
    ))
date_trunc_fixed_unit-IsStart unit (negsuc n) h high low =
    rw (date_trunc_fixed_unit-negsuc unit n (omega (arith, div-add-mod' n unit))) (
      (
        (neg (suc (n / unit)), sym (neg-times (n / unit) unit)),
        omega (arith, neg_parts (suc (n / unit) * unit), div-add-mod' n unit, mod-lt n h),
        omega (arith, neg_parts (suc (n / unit) * unit), div-add-mod' n unit, mod-lt n h),
      ))
