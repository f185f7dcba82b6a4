-- ===== src/Temporal/Dates.antt =====
-- The cast of a timestamp to a date, and the product that the comparisons of dates and timestamps
-- in temporal_ops.cpp are made with.
use iceberg_cxx.Common.{
  ℕ, zero, suc, ◌+◌, ◌*◌, ◌/◌, ◌%◌, ◌≡◌, ◌≤◌, ◌<◌, refl, sym, arith, ◌∙◌, ◌^◌, not,
}
use iceberg_cxx.Common.Int.{ℤ, pos, negsuc, ◌+ℤ◌, ◌*ℤ◌, ltb_ℤ, abs, eqb_ℤ, leb_ℤ}
use iceberg_cxx.Temporal.Division.{trunc_div, neg, micros_in_day}
use iceberg_cxx.Common.Int.Wrap.{int64-small}
use iceberg_cxx.Temporal.Floor.{
  date_trunc_fixed_unit-pos, date_trunc_fixed_unit-negsuc, neg-times, pos-times,
}
use iceberg_cxx.Temporal.Truncate.{date_trunc_day}
use iceberg_cxx.Temporal.Compare.{
  cast_date_from_timestamp, date_micros, less_than_date_timestamp, greater_than_date_timestamp,
  equal_date_timestamp, not_equal_date_timestamp, less_than_or_equal_to_date_timestamp,
  greater_than_or_equal_to_date_timestamp,
}

-- From the epoch on, the date of a timestamp starts where DateTruncDay says.
cast_date_from_timestamp-pos :
    (n : ℕ)
    → n < 2 ^ 63
    → cast_date_from_timestamp (pos n) *ℤ pos micros_in_day ≡ date_trunc_day (pos n)
unfolding cast_date_from_timestamp trunc_div date_trunc_day
cast_date_from_timestamp-pos n h =
    pos-times (n / micros_in_day) micros_in_day ∙ sym (date_trunc_fixed_unit-pos micros_in_day n h)

suc_div : (n : ℕ) → 0 < suc n % micros_in_day → n / micros_in_day ≡ suc n / micros_in_day
suc_div n h = omega arith

neg_times_any : (q : ℕ) → neg q *ℤ pos micros_in_day ≡ neg (q * micros_in_day)
unfolding ◌*ℤ◌
neg_times_any zero = refl
neg_times_any (suc q) = neg-times q micros_in_day

neg_back : (q : ℕ) → neg (q * micros_in_day) ≡ neg (suc q * micros_in_day) +ℤ pos micros_in_day
unfolding ◌+ℤ◌
neg_back q = ground arith

-- Before the epoch, the date that CastDateFromTimestamp answers for a time that does not start a
-- day, and is at least a day above the least of 64 bits, begins one day after the day in which
-- DateTruncDay places the time.
pub cast_date_from_timestamp-before_epoch :
    (n : ℕ)
    → 0 < suc n % micros_in_day
    → suc n + micros_in_day ≤ 2 ^ 63
    → cast_date_from_timestamp (negsuc n) *ℤ pos micros_in_day
      ≡ date_trunc_day (negsuc n) +ℤ pos micros_in_day
unfolding cast_date_from_timestamp trunc_div date_trunc_day
cast_date_from_timestamp-before_epoch n h low =
    rw (date_trunc_fixed_unit-negsuc micros_in_day n (omega arith), suc_div n h)
      (neg_times_any (suc n / micros_in_day) ∙ neg_back (suc n / micros_in_day))

pub product_bound : (date : ℤ) → abs date ≤ 106751991 → abs (date *ℤ pos micros_in_day) < 2 ^ 63
unfolding ◌*ℤ◌
product_bound (pos n) h = ground arith
product_bound (negsuc n) h = ground arith

-- For a date of at most 106751991 days before or after the epoch the product does not overflow.
date_micros-exact : (date : ℤ) → abs date ≤ 106751991 → date_micros date ≡ date *ℤ pos micros_in_day
unfolding date_micros
date_micros-exact date h = int64-small (date *ℤ pos micros_in_day) (product_bound date h)

-- For a date of at most 106751991 days before or after the epoch the six comparisons of a date with
-- a timestamp are those of the date's first microsecond, in the integers, with the timestamp.
pub date_timestamp-comparisons :
    (date timestamp : ℤ)
    → abs date ≤ 106751991
    → let start = date *ℤ pos micros_in_day in
      (less_than_date_timestamp date timestamp ≡ ltb_ℤ start timestamp)
      × (less_than_or_equal_to_date_timestamp date timestamp ≡ leb_ℤ start timestamp)
      × (greater_than_date_timestamp date timestamp ≡ ltb_ℤ timestamp start)
      × (greater_than_or_equal_to_date_timestamp date timestamp ≡ leb_ℤ timestamp start)
      × (equal_date_timestamp date timestamp ≡ eqb_ℤ start timestamp)
      × (not_equal_date_timestamp date timestamp ≡ not (eqb_ℤ start timestamp))
unfolding less_than_date_timestamp less_than_or_equal_to_date_timestamp greater_than_date_timestamp
    greater_than_or_equal_to_date_timestamp equal_date_timestamp not_equal_date_timestamp
date_timestamp-comparisons date timestamp h =
    rw (date_micros-exact date h) (refl, refl, refl, refl, refl, refl)
