-- ===== src/Temporal/Examples.antt =====
-- Tests of dates and timestamps (temporal_ops.cpp), and the theorems at concrete inputs.
use iceberg_cxx.Common.{ℕ, ◌^◌, ◌-◌, ◌+◌, ◌*◌, ◌/◌, ◌%◌, ◌<◌, ◌≡◌, refl, true, not, arith}
use iceberg_cxx.Common.Int.{
  ℤ, pos_part, neg_part, ◌≤ℤ◌, pos, negsuc, ltb_ℤ, leb_ℤ, eqb_ℤ, ◌*ℤ◌, ◌+ℤ◌, ◌-ℤ◌,
}
use iceberg_cxx.Temporal.Division.{neg, micros_in_hour, micros_in_day}
use iceberg_cxx.Temporal.TimePoint.{DateLibrary}
use iceberg_cxx.Temporal.Weeks.{DateLaws, day_start, date_trunc_week-day_start}
use iceberg_cxx.Temporal.Week.{Tm, week_of_year, is_leap_year}
use iceberg_cxx.Temporal.Calendar.{IsTm, iso_week, week_of_year-iso_week}
use iceberg_cxx.Temporal.Compare.{
  cast_date_from_timestamp, not_equal_date_timestamp, less_than_or_equal_to_date_timestamp,
  greater_than_or_equal_to_date_timestamp, less_than_date_timestamp, equal_date_timestamp,
  greater_than_date_timestamp,
}
use iceberg_cxx.Temporal.Extract.{century, extract_second}
use iceberg_cxx.Temporal.Truncate.{date_trunc_fixed_unit, date_trunc_day, date_trunc_week}
use iceberg_cxx.Temporal.Floor.{IsStart, date_trunc_fixed_unit-IsStart}
use iceberg_cxx.Temporal.Dates.{cast_date_from_timestamp-before_epoch, date_timestamp-comparisons}

-- Sunday, 1 January 2023, is in the last week of 2022.
abbrev new_year : Tm
new_year = record { year = pos 123; mon = 0; mday = 1; wday = 0; yday = 0 }

week_of_new_year : week_of_year new_year ≡ 52
unfolding week_of_year
week_of_new_year = refl

-- Tuesday, 31 December 2024, is in the first week of 2025.
abbrev new_years_eve : Tm
new_years_eve = record { year = pos 124; mon = 11; mday = 31; wday = 2; yday = 365 }

week_of_new_years_eve : week_of_year new_years_eve ≡ 1
unfolding week_of_year
week_of_new_years_eve = refl

new_years_eve-IsTm : IsTm new_years_eve
unfolding IsTm is_leap_year ◌+ℤ◌
new_years_eve-IsTm = (omega arith, omega arith, λ h. omega arith, λ h. refl, λ h. refl)

week_of_year-iso_week_example : week_of_year new_years_eve ≡ iso_week new_years_eve
week_of_year-iso_week_example = week_of_year-iso_week new_years_eve new_years_eve-IsTm

-- The twentieth century ends with the year 2000, and no year 0 stands between the first two.
centuries :
    (century (pos 2000) ≡ pos 20) × (century (pos 2001) ≡ pos 21) × (century (pos 0) ≡ negsuc 0)
unfolding century ◌+ℤ◌ ◌-ℤ◌
centuries = (refl, refl, refl)

second_before_epoch : extract_second (neg 500000) ≡ (59, 500000)
unfolding extract_second ◌+ℤ◌
second_before_epoch = refl

date_trunc_fixed_unit-IsStart_example :
    IsStart micros_in_hour (date_trunc_fixed_unit micros_in_hour (negsuc 0)) (negsuc 0)
date_trunc_fixed_unit-IsStart_example =
    date_trunc_fixed_unit-IsStart micros_in_hour (negsuc 0) (omega arith) (omega arith)
      (omega arith)

cast_date_from_timestamp-before_epoch_example :
    cast_date_from_timestamp (negsuc 0) *ℤ pos micros_in_day
    ≡ date_trunc_day (negsuc 0) +ℤ pos micros_in_day
cast_date_from_timestamp-before_epoch_example =
    cast_date_from_timestamp-before_epoch 0 (omega arith) (omega arith)

-- The microsecond before the epoch is in the day -1, and its date is the day 0.
date_before_epoch :
    (cast_date_from_timestamp (negsuc 0) ≡ pos 0) × (date_trunc_day (negsuc 0) ≡ neg micros_in_day)
unfolding cast_date_from_timestamp date_trunc_day ◌*ℤ◌ ◌-ℤ◌ ◌+ℤ◌
date_before_epoch = (refl, refl)

-- The least time, which stands for -infinity: the start of its day is not one of 64 bits, and what
-- DateTruncDay answers is in the far future.
day_of_least_time : date_trunc_day (negsuc (2 ^ 63 - 1)) ≡ pos 9223371964909551616
unfolding date_trunc_day ◌*ℤ◌ ◌-ℤ◌ ◌+ℤ◌
day_of_least_time = refl

date_timestamp-comparisons_example :
    let start = neg 719162 *ℤ pos micros_in_day in
    (less_than_date_timestamp (neg 719162) (pos 5) ≡ ltb_ℤ start (pos 5))
    × (less_than_or_equal_to_date_timestamp (neg 719162) (pos 5) ≡ leb_ℤ start (pos 5))
    × (greater_than_date_timestamp (neg 719162) (pos 5) ≡ ltb_ℤ (pos 5) start)
    × (greater_than_or_equal_to_date_timestamp (neg 719162) (pos 5) ≡ leb_ℤ (pos 5) start)
    × (equal_date_timestamp (neg 719162) (pos 5) ≡ eqb_ℤ start (pos 5))
    × (not_equal_date_timestamp (neg 719162) (pos 5) ≡ not (eqb_ℤ start (pos 5)))
date_timestamp-comparisons_example = date_timestamp-comparisons (neg 719162) (pos 5) (omega arith)

-- One day further the product wraps around, and a date far in the future is before the epoch.
date_overflows : less_than_date_timestamp (pos 106751992) (pos 0) ≡ true
unfolding less_than_date_timestamp ◌*ℤ◌
date_overflows = refl

-- A date library that keeps a day in the year of its date. The epoch is a Thursday.
abbrev floor_day : ℤ → ℤ
floor_day (pos n) = pos (n / micros_in_day)
floor_day (negsuc n) = negsuc (n / micros_in_day)

abbrev week_day : ℤ → ℕ
week_day (pos n) = (n + 4) % 7
week_day (negsuc n) = (3 + 6 * n) % 7

abbrev day_library : DateLibrary
day_library = record {
  floor_days = floor_day;
  year_month_day = λ day. record { year = day; month = 1; day = 1 };
  sys_days = λ date. date.year;
  weekday = week_day;
  plus_months = λ date n. date;
  plus_years = λ date n. date;
}

floor_day_le : (tp : ℤ) → floor_day tp *ℤ pos micros_in_day ≤ℤ tp
unfolding ◌*ℤ◌
floor_day_le (pos n) = ground arith
floor_day_le (negsuc n) = ground arith

floor_day_lt :
    (tp : ℤ)
    → pos_part tp + neg_part (floor_day tp *ℤ pos micros_in_day)
      < pos_part (floor_day tp *ℤ pos micros_in_day) + neg_part tp + micros_in_day
unfolding ◌*ℤ◌
floor_day_lt (pos n) = ground arith
floor_day_lt (negsuc n) = ground arith

floor_day_at :
    (day : ℤ) (n : ℕ) → n < micros_in_day → floor_day (day *ℤ pos micros_in_day +ℤ pos n) ≡ day
unfolding ◌*ℤ◌ ◌+ℤ◌
floor_day_at (pos d) n h = ground arith
floor_day_at (negsuc d) n h = ground arith

week_day_lt : (day : ℤ) → week_day day < 7
week_day_lt (pos n) = omega arith
week_day_lt (negsuc n) = omega arith

week_day_back : (day : ℤ) (n : ℕ) → week_day (day +ℤ neg n) ≡ (week_day day + 6 * n) % 7
unfolding ◌+ℤ◌
week_day_back (pos d) n = ground arith
week_day_back (negsuc d) n = ground arith

day_library-DateLaws : DateLaws day_library
day_library-DateLaws = record {
  floor_days_le = λ tp h. floor_day_le tp;
  floor_days_lt = λ tp h. floor_day_lt tp;
  floor_days_at = λ day n l h. floor_day_at day n l;
  sys_days_back = λ day h. refl;
  weekday_lt = λ day h. week_day_lt day;
  weekday_back = λ day n h k. week_day_back day n;
}

date_trunc_week-day_start_example :
    (date_trunc_week day_library (negsuc 0) ≡ day_start (negsuc 0 +ℤ neg 2))
    × (week_day (negsuc 0 +ℤ neg 2) ≡ 1)
    × (2 < 7)
date_trunc_week-day_start_example =
    date_trunc_week-day_start day_library day_library-DateLaws (negsuc 0) (omega arith)
      (omega arith, omega arith)
