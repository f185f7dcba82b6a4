-- ===== src/Temporal/TimePoint.antt =====
-- EpochTimePointMicros (iceberg/filter/row_filter/extend_gandiva/epoch_time_point.h and .cpp). The
-- date library that it wraps is not part of the repository: its functions are parameters.
use iceberg_cxx.Common.{ℕ, ◌-◌, ◌/◌, ◌%◌, Bool, List, [], ◌∷◌, ltb, if◌then◌else◌, get_or}
use iceberg_cxx.Common.Int.{ℤ, pos, ◌+ℤ◌, ◌-ℤ◌, ◌*ℤ◌, pos_part}
use iceberg_cxx.Common.Int.Wrap.{int32, int64}
use iceberg_cxx.Temporal.Division.{
  micros_in_day, micros_in_hour, micros_in_minute, micros_in_second,
}
use iceberg_cxx.Temporal.Week.{Tm, is_leap_year}

pub record YearMonthDay : Type 0 where
  pub year : ℤ
  pub month : ℕ
  pub day : ℕ

-- `arrow_vendored::date`: the day of a time point, the date of a day, the day of a date, the day
-- of the week from Sunday, and the sum of a date and a number of months or years.
pub record DateLibrary : Type 0 where
  pub floor_days : ℤ → ℤ
  pub year_month_day : ℤ → YearMonthDay
  pub sys_days : YearMonthDay → ℤ
  pub weekday : ℤ → ℕ
  pub plus_months : YearMonthDay → ℤ → YearMonthDay
  pub plus_years : YearMonthDay → ℤ → YearMonthDay

abbrev days_in_a_month : Bool → List ℕ
days_in_a_month leap =
    31 ∷ (if leap then 29 else 28) ∷ 31 ∷ 30 ∷ 31 ∷ 30 ∷ 31 ∷ 31 ∷ 30 ∷ 31 ∷ 30 ∷ 31 ∷ []

unfoldable pub last_possible_day_in_month : ℤ → ℕ → ℕ
last_possible_day_in_month year month = get_or (days_in_a_month (is_leap_year year)) (month - 1) 0

unfoldable pub did_days_overflow : YearMonthDay → Bool
unfolding last_possible_day_in_month
did_days_overflow ymd = ltb (last_possible_day_in_month ymd.year ymd.month) ymd.day

-- A time point is its count of microseconds, of 64 bits, and a count of days is of 32.
module _ (lib : DateLibrary) where
  unfoldable pub year_month_day : ℤ → YearMonthDay
  year_month_day tp = lib.year_month_day (lib.floor_days tp)

  -- `TimeOfDay().to_duration()`.
  unfoldable pub time_of_day : ℤ → ℤ
  unfolding int64
  time_of_day tp = int64 (tp -ℤ int64 (lib.floor_days tp *ℤ pos micros_in_day))

  unfoldable pub tm_year : ℤ → ℤ
  unfolding year_month_day
  tm_year tp = (year_month_day tp).year -ℤ pos 1900

  unfoldable pub tm_mon : ℤ → ℕ
  unfolding year_month_day
  tm_mon tp = (year_month_day tp).month - 1

  unfoldable pub tm_mday : ℤ → ℕ
  unfolding year_month_day
  tm_mday tp = (year_month_day tp).day

  -- The first day of the year of a day is not after that day.
  unfoldable pub tm_yday : ℤ → ℕ
  unfolding year_month_day
  tm_yday tp =
      let first_day_in_year =
        lib.sys_days (record { year = (year_month_day tp).year; month = 1; day = 1 }) in
      pos_part (lib.floor_days tp -ℤ first_day_in_year)

  unfoldable pub tm_wday : ℤ → ℕ
  tm_wday tp = lib.weekday (lib.floor_days tp)

  unfoldable pub tm_hour : ℤ → ℕ
  unfolding time_of_day
  tm_hour tp = pos_part (time_of_day tp) / micros_in_hour

  unfoldable pub tm_min : ℤ → ℕ
  unfolding time_of_day
  tm_min tp = pos_part (time_of_day tp) % micros_in_hour / micros_in_minute

  unfoldable pub tm_sec : ℤ → ℕ
  unfolding time_of_day
  tm_sec tp = pos_part (time_of_day tp) % micros_in_minute / micros_in_second

  -- The fields that WeekOfYear asks for.
  unfoldable pub tm : ℤ → Tm
  unfolding tm_year tm_mon tm_mday tm_wday tm_yday
  tm tp = record {
    year = tm_year tp;
    mon = tm_mon tp;
    mday = tm_mday tp;
    wday = tm_wday tp;
    yday = tm_yday tp;
  }

  -- A time point from a date and the time of day of another.
  abbrev at_time_of : ℤ → ℤ → ℤ
  at_time_of days tp = int64 (int64 (days *ℤ pos micros_in_day) +ℤ time_of_day tp)

  unfoldable pub add_days : ℤ → ℤ → ℤ
  unfolding year_month_day time_of_day int64 int32
  add_days tp num_days = at_time_of (int32 (lib.sys_days (year_month_day tp) +ℤ num_days)) tp

  unfoldable pub add_months : ℤ → ℤ → ℤ
  unfolding add_days int64 did_days_overflow last_possible_day_in_month
  add_months tp num_months =
      let ymd = lib.plus_months (year_month_day tp) num_months in
      let moved = at_time_of (lib.sys_days ymd) tp in
      if did_days_overflow ymd
      then add_days moved (pos (last_possible_day_in_month ymd.year ymd.month) -ℤ pos ymd.day)
      else moved

  unfoldable pub add_years : ℤ → ℤ → ℤ
  unfolding year_month_day time_of_day int64
  add_years tp num_years =
      at_time_of (lib.sys_days (lib.plus_years (year_month_day tp) num_years)) tp

  unfoldable pub clear_time_of_day : ℤ → ℤ
  unfolding time_of_day int64
  clear_time_of_day tp = int64 (tp -ℤ time_of_day tp)
