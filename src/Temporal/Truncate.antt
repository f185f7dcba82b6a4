-- ===== src/Temporal/Truncate.antt =====
-- The DateTrunc functions of temporal_ops.cpp.
use iceberg_cxx.Common.{ℕ, ◌-◌, ◌*◌, ◌/◌, ◌==◌, if◌then◌else◌}
use iceberg_cxx.Common.Int.{ℤ, pos, ◌+ℤ◌, ◌-ℤ◌, ◌*ℤ◌, ltb_ℤ}
use iceberg_cxx.Common.Int.Wrap.{int64}
use iceberg_cxx.Temporal.Division.{
  trunc_div, neg, micros_in_milli, micros_in_second, micros_in_minute, micros_in_hour,
  micros_in_day,
}
use iceberg_cxx.Temporal.TimePoint.{
  DateLibrary, tm_year, tm_mon, tm_mday, tm_wday, add_days, add_months, add_years,
  clear_time_of_day,
}

-- The product is the one step that can leave 64 bits: the sum is of a number below 0, and the
-- quotient less 1 is at least the time.
unfoldable pub date_trunc_fixed_unit : ℕ → ℤ → ℤ
unfolding trunc_div int64
date_trunc_fixed_unit unit timestamp_micros =
    if ltb_ℤ timestamp_micros (pos 0)
    then int64 ((trunc_div (timestamp_micros +ℤ pos 1) unit -ℤ pos 1) *ℤ pos unit)
    else int64 (trunc_div timestamp_micros unit *ℤ pos unit)

unfoldable pub date_trunc_day : ℤ → ℤ
unfolding date_trunc_fixed_unit
date_trunc_day timestamp_micros = date_trunc_fixed_unit micros_in_day timestamp_micros

unfoldable pub date_trunc_hour : ℤ → ℤ
unfolding date_trunc_fixed_unit
date_trunc_hour timestamp_micros = date_trunc_fixed_unit micros_in_hour timestamp_micros

unfoldable pub date_trunc_minute : ℤ → ℤ
unfolding date_trunc_fixed_unit
date_trunc_minute timestamp_micros = date_trunc_fixed_unit micros_in_minute timestamp_micros

unfoldable pub date_trunc_second : ℤ → ℤ
unfolding date_trunc_fixed_unit
date_trunc_second timestamp_micros = date_trunc_fixed_unit micros_in_second timestamp_micros

unfoldable pub date_trunc_milliseconds : ℤ → ℤ
unfolding date_trunc_fixed_unit
date_trunc_milliseconds timestamp_micros = date_trunc_fixed_unit micros_in_milli timestamp_micros

module _ (lib : DateLibrary) where
  unfoldable pub date_trunc_year_units : ℕ → ℕ → ℤ → ℤ
  unfolding trunc_div tm_year tm_mon tm_mday add_days add_months add_years clear_time_of_day
  date_trunc_year_units years_in_unit off_by tp =
      let year =
        trunc_div (pos 1900 +ℤ tm_year lib tp -ℤ pos off_by) years_in_unit *ℤ pos years_in_unit
        +ℤ pos off_by in
      let nyears_to_trunc = tm_year lib tp -ℤ (year -ℤ pos 1900) in
      let first_day = add_days lib tp (neg (tm_mday lib tp - 1)) in
      let first_month = add_months lib first_day (neg (tm_mon lib tp)) in
      clear_time_of_day lib (add_years lib first_month (pos 0 -ℤ nyears_to_trunc))

  unfoldable pub date_trunc_month_units : ℕ → ℤ → ℤ
  unfolding tm_mon tm_mday add_days add_months clear_time_of_day
  date_trunc_month_units months_in_unit tp =
      let nmonths_to_trunc = tm_mon lib tp - tm_mon lib tp / months_in_unit * months_in_unit in
      let first_day = add_days lib tp (neg (tm_mday lib tp - 1)) in
      clear_time_of_day lib (add_months lib first_day (neg nmonths_to_trunc))

  abbrev pub date_trunc_millennium : ℤ → ℤ
  date_trunc_millennium tp = date_trunc_year_units 1000 1 tp

  abbrev pub date_trunc_century : ℤ → ℤ
  date_trunc_century tp = date_trunc_year_units 100 1 tp

  abbrev pub date_trunc_decade : ℤ → ℤ
  date_trunc_decade tp = date_trunc_year_units 10 0 tp

  abbrev pub date_trunc_year : ℤ → ℤ
  date_trunc_year tp = date_trunc_month_units 12 tp

  abbrev pub date_trunc_quarter : ℤ → ℤ
  date_trunc_quarter tp = date_trunc_month_units 3 tp

  abbrev pub date_trunc_month : ℤ → ℤ
  date_trunc_month tp = date_trunc_month_units 1 tp

  unfoldable pub date_trunc_week : ℤ → ℤ
  unfolding tm_wday add_days clear_time_of_day
  date_trunc_week tp =
      let ndays_to_trunc = if tm_wday lib tp == 0 then 6 else tm_wday lib tp - 1 in
      clear_time_of_day lib (add_days lib tp (neg ndays_to_trunc))
