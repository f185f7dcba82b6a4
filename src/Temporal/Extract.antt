-- ===== src/Temporal/Extract.antt =====
-- The Extract functions of temporal_ops.cpp. Their results are whole numbers that a double holds;
-- a sum with a fraction is given by its whole part and its fraction.
use iceberg_cxx.Common.{ℕ, ◌+◌, ◌-◌, ◌*◌, ◌/◌, ◌%◌, if◌then◌else◌}
use iceberg_cxx.Common.Int.{ℤ, pos, ◌+ℤ◌, ◌-ℤ◌, ltb_ℤ, pos_part}
use iceberg_cxx.Temporal.Division.{trunc_div, trunc_mod, micros_in_minute, micros_in_second}
use iceberg_cxx.Temporal.Week.{week_of_year}
use iceberg_cxx.Temporal.TimePoint.{DateLibrary, year_month_day, tm, tm_mday, tm_hour, tm_min}

abbrev negated : ℤ → ℤ
negated z = pos 0 -ℤ z

-- The three functions on the year.
unfoldable pub millennium : ℤ → ℤ
unfolding trunc_div
millennium year =
    if ltb_ℤ (pos 0) year
    then trunc_div (year +ℤ pos 999) 1000
    else negated (trunc_div (pos 999 -ℤ (year -ℤ pos 1)) 1000)

unfoldable pub century : ℤ → ℤ
unfolding trunc_div
century year =
    if ltb_ℤ (pos 0) year
    then trunc_div (year +ℤ pos 99) 100
    else negated (trunc_div (pos 99 -ℤ (year -ℤ pos 1)) 100)

unfoldable pub decade : ℤ → ℤ
unfolding trunc_div
decade year =
    if ltb_ℤ (pos 0) year
    then trunc_div year 10
    else negated (trunc_div (pos 8 -ℤ (year -ℤ pos 1)) 10)

-- Whole seconds and the microseconds over, after the minute.
unfoldable pub seconds_and_micros : ℤ → ℕ × ℕ
unfolding trunc_mod
seconds_and_micros timestamp_micros =
    let r = trunc_mod timestamp_micros micros_in_minute in
    let micros = pos_part (if ltb_ℤ r (pos 0) then r +ℤ pos micros_in_minute else r) in
    (micros / micros_in_second, micros % micros_in_second)

-- `sec + fsec / 1'000'000.0`.
unfoldable pub extract_second : ℤ → ℕ × ℕ
unfolding seconds_and_micros
extract_second timestamp_micros = seconds_and_micros timestamp_micros

-- `sec * 1'000.0 + fsec / 1'000.0`: milliseconds, and the microseconds over.
unfoldable pub extract_milliseconds : ℤ → ℕ × ℕ
unfolding seconds_and_micros
extract_milliseconds timestamp_micros =
    let (sec, fsec) = seconds_and_micros timestamp_micros in (sec * 1000 + fsec / 1000, fsec % 1000)

unfoldable pub extract_microseconds : ℤ → ℕ
unfolding seconds_and_micros
extract_microseconds timestamp_micros =
    let (sec, fsec) = seconds_and_micros timestamp_micros in sec * 1000000 + fsec

module _ (lib : DateLibrary) where
  unfoldable pub extract_millennium : ℤ → ℤ
  unfolding millennium year_month_day
  extract_millennium timestamp_micros = millennium (year_month_day lib timestamp_micros).year

  unfoldable pub extract_century : ℤ → ℤ
  unfolding century year_month_day
  extract_century timestamp_micros = century (year_month_day lib timestamp_micros).year

  unfoldable pub extract_decade : ℤ → ℤ
  unfolding decade year_month_day
  extract_decade timestamp_micros = decade (year_month_day lib timestamp_micros).year

  unfoldable pub extract_year : ℤ → ℤ
  unfolding year_month_day
  extract_year timestamp_micros =
      let year = (year_month_day lib timestamp_micros).year in
      if ltb_ℤ (pos 0) year then year else year -ℤ pos 1

  unfoldable pub extract_quarter : ℤ → ℕ
  unfolding year_month_day
  extract_quarter timestamp_micros = ((year_month_day lib timestamp_micros).month - 1) / 3 + 1

  unfoldable pub extract_month : ℤ → ℕ
  unfolding year_month_day
  extract_month timestamp_micros = (year_month_day lib timestamp_micros).month

  unfoldable pub extract_week : ℤ → ℕ
  unfolding week_of_year tm
  extract_week timestamp_micros = week_of_year (tm lib timestamp_micros)

  unfoldable pub extract_day : ℤ → ℕ
  unfolding tm_mday
  extract_day timestamp_micros = tm_mday lib timestamp_micros

  unfoldable pub extract_hour : ℤ → ℕ
  unfolding tm_hour
  extract_hour timestamp_micros = tm_hour lib timestamp_micros

  unfoldable pub extract_minute : ℤ → ℕ
  unfolding tm_min
  extract_minute timestamp_micros = tm_min lib timestamp_micros
