-- ===== src/Temporal/Week.antt =====
-- The number of the week: WeekOfYear of temporal_ops.cpp on the fields of a time point.
use iceberg_cxx.Common.{
  ℕ, ◌+◌, ◌-◌, ◌/◌, ◌%◌, Bool, true, false, ◌&&◌, ltb, leb, ◌==◌, if◌then◌else◌,
}
use iceberg_cxx.Common.Int.{ℤ, pos, ◌+ℤ◌, abs}

-- What a time point answers: years from 1900, months and days of the year from 0, days of the
-- month from 1, days of the week from Sunday.
pub record Tm : Type 0 where
  pub year : ℤ
  pub mon : ℕ
  pub mday : ℕ
  pub wday : ℕ
  pub yday : ℕ

unfoldable pub is_leap_year : ℤ → Bool
is_leap_year yy =
    if (abs yy % 4) == 0
    then (if (abs yy % 400) == 0 then true else if (abs yy % 100) == 0 then false else true)
    else false

unfoldable pub jan1_wday : Tm → ℕ
jan1_wday tp = (tp.wday + 7 - tp.yday % 7) % 7

-- A `switch`. A difference below 0 gives 0 here and, after `/ 7`, in the code too.
unfoldable pub week_of_current_year : Tm → ℕ
unfolding jan1_wday
week_of_current_year tp =
    let jan1 = jan1_wday tp in
    if jan1 == 0
    then (tp.yday - 1) / 7 + 1
    else if leb jan1 4
    then (tp.yday + jan1 - 1) / 7 + 1
    else if leb jan1 6
    then (tp.yday - (8 - jan1)) / 7 + 1
    else 0

unfoldable pub get_jan_week_of_year : Tm → ℕ
unfolding jan1_wday is_leap_year
get_jan_week_of_year tp =
    let jan1 = jan1_wday tp in
    if leb 1 jan1 && leb jan1 4
    then 1
    else if jan1 == 5
    then 53
    else if jan1 == 0
    then (if ltb 1 tp.mday then 1 else 52)
    else if tp.mday == 3
    then 1
    else if is_leap_year (tp.year +ℤ pos 1899)
    then 53
    else 52

unfoldable pub get_dec_week_of_year : Tm → ℕ
unfolding week_of_current_year
get_dec_week_of_year tp =
    let next_jan1 = (tp.wday + (31 - tp.mday) + 1) % 7 in
    let current = week_of_current_year tp in
    if next_jan1 == 4
    then 1
    else if next_jan1 == 3
    then (if tp.mday == 29 then current else 1)
    else if next_jan1 == 2
    then (if tp.mday == 31 then 1 else current)
    else current

unfoldable pub week_of_year : Tm → ℕ
unfolding get_jan_week_of_year get_dec_week_of_year week_of_current_year
week_of_year tp =
    if ltb tp.yday 3
    then get_jan_week_of_year tp
    else if (tp.mon == 11) && leb 29 tp.mday
    then get_dec_week_of_year tp
    else week_of_current_year tp
