-- ===== src/Temporal/Weeks.antt =====
-- DateTruncWeek of temporal_ops.cpp, with the laws of the date library as a hypothesis.
use iceberg_cxx.Common.{
  ℕ, sym, ◌^◌, ◌≤◌, ◌+◌, ◌-◌, ◌*◌, ◌%◌, ◌≡◌, ◌<◌, ap, ◌∙◌, arith, ◌==◌, if◌then◌else◌,
}
use iceberg_cxx.Common.Int.{
  ℤ, pos, ◌+ℤ◌, ◌-ℤ◌, ◌*ℤ◌, ◌≤ℤ◌, pos_part, neg_part, negsuc, abs, -ℤ_parts, eq_of_parts,
}
use mathlib.Core.Path.{subst}
use iceberg_cxx.Common.Int.Wrap.{int32, int64, int32-small, int64-small}
use iceberg_cxx.Temporal.Dates.{product_bound}
use iceberg_cxx.Temporal.Division.{neg, micros_in_day}
use iceberg_cxx.Temporal.TimePoint.{
  DateLibrary, year_month_day, time_of_day, tm_wday, add_days, clear_time_of_day,
}
use iceberg_cxx.Temporal.Truncate.{date_trunc_week}

-- The first microsecond of a day.
abbrev pub day_start : ℤ → ℤ
day_start day = day *ℤ pos micros_in_day

-- The days of the years from -32767 to 32767, which the library's dates can name.
abbrev pub InCalendar : ℤ → Type 0
InCalendar day = (neg_part day ≤ 12687428) × (pos_part day ≤ 11248737)

-- What the date library documents of the functions that the code relies on: `floor` rounds a count
-- of microseconds down to days, the day of the date of a day is the day, and the days of the week
-- follow each other.
pub record DateLaws (lib : DateLibrary) : Type 0 where
  pub floor_days_le : (tp : ℤ) → abs tp < 2 ^ 63 → day_start (lib.floor_days tp) ≤ℤ tp
  pub floor_days_lt :
      (tp : ℤ)
      → abs tp < 2 ^ 63
      → pos_part tp + neg_part (day_start (lib.floor_days tp))
        < pos_part (day_start (lib.floor_days tp)) + neg_part tp + micros_in_day
  pub floor_days_at :
      (day : ℤ) (n : ℕ)
      → n < micros_in_day
      → abs (day_start day +ℤ pos n) < 2 ^ 63
      → lib.floor_days (day_start day +ℤ pos n) ≡ day
  pub sys_days_back : (day : ℤ) → InCalendar day → lib.sys_days (lib.year_month_day day) ≡ day
  pub weekday_lt : (day : ℤ) → InCalendar day → lib.weekday day < 7
  pub weekday_back :
      (day : ℤ) (n : ℕ)
      → InCalendar day
      → n < 7
      → lib.weekday (day +ℤ neg n) ≡ (lib.weekday day + 6 * n) % 7

sub_sub : (a b : ℤ) → a -ℤ (a -ℤ b) ≡ b
sub_sub a b = eq_of_parts _ _ (omega (arith, -ℤ_parts a (a -ℤ b), -ℤ_parts a b))

sum_bound : (a : ℤ) (n : ℕ) → abs (a +ℤ pos n) ≤ abs a + n
unfolding ◌+ℤ◌
sum_bound a n = ground arith

sub_small :
    (a b : ℤ) (m : ℕ)
    → b ≤ℤ a
    → pos_part a + neg_part b < pos_part b + neg_part a + m
    → (n : ℕ) × (a -ℤ b ≡ pos n) × (n < m)
sub_small a b m h k =
    let n = pos_part a + neg_part b - (pos_part b + neg_part a) in
    (n, eq_of_parts _ _ (omega (arith, -ℤ_parts a b)), omega arith)

monday_back : (w : ℕ) → w < 7 → (if w == 0 then 6 else w - 1) ≡ (w + 6) % 7
monday_back w h = ground arith

monday : (w : ℕ) → w < 7 → (w + 6 * ((w + 6) % 7)) % 7 ≡ 1
monday w h = ground arith

-- Days around the calendar, in microseconds.
abbrev Near : ℤ → Type 0
Near day = abs day ≤ 12687434

InCalendar-Near : (day : ℤ) → InCalendar day → Near day
InCalendar-Near day h = ground arith

back-Near : (day : ℤ) (n : ℕ) → InCalendar day → n < 7 → Near (day +ℤ neg n)
unfolding ◌+ℤ◌
back-Near day n h k = ground arith

day_small : (day : ℤ) → Near day → int32 day ≡ day
day_small day h = int32-small day (omega arith)

start_small : (day : ℤ) → Near day → int64 (day_start day) ≡ day_start day
start_small day h = int64-small (day_start day) (product_bound day (omega arith))

day_start_bound : (day : ℤ) → Near day → abs (day_start day) < 2 ^ 62
unfolding ◌*ℤ◌
day_start_bound (pos n) h = ground arith
day_start_bound (negsuc n) h = ground arith

time_small :
    (day : ℤ) (n : ℕ) → Near day → n < micros_in_day → abs (day_start day +ℤ pos n) < 2 ^ 63
time_small day n h k = omega (arith, day_start_bound day h, sum_bound (day_start day) n)

module _ (lib : DateLibrary) (laws : DateLaws lib) where
  open laws use {
    floor_days_le, floor_days_lt, floor_days_at, sys_days_back, weekday_lt, weekday_back,
  }

  -- The time of day is what a time point is after the start of its day.
  time_of_day-after :
      (tp : ℤ)
      → abs tp < 2 ^ 63
      → Near (lib.floor_days tp)
      → (n : ℕ) × (time_of_day lib tp ≡ pos n)
        × (tp -ℤ day_start (lib.floor_days tp) ≡ pos n)
        × (n < micros_in_day)
  unfolding time_of_day
  time_of_day-after tp h near =
      let (n, e, l) =
        sub_small tp (day_start (lib.floor_days tp)) micros_in_day (floor_days_le tp h)
          (floor_days_lt tp h) in
      (n, rw (start_small (lib.floor_days tp) near, e) (int64-small (pos n) (omega arith)), e, l)

  clear_time_of_day-day_start :
      (tp : ℤ)
      → abs tp < 2 ^ 63
      → Near (lib.floor_days tp)
      → clear_time_of_day lib tp ≡ day_start (lib.floor_days tp)
  unfolding clear_time_of_day
  clear_time_of_day-day_start tp h near =
      let (n, e, after, l) = time_of_day-after tp h near in
      rw (clear_time_of_day, e, sym after)
        (ap int64 (sub_sub tp (day_start (lib.floor_days tp)))
          ∙ start_small (lib.floor_days tp) near)

  -- The start of the day some days before the day of a time point.
  cleared_back :
      (tp : ℤ) (back : ℕ)
      → abs tp < 2 ^ 63
      → InCalendar (lib.floor_days tp)
      → back < 7
      → clear_time_of_day lib (add_days lib tp (neg back))
        ≡ day_start (lib.floor_days tp +ℤ neg back)
  unfolding add_days year_month_day
  cleared_back tp back h c k =
      let day = lib.floor_days tp +ℤ neg back in
      let near : Near day = back-Near (lib.floor_days tp) back c k in
      let (n, e, _, l) = time_of_day-after tp h (InCalendar-Near (lib.floor_days tp) c) in
      let small : abs (day_start day +ℤ pos n) < 2 ^ 63 = time_small day n near l in
      let moved : add_days lib tp (neg back) ≡ day_start day +ℤ pos n =
        rw
          (
            add_days,
            sys_days_back (lib.floor_days tp) c,
            day_small day near,
            start_small day near,
            e,
          )
          (int64-small (day_start day +ℤ pos n) small) in
      let on_day : lib.floor_days (day_start day +ℤ pos n) ≡ day = floor_days_at day n l small in
      ap (clear_time_of_day lib) moved
      ∙ clear_time_of_day-day_start (day_start day +ℤ pos n) small (subst Near (sym on_day) near)
      ∙ ap day_start on_day

  -- With a date library that keeps its laws, DateTruncWeek answers the first microsecond of a Monday,
  -- that of the day of the time or of one of the six days before it, for a time of 64 bits, not the
  -- least of them, whose day is in the years from -32767 to 32767.
  pub date_trunc_week-day_start :
      (tp : ℤ)
      → abs tp < 2 ^ 63
      → InCalendar (lib.floor_days tp)
      → let days = (lib.weekday (lib.floor_days tp) + 6) % 7 in
        (date_trunc_week lib tp ≡ day_start (lib.floor_days tp +ℤ neg days))
        × (lib.weekday (lib.floor_days tp +ℤ neg days) ≡ 1)
        × (days < 7)
  unfolding date_trunc_week tm_wday
  date_trunc_week-day_start tp h c =
      let w = lib.weekday (lib.floor_days tp) in
      let m = monday_back w (weekday_lt (lib.floor_days tp) c) in
      (
        ap (λ k. clear_time_of_day lib (add_days lib tp (neg k))) m
            ∙ cleared_back tp ((w + 6) % 7) h c (omega arith),
        weekday_back (lib.floor_days tp) ((w + 6) % 7) c (omega arith)
            ∙ monday w (weekday_lt (lib.floor_days tp) c),
        omega arith,
      )
