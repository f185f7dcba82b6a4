-- ===== src/Temporal/Calendar.antt =====
-- WeekOfYear of temporal_ops.cpp beside the week of ISO 8601.
use iceberg_cxx.Common.{
  ℕ, suc, ◌+◌, ◌-◌, ◌/◌, ◌%◌, ◌≡◌, ◌≤◌, ◌<◌, refl, Bool, true, false, ltb, leb, ◌==◌, if◌then◌else◌,
  arith, inl, inr, ◌&&◌, Bool-cases,
}
use iceberg_cxx.Common.Int.{pos, ◌+ℤ◌}
use iceberg_cxx.Temporal.Week.{
  Tm, is_leap_year, jan1_wday, week_of_current_year, get_jan_week_of_year, get_dec_week_of_year,
  week_of_year,
}

abbrev days_in_year : Bool → ℕ
days_in_year leap = if leap then 366 else 365

-- The week of ISO 8601 is the week of the year in which its Thursday stands. The Thursday is
-- given as a day of this year, or of the year before, with their lengths.
abbrev pub iso_week_in : (previous this wday yday : ℕ) → ℕ
iso_week_in previous this wday yday =
    let from_monday = (wday + 6) % 7 in
    if ltb (yday + 3) from_monday
    then (previous + yday + 3 - from_monday) / 7 + 1
    else if ltb (yday + 3 - from_monday) this
    then (yday + 3 - from_monday) / 7 + 1
    else (yday + 3 - from_monday - this) / 7 + 1

unfoldable pub iso_week : Tm → ℕ
iso_week tp =
    iso_week_in (days_in_year (is_leap_year (tp.year +ℤ pos 1899)))
      (days_in_year (is_leap_year (tp.year +ℤ pos 1900))) tp.wday tp.yday

-- The first and the last days of a year of `this` days are in January and in December.
abbrev HasFields : ℕ → Tm → Type 0
HasFields this tp =
    (tp.wday < 7)
    × (tp.yday < this)
    × (tp.yday < 3 → tp.mday ≡ suc tp.yday)
    × (this ≤ tp.yday + 3 → tp.mon ≡ 11)
    × (tp.mon ≡ 11 → tp.mday + this ≡ tp.yday + 32)

unfoldable pub IsTm : Tm → Type 0
IsTm tp = HasFields (days_in_year (is_leap_year (tp.year +ℤ pos 1900))) tp

week_of_current_year-iso :
    (tp : Tm) (previous this : ℕ)
    → tp.wday < 7
    → 3 ≤ tp.yday
    → ltb (tp.yday + 3) ((tp.wday + 6) % 7) ≡ false
    → ltb (tp.yday + 3 - (tp.wday + 6) % 7) this ≡ true
    → week_of_current_year tp ≡ iso_week_in previous this tp.wday tp.yday
unfolding week_of_current_year jan1_wday
week_of_current_year-iso tp previous this w y h k = ground arith

-- The first days of January.
get_jan_week_of_year-iso :
    (tp : Tm) (previous_leap : Bool) (this : ℕ)
    → is_leap_year (tp.year +ℤ pos 1899) ≡ previous_leap
    → 365 ≤ this
    → tp.wday < 7
    → tp.yday < 3
    → tp.mday ≡ suc tp.yday
    → get_jan_week_of_year tp ≡ iso_week_in (days_in_year previous_leap) this tp.wday tp.yday
unfolding get_jan_week_of_year jan1_wday
get_jan_week_of_year-iso tp true this e l w y m = rw e (ground arith)
get_jan_week_of_year-iso tp false this e l w y m = rw e (ground arith)

-- The last days of December.
get_dec_week_of_year-iso :
    (tp : Tm) (previous : ℕ) (leap : Bool)
    → tp.wday < 7
    → tp.yday < days_in_year leap
    → 29 ≤ tp.mday
    → tp.mday + days_in_year leap ≡ tp.yday + 32
    → get_dec_week_of_year tp ≡ iso_week_in previous (days_in_year leap) tp.wday tp.yday
unfolding get_dec_week_of_year week_of_current_year jan1_wday
get_dec_week_of_year-iso tp previous true w y m e = ground arith
get_dec_week_of_year-iso tp previous false w y m e = ground arith

at_least_365 : (leap : Bool) → 365 ≤ days_in_year leap
at_least_365 true = omega arith
at_least_365 false = omega arith

in_december : (tp : Tm) → (tp.mon == 11) && leb 29 tp.mday ≡ true → (tp.mon ≡ 11) × (29 ≤ tp.mday)
in_december tp d = (ground arith, ground arith)

-- Other days have their Thursday in this year.
before_the_last_days :
    (tp : Tm) (this : ℕ)
    → 365 ≤ this
    → (this ≤ tp.yday + 3 → tp.mon ≡ 11)
    → (tp.mon ≡ 11 → tp.mday + this ≡ tp.yday + 32)
    → (tp.mon == 11) && leb 29 tp.mday ≡ false
    → ltb (tp.yday + 3 - (tp.wday + 6) % 7) this ≡ true
before_the_last_days tp this l december last d = ground arith

-- On the fields of a day, given the lengths of its year and of the year before.
week_of_year-iso_week_in :
    (tp : Tm) (leap : Bool)
    → HasFields (days_in_year leap) tp
    → week_of_year tp
      ≡ iso_week_in
          (days_in_year (is_leap_year (tp.year +ℤ pos 1899)))
          (days_in_year leap)
          tp.wday
          tp.yday
unfolding week_of_year
week_of_year-iso_week_in tp leap (w, y, january, december, last) =
    let length = days_in_year leap in
    elim (Bool-cases (ltb tp.yday 3)) [
      | inl e ↦ rw e (
          get_jan_week_of_year-iso tp (is_leap_year (tp.year +ℤ pos 1899)) length refl
            (at_least_365 leap) w (ground arith) (january (ground arith)))
      | inr e ↦ elim (Bool-cases ((tp.mon == 11) && leb 29 tp.mday)) [
        | inl d ↦
            rw (e, d)
              (get_dec_week_of_year-iso tp (days_in_year (is_leap_year (tp.year +ℤ pos 1899))) leap
                w y (in_december tp d).1 (last (in_december tp d).0))
        | inr d ↦
            rw (e, d)
              (week_of_current_year-iso tp (days_in_year (is_leap_year (tp.year +ℤ pos 1899)))
                length w (ground arith) (ground arith)
                (before_the_last_days tp length (at_least_365 leap) december last d))
      ]
    ]

-- The week of a day of a calendar is the week of ISO 8601: the number, in its year, of the
-- Thursday of the days from Monday to Sunday around it.
pub week_of_year-iso_week : (tp : Tm) → IsTm tp → week_of_year tp ≡ iso_week tp
unfolding iso_week IsTm
week_of_year-iso_week tp h = week_of_year-iso_week_in tp (is_leap_year (tp.year +ℤ pos 1900)) h
