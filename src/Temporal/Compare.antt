-- ===== src/Temporal/Compare.antt =====
-- Casts, differences and comparisons of dates and timestamps in temporal_ops.cpp.
use iceberg_cxx.Common.{Bool, not}
use iceberg_cxx.Common.Int.{ℤ, pos, ◌+ℤ◌, ◌-ℤ◌, ◌*ℤ◌, ltb_ℤ, leb_ℤ, eqb_ℤ}
use iceberg_cxx.Temporal.Division.{trunc_div, micros_in_day}
use iceberg_cxx.Common.Int.Wrap.{int32, int64}

abbrev pub is_null_timestamp : ℤ → Bool → Bool
is_null_timestamp value is_valid = not is_valid

abbrev pub is_not_null_timestamp : ℤ → Bool → Bool
is_not_null_timestamp value is_valid = is_valid

abbrev pub cast_timestamp : ℤ → ℤ
cast_timestamp value = value

unfoldable pub cast_timestamp_from_timestamptz : ℤ → ℤ → ℤ
unfolding int64
cast_timestamp_from_timestamptz timestamp shift = int64 (timestamp +ℤ shift)

unfoldable pub cast_timestamptz_from_timestamp : ℤ → ℤ → ℤ
unfolding int64
cast_timestamptz_from_timestamp timestamp shift = int64 (timestamp +ℤ shift)

unfoldable pub cast_date_from_timestamp : ℤ → ℤ
unfolding trunc_div
cast_date_from_timestamp timestamp = trunc_div timestamp micros_in_day

unfoldable pub date_diff : ℤ → ℤ → ℤ
unfolding int32
date_diff lhs rhs = int32 (lhs -ℤ rhs)

-- `date * kMicrosInDay`, in 64 bits.
unfoldable pub date_micros : ℤ → ℤ
unfolding int64
date_micros date = int64 (date *ℤ pos micros_in_day)

unfoldable pub less_than_date_timestamp : ℤ → ℤ → Bool
unfolding date_micros
less_than_date_timestamp date timestamp = ltb_ℤ (date_micros date) timestamp

unfoldable pub less_than_or_equal_to_date_timestamp : ℤ → ℤ → Bool
unfolding date_micros
less_than_or_equal_to_date_timestamp date timestamp = leb_ℤ (date_micros date) timestamp

unfoldable pub greater_than_date_timestamp : ℤ → ℤ → Bool
unfolding date_micros
greater_than_date_timestamp date timestamp = ltb_ℤ timestamp (date_micros date)

unfoldable pub greater_than_or_equal_to_date_timestamp : ℤ → ℤ → Bool
unfolding date_micros
greater_than_or_equal_to_date_timestamp date timestamp = leb_ℤ timestamp (date_micros date)

unfoldable pub equal_date_timestamp : ℤ → ℤ → Bool
unfolding date_micros
equal_date_timestamp date timestamp = eqb_ℤ (date_micros date) timestamp

unfoldable pub not_equal_date_timestamp : ℤ → ℤ → Bool
unfolding date_micros
not_equal_date_timestamp date timestamp = not (eqb_ℤ (date_micros date) timestamp)

unfoldable pub less_than_timestamp_date : ℤ → ℤ → Bool
unfolding date_micros
less_than_timestamp_date timestamp date = ltb_ℤ timestamp (date_micros date)

unfoldable pub less_than_or_equal_to_timestamp_date : ℤ → ℤ → Bool
unfolding date_micros
less_than_or_equal_to_timestamp_date timestamp date = leb_ℤ timestamp (date_micros date)

unfoldable pub greater_than_timestamp_date : ℤ → ℤ → Bool
unfolding date_micros
greater_than_timestamp_date timestamp date = ltb_ℤ (date_micros date) timestamp

unfoldable pub greater_than_or_equal_to_timestamp_date : ℤ → ℤ → Bool
unfolding date_micros
greater_than_or_equal_to_timestamp_date timestamp date = leb_ℤ (date_micros date) timestamp

unfoldable pub equal_timestamp_date : ℤ → ℤ → Bool
unfolding date_micros
equal_timestamp_date timestamp date = eqb_ℤ timestamp (date_micros date)

unfoldable pub not_equal_timestamp_date : ℤ → ℤ → Bool
unfolding date_micros
not_equal_timestamp_date timestamp date = not (eqb_ℤ timestamp (date_micros date))
