-- ===== src/Temporal/Division.antt =====
-- Division of signed integers as C++ does it, and the units of temporal_ops.cpp.
use iceberg_cxx.Common.{ℕ, suc, ◌*◌, ◌/◌, ◌%◌}
use iceberg_cxx.Common.Int.{ℤ, pos, negsuc, sub_ℕ}

-- -n.
abbrev pub neg : ℕ → ℤ
neg n = sub_ℕ 0 n

-- `a / b` and `a % b`, which round to 0, for a positive b.
unfoldable pub trunc_div : ℤ → ℕ → ℤ
trunc_div (pos n) b = pos (n / b)
trunc_div (negsuc n) b = neg (suc n / b)

unfoldable pub trunc_mod : ℤ → ℕ → ℤ
trunc_mod (pos n) b = pos (n % b)
trunc_mod (negsuc n) b = neg (suc n % b)

abbrev pub micros_in_milli : ℕ
micros_in_milli = 1000

abbrev pub micros_in_second : ℕ
micros_in_second = 1000 * micros_in_milli

abbrev pub micros_in_minute : ℕ
micros_in_minute = 60 * micros_in_second

abbrev pub micros_in_hour : ℕ
micros_in_hour = 60 * micros_in_minute

abbrev pub micros_in_day : ℕ
micros_in_day = 24 * micros_in_hour
