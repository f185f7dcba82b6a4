-- ===== src/Filter/Soundness/Examples.antt =====
-- The casts of iceberg/filter/stats_filter/registry.cpp at concrete ranges.
use iceberg_cxx.Common.{refl, ◌*◌, true, false, none, arith}
use iceberg_cxx.Common.Int.{pos, ◌*ℤ◌}
use iceberg_cxx.Filter.Value.{date, timestamp}
use iceberg_cxx.Filter.Stats.{CountStats, GenericStats, get}
use iceberg_cxx.Filter.Registry.{evaluate_unary, evaluate_cast_date_timestamp, micros_in_day}
use iceberg_cxx.Filter.Registry.Table.{cast_to_timestamp}
use iceberg_cxx.Filter.Rows.{datum, promote, to_timestamp}
use iceberg_cxx.Filter.Soundness.{HoldsDatum}
use iceberg_cxx.Filter.Soundness.Casts.{stats, promote-HoldsDatum}

abbrev no_nulls : CountStats
no_nulls = record { contains_null = false; contains_non_null = true }

-- Dates from the tenth to the twentieth day, and the timestamps that they start with.
abbrev ten_to_twenty_days : GenericStats
ten_to_twenty_days = stats date (record { min = pos 10; max = pos 20 }) no_nulls

abbrev ten_to_twenty_starts : GenericStats
ten_to_twenty_starts =
    stats timestamp (record { min = pos (10 * micros_in_day); max = pos (20 * micros_in_day) })
      no_nulls

promote-HoldsDatum_example :
    HoldsDatum ten_to_twenty_starts (datum timestamp (pos (15 * micros_in_day)))
unfolding cast_to_timestamp evaluate_unary get promote evaluate_cast_date_timestamp ◌*ℤ◌
promote-HoldsDatum_example =
    promote-HoldsDatum none to_timestamp ten_to_twenty_days ten_to_twenty_starts
      (datum date (pos 15)) (datum timestamp (pos (15 * micros_in_day))) tt
      ((refl, omega arith), (refl, omega arith)) (_, refl, (refl, refl)) refl refl
