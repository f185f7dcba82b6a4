-- ===== src/Filter/Examples.antt =====
-- Tests of the statistics filter (iceberg/filter/stats_filter), and its theorems at concrete inputs.
use mathlib.Core.Path.{subst}
use iceberg_cxx.Common.{
  ◌≡◌, refl, Bool, true, false, none, some, [], ◌∷◌, arith, eq_of_some-eq-some,
}
use iceberg_cxx.Common.Int.{ℤ, pos, negsuc, ltb_ℤ, ◌+ℤ◌}
use iceberg_cxx.Filter.Value.{bool, int2, int4, int8, timestamp, timestamptz}
use iceberg_cxx.Filter.Function.{
  FunctionId, FunctionSignature, less_than, greater_than, equal, is_null,
}
use iceberg_cxx.Filter.Registry.{
  evaluate_cast_timestamptz_timestamp, int64_min, int64_max, evaluate_binary, evaluate_is_null,
  evaluate_monotone_comparison,
}
use iceberg_cxx.Filter.Registry.Table.{
  evaluate, cast_to_timestamp, cast_to_same_type_for_comparison,
}
use iceberg_cxx.Filter.Soundness.{Describes, Ordered}
use iceberg_cxx.Filter.Stats.{get, and_stats, or_stats, not_stats, make, GenericStats, uncounted}
use iceberg_cxx.Filter.Node.{Node, nil, cons, variable_node, const_node, function_node, if_node}
use iceberg_cxx.Filter.Visitor.{
  StatsGetter, StatsFilter, no_rows, some_rows, all_rows, visit, apply_filter,
}
use iceberg_cxx.Filter.Rows.{
  Row, OtherFunctions, datum, bool_cell, eval, Selected, apply, promotion,
}
use iceberg_cxx.Filter.Soundness.Regular.{IsRegular, variable, literal, call, last, next}
use iceberg_cxx.Filter.Soundness.Expressions.{Known, visit-Describes}
use iceberg_cxx.Filter.Soundness.Casts.{
  stats, promote_all, cast_to_same_type_for_comparison-promotion,
}
use iceberg_cxx.Filter.Registry.Bounds.{Within, lt-IsMonotone, evaluate_monotone_comparison-Within}
use iceberg_cxx.Filter.Order.Laws.{comparators-Laws}
use iceberg_cxx.Filter.Verdict.{apply_filter-no_rows, apply_filter-all_rows}

abbrev calls : FunctionId → FunctionSignature
calls f = record { function_id = f; return_type = bool; argument_types = int4 ∷ int4 ∷ [] }

abbrev x_column : Node
x_column = variable_node int4 "x"

abbrev number : ℤ → Node
number z = const_node int4 (some z)

abbrev compared : FunctionId → ℤ → Node
compared f z = function_node (calls f) (cons x_column (cons (number z) nil))

abbrev filtered : Node → StatsFilter
filtered n = record { root = some n; timestamp_to_timestamptz_shift_us = none }

-- A column of 4-byte integers from 10 to 20, and no other column.
abbrev ten_to_twenty : Bool → GenericStats
ten_to_twenty nulls = record {
  min_max = make int4 (record { min = pos 10; max = pos 20 });
  count = record { contains_null = nulls; contains_non_null = true };
}

abbrev getter : Bool → StatsGetter
getter nulls name int4 = some (ten_to_twenty nulls)
getter nulls name _ = none

abbrev no_functions : OtherFunctions
no_functions f cells = none

abbrev twelve : Row
twelve name int4 = some (datum int4 (pos 12))
twelve name _ = none

abbrev null_row : Row
null_row name t = none

-- What a test computes with.
runs : Unit {0}
unfolding apply_filter visit evaluate evaluate_binary evaluate_is_null get and_stats or_stats
    not_stats evaluate_monotone_comparison eval apply cast_to_timestamp
    evaluate_cast_timestamptz_timestamp ◌+ℤ◌
runs = tt

below_five : apply_filter (filtered (compared less_than (pos 5))) (getter false) ≡ no_rows
unfolding runs
below_five = refl

above_nine : apply_filter (filtered (compared greater_than (pos 9))) (getter false) ≡ all_rows
unfolding runs
above_nine = refl

equals_eleven : apply_filter (filtered (compared equal (pos 11))) (getter false) ≡ some_rows
unfolding runs
equals_eleven = refl

compared-IsRegular : (f : FunctionId) (z : ℤ) → IsRegular none no_functions twelve (compared f z)
compared-IsRegular f z = call (next variable (next (literal (ground arith, tt)) last))

known : Known (getter false) twelve
known name int4 g h =
    subst (λ k. Describes k (some (datum int4 (pos 12))) × Ordered k.min_max) (eq_of_some-eq-some h)
      ((refl, (_, refl, (refl, refl))), ((refl, tt), (refl, tt)))
known name bool g h = cc
known name _ g h = cc

-- A column of timestamptz values from 100 to 200, compared with a timestamp: the ends are shifted.
abbrev earlier_than : ℤ → Node
earlier_than z =
    function_node
      (record {
        function_id = less_than;
        return_type = bool;
        argument_types = timestamptz ∷ timestamp ∷ [];
      })
      (cons (variable_node timestamptz "z") (cons (const_node timestamp (some z)) nil))

abbrev shifted : ℤ → ℤ → StatsFilter
shifted shift z = record {
  root = some (earlier_than z);
  timestamp_to_timestamptz_shift_us = some shift;
}

abbrev times : ℤ → ℤ → GenericStats
times low high = record {
  min_max = make timestamptz (record { min = low; max = high });
  count = record { contains_null = false; contains_non_null = true };
}

abbrev times_getter : ℤ → ℤ → StatsGetter
times_getter low high name timestamptz = some (times low high)
times_getter low high name _ = none

abbrev at_time : ℤ → Row
at_time z name timestamptz = some (datum timestamptz z)
at_time z name _ = none

earlier_than-IsRegular :
    IsRegular (some (negsuc 9)) no_functions (at_time (pos 150)) (earlier_than (pos 50))
earlier_than-IsRegular = call (next variable (next (literal (refl, tt)) last))

times_getter-Known : Known (times_getter (pos 100) (pos 200)) (at_time (pos 150))
times_getter-Known name timestamptz g h =
    subst (λ k. Describes k (some (datum timestamptz (pos 150))) × Ordered k.min_max)
      (eq_of_some-eq-some h)
      ((refl, (_, refl, (refl, refl))), ((refl, omega arith), (refl, omega arith)))
times_getter-Known name bool g h = cc
times_getter-Known name _ g h = cc

apply_filter-no_rows_example :
    ¬ Selected (eval (some (negsuc 9)) no_functions (at_time (pos 150)) (earlier_than (pos 50)))
unfolding runs
apply_filter-no_rows_example =
    apply_filter-no_rows (shifted (negsuc 9) (pos 50)) no_functions (at_time (pos 150))
      (times_getter (pos 100) (pos 200)) (earlier_than (pos 50)) refl earlier_than-IsRegular
      (omega arith) times_getter-Known refl

apply_filter-all_rows_example :
    ¬ (eval none no_functions twelve (compared greater_than (pos 9)) ≡ some (bool_cell false))
unfolding runs
apply_filter-all_rows_example =
    apply_filter-all_rows (filtered (compared greater_than (pos 9))) no_functions twelve
      (getter false) (compared greater_than (pos 9)) refl (compared-IsRegular greater_than (pos 9))
      tt known refl

-- IF x > 9 THEN x < 5 ELSE x IS NULL selects a row where x is null.
abbrev x_is_null : Node
x_is_null =
    function_node (record { function_id = is_null; return_type = bool; argument_types = int4 ∷ [] })
      (cons x_column nil)

abbrev conditional_on_x : Node
conditional_on_x = if_node (compared greater_than (pos 9)) (compared less_than (pos 5)) x_is_null

-- The row is selected, and the verdict is that no row is.
null_row-Selected : Selected (eval none no_functions null_row conditional_on_x)
unfolding runs
null_row-Selected = refl

null_row_skipped : apply_filter (filtered conditional_on_x) (getter true) ≡ no_rows
unfolding runs
null_row_skipped = refl

visit-Describes_example :
    Describes (uncounted (make bool (record { min = true; max = true }))) (some (datum bool true))
unfolding runs
visit-Describes_example =
    visit-Describes none no_functions twelve (getter false) tt known
      (compared-IsRegular greater_than (pos 9)) _ _ refl refl

-- 12 is in a range from 10 to 20 and 15 in one from 15 to 30.
evaluate_monotone_comparison-Within_example :
    Within bool
      (evaluate_monotone_comparison {t = int4} ltb_ℤ
        (record { min = pos 10; max = pos 20 })
        (record { min = pos 15; max = pos 30 }))
      (ltb_ℤ (pos 12) (pos 15))
evaluate_monotone_comparison-Within_example =
    evaluate_monotone_comparison-Within int4 ltb_ℤ (record { min = pos 10; max = pos 20 })
      (record { min = pos 15; max = pos 30 }) (pos 12) (pos 15)
      (lt-IsMonotone (comparators-Laws int4)) (refl, refl) (refl, refl)

cast_to_same_type_for_comparison-promotion_example :
    cast_to_same_type_for_comparison none (
      stats int2 (record { min = pos 1; max = pos 2 }) (ten_to_twenty true).count
      ∷ stats int8 (record { min = pos 3; max = pos 4 }) (ten_to_twenty false).count
      ∷ [])
    ≡ promote_all none (promotion int2 int8) (
        stats int2 (record { min = pos 1; max = pos 2 }) (ten_to_twenty true).count
        ∷ stats int8 (record { min = pos 3; max = pos 4 }) (ten_to_twenty false).count
        ∷ [])
cast_to_same_type_for_comparison-promotion_example =
    cast_to_same_type_for_comparison-promotion none int2 int8 (record { min = pos 1; max = pos 2 })
      (record { min = pos 3; max = pos 4 }) (ten_to_twenty true).count (ten_to_twenty false).count

-- A range of timestamptz values that starts at the least integer, which stands for -infinity: its
-- absolute value passes the test, the sum with the shift overflows, and the range is reversed.
reversed_range :
    evaluate_cast_timestamptz_timestamp (record { min = int64_min; max = pos 20 }) (negsuc 0)
    ≡ record { min = int64_max; max = pos 19 }
unfolding runs
reversed_range = refl

-- The row with the value 0 is selected, and the verdict is that no row is.
at_zero-Selected :
    Selected (eval (some (negsuc 0)) no_functions (at_time (pos 0)) (earlier_than (pos 10)))
unfolding runs
at_zero-Selected = refl

at_zero_skipped :
    apply_filter (shifted (negsuc 0) (pos 10)) (times_getter int64_min (pos 20)) ≡ no_rows
unfolding runs
at_zero_skipped = refl
