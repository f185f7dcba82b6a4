-- ===== src/Filter/Registry.antt =====
-- Evaluation of functions over minima and maxima: iceberg/filter/stats_filter/registry.cpp.
pub mod Table
pub mod Bounds
use iceberg_cxx.Common.{
  ℕ, ◌+◌, ◌*◌, ◌^◌, ◌-◌, Bool, true, false, ◌&&◌, ◌||◌, not, Option, none, some, List, [], ◌∷◌,
  ◌++◌, map, ltb, leb, if◌then◌else◌, Result, ok, err, ◌>>=◌, or_err, map_result,
}
use iceberg_cxx.Common.Int.{ℤ, pos, negsuc, ◌+ℤ◌, ◌*ℤ◌, leb_ℤ}
use iceberg_cxx.Common.Int.Wrap.{int64, abs32, abs64}
use iceberg_cxx.Filter.Value.{
  ValueType, bool, int2, int4, int8, float4, float8, numeric, string, date, timestamp, timestamptz,
  time, interval, PhysicalType, same_type,
}
use iceberg_cxx.Filter.Order.{Comparators, comparators}
use iceberg_cxx.Filter.Function.{
  FunctionId, less_than, less_than_or_equal_to, greater_than, greater_than_or_equal_to, equal,
  not_equal, is_null, cast_int4, cast_int8, cast_float8, same_function,
}
use iceberg_cxx.Filter.Stats.{
  MinMaxStats, BoolStats, bool_stats_true, bool_stats_false, bool_stats_unknown, and_stats,
  not_stats, CountStats, GenericMinMaxStats, make, value_type, get, GenericStats,
}

-- The status of an `arrow::Result` that is an error, without its text.
pub data Status : Type 0 where
  incorrect_type shift_is_not_set unsupported_cast not_implemented unexpected_argument_count :
      Status
  no_stats null_const expected_bool_stats different_types not_comparable empty_expression : Status

abbrev pub EvaluateResult : Type 0 → Type 0
EvaluateResult = Result Status

-- The two flags of the loop over the ends of both ranges.
pub record Flags : Type 0 where
  pub everything_true : Bool
  pub everything_false : Bool

abbrev pub observe : Flags → Bool → Flags
observe f holds =
    if holds then record f { everything_false = false } else record f { everything_true = false }

unfoldable pub evaluate_monotone_comparison :
    {t : ValueType}
    → (PhysicalType t → PhysicalType t → Bool)
    → MinMaxStats t
    → MinMaxStats t
    → BoolStats
evaluate_monotone_comparison cmp lhs rhs =
    let start : Flags = record { everything_true = true; everything_false = true } in
    let low_low = observe start (cmp lhs.min rhs.min) in
    let low_high = observe low_low (cmp lhs.min rhs.max) in
    let high_low = observe low_high (cmp lhs.max rhs.min) in
    let flags = observe high_low (cmp lhs.max rhs.max) in
    if flags.everything_false
    then bool_stats_false
    else (if flags.everything_true then bool_stats_true else bool_stats_unknown)

module _ (t : ValueType) where
  open comparators t use {lt, le}

  abbrev pub evaluate_less : MinMaxStats t → MinMaxStats t → BoolStats
  evaluate_less = evaluate_monotone_comparison lt

  abbrev pub evaluate_greater : MinMaxStats t → MinMaxStats t → BoolStats
  evaluate_greater = evaluate_monotone_comparison (λ a b. lt b a)

  abbrev pub evaluate_less_than_or_equal_to : MinMaxStats t → MinMaxStats t → BoolStats
  evaluate_less_than_or_equal_to = evaluate_monotone_comparison le

  abbrev pub evaluate_greater_than_or_equal_to : MinMaxStats t → MinMaxStats t → BoolStats
  evaluate_greater_than_or_equal_to = evaluate_monotone_comparison (λ a b. le b a)

  abbrev pub evaluate_equal : MinMaxStats t → MinMaxStats t → BoolStats
  evaluate_equal lhs rhs =
      let res_lteq = evaluate_monotone_comparison le lhs rhs in
      let res_gteq = evaluate_monotone_comparison (λ a b. le b a) lhs rhs in
      and_stats res_lteq res_gteq

  abbrev pub evaluate_not_equal : MinMaxStats t → MinMaxStats t → BoolStats
  evaluate_not_equal lhs rhs = not_stats (evaluate_equal lhs rhs)

unfoldable pub evaluate_binary :
    (return_type arg_type : ValueType)
    → (MinMaxStats arg_type → MinMaxStats arg_type → MinMaxStats return_type)
    → GenericStats
    → GenericStats
    → EvaluateResult GenericStats
evaluate_binary return_type arg_type binary_evaluator lhs rhs = do
  l ← or_err (get arg_type lhs.min_max) incorrect_type
  r ← or_err (get arg_type rhs.min_max) incorrect_type
  ok (record {
    min_max = make return_type (binary_evaluator l r);
    count = record {
      contains_null = lhs.count.contains_null || rhs.count.contains_null;
      contains_non_null = lhs.count.contains_non_null || rhs.count.contains_non_null;
    };
  })

unfoldable pub evaluate_unary :
    (return_type arg_type : ValueType)
    → (MinMaxStats arg_type → MinMaxStats return_type)
    → GenericStats
    → EvaluateResult GenericStats
evaluate_unary return_type arg_type unary_evaluator arg = do
  a ← or_err (get arg_type arg.min_max) incorrect_type
  ok (record { min_max = make return_type (unary_evaluator a); count = arg.count })

abbrev pub evaluate_cast_int2_int4 : MinMaxStats int2 → MinMaxStats int4
evaluate_cast_int2_int4 arg = record { min = arg.min; max = arg.max }

abbrev pub evaluate_cast_int2_int8 : MinMaxStats int2 → MinMaxStats int8
evaluate_cast_int2_int8 arg = record { min = arg.min; max = arg.max }

abbrev pub evaluate_cast_int4_int8 : MinMaxStats int4 → MinMaxStats int8
evaluate_cast_int4_int8 arg = record { min = arg.min; max = arg.max }

abbrev pub evaluate_cast_float4_float8 : MinMaxStats float4 → MinMaxStats float8
evaluate_cast_float4_float8 arg = record { min = arg.min; max = arg.max }

abbrev pub micros_in_day : ℕ
micros_in_day = 24 * 60 * 60 * 1000 * 1000

abbrev pub max_supported_date : ℕ
max_supported_date = 1000000

abbrev pub max_supported_timestamp : ℕ
max_supported_timestamp = 10 ^ 18

abbrev pub int64_min : ℤ
int64_min = negsuc (2 ^ 63 - 1)

abbrev pub int64_max : ℤ
int64_max = pos (2 ^ 63 - 1)

-- The absolute values are of 32 bits, and the products of 64.
unfoldable pub evaluate_cast_date_timestamp : MinMaxStats date → MinMaxStats timestamp
unfolding abs32 int64
evaluate_cast_date_timestamp arg =
    if leb_ℤ (abs32 arg.min) (pos max_supported_date)
      && leb_ℤ (abs32 arg.max) (pos max_supported_date)
    then record {
      min = int64 (arg.min *ℤ pos micros_in_day);
      max = int64 (arg.max *ℤ pos micros_in_day);
    }
    else record { min = int64_min; max = int64_max }

unfoldable pub evaluate_cast_timestamptz_timestamp :
    MinMaxStats timestamptz → ℤ → MinMaxStats timestamp
unfolding abs64 int64
evaluate_cast_timestamptz_timestamp arg shift =
    if leb_ℤ (abs64 arg.min) (pos max_supported_timestamp)
      && leb_ℤ (abs64 arg.max) (pos max_supported_timestamp)
      && leb_ℤ (abs64 shift) (pos max_supported_timestamp)
    then record { min = int64 (arg.min +ℤ shift); max = int64 (arg.max +ℤ shift) }
    else record { min = int64_min; max = int64_max }

unfoldable pub evaluate_is_null : GenericStats → EvaluateResult GenericStats
evaluate_is_null stats =
    let has_true = stats.count.contains_null in
    let has_false = stats.count.contains_non_null in
    ok (record {
      min_max = make bool (record { min = not has_false; max = has_true });
      count = record { contains_null = false; contains_non_null = true };
    })

pub record BinaryEvaluatorEntry : Type 0 where
  pub id : FunctionId
  pub lhs_type : ValueType
  pub rhs_type : ValueType
  pub binary_evaluator : GenericStats → GenericStats → EvaluateResult GenericStats

pub record UnaryEvaluatorEntry : Type 0 where
  pub id : FunctionId
  pub arg_type : ValueType
  pub unary_evaluator : GenericStats → EvaluateResult GenericStats
