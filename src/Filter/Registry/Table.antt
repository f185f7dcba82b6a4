-- ===== src/Filter/Registry/Table.antt =====
-- The tables of evaluators, the casts that a comparison makes first, and `Registry::Evaluate`:
-- iceberg/filter/stats_filter/registry.cpp.
use iceberg_cxx.Common.{
  Bool, true, false, ◌&&◌, ◌||◌, Option, List, [], ◌∷◌, ◌++◌, map, if◌then◌else◌, ok, err, ◌>>=◌,
  or_err, map_result,
}
use iceberg_cxx.Common.Int.{ℤ}
use iceberg_cxx.Filter.Value.{
  ValueType, bool, int2, int4, int8, float4, float8, numeric, string, date, timestamp, timestamptz,
  time, interval, same_type,
}
use iceberg_cxx.Filter.Function.{
  FunctionId, less_than, less_than_or_equal_to, greater_than, greater_than_or_equal_to, equal,
  not_equal, is_null, cast_int4, cast_int8, cast_float8, same_function,
}
use iceberg_cxx.Filter.Stats.{MinMaxStats, BoolStats, make, value_type, get, GenericStats}
use iceberg_cxx.Filter.Registry.{
  incorrect_type, shift_is_not_set, unsupported_cast, not_implemented, unexpected_argument_count,
  EvaluateResult, BinaryEvaluatorEntry, UnaryEvaluatorEntry, evaluate_less, evaluate_greater,
  evaluate_less_than_or_equal_to, evaluate_greater_than_or_equal_to, evaluate_equal,
  evaluate_not_equal, evaluate_binary, evaluate_unary, evaluate_cast_int2_int4,
  evaluate_cast_int2_int8, evaluate_cast_int4_int8, evaluate_cast_float4_float8,
  evaluate_cast_date_timestamp, evaluate_cast_timestamptz_timestamp, evaluate_is_null,
}

abbrev pub register_binary_evaluator :
    FunctionId
    → (t : ValueType) → (MinMaxStats t → MinMaxStats t → BoolStats)
    → BinaryEvaluatorEntry
register_binary_evaluator fid t func = record {
  id = fid;
  lhs_type = t;
  rhs_type = t;
  binary_evaluator = evaluate_binary bool t func;
}

abbrev pub register_comparison : ValueType → List BinaryEvaluatorEntry
register_comparison t =
    register_binary_evaluator less_than t (evaluate_less t)
    ∷ register_binary_evaluator greater_than t (evaluate_greater t)
    ∷ register_binary_evaluator less_than_or_equal_to t (evaluate_less_than_or_equal_to t)
    ∷ register_binary_evaluator greater_than_or_equal_to t (evaluate_greater_than_or_equal_to t)
    ∷ register_binary_evaluator equal t (evaluate_equal t)
    ∷ register_binary_evaluator not_equal t (evaluate_not_equal t)
    ∷ []

abbrev pub compared_types : List ValueType
compared_types =
    bool ∷ float4 ∷ float8 ∷ int2 ∷ int4 ∷ int8 ∷ date ∷ time ∷ timestamp ∷ timestamptz ∷ string
    ∷ []

abbrev pub register_all : List ValueType → List BinaryEvaluatorEntry
register_all [] = []
register_all (t ∷ ts) = register_comparison t ++ register_all ts

unfoldable pub binary_evaluators : List BinaryEvaluatorEntry
binary_evaluators = register_all compared_types

abbrev pub register_is_null : ValueType → UnaryEvaluatorEntry
register_is_null t = record { id = is_null; arg_type = t; unary_evaluator = evaluate_is_null }

abbrev pub all_types : List ValueType
all_types =
    bool ∷ int2 ∷ int4 ∷ int8 ∷ float4 ∷ float8 ∷ numeric ∷ string ∷ date ∷ timestamp ∷ timestamptz
    ∷ time ∷ interval ∷ []

unfoldable pub unary_evaluators : List UnaryEvaluatorEntry
unary_evaluators =
    record {
      id = cast_int4;
      arg_type = int2;
      unary_evaluator = evaluate_unary int4 int2 evaluate_cast_int2_int4;
    }
    ∷ record {
      id = cast_int8;
      arg_type = int2;
      unary_evaluator = evaluate_unary int8 int2 evaluate_cast_int2_int8;
    }
    ∷ record {
      id = cast_int8;
      arg_type = int4;
      unary_evaluator = evaluate_unary int8 int4 evaluate_cast_int4_int8;
    }
    ∷ record {
      id = cast_float8;
      arg_type = float4;
      unary_evaluator = evaluate_unary float8 float4 evaluate_cast_float4_float8;
    }
    ∷ map register_is_null all_types

unfoldable pub are_casts_before_invoke_allowed : FunctionId → Bool
are_casts_before_invoke_allowed less_than = true
are_casts_before_invoke_allowed less_than_or_equal_to = true
are_casts_before_invoke_allowed greater_than = true
are_casts_before_invoke_allowed greater_than_or_equal_to = true
are_casts_before_invoke_allowed not_equal = true
are_casts_before_invoke_allowed equal = true
are_casts_before_invoke_allowed _ = false

-- `std::set` of types: equality is inclusion both ways.
unfoldable pub contains : List ValueType → ValueType → Bool
contains [] t = false
contains (s ∷ ts) t = same_type s t || contains ts t

unfoldable pub includes : List ValueType → List ValueType → Bool
unfolding contains
includes ss [] = true
includes ss (t ∷ ts) = contains ss t && includes ss ts

unfoldable pub same_set : List ValueType → List ValueType → Bool
unfolding includes
same_set ss ts = includes ss ts && includes ts ss

-- `unique_value_types.size() == 1`.
unfoldable pub is_singleton : List ValueType → Bool
unfolding same_set
is_singleton [] = false
is_singleton (t ∷ ts) = same_set (t ∷ ts) (t ∷ [])

-- The bodies of the loops over the arguments.
unfoldable pub cast_to_int4 : GenericStats → EvaluateResult GenericStats
unfolding same_type
cast_to_int4 arg =
    if same_type (value_type arg.min_max) int2
    then evaluate_unary int4 int2 evaluate_cast_int2_int4 arg
    else ok arg

unfoldable pub cast_to_int8 : GenericStats → EvaluateResult GenericStats
unfolding same_type
cast_to_int8 arg =
    if same_type (value_type arg.min_max) int2
    then evaluate_unary int8 int2 evaluate_cast_int2_int8 arg
    else (if same_type (value_type arg.min_max) int4
        then evaluate_unary int8 int4 evaluate_cast_int4_int8 arg
        else ok arg)

unfoldable pub cast_to_float8 : GenericStats → EvaluateResult GenericStats
unfolding same_type
cast_to_float8 arg =
    if same_type (value_type arg.min_max) float4
    then evaluate_unary float8 float4 evaluate_cast_float4_float8 arg
    else ok arg

-- The shift is `Registry::Settings::timestamp_to_timestamptz_shift_us`.
unfoldable pub cast_to_timestamp : Option ℤ → GenericStats → EvaluateResult GenericStats
unfolding same_type
cast_to_timestamp shift arg =
    if same_type (value_type arg.min_max) date
    then evaluate_unary timestamp date evaluate_cast_date_timestamp arg
    else (if same_type (value_type arg.min_max) timestamptz
        then (do
          shift_us ← or_err shift shift_is_not_set
          stats ← or_err (get timestamptz arg.min_max) incorrect_type
          ok (record {
            min_max = make timestamp (evaluate_cast_timestamptz_timestamp stats shift_us);
            count = arg.count;
          }))
        else ok arg)

unfoldable pub cast_to_same_type_for_comparison :
    Option ℤ → List GenericStats → EvaluateResult (List GenericStats)
unfolding is_singleton same_set
cast_to_same_type_for_comparison shift args =
    let types = map (λ (arg : GenericStats). value_type arg.min_max) args in
    if is_singleton types
    then ok args
    else if same_set types (int2 ∷ int4 ∷ [])
    then map_result cast_to_int4 args
    else if same_set types (int2 ∷ int4 ∷ int8 ∷ [])
        || same_set types (int4 ∷ int8 ∷ [])
        || same_set types (int2 ∷ int8 ∷ [])
    then map_result cast_to_int8 args
    else if same_set types (float4 ∷ float8 ∷ [])
    then map_result cast_to_float8 args
    else if same_set types (timestamp ∷ timestamptz ∷ [])
        || same_set types (timestamp ∷ date ∷ [])
        || same_set types (timestamptz ∷ date ∷ [])
    then map_result (cast_to_timestamp shift) args
    else err unsupported_cast

-- The loop over `kBinaryEvaluators`.
unfoldable pub invoke_binary :
    List BinaryEvaluatorEntry
    → FunctionId
    → GenericStats
    → GenericStats
    → EvaluateResult GenericStats
unfolding same_function same_type
invoke_binary [] fid lhs rhs = err not_implemented
invoke_binary (e ∷ es) fid lhs rhs =
    if same_function e.id fid
      && same_type (value_type lhs.min_max) e.lhs_type
      && same_type (value_type rhs.min_max) e.rhs_type
    then e.binary_evaluator lhs rhs
    else invoke_binary es fid lhs rhs

-- The loop over `kUnaryEvaluators`.
unfoldable pub invoke_unary :
    List UnaryEvaluatorEntry → FunctionId → GenericStats → EvaluateResult GenericStats
unfolding same_function same_type
invoke_unary [] fid arg = err not_implemented
invoke_unary (e ∷ es) fid arg =
    if same_function e.id fid && same_type (value_type arg.min_max) e.arg_type
    then e.unary_evaluator arg
    else invoke_unary es fid arg

-- `args.at(0)` and `args.at(1)`; the casts keep the number of arguments.
unfoldable pub invoke_pair : FunctionId → List GenericStats → EvaluateResult GenericStats
unfolding binary_evaluators invoke_binary
invoke_pair fid (lhs ∷ rhs ∷ []) = invoke_binary binary_evaluators fid lhs rhs
invoke_pair fid _ = err unexpected_argument_count

unfoldable pub evaluate : Option ℤ → FunctionId → List GenericStats → EvaluateResult GenericStats
unfolding are_casts_before_invoke_allowed cast_to_same_type_for_comparison unary_evaluators
    invoke_unary invoke_pair
evaluate shift fid (arg ∷ []) = invoke_unary unary_evaluators fid arg
evaluate shift fid (lhs ∷ rhs ∷ []) = do
  args ←
      if are_casts_before_invoke_allowed fid
      then cast_to_same_type_for_comparison shift (lhs ∷ rhs ∷ [])
      else ok (lhs ∷ rhs ∷ [])
  invoke_pair fid args
evaluate shift fid _ = err unexpected_argument_count
