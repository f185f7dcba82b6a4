-- ===== src/Filter/Visitor.antt =====
-- The statistics of a whole expression and the verdict on the rows behind them:
-- iceberg/filter/stats_filter/stats_filter.cpp. The log is left out.
use iceberg_cxx.Common.{
  Bool, true, false, not, Option, none, some, List, [], ◌∷◌, if◌then◌else◌, ok, err, ◌>>=◌, or_err,
}
use Prim.Native.String.{String}
use iceberg_cxx.Common.Int.{ℤ}
use iceberg_cxx.Filter.Value.{ValueType, bool, numeric, interval, PhysicalType, Array}
use iceberg_cxx.Filter.Order.{comparators}
use iceberg_cxx.Filter.Function.{FunctionId}
use iceberg_cxx.Filter.Stats.{
  BoolStats, eqb_stats, bool_stats_true, bool_stats_false, bool_stats_unknown, or_stats, and_stats,
  not_stats, one_value_to_stats, make, get, GenericMinMaxStats, GenericStats, uncounted,
}
use iceberg_cxx.Filter.Registry.{
  no_stats, null_const, expected_bool_stats, different_types, not_comparable, empty_expression,
  unexpected_argument_count, EvaluateResult,
}
use iceberg_cxx.Filter.Registry.Table.{evaluate}
use iceberg_cxx.Filter.Node.{
  Operation, and, or, Node, Nodes, variable_node, const_node, function_node,
  scalar_over_array_function_node, if_node, logical_node, nil, cons,
}

pub record BoolStatsAggregator : Type 0 where
  pub use_or : Bool
  pub current_result : BoolStats

unfoldable pub aggregator : Bool → BoolStatsAggregator
aggregator use_or = record {
  use_or = use_or;
  current_result = if use_or then bool_stats_false else bool_stats_true;
}

-- `BoolStatsAggregator::Add`: true when the result is settled.
unfoldable pub add : BoolStatsAggregator → BoolStats → BoolStatsAggregator × Bool
add a new_value =
    if a.use_or
    then (let r = or_stats a.current_result new_value in
        (record a { current_result = r }, eqb_stats r bool_stats_true))
    else (let r = and_stats a.current_result new_value in
        (record a { current_result = r }, eqb_stats r bool_stats_false))

abbrev pub aggregated : BoolStatsAggregator → GenericStats
aggregated a = uncounted (make bool a.current_result)

-- `IStatsGetter::GetStats`.
abbrev pub StatsGetter : Type 0
StatsGetter = String → ValueType → Option GenericStats

abbrev pub literal_stats : (t : ValueType) → PhysicalType t → GenericStats
literal_stats t v = record {
  min_max = make t (one_value_to_stats t v);
  count = record { contains_null = false; contains_non_null = true };
}

-- The concept `Comparable`: a type with `<`.
abbrev pub is_comparable : ValueType → Bool
is_comparable numeric = false
is_comparable interval = false
is_comparable _ = true

-- `std::min` and `std::max`.
module _ (t : ValueType) where
  abbrev pub std_min : PhysicalType t → PhysicalType t → PhysicalType t
  std_min a b = if (comparators t).lt b a then b else a

  abbrev pub std_max : PhysicalType t → PhysicalType t → PhysicalType t
  std_max a b = if (comparators t).lt a b then b else a

-- The common range of both branches of a conditional.
unfoldable pub join : GenericMinMaxStats → GenericMinMaxStats → EvaluateResult GenericStats
join (make t then_stats) else_res = do
  else_stats ← or_err (get t else_res) different_types
  if is_comparable t
      then ok (
          uncounted (
            make t (record {
              min = std_min t then_stats.min else_stats.min;
              max = std_max t then_stats.max else_stats.max;
            })))
      else err not_comparable

-- `evaluated.min_max.Get<ValueType::kBool>()` behind the check of the type.
abbrev pub as_bool : GenericStats → EvaluateResult BoolStats
as_bool s = or_err (get bool s.min_max) expected_bool_stats

abbrev pub if_result :
    BoolStats
    → EvaluateResult GenericStats
    → EvaluateResult GenericStats
    → EvaluateResult GenericStats
if_result cond then_res else_res =
    if cond.min
    then then_res
    else (if not cond.max
        then else_res
        else (do t ← then_res; e ← else_res; join t.min_max e.min_max))

-- The loop over the elements of an array, of which a missing one counts as unknown.
unfoldable pub scalar_over_array :
    Option ℤ
    → FunctionId
    → GenericStats
    → (t : ValueType) → Array t
    → BoolStatsAggregator
    → EvaluateResult GenericStats
unfolding add
scalar_over_array shift fid lhs t [] a = ok (aggregated a)
scalar_over_array shift fid lhs t (none ∷ elems) a =
    let (a', settled) = add a bool_stats_unknown in
    let rest = scalar_over_array shift fid lhs t elems a' in
    if settled then ok (aggregated a') else rest
scalar_over_array shift fid lhs t (some v ∷ elems) a = do
  stats ← evaluate shift fid (lhs ∷ literal_stats t v ∷ [])
  arg ← as_bool stats
  let (a', settled) = add a arg
  let rest = scalar_over_array shift fid lhs t elems a'
  if settled then ok (aggregated a') else rest

module _ (shift : Option ℤ) (stats_getter : StatsGetter) where
  unfoldable mutual
    pub visit : Node → EvaluateResult GenericStats
    visit (variable_node t name) = or_err (stats_getter name t) no_stats
    visit (const_node t none) = err null_const
    visit (const_node t (some v)) = ok (literal_stats t v)
    visit (function_node signature arguments) = do
      evaluated_arguments ← visit_all arguments
      evaluate shift signature.function_id evaluated_arguments
    visit (scalar_over_array_function_node signature use_or scalar t array) = do
      lhs_stats ← visit scalar
      scalar_over_array shift signature.function_id lhs_stats t array (aggregator use_or)
    visit (if_node condition then_node else_node) = do
      evaluated_cond ← visit condition
      stats ← as_bool evaluated_cond
      if_result stats (visit then_node) (visit else_node)
    visit (logical_node Operation.not arguments) = visit_not arguments
    visit (logical_node and arguments) = visit_logical arguments (aggregator false)
    visit (logical_node or arguments) = visit_logical arguments (aggregator true)

    pub visit_all : Nodes → EvaluateResult (List GenericStats)
    visit_all nil = ok []
    visit_all (cons n ns) = do s ← visit n; ss ← visit_all ns; ok (s ∷ ss)

    pub visit_not : Nodes → EvaluateResult GenericStats
    visit_not (cons n nil) = do
      evaluated_arg ← visit n
      s ← as_bool evaluated_arg
      ok (record evaluated_arg { min_max = make bool (not_stats s) })
    visit_not _ = err unexpected_argument_count

    -- An argument that fails counts as unknown.
    pub visit_logical : Nodes → BoolStatsAggregator → EvaluateResult GenericStats
    visit_logical nil a = ok (aggregated a)
    visit_logical (cons n ns) a = elim (visit n) [
      | err _ ↦ visit_logical ns (add a bool_stats_unknown).0
      | ok evaluated_arg ↦ do
        arg ← as_bool evaluated_arg
        let (a', settled) = add a arg
        let rest = visit_logical ns a'
        if settled then ok (aggregated a') else rest
    ]

pub data MatchedRows : Type 0 where
  no_rows some_rows all_rows : MatchedRows

-- `StatsFilter`: the root, and the shift of its settings.
pub record StatsFilter : Type 0 where
  pub root : Option Node
  pub timestamp_to_timestamptz_shift_us : Option ℤ

unfoldable pub evaluate_filter : StatsFilter → StatsGetter → EvaluateResult GenericStats
unfolding visit
evaluate_filter f getter = do
  root ← or_err f.root empty_expression
  visit f.timestamp_to_timestamptz_shift_us getter root

abbrev pub verdict : BoolStats → MatchedRows
verdict s =
    if eqb_stats s bool_stats_false
    then no_rows
    else (if eqb_stats s bool_stats_true then all_rows else some_rows)

abbrev pub matched_rows : EvaluateResult GenericStats → MatchedRows
matched_rows (err e) = some_rows
matched_rows (ok result) = elim (get bool result.min_max) [ none ↦ some_rows | some s ↦ verdict s ]

-- `StatsFilter::ApplyFilter`. With no root the evaluation fails, and the verdict is the same.
unfoldable pub apply_filter : StatsFilter → StatsGetter → MatchedRows
unfolding evaluate_filter
apply_filter f getter = elim f.root [
  | none ↦ some_rows
  | some _ ↦ matched_rows (evaluate_filter f getter)
]
