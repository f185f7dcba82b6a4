-- ===== src/Filter/Soundness/Ordered.antt =====
-- The ends of ranges, for the visitor of iceberg/filter/stats_filter/stats_filter.cpp.
use mathlib.Core.Path.{subst}
use iceberg_cxx.Common.{
  not, ◌≡◌, sym, ap, inl, inr, ◌&&◌, Option, List, [], ◌∷◌, map, arith, Bool-cases, ok,
  eq_of_ok-eq-ok, All,
}
use iceberg_cxx.Common.Int.{ℤ}
use iceberg_cxx.Filter.Value.{bool, ValueType, int2, int4, int8, float4, float8, same_type}
use iceberg_cxx.Filter.Function.{FunctionId, same_function}
use iceberg_cxx.Filter.Soundness.Unary.{evaluate_unary-inversion}
use iceberg_cxx.Filter.Soundness.{Ordered, AllOrdered}
use iceberg_cxx.Filter.Stats.{make, BoolStats, MinMaxStats, get-make, value_type, GenericStats}
use iceberg_cxx.Filter.Registry.{UnaryEvaluatorEntry, evaluate_unary, evaluate_is_null}
use iceberg_cxx.Filter.Registry.Table.{
  unary_evaluators, register_is_null, all_types, invoke_unary, evaluate,
}
use iceberg_cxx.Filter.Soundness.Calls.{
  range_of, evaluate_binary-inversion, evaluate-Compared, evaluate-comparison,
}

pub Ordered-bool : (s : BoolStats) → Ordered (make bool s)
Ordered-bool s = ((ground arith, tt), (ground arith, tt))

abbrev KeepsOrder : UnaryEvaluatorEntry → Type 0
KeepsOrder e =
    (l g : GenericStats) → Ordered l.min_max → e.unary_evaluator l ≡ ok g → Ordered g.min_max

evaluate_unary-Ordered :
    (ret arg : ValueType) (f : MinMaxStats arg → MinMaxStats ret)
    → ((s : MinMaxStats arg) → Ordered (make arg s) → Ordered (make ret (f s)))
    → (l g : GenericStats) → Ordered l.min_max
    → evaluate_unary ret arg f l ≡ ok g
    → Ordered g.min_max
evaluate_unary-Ordered ret arg f keep l g o h =
    let (s, p, m) = evaluate_unary-inversion ret arg f l g h in
    subst Ordered (ap (λ k. k.min_max) m) (keep s (subst Ordered (get-make arg l.min_max s p) o))

register_is_null-KeepsOrder : (ts : List ValueType) → All KeepsOrder (map register_is_null ts)
unfolding evaluate_is_null
register_is_null-KeepsOrder [] = tt
register_is_null-KeepsOrder (t ∷ ts) = (
  λ l g o h.
      subst Ordered (ap (λ k. k.min_max) (eq_of_ok-eq-ok h)) (
        Ordered-bool (record { min = not l.count.contains_non_null; max = l.count.contains_null })),
  register_is_null-KeepsOrder ts,
)

unary_evaluators-KeepsOrder : All KeepsOrder unary_evaluators
unfolding unary_evaluators
unary_evaluators-KeepsOrder = (
  evaluate_unary-Ordered int4 int2 _ (λ s o. o),
  (
    evaluate_unary-Ordered int8 int2 _ (λ s o. o),
    (
      evaluate_unary-Ordered int8 int4 _ (λ s o. o),
      (evaluate_unary-Ordered float8 float4 _ (λ s o. o), register_is_null-KeepsOrder all_types),
    ),
  ),
)

invoke_unary-Ordered :
    (es : List UnaryEvaluatorEntry) (fid : FunctionId) (l g : GenericStats)
    → All KeepsOrder es
    → invoke_unary es fid l ≡ ok g
    → Ordered l.min_max
    → Ordered g.min_max
unfolding invoke_unary
invoke_unary-Ordered [] fid l g a run o = cc
invoke_unary-Ordered (e ∷ es) fid l g (keep, rest) run o =
    elim (Bool-cases (same_function e.id fid && same_type (value_type l.min_max) e.arg_type)) [
      | inl hit ↦ keep l g o (ground arith)
      | inr miss ↦ invoke_unary-Ordered es fid l g rest (ground arith) o
    ]

-- Evaluation of a function keeps the ends apart from NaN and from the least integers.
pub evaluate-Ordered :
    (shift : Option ℤ) (fid : FunctionId) (gs : List GenericStats) (g : GenericStats)
    → AllOrdered gs
    → evaluate shift fid gs ≡ ok g
    → Ordered g.min_max
unfolding evaluate
evaluate-Ordered shift fid [] g o h = cc
evaluate-Ordered shift fid (l ∷ []) g o h =
    invoke_unary-Ordered unary_evaluators fid l g unary_evaluators-KeepsOrder h o.0
evaluate-Ordered shift fid (l ∷ r ∷ []) g o h =
    let (c, q) = evaluate-comparison shift fid l r g h in
    let (p, l', r', t, _, _, _, run) = evaluate-Compared shift fid c l r g q h in
    let (s, u, _, _, m, _, _) = evaluate_binary-inversion t (range_of c t) l' r' g run in
    subst Ordered (sym m) (Ordered-bool (range_of c t s u))
evaluate-Ordered shift fid (l ∷ r ∷ k ∷ gs) g o h = cc
