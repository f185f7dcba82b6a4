-- ===== src/Filter/Soundness/Unary.antt =====
-- Functions of one argument, and `Registry::Evaluate` (iceberg/filter/stats_filter/registry.cpp) as
-- a whole, beside functions of cells.
use mathlib.Core.Path.{subst, subst₂}
use iceberg_cxx.Common.{
  ◌≡◌, refl, sym, ap, ◌∙◌, bind-eq-some, eq_of_some-eq-some, inl, inr, ◌&&◌, Option, none, some,
  List, [], ◌∷◌, map, arith, Bool-cases, Option-cases, ok, or_err, >>=-eq-ok, eq_of_ok-eq-ok, All,
}
use iceberg_cxx.Common.Int.{ℤ}
use iceberg_cxx.Filter.Value.{ValueType, int2, int4, int8, float4, float8, PhysicalType, same_type}
use iceberg_cxx.Filter.Function.{
  FunctionId, is_null, cast_int4, cast_int8, cast_float8, same_function, same_function-eq,
}
use iceberg_cxx.Filter.Stats.{
  CountStats, MinMaxStats, get, get-make, get_self, value_type, GenericStats,
}
use iceberg_cxx.Filter.Registry.{
  evaluate_cast_int2_int4, evaluate_cast_int2_int8, evaluate_cast_int4_int8,
  evaluate_cast_float4_float8, incorrect_type, UnaryEvaluatorEntry, evaluate_unary,
  evaluate_is_null,
}
use iceberg_cxx.Filter.Registry.Bounds.{Within}
use iceberg_cxx.Filter.Registry.Table.{
  unary_evaluators, register_is_null, all_types, invoke_unary, evaluate,
}
use iceberg_cxx.Filter.Rows.{
  Cell, widen_cell, Datum, datum, comparison, type_of, widen, OtherFunctions, apply_unary, apply,
}
use iceberg_cxx.Filter.Soundness.{HoldsDatum, Describes, DescribesAll, AllOrdered, ShiftIsValid}
use iceberg_cxx.Filter.Soundness.Casts.{stats}
use iceberg_cxx.Filter.Soundness.Calls.{
  type_of-Holds, evaluate-Compared, evaluate-comparison, compare_cells-Describes,
}

-- The entries with one argument.
abbrev IsDescribed : UnaryEvaluatorEntry → Type 0
IsDescribed e =
    (shift : Option ℤ) (other : OtherFunctions) (l g : GenericStats) (c x : Cell)
    → e.unary_evaluator l ≡ ok g
    → Describes l c
    → apply_unary shift other e.id c ≡ some x
    → Describes g x

pub retype : (d : Datum) (a : ValueType) → type_of d ≡ a → (v : PhysicalType a) × (d ≡ datum a v)
retype (datum t v) a e = subst (λ b. (w : PhysicalType b) × (datum t v ≡ datum b w)) e (v, refl)

pub evaluate_unary-inversion :
    (ret arg : ValueType) (f : MinMaxStats arg → MinMaxStats ret) (l g : GenericStats)
    → evaluate_unary ret arg f l ≡ ok g
    → (s : MinMaxStats arg) × (get arg l.min_max ≡ some s) × (stats ret (f s) l.count ≡ g)
unfolding evaluate_unary
evaluate_unary-inversion ret arg f l g h =
    let (s, p, h') = >>=-eq-ok (or_err (get arg l.min_max) incorrect_type) _ h in
    (s, ground arith, cc)

-- A cast to a wider type is described, if it describes the values of its type.
evaluate_unary-Describes :
    (fid : FunctionId) (ret arg : ValueType) (f : MinMaxStats arg → MinMaxStats ret)
    → ((s : MinMaxStats arg) (v : PhysicalType arg) (d : Datum) (c : CountStats)
        → Within arg s v
        → widen fid (datum arg v) ≡ some d
        → HoldsDatum (stats ret (f s) c) d)
    → (l g : GenericStats) (c x : Cell) → evaluate_unary ret arg f l ≡ ok g
    → Describes l c
    → widen_cell fid c ≡ some x
    → Describes g x
evaluate_unary-Describes fid ret arg f step l g none x run dl h =
    let (s, p, m) = evaluate_unary-inversion ret arg f l g run in
    subst₂ Describes m (eq_of_some-eq-some h) dl
evaluate_unary-Describes fid ret arg f step l g (some d) x run dl h =
    let (s, p, m) = evaluate_unary-inversion ret arg f l g run in
    let (d', q, h') = bind-eq-some (widen fid d) _ h in
    let typed : type_of d ≡ arg =
      sym (type_of-Holds l d dl.1) ∙ ap value_type (get-make arg l.min_max s p) in
    let (v, e) = retype d arg typed in
    let (ls, lm, lh) = subst (HoldsDatum l) e dl.1 in
    let same : ls ≡ s = eq_of_some-eq-some (sym (get_self arg ls) ∙ sym (ap (get arg) lm) ∙ p) in
    subst₂ Describes m (eq_of_some-eq-some h') (
      dl.0,
      step s v d' l.count (subst (λ k. Within arg k v) same lh)
          (subst (λ k. widen fid k ≡ some d') e q),
    )

evaluate_is_null-Describes :
    (shift : Option ℤ) (other : OtherFunctions) (l g : GenericStats) (c x : Cell)
    → evaluate_is_null l ≡ ok g
    → Describes l c
    → apply_unary shift other is_null c ≡ some x
    → Describes g x
unfolding evaluate_is_null apply_unary
evaluate_is_null-Describes shift other l g none x run dl h =
    subst₂ Describes (eq_of_ok-eq-ok run) (eq_of_some-eq-some h) (refl, (_, refl, ground arith))
evaluate_is_null-Describes shift other l g (some d) x run dl h =
    subst₂ Describes (eq_of_ok-eq-ok run) (eq_of_some-eq-some h) (refl, (_, refl, ground arith))

register_is_null-IsDescribed : (ts : List ValueType) → All IsDescribed (map register_is_null ts)
register_is_null-IsDescribed [] = tt
register_is_null-IsDescribed (t ∷ ts) =
    (evaluate_is_null-Describes, register_is_null-IsDescribed ts)

cast_int4-IsDescribed : IsDescribed (record {
  id = cast_int4;
  arg_type = int2;
  unary_evaluator = evaluate_unary int4 int2 evaluate_cast_int2_int4;
})
unfolding apply_unary widen
cast_int4-IsDescribed shift other l g c x run dl h =
    evaluate_unary-Describes cast_int4 int4 int2 evaluate_cast_int2_int4
      (λ s v d k w e.
        subst (HoldsDatum (stats int4 (evaluate_cast_int2_int4 s) k)) (eq_of_some-eq-some e)
          (_, refl, w))
      l g c x run dl h

cast_int8-int2-IsDescribed : IsDescribed (record {
  id = cast_int8;
  arg_type = int2;
  unary_evaluator = evaluate_unary int8 int2 evaluate_cast_int2_int8;
})
unfolding apply_unary widen
cast_int8-int2-IsDescribed shift other l g c x run dl h =
    evaluate_unary-Describes cast_int8 int8 int2 evaluate_cast_int2_int8
      (λ s v d k w e.
        subst (HoldsDatum (stats int8 (evaluate_cast_int2_int8 s) k)) (eq_of_some-eq-some e)
          (_, refl, w))
      l g c x run dl h

cast_int8-int4-IsDescribed : IsDescribed (record {
  id = cast_int8;
  arg_type = int4;
  unary_evaluator = evaluate_unary int8 int4 evaluate_cast_int4_int8;
})
unfolding apply_unary widen
cast_int8-int4-IsDescribed shift other l g c x run dl h =
    evaluate_unary-Describes cast_int8 int8 int4 evaluate_cast_int4_int8
      (λ s v d k w e.
        subst (HoldsDatum (stats int8 (evaluate_cast_int4_int8 s) k)) (eq_of_some-eq-some e)
          (_, refl, w))
      l g c x run dl h

cast_float8-IsDescribed : IsDescribed (record {
  id = cast_float8;
  arg_type = float4;
  unary_evaluator = evaluate_unary float8 float4 evaluate_cast_float4_float8;
})
unfolding apply_unary widen
cast_float8-IsDescribed shift other l g c x run dl h =
    evaluate_unary-Describes cast_float8 float8 float4 evaluate_cast_float4_float8
      (λ s v d k w e.
        subst (HoldsDatum (stats float8 (evaluate_cast_float4_float8 s) k)) (eq_of_some-eq-some e)
          (_, refl, w))
      l g c x run dl h

unary_evaluators-IsDescribed : All IsDescribed unary_evaluators
unfolding unary_evaluators
unary_evaluators-IsDescribed = (
  cast_int4-IsDescribed,
  (
    cast_int8-int2-IsDescribed,
    (cast_int8-int4-IsDescribed, (cast_float8-IsDescribed, register_is_null-IsDescribed all_types)),
  ),
)

invoke_unary-Describes :
    (es : List UnaryEvaluatorEntry) (shift : Option ℤ) (other : OtherFunctions) (fid : FunctionId)
    (l g : GenericStats) (c x : Cell)
    → All IsDescribed es
    → invoke_unary es fid l ≡ ok g
    → Describes l c
    → apply_unary shift other fid c ≡ some x
    → Describes g x
unfolding invoke_unary
invoke_unary-Describes [] shift other fid l g c x a run dl h = cc
invoke_unary-Describes (e ∷ es) shift other fid l g c x (sound, rest) run dl h =
    elim (Bool-cases (same_function e.id fid && same_type (value_type l.min_max) e.arg_type)) [
      | inl hit ↦
          let run' : e.unary_evaluator l ≡ ok g = ground arith in
          let same : fid ≡ e.id = sym (same_function-eq e.id fid (ground arith)) in
          sound shift other l g c x run' dl
            (subst (λ f. apply_unary shift other f c ≡ some x) same h)
      | inr miss ↦ invoke_unary-Describes es shift other fid l g c x rest (ground arith) dl h
    ]

-- On cells that the arguments describe, with ends that the casts take, a call that succeeds describes what the function gives.
pub evaluate-Describes :
    (shift : Option ℤ) (other : OtherFunctions) (fid : FunctionId) (gs : List GenericStats)
    (g : GenericStats) (cs : List Cell) (x : Cell)
    → ShiftIsValid shift
    → AllOrdered gs
    → DescribesAll gs cs
    → evaluate shift fid gs ≡ ok g
    → apply shift other fid cs ≡ some x
    → Describes g x
unfolding evaluate apply
evaluate-Describes shift other fid [] g cs x sv o d run h = cc
evaluate-Describes shift other fid (l ∷ []) g [] x sv o d run h = absurd d
evaluate-Describes shift other fid (l ∷ []) g (c ∷ []) x sv o d run h =
    invoke_unary-Describes unary_evaluators shift other fid l g c x unary_evaluators-IsDescribed run
      d.0 h
evaluate-Describes shift other fid (l ∷ []) g (c ∷ c' ∷ cs) x sv o d run h = absurd d.1
evaluate-Describes shift other fid (l ∷ r ∷ []) g [] x sv o d run h = absurd d
evaluate-Describes shift other fid (l ∷ r ∷ []) g (c ∷ []) x sv o d run h = absurd d.1
evaluate-Describes shift other fid (l ∷ r ∷ []) g (c ∷ c' ∷ []) x sv o d run h =
    elim (Option-cases (comparison fid)) [
      | inl e ↦ let (k, q) = evaluate-comparison shift fid l r g run in absurd (cc)
      | inr (k, e) ↦
          compare_cells-Describes shift k l r g c c' x sv o.0 o.1.0
            (evaluate-Compared shift fid k l r g e run) d.0 d.1.0 (rw (e, apply) at h)
    ]
evaluate-Describes shift other fid (l ∷ r ∷ []) g (c ∷ c' ∷ c'' ∷ cs) x sv o d run h = absurd d.1.1
evaluate-Describes shift other fid (l ∷ r ∷ k ∷ gs) g cs x sv o d run h = cc
