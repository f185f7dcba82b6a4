-- ===== src/Filter/Soundness/Arrays.antt =====
-- The loop over an array: iceberg/filter/stats_filter/stats_filter.cpp.
use mathlib.Core.Path.{subst, subst₂}
use iceberg_cxx.Common.{
  bind-eq-some, ◌≡◌, refl, sym, inl, inr, Bool, Option, none, some, [], ◌∷◌, arith, Bool-cases, ok,
  >>=-eq-ok, eq_of_ok-eq-ok, eq_of_some-eq-some,
}
use iceberg_cxx.Common.Int.{ℤ}
use iceberg_cxx.Filter.Value.{ValueType, PhysicalType, Array}
use iceberg_cxx.Filter.Function.{FunctionId}
use iceberg_cxx.Filter.Stats.{bool_stats_unknown, BoolStats, GenericStats}
use iceberg_cxx.Filter.Registry.{EvaluateResult}
use iceberg_cxx.Filter.Registry.Table.{evaluate}
use iceberg_cxx.Filter.Visitor.{
  BoolStatsAggregator, add, aggregated, literal_stats, as_bool, scalar_over_array,
}
use iceberg_cxx.Filter.Rows.{OtherFunctions}
use iceberg_cxx.Filter.Rows.{
  Cell, datum, truth, truth_cell, connect, literal_cell, apply, over_array,
}
use iceberg_cxx.Filter.Soundness.{Describes, IsBound, Ordered, ShiftIsValid}
use iceberg_cxx.Filter.Soundness.Unary.{evaluate-Describes}
use iceberg_cxx.Filter.Soundness.Logic.{
  Covers, Covers-unknown, Covers-add, use_or-add, IsSettled, IsSettled-add, Covers-settled,
  Covers-truth, Describes-truth_cell,
}
use iceberg_cxx.Filter.Soundness.Regular.{OrderedArray}

pub read_bool :
    (g : GenericStats) (s : BoolStats) (c : Cell) (b : Option Bool)
    → as_bool g ≡ ok s
    → Describes g c
    → truth c ≡ some b
    → Covers s b
read_bool g s c b h d e = Covers-truth g s c b (ground arith) d e

pub Describes-aggregated :
    (a : BoolStatsAggregator) (g : GenericStats) (o : Option Bool) (x : Cell)
    → ◌≡◌ {A = EvaluateResult GenericStats} (ok (aggregated a)) (ok g)
    → some (truth_cell o) ≡ some x
    → Covers a.current_result o
    → Describes g x
Describes-aggregated a g o x h e c =
    subst₂ Describes (eq_of_ok-eq-ok h) (eq_of_some-eq-some e) (Describes-truth_cell a o c)

-- After the result is settled the rest of the array changes nothing.
over_array-settled :
    (shift : Option ℤ) (other : OtherFunctions) (fid : FunctionId) (lhs : Cell) (t : ValueType)
    (array : Array t) (a : BoolStatsAggregator) (o : Option Bool) (x : Cell)
    → IsSettled a
    → Covers a.current_result o
    → over_array shift other fid a.use_or lhs t array o ≡ some x
    → Describes (aggregated a) x
unfolding over_array
over_array-settled shift other fid lhs t [] a o x st c h =
    subst (Describes (aggregated a)) (eq_of_some-eq-some h) (Describes-truth_cell a o c)
over_array-settled shift other fid lhs t (elem ∷ elems) a o x st c h =
    let (e, p, h₁) = bind-eq-some (apply shift other fid (lhs ∷ literal_cell t elem ∷ [])) _ h in
    let (b, q, h₂) = bind-eq-some (truth e) _ h₁ in
    over_array-settled shift other fid lhs t elems a (connect a.use_or o b) x st
      (Covers-settled a o b st c) h₂

literal_stats-Describes :
    (t : ValueType) (v : PhysicalType t)
    → IsBound t v
    → Describes (literal_stats t v) (some (datum t v))
literal_stats-Describes t v e = (refl, (_, refl, (e.0, e.0)))

-- One element of the array, and the loop over the rest.
pub scalar_over_array-Describes :
    (shift : Option ℤ) (other : OtherFunctions) (fid : FunctionId) (l g : GenericStats) (lhs : Cell)
    (t : ValueType) (array : Array t) (a : BoolStatsAggregator) (o : Option Bool) (x : Cell)
    → ShiftIsValid shift
    → Ordered l.min_max
    → OrderedArray t array
    → Describes l lhs
    → Covers a.current_result o
    → scalar_over_array shift fid l t array a ≡ ok g
    → over_array shift other fid a.use_or lhs t array o ≡ some x
    → Describes g x
unfolding scalar_over_array over_array
scalar_over_array-Describes shift other fid l g lhs t [] a o x sv ol ord dl c h e =
    Describes-aggregated a g o x h e c
scalar_over_array-Describes shift other fid l g lhs t (none ∷ elems) a o x sv ol ord dl c h e =
    let (k, p, e₁) = bind-eq-some (apply shift other fid (lhs ∷ none ∷ [])) _ e in
    let (b, q, e₂) = bind-eq-some (truth k) _ e₁ in
    let a' = (add a bool_stats_unknown).0 in
    let c' = Covers-add a bool_stats_unknown o b c (Covers-unknown b) in
    let e' =
      subst (λ z. over_array shift other fid z lhs t elems (connect a.use_or o b) ≡ some x)
        (sym (use_or-add a bool_stats_unknown)) e₂ in
    elim (Bool-cases (add a bool_stats_unknown).1) [
      | inl s ↦
          subst (λ z. Describes z x) (eq_of_ok-eq-ok (rw s at h))
            (over_array-settled shift other fid lhs t elems a' (connect a.use_or o b) x
              (IsSettled-add a bool_stats_unknown s) c' e')
      | inr s ↦
          scalar_over_array-Describes shift other fid l g lhs t elems (add a bool_stats_unknown).0
            (connect a.use_or o b) x sv ol ord dl c' (rw s at h) e'
    ]
scalar_over_array-Describes shift other fid l g lhs t (some v ∷ elems) a o x sv ol ord dl c h e =
    let (k, p, e₁) = bind-eq-some (apply shift other fid (lhs ∷ some (datum t v) ∷ [])) _ e in
    let (b, q, e₂) = bind-eq-some (truth k) _ e₁ in
    let (r, m, h₁) = >>=-eq-ok (evaluate shift fid (l ∷ literal_stats t v ∷ [])) _ h in
    let (s, n, h₂) = >>=-eq-ok (as_bool r) _ h₁ in
    let d =
      evaluate-Describes shift other fid (l ∷ literal_stats t v ∷ []) r
        (lhs ∷ some (datum t v) ∷ []) k sv (ol, ((ord.0, ord.0), tt))
        (dl, (literal_stats-Describes t v ord.0, tt)) m p in
    let c' = Covers-add a s o b c (read_bool r s k b n d q) in
    let e' =
      subst (λ z. over_array shift other fid z lhs t elems (connect a.use_or o b) ≡ some x)
        (sym (use_or-add a s)) e₂ in
    elim (Bool-cases (add a s).1) [
      | inl z ↦
          subst (λ y. Describes y x) (eq_of_ok-eq-ok (rw z at h₂))
            (over_array-settled shift other fid lhs t elems (add a s).0 (connect a.use_or o b) x
              (IsSettled-add a s z) c' e')
      | inr z ↦
          scalar_over_array-Describes shift other fid l g lhs t elems (add a s).0
            (connect a.use_or o b) x sv ol ord.1 dl c' (rw z at h₂) e'
    ]
