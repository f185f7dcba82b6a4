-- ===== src/Filter/Soundness/Regular.antt =====
-- Expressions whose ranges can be trusted, and what the visitor of
-- iceberg/filter/stats_filter/stats_filter.cpp computes for them.
use mathlib.Core.Path.{subst}
use iceberg_cxx.Common.{
  Result-cases, ◌≡◌, ap, inl, inr, Bool, true, false, Option, none, some, List, [], ◌∷◌, arith,
  Bool-cases, ok, ◌>>=◌, or_err, >>=-eq-ok, eq_of_ok-eq-ok,
}
use Prim.Native.String.{String}
use iceberg_cxx.Common.Int.{ℤ}
use iceberg_cxx.Filter.Value.{ValueType, PhysicalType, Array}
use iceberg_cxx.Filter.Order.{comparators}
use iceberg_cxx.Filter.Function.{FunctionId, FunctionSignature}
use iceberg_cxx.Filter.Stats.{
  not_stats, bool_stats_unknown, MinMaxStats, BoolStats, make, get, get-make, GenericMinMaxStats,
  GenericStats, uncounted,
}
use iceberg_cxx.Filter.Registry.{EvaluateResult, different_types}
use iceberg_cxx.Filter.Registry.Table.{evaluate}
use iceberg_cxx.Filter.Node.{
  Operation, and, or, Node, Nodes, variable_node, const_node, function_node,
  scalar_over_array_function_node, if_node, logical_node, nil, cons,
}
use iceberg_cxx.Filter.Visitor.{
  BoolStatsAggregator, add, aggregator, aggregated, StatsGetter, literal_stats, std_min, std_max,
  join, is_comparable, as_bool, if_result, scalar_over_array, visit, visit_all, visit_not,
  visit_logical,
}
use iceberg_cxx.Filter.Rows.{Row, OtherFunctions, eval}
use iceberg_cxx.Filter.Soundness.{IsBound, Ordered, AllOrdered}
use iceberg_cxx.Filter.Soundness.Ordered.{Ordered-bool, evaluate-Ordered}

-- No element of the array is NaN, or a date or timestamptz that is the least integer.
abbrev pub OrderedArray : (t : ValueType) → Array t → Type 0
OrderedArray t [] = Unit
OrderedArray t (none ∷ elems) = OrderedArray t elems
OrderedArray t (some v ∷ elems) = IsBound t v × OrderedArray t elems

-- On the row no condition of an IF is null, and no constant is NaN, or a date or timestamptz that is
-- the least integer.
module _ (shift : Option ℤ) (other : OtherFunctions) (row : Row) where
  mutual
    pub data IsRegular : Node → Type 0 where
      variable : {t : ValueType} {name : String} → IsRegular (variable_node t name)
      null : {t : ValueType} → IsRegular (const_node t none)
      literal :
          {t : ValueType} {v : PhysicalType t} → IsBound t v → IsRegular (const_node t (some v))
      call : {f : FunctionSignature} {ns : Nodes} → AreRegular ns → IsRegular (function_node f ns)
      over :
          {f : FunctionSignature} {use_or : Bool} {n : Node} {t : ValueType} {a : Array t}
          → IsRegular n
          → OrderedArray t a
          → IsRegular (scalar_over_array_function_node f use_or n t a)
      conditional :
          {c t e : Node}
          → IsRegular c
          → IsRegular t
          → IsRegular e
          → ¬ (eval shift other row c ≡ some none)
          → IsRegular (if_node c t e)
      logical : (o : Operation) {ns : Nodes} → AreRegular ns → IsRegular (logical_node o ns)

    pub data AreRegular : Nodes → Type 0 where
      last : AreRegular nil
      next : {n : Node} {ns : Nodes} → IsRegular n → AreRegular ns → AreRegular (cons n ns)

std_min-ordered :
    (t : ValueType) (a b : PhysicalType t) → IsBound t a → IsBound t b → IsBound t (std_min t a b)
std_min-ordered t a b h k = elim (Bool-cases ((comparators t).lt b a)) [
  | inl e ↦ rw e k
  | inr e ↦ rw e h
]

std_max-ordered :
    (t : ValueType) (a b : PhysicalType t) → IsBound t a → IsBound t b → IsBound t (std_max t a b)
std_max-ordered t a b h k = elim (Bool-cases ((comparators t).lt a b)) [
  | inl e ↦ rw e k
  | inr e ↦ rw e h
]

-- A range that two branches share, from the read of the second.
pub join-inversion :
    (t : ValueType) (s : MinMaxStats t) (m : GenericMinMaxStats) (g : GenericStats)
    → join (make t s) m ≡ ok g
    → (u : MinMaxStats t) × (get t m ≡ some u)
      × (uncounted (make t (record { min = std_min t s.min u.min; max = std_max t s.max u.max }))
          ≡ g)
unfolding join
join-inversion t s m g h =
    let (u, p, h') = >>=-eq-ok (or_err (get t m) different_types) _ h in
    (
      u,
      ground arith,
      elim (Bool-cases (is_comparable t)) [
        | inl e ↦ eq_of_ok-eq-ok (rw e at h')
        | inr e ↦ let h'' = rw e at h' in cc
      ],
    )

join-Ordered :
    (l r : GenericMinMaxStats) (g : GenericStats)
    → Ordered l
    → Ordered r
    → join l r ≡ ok g
    → Ordered g.min_max
join-Ordered (make t s) r g (p, q) o h =
    let (u, e, m) = join-inversion t s r g h in
    let (p', q') = subst Ordered (get-make t r u e) o in
    subst Ordered (ap (λ k. k.min_max) m)
      (std_min-ordered t s.min u.min p p', std_max-ordered t s.max u.max q q')

aggregated-Ordered :
    (a : BoolStatsAggregator) (g : GenericStats)
    → ◌≡◌ {A = EvaluateResult GenericStats} (ok (aggregated a)) (ok g)
    → Ordered g.min_max
aggregated-Ordered a g h =
    subst Ordered (ap (λ k. k.min_max) (eq_of_ok-eq-ok h)) (Ordered-bool a.current_result)

if_result-Ordered :
    (s : BoolStats) (t e : EvaluateResult GenericStats) (g : GenericStats)
    → ((k : GenericStats) → t ≡ ok k → Ordered k.min_max)
    → ((k : GenericStats) → e ≡ ok k → Ordered k.min_max)
    → if_result s t e ≡ ok g
    → Ordered g.min_max
if_result-Ordered s t e g ot oe h = elim (Bool-cases s.min) [
  | inl p ↦ ot g (rw p at h)
  | inr p ↦ elim (Bool-cases s.max) [
    | inl q ↦
        let h' : (t >>= λ k. e >>= λ j. join k.min_max j.min_max) ≡ ok g = ground arith in
        let (k, tk, h₁) = >>=-eq-ok t _ h' in
        let (j, ej, h₂) = >>=-eq-ok e _ h₁ in
        join-Ordered k.min_max j.min_max g (ot k tk) (oe j ej) h₂
    | inr q ↦ oe g (ground arith)
  ]
]

-- The loops over an array and over the arguments of AND and OR end with the aggregator's range.
scalar_over_array-Ordered :
    (shift : Option ℤ) (fid : FunctionId) (l : GenericStats) (t : ValueType) (array : Array t)
    (a : BoolStatsAggregator) (g : GenericStats)
    → scalar_over_array shift fid l t array a ≡ ok g
    → Ordered g.min_max
unfolding scalar_over_array
scalar_over_array-Ordered shift fid l t [] a g h = aggregated-Ordered a g h
scalar_over_array-Ordered shift fid l t (none ∷ elems) a g h =
    elim (Bool-cases (add a bool_stats_unknown).1) [
      | inl e ↦ aggregated-Ordered (add a bool_stats_unknown).0 g (rw e at h)
      | inr e ↦
          scalar_over_array-Ordered shift fid l t elems (add a bool_stats_unknown).0 g (rw e at h)
    ]
scalar_over_array-Ordered shift fid l t (some v ∷ elems) a g h =
    let (r, p, h₁) = >>=-eq-ok (evaluate shift fid (l ∷ literal_stats t v ∷ [])) _ h in
    let (s, q, h₂) = >>=-eq-ok (as_bool r) _ h₁ in
    elim (Bool-cases (add a s).1) [
      | inl e ↦ aggregated-Ordered (add a s).0 g (rw e at h₂)
      | inr e ↦ scalar_over_array-Ordered shift fid l t elems (add a s).0 g (rw e at h₂)
    ]

module _ (shift : Option ℤ) (other : OtherFunctions) (row : Row) (getter : StatsGetter)
    (ordered : (name : String) (t : ValueType) (g : GenericStats)
      → getter name t ≡ some g
      → Ordered g.min_max) where
  mutual
    unfolding visit

    visit-Ordered' :
        {n : Node}
        → IsRegular shift other row n
        → (g : GenericStats) → visit shift getter n ≡ ok g
        → Ordered g.min_max
    visit-Ordered' (variable {t} {name}) g h = ordered name t g (ground arith)
    visit-Ordered' null g h = cc
    visit-Ordered' (literal e) g h = subst (λ k. Ordered k.min_max) (eq_of_ok-eq-ok h) (e, e)
    visit-Ordered' (call {f} {ns} rs) g h =
        let (gs, p, h₁) = >>=-eq-ok (visit_all shift getter ns) _ h in
        evaluate-Ordered shift f.function_id gs g (visit_all_ordered rs gs p) h₁
    visit-Ordered' (over {f} {use_or} {n} {t} {a} r o) g h =
        let (l, p, h₁) = >>=-eq-ok (visit shift getter n) _ h in
        scalar_over_array-Ordered shift f.function_id l t a (aggregator use_or) g h₁
    visit-Ordered' (conditional {c} {t} {e} rc rt re known) g h =
        let (gc, p, h₁) = >>=-eq-ok (visit shift getter c) _ h in
        let (s, q, h₂) = >>=-eq-ok (as_bool gc) _ h₁ in
        if_result-Ordered s (visit shift getter t) (visit shift getter e) g (visit-Ordered' rt)
          (visit-Ordered' re) h₂
    visit-Ordered' (logical Operation.not {ns} rs) g h = visit_not-Ordered rs g h
    visit-Ordered' (logical and {ns} rs) g h = visit_logical-Ordered rs (aggregator false) g h
    visit-Ordered' (logical or {ns} rs) g h = visit_logical-Ordered rs (aggregator true) g h

    pub visit_all_ordered :
        {ns : Nodes}
        → AreRegular shift other row ns
        → (gs : List GenericStats) → visit_all shift getter ns ≡ ok gs
        → AllOrdered gs
    visit_all_ordered last gs h = subst AllOrdered (eq_of_ok-eq-ok h) tt
    visit_all_ordered (next {n} {ns} r rs) gs h =
        let (s, p, h₁) = >>=-eq-ok (visit shift getter n) _ h in
        let (ss, q, h₂) = >>=-eq-ok (visit_all shift getter ns) _ h₁ in
        subst AllOrdered (eq_of_ok-eq-ok h₂) (visit-Ordered' r s p, visit_all_ordered rs ss q)

    visit_not-Ordered :
        {ns : Nodes}
        → AreRegular shift other row ns
        → (g : GenericStats) → visit_not shift getter ns ≡ ok g
        → Ordered g.min_max
    visit_not-Ordered last g h = cc
    visit_not-Ordered (next {n} r last) g h =
        let (s, p, h₁) = >>=-eq-ok (visit shift getter n) _ h in
        let (b, q, h₂) = >>=-eq-ok (as_bool s) _ h₁ in
        subst (λ k. Ordered k.min_max) (eq_of_ok-eq-ok h₂) (Ordered-bool (not_stats b))
    visit_not-Ordered (next r (next r' rs)) g h = cc

    visit_logical-Ordered :
        {ns : Nodes}
        → AreRegular shift other row ns
        → (a : BoolStatsAggregator) (g : GenericStats) → visit_logical shift getter ns a ≡ ok g
        → Ordered g.min_max
    visit_logical-Ordered last a g h = aggregated-Ordered a g h
    visit_logical-Ordered (next {n} {ns} r rs) a g h = elim (Result-cases (visit shift getter n)) [
      | inl (e, p) ↦ visit_logical-Ordered rs (add a bool_stats_unknown).0 g (rw p at h)
      | inr (s, p) ↦
          let (b, q, h₁) = >>=-eq-ok (as_bool s) _ (rw p at h) in
          elim (Bool-cases (add a b).1) [
            | inl e ↦ aggregated-Ordered (add a b).0 g (rw e at h₁)
            | inr e ↦ visit_logical-Ordered rs (add a b).0 g (rw e at h₁)
          ]
    ]

  -- No range of a regular expression ends in NaN, or a range of dates or timestamptz values in the
  -- least integer.
  pub visit-Ordered :
      {n : Node}
      → IsRegular shift other row n
      → (g : GenericStats) → visit shift getter n ≡ ok g
      → Ordered g.min_max
  visit-Ordered r g h = visit-Ordered' r g h
