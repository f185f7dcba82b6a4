-- ===== src/Filter/Soundness/Expressions.antt =====
-- The visitor beside the value of an expression: iceberg/filter/stats_filter/stats_filter.cpp.
use mathlib.Core.Path.{subst, subst₂}
use iceberg_cxx.Common.{
  Result-cases, bind-eq-some, Result-cases, ◌≡◌, refl, sym, ap, ◌∙◌, inl, inr, Bool, true, false,
  not, Option, some, List, arith, Bool-cases, ok, >>=-eq-ok, eq_of_ok-eq-ok, eq_of_some-eq-some,
}
use Prim.Native.String.{String}
use iceberg_cxx.Common.Int.{ℤ}
use iceberg_cxx.Filter.Value.{ValueType}
use iceberg_cxx.Filter.Stats.{bool_stats_unknown, GenericStats}
use iceberg_cxx.Filter.Node.{Operation, and, or, Node, Nodes, nil, cons}
use iceberg_cxx.Filter.Visitor.{
  BoolStatsAggregator, add, aggregator, aggregated, StatsGetter, as_bool, visit, visit_all,
  visit_not, visit_logical,
}
use iceberg_cxx.Filter.Rows.{Row, OtherFunctions, eval}
use iceberg_cxx.Filter.Rows.{Cell, truth, connect, over_array, eval_all, eval_not, eval_connected}
use iceberg_cxx.Filter.Soundness.{Describes, DescribesAll, Ordered, AllOrdered, ShiftIsValid}
use iceberg_cxx.Filter.Soundness.Unary.{evaluate-Describes}
use iceberg_cxx.Filter.Soundness.Logic.{
  Covers, Covers-unknown, Covers-aggregator, Covers-add, use_or-add, IsSettled, IsSettled-add,
  Covers-settled, Describes-truth_cell,
}
use iceberg_cxx.Filter.Soundness.Regular.{
  IsRegular, AreRegular, variable, null, literal, call, over, conditional, logical, last, next,
  visit-Ordered, visit_all_ordered,
}
use iceberg_cxx.Filter.Soundness.Branches.{negated-Describes, conditional-Describes}
use iceberg_cxx.Filter.Soundness.Arrays.{
  read_bool, Describes-aggregated, scalar_over_array-Describes,
}

use_or-aggregator : (b : Bool) → (aggregator b).use_or ≡ b
unfolding aggregator
use_or-aggregator b = refl

-- What the statistics filter is given: each range that the getter returns describes the column's
-- cell on the row, and no bound of it is NaN, or a date or timestamptz that is the least integer.
abbrev pub Known : StatsGetter → Row → Type 0
Known getter row =
    (name : String) (t : ValueType) (g : GenericStats)
    → getter name t ≡ some g
    → Describes g (row name t) × Ordered g.min_max

module _ (shift : Option ℤ) (other : OtherFunctions) (row : Row) (getter : StatsGetter)
    (valid_shift : ShiftIsValid shift) (known : Known getter row) where
  ordered :
      {n : Node}
      → IsRegular shift other row n
      → (g : GenericStats) → visit shift getter n ≡ ok g
      → Ordered g.min_max
  ordered = visit-Ordered shift other row getter (λ name t g h. (known name t g h).1)

  all_ordered :
      {ns : Nodes}
      → AreRegular shift other row ns
      → (gs : List GenericStats) → visit_all shift getter ns ≡ ok gs
      → AllOrdered gs
  all_ordered = visit_all_ordered shift other row getter (λ name t g h. (known name t g h).1)

  -- After the result is settled the rest of the arguments changes nothing.
  connected_settled :
      (ns : Nodes) (a : BoolStatsAggregator) (o : Option Bool) (x : Cell)
      → IsSettled a
      → Covers a.current_result o
      → eval_connected shift other row a.use_or ns o ≡ some x
      → Describes (aggregated a) x
  unfolding eval
  connected_settled nil a o x st c h =
      subst (Describes (aggregated a)) (eq_of_some-eq-some h) (Describes-truth_cell a o c)
  connected_settled (cons n ns) a o x st c h =
      let (e, p, h₁) = bind-eq-some (eval shift other row n) _ h in
      let (b, q, h₂) = bind-eq-some (truth e) _ h₁ in
      connected_settled ns a (connect a.use_or o b) x st (Covers-settled a o b st c) h₂

  mutual
    unfolding visit eval

    visit-Describes' :
        {n : Node}
        → IsRegular shift other row n
        → (g : GenericStats) (x : Cell) → visit shift getter n ≡ ok g
        → eval shift other row n ≡ some x
        → Describes g x
    visit-Describes' (variable {t} {name}) g x h e =
        subst (Describes g) (eq_of_some-eq-some e) (known name t g (ground arith)).0
    visit-Describes' null g x h e = cc
    visit-Describes' (literal {t} {v} o) g x h e =
        subst₂ Describes (eq_of_ok-eq-ok h) (eq_of_some-eq-some e) (refl, (_, refl, (o.0, o.0)))
    visit-Describes' (call {f} {ns} rs) g x h e =
        let (gs, p, h₁) = >>=-eq-ok (visit_all shift getter ns) _ h in
        let (cs, q, e₁) = bind-eq-some (eval_all shift other row ns) _ e in
        evaluate-Describes shift other f.function_id gs g cs x valid_shift (all_ordered rs gs p)
          (visit_all_describes rs gs cs p q) h₁ e₁
    visit-Describes' (over {f} {use_or} {n} {t} {a} r o) g x h e =
        let (l, p, h₁) = >>=-eq-ok (visit shift getter n) _ h in
        let (lhs, q, e₁) = bind-eq-some (eval shift other row n) _ e in
        scalar_over_array-Describes shift other f.function_id l g lhs t a (aggregator use_or)
          (some (not use_or)) x valid_shift (ordered r l p) o (visit-Describes' r l lhs p q)
          (Covers-aggregator use_or) h₁
          (subst (λ z. over_array shift other f.function_id z lhs t a (some (not use_or)) ≡ some x)
            (sym (use_or-aggregator use_or)) e₁)
    visit-Describes' (conditional {c} {t} {e} rc rt re never_null) g x h q =
        let (gc, p, h₁) = >>=-eq-ok (visit shift getter c) _ h in
        let (s, m, h₂) = >>=-eq-ok (as_bool gc) _ h₁ in
        let (cell, k, q₁) = bind-eq-some (eval shift other row c) _ q in
        let (b, n, q₂) = bind-eq-some (truth cell) _ q₁ in
        let covered = read_bool gc s cell b m (visit-Describes' rc gc cell p k) n in
        conditional-Describes s cell b (visit shift getter t) (visit shift getter e) g x
          (eval shift other row t) (eval shift other row e) covered n
          (λ z. never_null (k ∙ ap some z)) h₂ q₂ (ordered rt) (ordered re)
          (λ j u w. visit-Describes' rt j x u w) (λ j u w. visit-Describes' re j x u w)
    visit-Describes' (logical Operation.not rs) g x h e = visit_not-Describes rs g x h e
    visit-Describes' (logical and {ns} rs) g x h e =
        visit_logical-Describes rs (aggregator false) g (some true) x (Covers-aggregator false) h (
          subst (λ z. eval_connected shift other row z ns (some true) ≡ some x)
            (sym (use_or-aggregator false)) e)
    visit-Describes' (logical or {ns} rs) g x h e =
        visit_logical-Describes rs (aggregator true) g (some false) x (Covers-aggregator true) h (
          subst (λ z. eval_connected shift other row z ns (some false) ≡ some x)
            (sym (use_or-aggregator true)) e)

    visit_all_describes :
        {ns : Nodes}
        → AreRegular shift other row ns
        → (gs : List GenericStats) (cs : List Cell) → visit_all shift getter ns ≡ ok gs
        → eval_all shift other row ns ≡ some cs
        → DescribesAll gs cs
    visit_all_describes last gs cs h e =
        subst₂ DescribesAll (eq_of_ok-eq-ok h) (eq_of_some-eq-some e) tt
    visit_all_describes (next {n} {ns} r rs) gs cs h e =
        let (s, p, h₁) = >>=-eq-ok (visit shift getter n) _ h in
        let (ss, q, h₂) = >>=-eq-ok (visit_all shift getter ns) _ h₁ in
        let (c, k, e₁) = bind-eq-some (eval shift other row n) _ e in
        let (ds, m, e₂) = bind-eq-some (eval_all shift other row ns) _ e₁ in
        subst₂ DescribesAll (eq_of_ok-eq-ok h₂) (eq_of_some-eq-some e₂)
          (visit-Describes' r s c p k, visit_all_describes rs ss ds q m)

    visit_not-Describes :
        {ns : Nodes}
        → AreRegular shift other row ns
        → (g : GenericStats) (x : Cell) → visit_not shift getter ns ≡ ok g
        → eval_not shift other row ns ≡ some x
        → Describes g x
    visit_not-Describes last g x h e = cc
    visit_not-Describes (next {n} r last) g x h e =
        let (s, p, h₁) = >>=-eq-ok (visit shift getter n) _ h in
        let (b, q, h₂) = >>=-eq-ok (as_bool s) _ h₁ in
        let (c, k, e₁) = bind-eq-some (eval shift other row n) _ e in
        let (o, m, e₂) = bind-eq-some (truth c) _ e₁ in
        let d = visit-Describes' r s c p k in
        subst₂ Describes (eq_of_ok-eq-ok h₂) (eq_of_some-eq-some e₂)
          (negated-Describes s b c o q d m)
    visit_not-Describes (next r (next r' rs)) g x h e = cc

    visit_logical-Describes :
        {ns : Nodes}
        → AreRegular shift other row ns
        → (a : BoolStatsAggregator) (g : GenericStats) (o : Option Bool) (x : Cell)
        → Covers a.current_result o
        → visit_logical shift getter ns a ≡ ok g
        → eval_connected shift other row a.use_or ns o ≡ some x
        → Describes g x
    visit_logical-Describes last a g o x c h e = Describes-aggregated a g o x h e c
    visit_logical-Describes (next {n} {ns} r rs) a g o x c h e =
        let (cell, k, e₁) = bind-eq-some (eval shift other row n) _ e in
        let (p, m, e₂) = bind-eq-some (truth cell) _ e₁ in
        elim (Result-cases (visit shift getter n)) [
          | inl (_, v) ↦
              visit_logical-Describes rs (add a bool_stats_unknown).0 g (connect a.use_or o p) x
                (Covers-add a bool_stats_unknown o p c (Covers-unknown p)) (rw v at h)
                (subst (λ z. eval_connected shift other row z ns (connect a.use_or o p) ≡ some x)
                  (sym (use_or-add a bool_stats_unknown)) e₂)
          | inr (s, v) ↦
              let (b, q, h₁) = >>=-eq-ok (as_bool s) _ (rw v at h) in
              let c' =
                Covers-add a b o p c (read_bool s b cell p q (visit-Describes' r s cell v k) m) in
              let e₃ =
                subst (λ z. eval_connected shift other row z ns (connect a.use_or o p) ≡ some x)
                  (sym (use_or-add a b)) e₂ in
              elim (Bool-cases (add a b).1) [
                | inl z ↦
                    subst (λ y. Describes y x) (eq_of_ok-eq-ok (rw z at h₁))
                      (connected_settled ns (add a b).0 (connect a.use_or o p) x
                        (IsSettled-add a b z) c' e₃)
                | inr z ↦
                    visit_logical-Describes rs (add a b).0 g (connect a.use_or o p) x c'
                      (rw z at h₁) e₃
              ]
        ]

  -- Where the visitor answers statistics of an expression and the expression has a value on the row,
  -- the statistics describe the value: their counts admit a null or a value, and their range has the
  -- type of the value and holds it. The expression has no condition of IF that is null on the row, and
  -- the getter returns only ranges that describe the row's columns. No constant and no bound of a range
  -- is NaN; those that are a date or a timestamptz, and the shift of the settings if it is set, fit 32,
  -- 64 and 64 bits and are not the least integer of their type.
  pub visit-Describes :
      {n : Node}
      → IsRegular shift other row n
      → (g : GenericStats) (x : Cell) → visit shift getter n ≡ ok g
      → eval shift other row n ≡ some x
      → Describes g x
  visit-Describes r g x h e = visit-Describes' r g x h e
