-- ===== src/Filter/Verdict.antt =====
-- What the verdict of `StatsFilter::ApplyFilter` says of the rows:
-- iceberg/filter/stats_filter/stats_filter.cpp.
use iceberg_cxx.Common.{
  ◌≡◌, refl, sym, ap, ◌∙◌, ◌⊎◌, inl, inr, Bool, true, false, Option, some, arith, Option-cases, ok,
  err,
}
use iceberg_cxx.Filter.Value.{bool}
use iceberg_cxx.Filter.Stats.{BoolStats, get, GenericStats}
use iceberg_cxx.Filter.Registry.{EvaluateResult}
use iceberg_cxx.Filter.Node.{Node}
use iceberg_cxx.Filter.Visitor.{
  StatsGetter, StatsFilter, MatchedRows, no_rows, some_rows, all_rows, visit, verdict, matched_rows,
  evaluate_filter, apply_filter,
}
use iceberg_cxx.Filter.Rows.{bool_cell, Row, OtherFunctions, eval, Selected}
use iceberg_cxx.Filter.Soundness.{ShiftIsValid}
use iceberg_cxx.Filter.Soundness.Logic.{Covers, Covers-truth}
use iceberg_cxx.Filter.Soundness.Regular.{IsRegular}
use iceberg_cxx.Filter.Soundness.Expressions.{Known, visit-Describes}

-- A verdict that is not `some_rows` comes from a range of Booleans.
matched_rows-inversion :
    (r : EvaluateResult GenericStats) (m : MatchedRows)
    → matched_rows r ≡ m
    → (m ≡ some_rows)
      ⊎ ((g : GenericStats) × (s : BoolStats) × (r ≡ ok g)
          × (get bool g.min_max ≡ some s)
          × (verdict s ≡ m))
matched_rows-inversion (err e) m h = inl (sym h)
matched_rows-inversion (ok g) m h = elim (Option-cases (get bool g.min_max)) [
  | inl e ↦ inl (ground arith)
  | inr (s, e) ↦ inr (g, s, refl, e, ground arith)
]

root_run :
    (f : StatsFilter) (getter : StatsGetter) (n : Node) (m : MatchedRows)
    → f.root ≡ some n
    → apply_filter f getter ≡ m
    → matched_rows (visit f.timestamp_to_timestamptz_shift_us getter n) ≡ m
unfolding apply_filter evaluate_filter
root_run f getter n m root h = sym (ap verdict_at root) ∙ h
  where
    verdict_at : Option Node → MatchedRows
    verdict_at r =
        apply_filter
          (record {
            root = r;
            timestamp_to_timestamptz_shift_us = f.timestamp_to_timestamptz_shift_us;
          })
          getter

module _ (f : StatsFilter) (other : OtherFunctions) (row : Row) (getter : StatsGetter) (n : Node)
    (root : f.root ≡ some n) (regular : IsRegular f.timestamp_to_timestamptz_shift_us other row n)
    (valid_shift : ShiftIsValid f.timestamp_to_timestamptz_shift_us)
    (known : Known getter row) where
  -- The verdict's range covers the value of the filter on the row.
  apply_filter-Covers :
      (m : MatchedRows) (b : Bool)
      → apply_filter f getter ≡ m
      → ¬ (m ≡ some_rows)
      → eval f.timestamp_to_timestamptz_shift_us other row n ≡ some (bool_cell b)
      → (s : BoolStats) × (verdict s ≡ m) × Covers s (some b)
  unfolding apply_filter
  apply_filter-Covers m b h decided e =
      let run : matched_rows (visit f.timestamp_to_timestamptz_shift_us getter n) ≡ m =
        root_run f getter n m root h in
      elim (matched_rows-inversion _ m run) [
        | inl p ↦ absurd (decided p)
        | inr (g, s, v, k, d) ↦ (
          s,
          d,
          Covers-truth g s (bool_cell b) (some b) k
              (visit-Describes f.timestamp_to_timestamptz_shift_us other row getter valid_shift
                known regular g (bool_cell b) v e)
              refl,
        )
      ]

  -- If the verdict is that no row matches, then the filter does not select the row.
  -- The filter is an expression whose conditions of IF are not null on the row, and the getter returns
  -- only ranges that describe the row's columns. No constant of the filter and no bound of a range is
  -- NaN; those that are a date or a timestamptz, and the shift of the settings if it is set, fit 32, 64
  -- and 64 bits and are not the least integer of their type.
  pub apply_filter-no_rows :
      apply_filter f getter ≡ no_rows
      → ¬ Selected (eval f.timestamp_to_timestamptz_shift_us other row n)
  apply_filter-no_rows h selected =
      let (s, d, c) = apply_filter-Covers no_rows true h (λ e. cc) selected in ground arith

  -- If the verdict is that all rows match, then the filter is not false on the row: it is true, null
  -- or undefined.
  -- The filter is an expression whose conditions of IF are not null on the row, and the getter returns
  -- only ranges that describe the row's columns. No constant of the filter and no bound of a range is
  -- NaN; those that are a date or a timestamptz, and the shift of the settings if it is set, fit 32, 64
  -- and 64 bits and are not the least integer of their type.
  pub apply_filter-all_rows :
      apply_filter f getter ≡ all_rows
      → ¬ (eval f.timestamp_to_timestamptz_shift_us other row n ≡ some (bool_cell false))
  apply_filter-all_rows h refused =
      let (s, d, c) = apply_filter-Covers all_rows false h (λ e. cc) refused in ground arith
