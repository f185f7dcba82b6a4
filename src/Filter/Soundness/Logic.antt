-- ===== src/Filter/Soundness/Logic.antt =====
-- AND, OR and NOT over ranges of Booleans (iceberg/filter/stats_filter/stats.h and the aggregator of
-- stats_filter.cpp) against SQL's three-valued logic.
use mathlib.Core.Path.{subst}
use iceberg_cxx.Common.{
  ◌⊎◌, inl, inr, Bool-cases, ◌≡◌, refl, sym, ap, ◌∙◌, Bool, true, false, not, Option, none, some,
  arith, eq_of_some-eq-some,
}
use iceberg_cxx.Filter.Value.{bool}
use iceberg_cxx.Filter.Stats.{
  BoolStats, eqb_stats, bool_stats_true, bool_stats_false, bool_stats_unknown, or_stats, and_stats,
  not_stats, get, get_self, GenericStats,
}
use iceberg_cxx.Filter.Registry.Bounds.{Within}
use iceberg_cxx.Filter.Visitor.{BoolStatsAggregator, aggregator, add, aggregated}
use iceberg_cxx.Filter.Rows.{Cell, datum, truth, truth_cell, connect, not_null}
use iceberg_cxx.Filter.Soundness.{Describes}

-- The range holds the truth value; null is in every range.
abbrev pub Covers : BoolStats → Option Bool → Type 0
Covers s none = Unit {0}
Covers s (some b) = Within bool s b

pub Covers-unknown : (o : Option Bool) → Covers bool_stats_unknown o
Covers-unknown none = tt
Covers-unknown (some true) = (refl, refl)
Covers-unknown (some false) = (refl, refl)

pub Covers-not_stats :
    (s : BoolStats) (o : Option Bool) → Covers s o → Covers (not_stats s) (not_null o)
unfolding not_stats
Covers-not_stats s none h = tt
Covers-not_stats s (some b) h = ground arith

Covers-or_stats :
    (s r : BoolStats) (o p : Option Bool)
    → Covers s o
    → Covers r p
    → Covers (or_stats s r) (connect true o p)
unfolding or_stats
Covers-or_stats s r none none h k = tt
Covers-or_stats s r none (some true) h k = ground arith
Covers-or_stats s r none (some false) h k = tt
Covers-or_stats s r (some true) p h k = ground arith
Covers-or_stats s r (some false) none h k = tt
Covers-or_stats s r (some false) (some b) h k = ground arith

Covers-and_stats :
    (s r : BoolStats) (o p : Option Bool)
    → Covers s o
    → Covers r p
    → Covers (and_stats s r) (connect false o p)
unfolding and_stats
Covers-and_stats s r none none h k = tt
Covers-and_stats s r none (some true) h k = tt
Covers-and_stats s r none (some false) h k = ground arith
Covers-and_stats s r (some true) none h k = tt
Covers-and_stats s r (some true) (some b) h k = ground arith
Covers-and_stats s r (some false) p h k = ground arith

pub Covers-aggregator :
    (use_or : Bool) → Covers (aggregator use_or).current_result (some (not use_or))
unfolding aggregator
Covers-aggregator true = (refl, refl)
Covers-aggregator false = (refl, refl)

-- One step of the aggregator covers one step of the connective.
pub Covers-add :
    (a : BoolStatsAggregator) (r : BoolStats) (o p : Option Bool)
    → Covers a.current_result o
    → Covers r p
    → Covers (add a r).0.current_result (connect a.use_or o p)
unfolding add
Covers-add a r o p h k = elim (Bool-cases a.use_or) [
  | inl e ↦ rw (e, add) (Covers-or_stats a.current_result r o p h k)
  | inr e ↦ rw (e, add) (Covers-and_stats a.current_result r o p h k)
]

pub use_or-add : (a : BoolStatsAggregator) (r : BoolStats) → (add a r).0.use_or ≡ a.use_or
unfolding add
use_or-add a r = ground arith

Covers-true :
    (s : BoolStats) (o p : Option Bool)
    → eqb_stats s bool_stats_true ≡ true
    → Covers s o
    → Covers s (connect true o p)
Covers-true s none none e h = tt
Covers-true s none (some true) e h = ground arith
Covers-true s none (some false) e h = tt
Covers-true s (some true) p e h = h
Covers-true s (some false) none e h = tt
Covers-true s (some false) (some b) e h = ground arith

Covers-false :
    (s : BoolStats) (o p : Option Bool)
    → eqb_stats s bool_stats_false ≡ true
    → Covers s o
    → Covers s (connect false o p)
Covers-false s none none e h = tt
Covers-false s none (some true) e h = tt
Covers-false s none (some false) e h = ground arith
Covers-false s (some false) p e h = h
Covers-false s (some true) none e h = tt
Covers-false s (some true) (some b) e h = ground arith

-- The range is one value, and no argument changes it.
abbrev pub IsSettled : BoolStatsAggregator → Type 0
IsSettled a =
    ((a.use_or ≡ true) × (eqb_stats a.current_result bool_stats_true ≡ true))
    ⊎ ((a.use_or ≡ false) × (eqb_stats a.current_result bool_stats_false ≡ true))

pub IsSettled-add :
    (a : BoolStatsAggregator) (r : BoolStats) → (add a r).1 ≡ true → IsSettled (add a r).0
unfolding add
IsSettled-add a r h = ground arith

pub Covers-settled :
    (a : BoolStatsAggregator) (o p : Option Bool)
    → IsSettled a
    → Covers a.current_result o
    → Covers a.current_result (connect a.use_or o p)
Covers-settled a o p (inl (u, e)) h = rw u (Covers-true a.current_result o p e h)
Covers-settled a o p (inr (u, e)) h = rw u (Covers-false a.current_result o p e h)

-- A range that was read as one of Booleans covers the truth of the cell.
pub Covers-truth :
    (g : GenericStats) (s : BoolStats) (c : Cell) (b : Option Bool)
    → get bool g.min_max ≡ some s
    → Describes g c
    → truth c ≡ some b
    → Covers s b
Covers-truth g s none b e d h = subst (Covers s) (eq_of_some-eq-some h) tt
Covers-truth g s (some (datum bool v)) b e d h =
    let (ls, m, w) = d.1 in
    let same : ls ≡ s = eq_of_some-eq-some (sym (get_self bool ls) ∙ sym (ap (get bool) m) ∙ e) in
    subst (Covers s) (eq_of_some-eq-some h) (subst (λ k. Within bool k v) same w)
Covers-truth g s (some (datum _ v)) b e d h = cc

-- What covers a truth value describes its cell.
pub Describes-truth_cell :
    (a : BoolStatsAggregator) (o : Option Bool)
    → Covers a.current_result o
    → Describes (aggregated a) (truth_cell o)
Describes-truth_cell a none h = refl
Describes-truth_cell a (some b) h = (refl, (a.current_result, refl, h))
