-- ===== src/Filter/Registry/Bounds.antt =====
-- Bounds of the comparisons of iceberg/filter/stats_filter/registry.cpp.
use iceberg_cxx.Common.{◌≡◌, Bool, true, ◌&&◌, not, arith}
use iceberg_cxx.Filter.Value.{ValueType, bool, PhysicalType}
use iceberg_cxx.Filter.Order.{Comparators, comparators}
use iceberg_cxx.Filter.Order.Laws.{Laws, comparators-Laws}
use iceberg_cxx.Filter.Stats.{MinMaxStats, BoolStats, and_stats, not_stats}
use iceberg_cxx.Filter.Registry.{evaluate_monotone_comparison, evaluate_equal, evaluate_not_equal}

-- The value lies between the minimum and the maximum.
abbrev pub Within : (t : ValueType) → MinMaxStats t → PhysicalType t → Type 0
Within t s v = ((comparators t).le s.min v ≡ true) × ((comparators t).le v s.max ≡ true)

module _ {A : Type 0} (le : A → A → Bool) (cmp : A → A → Bool) where
  -- The usage assumptions that the source states for a comparator.
  pub record IsMonotone : Type 0 where
    pub left :
        (x1 x x2 y : A) → le x1 x ≡ true → le x x2 ≡ true → cmp x1 y ≡ cmp x2 y → cmp x y ≡ cmp x1 y
    pub right :
        (x y1 y y2 : A) → le y1 y ≡ true → le y y2 ≡ true → cmp x y1 ≡ cmp x y2 → cmp x y ≡ cmp x y1

module _ {A : Type 0} {o : Comparators A} (laws : Laws o) where
  open laws use {le_trans, le_lt_trans, lt_le_trans}

  pub lt-IsMonotone : IsMonotone o.le o.lt
  lt-IsMonotone = record {
    left = λ x1 x x2 y h k e. ground (arith, le_lt_trans x1 x y h, le_lt_trans x x2 y k);
    right = λ x y1 y y2 h k e. ground (arith, lt_le_trans x y1 y, lt_le_trans x y y2);
  }

  pub gt-IsMonotone : IsMonotone o.le (λ a b. o.lt b a)
  gt-IsMonotone = record {
    left = λ x1 x x2 y h k e. ground (arith, lt_le_trans y x1 x, lt_le_trans y x x2);
    right = λ x y1 y y2 h k e. ground (arith, le_lt_trans y1 y x h, le_lt_trans y y2 x k);
  }

  pub le-IsMonotone : IsMonotone o.le o.le
  le-IsMonotone = record {
    left = λ x1 x x2 y h k e. ground (arith, le_trans x1 x y h, le_trans x x2 y k);
    right = λ x y1 y y2 h k e. ground (arith, le_trans x y1 y, le_trans x y y2);
  }

  pub ge-IsMonotone : IsMonotone o.le (λ a b. o.le b a)
  ge-IsMonotone = record {
    left = λ x1 x x2 y h k e. ground (arith, le_trans y x1 x, le_trans y x x2);
    right = λ x y1 y y2 h k e. ground (arith, le_trans y1 y x h, le_trans y y2 x k);
  }

-- For a comparator with the usage assumptions, the range that EvaluateMonotoneComparison computes
-- from two ranges holds the result of the comparator at any value of the one and any of the other.
pub evaluate_monotone_comparison-Within :
    (t : ValueType) (cmp : PhysicalType t → PhysicalType t → Bool) (l r : MinMaxStats t)
    (v w : PhysicalType t)
    → IsMonotone (comparators t).le cmp
    → Within t l v
    → Within t r w
    → Within bool (evaluate_monotone_comparison cmp l r) (cmp v w)
unfolding evaluate_monotone_comparison
evaluate_monotone_comparison-Within t cmp l r v w m (hl, hh) (kl, kh) = ground (
  arith,
  m.left l.min v l.max r.min hl hh,
  m.left l.min v l.max r.max hl hh,
  m.right v r.min w r.max kl kh,
)

and_stats-Within :
    (s r : BoolStats) (a b : Bool)
    → Within bool s a
    → Within bool r b
    → Within bool (and_stats s r) (a && b)
unfolding and_stats
and_stats-Within s r a b h k = ground arith

not_stats-Within : (s : BoolStats) (a : Bool) → Within bool s a → Within bool (not_stats s) (not a)
unfolding not_stats
not_stats-Within s a h = ground arith

module _ (t : ValueType) (l r : MinMaxStats t) (v w : PhysicalType t) (h : Within t l v)
    (k : Within t r w) where
  pub evaluate_equal-Within : Within bool (evaluate_equal t l r) ((comparators t).eq v w)
  evaluate_equal-Within =
      let laws = comparators-Laws t in
      rw (laws.eq_le v w) (
        and_stats-Within _ _ _ _
          (evaluate_monotone_comparison-Within t _ l r v w (le-IsMonotone laws) h k)
          (evaluate_monotone_comparison-Within t _ l r v w (ge-IsMonotone laws) h k))

  pub evaluate_not_equal-Within :
      Within bool (evaluate_not_equal t l r) (not ((comparators t).eq v w))
  evaluate_not_equal-Within = not_stats-Within _ _ evaluate_equal-Within
