-- ===== src/Filter/Soundness/Calls.antt =====
-- Comparisons by `Registry::Evaluate` (iceberg/filter/stats_filter/registry.cpp) beside those of
-- cells.
use mathlib.Core.Path.{subst, ap₂}
use iceberg_cxx.Common.{
  ◌≡◌, refl, sym, ap, ◌∙◌, bind-eq-some, eq_of_some-eq-some, inl, inr, true, ◌&&◌, ◌||◌, Option,
  none, some, List, [], ◌∷◌, arith, Bool-cases, ok, or_err, >>=-eq-ok, ◌>>=◌, All,
}
use iceberg_cxx.Common.Int.{ℤ}
use iceberg_cxx.Filter.Value.{ValueType, bool, PhysicalType, same_type}
use iceberg_cxx.Filter.Order.{comparators}
use iceberg_cxx.Filter.Order.Laws.{comparators-Laws}
use iceberg_cxx.Filter.Function.{
  FunctionId, less_than, less_than_or_equal_to, greater_than, greater_than_or_equal_to, equal,
  not_equal, same_function, same_function-eq,
}
use iceberg_cxx.Filter.Stats.{
  MinMaxStats, BoolStats, make, get, get-make, get_self, value_type, GenericStats,
}
use iceberg_cxx.Filter.Registry.{
  incorrect_type, BinaryEvaluatorEntry, evaluate_less, evaluate_greater,
  evaluate_less_than_or_equal_to, evaluate_greater_than_or_equal_to, evaluate_equal,
  evaluate_not_equal, evaluate_binary,
}
use iceberg_cxx.Filter.Registry.Bounds.{
  Within, evaluate_monotone_comparison-Within, lt-IsMonotone, gt-IsMonotone, le-IsMonotone,
  ge-IsMonotone, evaluate_equal-Within, evaluate_not_equal-Within,
}
use iceberg_cxx.Filter.Registry.Table.{
  register_all, compared_types, binary_evaluators, are_casts_before_invoke_allowed,
  cast_to_same_type_for_comparison, invoke_binary, invoke_pair, evaluate,
}
use iceberg_cxx.Filter.Rows.{
  Cell, Datum, datum, Promotion, promotion, promote, value_at, Comparison, lt, gt, le, ge, eq, ne,
  comparison, holds, value_at-datum, compare_values, compare_cells, type_of,
}
use iceberg_cxx.Filter.Soundness.{Holds, HoldsDatum, Describes, Ordered, ShiftIsValid}
use iceberg_cxx.Filter.Soundness.Casts.{
  promote_stats, promote_all-inversion, casts-promotion, count-promote, promote-HoldsDatum,
}

-- The evaluator of a comparison.
abbrev pub range_of : Comparison → (t : ValueType) → MinMaxStats t → MinMaxStats t → BoolStats
range_of lt = evaluate_less
range_of gt = evaluate_greater
range_of le = evaluate_less_than_or_equal_to
range_of ge = evaluate_greater_than_or_equal_to
range_of eq = evaluate_equal
range_of ne = evaluate_not_equal

-- The range of each comparison holds its result at any two values of the ranges compared.
pub range_of-Within :
    (c : Comparison) (t : ValueType) (l r : MinMaxStats t) (v w : PhysicalType t)
    → Within t l v
    → Within t r w
    → Within bool (range_of c t l r) (holds c (comparators t) v w)
range_of-Within lt t l r v w h k =
    evaluate_monotone_comparison-Within t _ l r v w (lt-IsMonotone (comparators-Laws t)) h k
range_of-Within gt t l r v w h k =
    evaluate_monotone_comparison-Within t _ l r v w (gt-IsMonotone (comparators-Laws t)) h k
range_of-Within le t l r v w h k =
    evaluate_monotone_comparison-Within t _ l r v w (le-IsMonotone (comparators-Laws t)) h k
range_of-Within ge t l r v w h k =
    evaluate_monotone_comparison-Within t _ l r v w (ge-IsMonotone (comparators-Laws t)) h k
range_of-Within eq t l r v w h k = evaluate_equal-Within t l r v w h k
range_of-Within ne t l r v w h k = evaluate_not_equal-Within t l r v w h k

-- An entry of the table is the evaluator of a comparison at one type.
abbrev pub IsComparison : BinaryEvaluatorEntry → Type 0
IsComparison e =
    (c : Comparison) × (comparison e.id ≡ some c)
    × ((t : ValueType) × (e.binary_evaluator ≡ evaluate_binary bool t (range_of c t)))

pub register_all-IsComparison : (ts : List ValueType) → All IsComparison (register_all ts)
unfolding comparison
register_all-IsComparison [] = tt
register_all-IsComparison (t ∷ ts) = (
  (lt, refl, (t, refl)),
  (
    (gt, refl, (t, refl)),
    (
      (le, refl, (t, refl)),
      (
        (ge, refl, (t, refl)),
        ((eq, refl, (t, refl)), ((ne, refl, (t, refl)), register_all-IsComparison ts)),
      ),
    ),
  ),
)

-- What a lookup calls is an entry of the table.
pub invoke_binary-IsComparison :
    (es : List BinaryEvaluatorEntry) (fid : FunctionId) (l r g : GenericStats)
    → All IsComparison es
    → invoke_binary es fid l r ≡ ok g
    → (c : Comparison) × (comparison fid ≡ some c)
      × ((t : ValueType) × (evaluate_binary bool t (range_of c t) l r ≡ ok g))
unfolding invoke_binary
invoke_binary-IsComparison [] fid l r g a h = cc
invoke_binary-IsComparison (e ∷ es) fid l r g ((c, p, (t, q)), rest) h =
    elim (Bool-cases (
      same_function e.id fid
      && (same_type (value_type l.min_max) e.lhs_type
          && same_type (value_type r.min_max) e.rhs_type))) [
            | inl hit ↦
                let run : e.binary_evaluator l r ≡ ok g = ground arith in
                let same : e.id ≡ fid = same_function-eq e.id fid (ground arith) in
                (c, subst (λ f. comparison f ≡ some c) same p, (t, sym (ap (λ k. k l r) q) ∙ run))
            | inr miss ↦ invoke_binary-IsComparison es fid l r g rest (ground arith)
          ]

-- A comparison of statistics, from its two successful reads.
pub evaluate_binary-inversion :
    (t : ValueType) (f : MinMaxStats t → MinMaxStats t → BoolStats) (l r g : GenericStats)
    → evaluate_binary bool t f l r ≡ ok g
    → (s : MinMaxStats t) × (u : MinMaxStats t) × (get t l.min_max ≡ some s)
      × (get t r.min_max ≡ some u)
      × (g.min_max ≡ make bool (f s u))
      × (g.count.contains_null ≡ (l.count.contains_null || r.count.contains_null))
      × (g.count.contains_non_null ≡ (l.count.contains_non_null || r.count.contains_non_null))
unfolding evaluate_binary
evaluate_binary-inversion t f l r g h =
    let (s, p, h') = >>=-eq-ok (or_err (get t l.min_max) incorrect_type) _ h in
    let (u, q, k) = >>=-eq-ok (or_err (get t r.min_max) incorrect_type) _ h' in
    (s, u, ground arith, ground arith, ground arith, ground arith, ground arith)

-- A comparison at one type: its range holds the result.
evaluate_binary-Holds :
    (c : Comparison) (t : ValueType) (l r g : GenericStats) (v w : PhysicalType t)
    → evaluate_binary bool t (range_of c t) l r ≡ ok g
    → Holds l t v
    → Holds r t w
    → Holds g bool (holds c (comparators t) v w)
evaluate_binary-Holds c t l r g v w run (ls, lm, lh) (rs, rm, rh) =
    let (s, u, p, q, m, _, _) = evaluate_binary-inversion t (range_of c t) l r g run in
    let e : s ≡ ls = eq_of_some-eq-some (sym p ∙ ap (get t) lm ∙ get_self t ls) in
    let f : u ≡ rs = eq_of_some-eq-some (sym q ∙ ap (get t) rm ∙ get_self t rs) in
    (
      range_of c t s u,
      m,
      range_of-Within c t s u v w (subst (λ k. Within t k v) (sym e) lh)
          (subst (λ k. Within t k w) (sym f) rh),
    )

-- The result of a comparison of two values is described.
evaluate_binary-Describes :
    (c : Comparison) (t : ValueType) (l r g : GenericStats) (d e : Datum) (x : Cell)
    → evaluate_binary bool t (range_of c t) l r ≡ ok g
    → Describes l (some d)
    → Describes r (some e)
    → compare_values c d e ≡ some x
    → Describes g x
unfolding compare_values
evaluate_binary-Describes c t l r g (datum a v) e x run (ln, lh) (rn, rh) h =
    let (w, p, q) = bind-eq-some (value_at a e) _ h in
    let (s, u, m, _, _, _, counted) = evaluate_binary-inversion t (range_of c t) l r g run in
    let same : t ≡ a = sym (ap value_type (get-make t l.min_max s m)) ∙ ap value_type lh.1 in
    let run' = subst (λ k. evaluate_binary bool k (range_of c k) l r ≡ ok g) same run in
    let rh' : Holds r a w = subst (HoldsDatum r) (value_at-datum a e w p) rh in
    subst (Describes g) (eq_of_some-eq-some q) (
      counted ∙ ap (λ b. b || r.count.contains_non_null) ln,
      evaluate_binary-Holds c a l r g v w run' lh rh',
    )

pub allowed_of_comparison :
    (fid : FunctionId) (c : Comparison)
    → comparison fid ≡ some c
    → are_casts_before_invoke_allowed fid ≡ true
unfolding comparison are_casts_before_invoke_allowed
allowed_of_comparison less_than c h = refl
allowed_of_comparison greater_than c h = refl
allowed_of_comparison less_than_or_equal_to c h = refl
allowed_of_comparison greater_than_or_equal_to c h = refl
allowed_of_comparison equal c h = refl
allowed_of_comparison not_equal c h = refl
allowed_of_comparison _ c h = cc

-- A successful comparison of statistics: both are cast by one promotion, and compared at one type.
abbrev pub Compared : Option ℤ → Comparison → GenericStats → GenericStats → GenericStats → Type 0
Compared shift c l r g =
    (p : Promotion) × (l' : GenericStats) × (r' : GenericStats) × (t : ValueType) × (promotion
        (value_type l.min_max) (value_type r.min_max)
      ≡ some p)
    × (promote_stats shift p l ≡ ok l')
    × (promote_stats shift p r ≡ ok r')
    × (evaluate_binary bool t (range_of c t) l' r' ≡ ok g)

pub evaluate-Compared :
    (shift : Option ℤ) (fid : FunctionId) (c : Comparison) (l r g : GenericStats)
    → comparison fid ≡ some c
    → evaluate shift fid (l ∷ r ∷ []) ≡ ok g
    → Compared shift c l r g
unfolding evaluate invoke_pair
evaluate-Compared shift fid c l r g q h =
    let allowed = allowed_of_comparison fid c q in
    let h' : (cast_to_same_type_for_comparison shift (l ∷ r ∷ []) >>= invoke_pair fid) ≡ ok g =
      rw allowed at h in
    let (gs, e, k) = >>=-eq-ok (cast_to_same_type_for_comparison shift (l ∷ r ∷ [])) _ h' in
    let (p, l', r', f, pl, pr, m) =
      promote_all-inversion shift _ l r gs (sym (casts-promotion shift l r) ∙ e) in
    let run : invoke_binary binary_evaluators fid l' r' ≡ ok g =
      subst (λ z. invoke_pair fid z ≡ ok g) m k in
    let (c', q', (t, b)) =
      invoke_binary-IsComparison binary_evaluators fid l' r' g
        (register_all-IsComparison compared_types) run in
    let same : c' ≡ c = eq_of_some-eq-some (sym q' ∙ q) in
    (
      p,
      l',
      r',
      t,
      f,
      pl,
      pr,
      subst (λ z. evaluate_binary bool t (range_of z t) l' r' ≡ ok g) same b,
    )

pub type_of-Holds :
    (g : GenericStats) (d : Datum) → HoldsDatum g d → value_type g.min_max ≡ type_of d
type_of-Holds g (datum t v) h = ap value_type h.1

-- A comparison of cells is described, null where a cell is null.
pub compare_cells-Describes :
    (shift : Option ℤ) (c : Comparison) (l r g : GenericStats) (cl cr x : Cell)
    → ShiftIsValid shift
    → Ordered l.min_max
    → Ordered r.min_max
    → Compared shift c l r g
    → Describes l cl
    → Describes r cr
    → compare_cells shift c cl cr ≡ some x
    → Describes g x
unfolding compare_cells
compare_cells-Describes shift c l r g none cr x sv ol or (p, l', r', t, _, pl, pr, run) dl dr h =
    let (_, _, _, _, _, nulls, _) = evaluate_binary-inversion t (range_of c t) l' r' g run in
    let kept = count-promote shift p l l' pl in
    subst (Describes g) (eq_of_some-eq-some h) (ground arith)
compare_cells-Describes shift c l r g (some d) none x sv ol or (p, l', r', t, _, pl, pr, run) dl dr
      h =
    let (_, _, _, _, _, nulls, _) = evaluate_binary-inversion t (range_of c t) l' r' g run in
    let kept = count-promote shift p r r' pr in
    subst (Describes g) (eq_of_some-eq-some h) (ground arith)
compare_cells-Describes shift c l r g (some d) (some e) x sv ol or (p, l', r', t, f, pl, pr, run) dl
      dr h =
    let (p', fp, h₁) = bind-eq-some (promotion (type_of d) (type_of e)) _ h in
    let (d', fd, h₂) = bind-eq-some (promote shift p' d) _ h₁ in
    let (e', fe, h₃) = bind-eq-some (promote shift p' e) _ h₂ in
    let same : p' ≡ p =
      eq_of_some-eq-some (
        sym fp ∙ ap₂ promotion (sym (type_of-Holds l d dl.1)) (sym (type_of-Holds r e dr.1)) ∙ f) in
    let kl = count-promote shift p l l' pl in
    let kr = count-promote shift p r r' pr in
    evaluate_binary-Describes c t l' r' g d' e' x run
      (
        ap (λ k. k.contains_non_null) kl ∙ dl.0,
        promote-HoldsDatum shift p l l' d d' sv ol dl.1 pl
            (subst (λ k. promote shift k d ≡ some d') same fd),
      )
      (
        ap (λ k. k.contains_non_null) kr ∙ dr.0,
        promote-HoldsDatum shift p r r' e e' sv or dr.1 pr
            (subst (λ k. promote shift k e ≡ some e') same fe),
      )
      h₃

-- A call on two arguments that succeeds is a comparison.
pub evaluate-comparison :
    (shift : Option ℤ) (fid : FunctionId) (l r g : GenericStats)
    → evaluate shift fid (l ∷ r ∷ []) ≡ ok g
    → (c : Comparison) × (comparison fid ≡ some c)
unfolding evaluate invoke_pair
evaluate-comparison shift fid l r g h = let (gs, _, k) = >>=-eq-ok _ (invoke_pair fid) h in go gs k
  where
    go :
        (gs : List GenericStats)
        → invoke_pair fid gs ≡ ok g
        → (c : Comparison) × (comparison fid ≡ some c)
    go [] k = cc
    go (a ∷ []) k = cc
    go (a ∷ b ∷ []) k =
        let (c, q, _) =
          invoke_binary-IsComparison binary_evaluators fid a b g
            (register_all-IsComparison compared_types) k in
        (c, q)
    go (a ∷ b ∷ c ∷ rest) k = cc
