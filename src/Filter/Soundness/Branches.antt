-- ===== src/Filter/Soundness/Branches.antt =====
-- Ranges of both branches of a conditional: iceberg/filter/stats_filter/stats_filter.cpp.
use mathlib.Core.Path.{subst}
use iceberg_cxx.Common.{
  ◌≡◌, refl, sym, ap, ◌∙◌, inl, inr, Bool, true, false, Option, none, some, arith, Bool-cases, ok,
  ◌>>=◌, >>=-eq-ok, eq_of_some-eq-some,
}
use iceberg_cxx.Filter.Value.{ValueType, bool, PhysicalType}
use iceberg_cxx.Filter.Order.{comparators}
use iceberg_cxx.Filter.Stats.{
  not_stats, MinMaxStats, BoolStats, make, get, get-make, get_self, value_type, GenericMinMaxStats,
  GenericStats,
}
use iceberg_cxx.Filter.Registry.{EvaluateResult}
use iceberg_cxx.Filter.Registry.Bounds.{Within}
use iceberg_cxx.Filter.Visitor.{std_min, std_max, join, as_bool, if_result}
use iceberg_cxx.Filter.Order.Laws.{comparators-Laws}
use iceberg_cxx.Filter.Rows.{Cell, Datum, datum, truth, truth_cell, not_null}
use iceberg_cxx.Filter.Soundness.{HoldsDatum, Describes, Ordered}
use iceberg_cxx.Filter.Soundness.Unary.{retype}
use iceberg_cxx.Filter.Soundness.Calls.{type_of-Holds}
use iceberg_cxx.Filter.Soundness.Logic.{Covers, Covers-not_stats, Covers-truth}
use iceberg_cxx.Filter.Soundness.Regular.{join-inversion}

-- A value in the range of one branch is in the range of both.
module _ (t : ValueType) (s u : MinMaxStats t) (v : PhysicalType t) where
  open comparators-Laws t use {le_trans, le_of_lt, le_of_not_lt}

  pub joined : MinMaxStats t
  joined = record { min = std_min t s.min u.min; max = std_max t s.max u.max }

  joined-then : Within t s v → Within t joined v
  unfolding joined
  joined-then (h, k) = (
    elim (Bool-cases ((comparators t).lt u.min s.min)) [
      | inl e ↦ rw e (le_trans u.min s.min v (le_of_lt u.min s.min e) h)
      | inr e ↦ rw e h
    ],
    elim (Bool-cases ((comparators t).lt s.max u.max)) [
      | inl e ↦ rw e (le_trans v s.max u.max k (le_of_lt s.max u.max e))
      | inr e ↦ rw e k
    ],
  )

  joined-else :
      (comparators t).le s.min s.min ≡ true
      → (comparators t).le s.max s.max ≡ true
      → (comparators t).le u.min u.min ≡ true
      → (comparators t).le u.max u.max ≡ true
      → Within t u v
      → Within t joined v
  unfolding joined
  joined-else sl sh ul uh (h, k) = (
    elim (Bool-cases ((comparators t).lt u.min s.min)) [
      | inl e ↦ rw e h
      | inr e ↦ rw e (le_trans s.min u.min v (le_of_not_lt s.min u.min sl ul e) h)
    ],
    elim (Bool-cases ((comparators t).lt s.max u.max)) [
      | inl e ↦ rw e k
      | inr e ↦ rw e (le_trans v u.max s.max k (le_of_not_lt u.max s.max uh sh e))
    ],
  )

join-count :
    (l r : GenericMinMaxStats) (g : GenericStats)
    → join l r ≡ ok g
    → (g.count.contains_null ≡ true) × (g.count.contains_non_null ≡ true)
join-count (make t s) r g h =
    let (u, p, e) = join-inversion t s r g h in
    (sym (ap (λ k. k.count.contains_null) e), sym (ap (λ k. k.count.contains_non_null) e))

pub join-then :
    (l r g : GenericStats) (x : Cell)
    → join l.min_max r.min_max ≡ ok g
    → Describes l x
    → Describes g x
unfolding joined
join-then l r g none h d = (join-count l.min_max r.min_max g h).0
join-then l r g (some (datum t v)) h (_, (s, m, w)) =
    let (u, p, e) = join-inversion t s r.min_max g (subst (λ k. join k r.min_max ≡ ok g) m h) in
    (
      (join-count l.min_max r.min_max g h).1,
      (joined t s u v, sym (ap (λ k. k.min_max) e), joined-then t s u v w),
    )

pub join-else :
    (l : GenericMinMaxStats) (r g : GenericStats) (x : Cell)
    → Ordered l
    → Ordered r.min_max
    → join l r.min_max ≡ ok g
    → Describes r x
    → Describes g x
unfolding joined
join-else l r g none ol o h d = (join-count l r.min_max g h).0
join-else (make a s) r g (some d) ((sl, _), (sh, _)) o h (_, hd) =
    let (u, p, e) = join-inversion a s r.min_max g h in
    let at_a = get-make a r.min_max u p in
    let (v, q) = retype d a (sym (type_of-Holds r d hd) ∙ ap value_type at_a) in
    let (k, m, w) = subst (HoldsDatum r) q hd in
    let same : k ≡ u = eq_of_some-eq-some (sym (get_self a k) ∙ sym (ap (get a) m) ∙ p) in
    let ((ul, _), (uh, _)) = subst Ordered at_a o in
    (
      (join-count (make a s) r.min_max g h).1,
      subst (HoldsDatum g) (sym q) (
        joined a s u v,
        sym (ap (λ z. z.min_max) e),
        joined-else a s u v sl sh ul uh (subst (λ z. Within a z v) same w),
      ),
    )

-- A conditional whose condition is not null on the row.
pub if_result-Describes :
    (s : BoolStats) (b : Bool) (t e : EvaluateResult GenericStats) (g : GenericStats) (x : Cell)
    → Within bool s b
    → if_result s t e ≡ ok g
    → ((k : GenericStats) → t ≡ ok k → Ordered k.min_max)
    → ((k : GenericStats) → e ≡ ok k → Ordered k.min_max)
    → (b ≡ true → (k : GenericStats) → t ≡ ok k → Describes k x)
    → (b ≡ false → (k : GenericStats) → e ≡ ok k → Describes k x)
    → Describes g x
if_result-Describes s b t e g x w h ot oe dt de = elim (Bool-cases s.min) [
  | inl p ↦ dt (ground arith) g (rw p at h)
  | inr p ↦ elim (Bool-cases s.max) [
    | inr q ↦ de (ground arith) g (ground arith)
    | inl q ↦
        let h' : (t >>= λ k. e >>= λ j. join k.min_max j.min_max) ≡ ok g = ground arith in
        let (k, tk, h₁) = >>=-eq-ok t _ h' in
        let (j, ej, h₂) = >>=-eq-ok e _ h₁ in
        elim (Bool-cases b) [
          | inl yes_b ↦ join-then k j g x h₂ (dt yes_b k tk)
          | inr no_b ↦ join-else k.min_max j g x (ot k tk) (oe j ej) h₂ (de no_b j ej)
        ]
  ]
]

truth-ne-null : (d : Datum) → ¬ (truth (some d) ≡ some none)
truth-ne-null (datum bool v) h = cc
truth-ne-null (datum _ v) h = cc

-- A negation is described by the negated range.
pub negated-Describes :
    (g : GenericStats) (s : BoolStats) (c : Cell) (o : Option Bool)
    → as_bool g ≡ ok s
    → Describes g c
    → truth c ≡ some o
    → Describes (record g { min_max = make bool (not_stats s) }) (truth_cell (not_null o))
negated-Describes g s none none h d e = d
negated-Describes g s (some z) none h d e = absurd (truth-ne-null z e)
negated-Describes g s none (some b) h d e = cc
negated-Describes g s (some z) (some b) h d e = (
  d.0,
  (
    not_stats s,
    refl,
    Covers-not_stats s (some b) (Covers-truth g s (some z) (some b) (ground arith) d e),
  ),
)

-- A conditional is described where its condition is not null.
pub conditional-Describes :
    (s : BoolStats) (c : Cell) (b : Option Bool) (t e : EvaluateResult GenericStats)
    (g : GenericStats) (x : Cell) (et ee : Option Cell)
    → Covers s b
    → truth c ≡ some b
    → ¬ (c ≡ none)
    → if_result s t e ≡ ok g
    → ◌≡◌ {A = Option Cell} (elim b [ some true ↦ et | _ ↦ ee ]) (some x)
    → ((k : GenericStats) → t ≡ ok k → Ordered k.min_max)
    → ((k : GenericStats) → e ≡ ok k → Ordered k.min_max)
    → ((k : GenericStats) → t ≡ ok k → et ≡ some x → Describes k x)
    → ((k : GenericStats) → e ≡ ok k → ee ≡ some x → Describes k x)
    → Describes g x
conditional-Describes s none b t e g x et ee cov m known h q ot oe dt de = absurd (known refl)
conditional-Describes s (some d) none t e g x et ee cov m known h q ot oe dt de =
    absurd (truth-ne-null d m)
conditional-Describes s (some d) (some true) t e g x et ee cov m known h q ot oe dt de =
    if_result-Describes s true t e g x cov h ot oe (λ _ k u. dt k u q) (λ z. cc)
conditional-Describes s (some d) (some false) t e g x et ee cov m known h q ot oe dt de =
    if_result-Describes s false t e g x cov h ot oe (λ z. cc) (λ _ k u. de k u q)
