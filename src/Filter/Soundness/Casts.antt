-- ===== src/Filter/Soundness/Casts.antt =====
-- The casts before a comparison: CastToSameTypeForComparison of
-- iceberg/filter/stats_filter/registry.cpp.
use mathlib.Core.Path.{subst, subst₂}
use iceberg_cxx.Common.{
  >>=-eq-ok, true, some, arith, ◌≡◌, refl, Option, none, some, List, [], ◌∷◌, ok, err, map_result,
}
use iceberg_cxx.Common.Int.{ℤ, pos, negsuc, abs, ◌+ℤ◌, ◌*ℤ◌, leb_ℤ}
use iceberg_cxx.Filter.Value.{
  PhysicalType, ValueType, bool, int2, int4, int8, float4, float8, numeric, string, date, timestamp,
  timestamptz, time, interval,
}
use iceberg_cxx.Filter.Stats.{
  value_type, GenericMinMaxStats, get, MinMaxStats, CountStats, make, GenericStats,
}
use iceberg_cxx.Filter.Registry.{
  evaluate_unary, evaluate_cast_date_timestamp, evaluate_cast_timestamptz_timestamp, micros_in_day,
  max_supported_date, max_supported_timestamp, unsupported_cast, EvaluateResult,
}
use iceberg_cxx.Filter.Registry.Table.{
  cast_to_int4, cast_to_int8, cast_to_float8, cast_to_timestamp, cast_to_same_type_for_comparison,
}
use iceberg_cxx.Filter.Soundness.{Holds, HoldsDatum, Ordered, ShiftIsValid}
use iceberg_cxx.Common.Int.Wrap.{int64, int64-small, abs32-small, abs64-small}
use iceberg_cxx.Common.{◌<◌, ◌^◌, ◌&&◌, Bool-cases, inl, inr}
use iceberg_cxx.Filter.Registry.Bounds.{Within}
use iceberg_cxx.Filter.Rows.{
  Datum, datum, timestamp_datum, promote, Promotion, as_is, to_int4, to_int8, to_float8,
  to_timestamp, promotion,
}

-- The cast of one argument's statistics.
abbrev pub promote_stats : Option ℤ → Promotion → GenericStats → EvaluateResult GenericStats
promote_stats shift as_is g = ok g
promote_stats shift to_int4 g = cast_to_int4 g
promote_stats shift to_int8 g = cast_to_int8 g
promote_stats shift to_float8 g = cast_to_float8 g
promote_stats shift to_timestamp g = cast_to_timestamp shift g

abbrev pub promote_all :
    Option ℤ → Option Promotion → List GenericStats → EvaluateResult (List GenericStats)
promote_all shift none gs = err unsupported_cast
promote_all shift (some p) gs = map_result (promote_stats shift p) gs

abbrev pub stats : (t : ValueType) → MinMaxStats t → CountStats → GenericStats
stats t s c = record { min_max = make t s; count = c }

-- For any two types, CastToSameTypeForComparison, which looks at the set of the types, makes the cast
-- that the table of promotions gives to the pair, and fails where the table has none.
pub cast_to_same_type_for_comparison-promotion :
    (shift : Option ℤ) (s t : ValueType) (l : MinMaxStats s) (r : MinMaxStats t) (c d : CountStats)
    → cast_to_same_type_for_comparison shift (stats s l c ∷ stats t r d ∷ [])
      ≡ promote_all shift (promotion s t) (stats s l c ∷ stats t r d ∷ [])
unfolding cast_to_same_type_for_comparison promotion
cast_to_same_type_for_comparison-promotion shift bool bool l r c d = refl
cast_to_same_type_for_comparison-promotion shift int2 bool l r c d = refl
cast_to_same_type_for_comparison-promotion shift int4 bool l r c d = refl
cast_to_same_type_for_comparison-promotion shift int8 bool l r c d = refl
cast_to_same_type_for_comparison-promotion shift float4 bool l r c d = refl
cast_to_same_type_for_comparison-promotion shift float8 bool l r c d = refl
cast_to_same_type_for_comparison-promotion shift numeric bool l r c d = refl
cast_to_same_type_for_comparison-promotion shift string bool l r c d = refl
cast_to_same_type_for_comparison-promotion shift date bool l r c d = refl
cast_to_same_type_for_comparison-promotion shift timestamp bool l r c d = refl
cast_to_same_type_for_comparison-promotion shift timestamptz bool l r c d = refl
cast_to_same_type_for_comparison-promotion shift time bool l r c d = refl
cast_to_same_type_for_comparison-promotion shift interval bool l r c d = refl
cast_to_same_type_for_comparison-promotion shift _ _ l r c d = refl

-- A cast of the statistics keeps the counts.
pub count-promote_stats :
    (shift : Option ℤ) (p : Promotion) (t : ValueType) (s : MinMaxStats t) (c : CountStats)
    (g : GenericStats)
    → promote_stats shift p (stats t s c) ≡ ok g
    → g.count ≡ c
unfolding cast_to_int4 cast_to_int8 cast_to_float8 cast_to_timestamp evaluate_unary get
count-promote_stats shift as_is t s c g h = ground arith
count-promote_stats shift to_int4 bool s c g h = ground arith
count-promote_stats shift to_int8 bool s c g h = ground arith
count-promote_stats shift to_float8 bool s c g h = ground arith
count-promote_stats shift to_timestamp bool s c g h = ground arith
count-promote_stats shift _ _ s c g h = ground arith

scale_le :
    (a b : ℤ) → leb_ℤ a b ≡ true → leb_ℤ (a *ℤ pos micros_in_day) (b *ℤ pos micros_in_day) ≡ true
unfolding ◌*ℤ◌
scale_le a b h = ground arith

shift_le : (a b c : ℤ) → leb_ℤ a b ≡ true → leb_ℤ (a +ℤ c) (b +ℤ c) ≡ true
unfolding ◌+ℤ◌
shift_le a b c h = ground arith

product_small :
    (a : ℤ)
    → leb_ℤ (pos (abs a)) (pos max_supported_date) ≡ true
    → int64 (a *ℤ pos micros_in_day) ≡ a *ℤ pos micros_in_day
unfolding ◌*ℤ◌
product_small (pos n) h = int64-small (pos n *ℤ pos micros_in_day) (ground arith)
product_small (negsuc n) h = int64-small (negsuc n *ℤ pos micros_in_day) (ground arith)

sum_small :
    (a b : ℤ)
    → leb_ℤ (pos (abs a)) (pos max_supported_timestamp) ≡ true
    → leb_ℤ (pos (abs b)) (pos max_supported_timestamp) ≡ true
    → int64 (a +ℤ b) ≡ a +ℤ b
unfolding ◌+ℤ◌
sum_small a b h k = int64-small (a +ℤ b) (ground arith)

-- A date in the range becomes a timestamp in the range, if it is one of 64 bits, and the ends of the
-- range are in the range of their type.
pub evaluate_cast_date_timestamp-Within :
    (s : MinMaxStats date) (v : ℤ) (d : Datum)
    → Ordered (make date s)
    → Within date s v
    → timestamp_datum (v *ℤ pos micros_in_day) ≡ some d
    → Within timestamp (evaluate_cast_date_timestamp s) (v *ℤ pos micros_in_day)
unfolding evaluate_cast_date_timestamp
evaluate_cast_date_timestamp-Within s v d ((_, low), (_, high)) (h, k) e =
    rw (evaluate_cast_date_timestamp, abs32-small s.min low, abs32-small s.max high)
      (elim (Bool-cases (
        leb_ℤ (pos (abs s.min)) (pos max_supported_date)
        && leb_ℤ (pos (abs s.max)) (pos max_supported_date))) [
          | inl fits ↦
              rw (fits, product_small s.min (ground arith), product_small s.max (ground arith))
                (scale_le s.min v h, scale_le v s.max k)
          | inr wide ↦ rw wide (ground arith)
        ])

pub evaluate_cast_timestamptz_timestamp-Within :
    (s : MinMaxStats timestamptz) (shift v : ℤ) (d : Datum)
    → Ordered (make timestamptz s)
    → abs shift < 2 ^ 63
    → Within timestamptz s v
    → timestamp_datum (v +ℤ shift) ≡ some d
    → Within timestamp (evaluate_cast_timestamptz_timestamp s shift) (v +ℤ shift)
unfolding evaluate_cast_timestamptz_timestamp
evaluate_cast_timestamptz_timestamp-Within s shift v d ((_, low), (_, high)) small (h, k) e =
    rw
      (
        evaluate_cast_timestamptz_timestamp,
        abs64-small s.min low,
        abs64-small s.max high,
        abs64-small shift small,
      )
      (elim (Bool-cases (
        leb_ℤ (pos (abs s.min)) (pos max_supported_timestamp)
        && leb_ℤ (pos (abs s.max)) (pos max_supported_timestamp)
        && leb_ℤ (pos (abs shift)) (pos max_supported_timestamp))) [
          | inl fits ↦
              rw
                (
                  fits,
                  sum_small s.min shift (ground arith) (ground arith),
                  sum_small s.max shift (ground arith) (ground arith),
                )
                (shift_le s.min v shift h, shift_le v s.max shift k)
          | inr wide ↦ rw wide (ground arith)
        ])

carry :
    {g g' : GenericStats} {d d' : Datum}
    → HoldsDatum g d
    → ◌≡◌ {A = EvaluateResult GenericStats} (ok g) (ok g')
    → some d ≡ some d'
    → HoldsDatum g' d'
carry {g} {g'} {d} {d'} h e f =
    let p : g ≡ g' = cc in let q : d ≡ d' = cc in subst₂ HoldsDatum p q h

timestamp_value :
    (g : GenericStats) (z : ℤ) (d : Datum)
    → (timestamp_datum z ≡ some d → Holds g timestamp z)
    → timestamp_datum z ≡ some d
    → HoldsDatum g d
timestamp_value g z d h e =
    let p : datum timestamp z ≡ d = ground arith in subst (HoldsDatum g) p (h e)

-- What holds a value holds it after the casts of both.
pub promote_stats-HoldsDatum :
    (shift : Option ℤ) (p : Promotion) (t : ValueType) (s : MinMaxStats t) (c : CountStats)
    (v : PhysicalType t) (g : GenericStats) (d : Datum)
    → ShiftIsValid shift
    → Ordered (make t s)
    → Within t s v
    → promote_stats shift p (stats t s c) ≡ ok g
    → promote shift p (datum t v) ≡ some d
    → HoldsDatum g d
unfolding cast_to_int4 cast_to_int8 cast_to_float8 cast_to_timestamp evaluate_unary get promote
promote_stats-HoldsDatum shift to_int4 int2 s c v g d sv o h e f = carry (_, refl, h) e f
promote_stats-HoldsDatum shift to_int8 int2 s c v g d sv o h e f = carry (_, refl, h) e f
promote_stats-HoldsDatum shift to_int8 int4 s c v g d sv o h e f = carry (_, refl, h) e f
promote_stats-HoldsDatum shift to_float8 float4 s c v g d sv o h e f = carry (_, refl, h) e f
promote_stats-HoldsDatum shift to_timestamp date s c v g d sv o h e f =
    let p : stats timestamp (evaluate_cast_date_timestamp s) c ≡ g = cc in
    subst (λ j. HoldsDatum j d) p
      (timestamp_value (stats timestamp (evaluate_cast_date_timestamp s) c) _ d
        (λ q. (_, refl, evaluate_cast_date_timestamp-Within s v d o h q)) f)
promote_stats-HoldsDatum (some k) to_timestamp timestamptz s c v g d sv o h e f =
    let p : stats timestamp (evaluate_cast_timestamptz_timestamp s k) c ≡ g = cc in
    subst (λ j. HoldsDatum j d) p
      (timestamp_value (stats timestamp (evaluate_cast_timestamptz_timestamp s k) c) _ d
        (λ q. (_, refl, evaluate_cast_timestamptz_timestamp-Within s k v d o sv h q)) f)
promote_stats-HoldsDatum none to_timestamp timestamptz s c v g d sv o h e f = cc
promote_stats-HoldsDatum shift as_is bool s c v g d sv o h e f = carry (s, refl, h) e f
promote_stats-HoldsDatum shift to_int4 bool s c v g d sv o h e f = carry (s, refl, h) e f
promote_stats-HoldsDatum shift to_int8 bool s c v g d sv o h e f = carry (s, refl, h) e f
promote_stats-HoldsDatum shift to_float8 bool s c v g d sv o h e f = carry (s, refl, h) e f
promote_stats-HoldsDatum shift to_timestamp bool s c v g d sv o h e f = carry (s, refl, h) e f
promote_stats-HoldsDatum shift _ _ s c v g d sv o h e f = carry (s, refl, h) e f

-- The same at any statistics.
pub casts-promotion :
    (shift : Option ℤ) (l r : GenericStats)
    → cast_to_same_type_for_comparison shift (l ∷ r ∷ [])
      ≡ promote_all shift (promotion (value_type l.min_max) (value_type r.min_max)) (l ∷ r ∷ [])
casts-promotion shift l r = go l.min_max r.min_max
  where
    go :
        (m n : GenericMinMaxStats)
        → cast_to_same_type_for_comparison shift
            (record l { min_max = m } ∷ record r { min_max = n } ∷ [])
          ≡ promote_all shift
              (promotion (value_type m) (value_type n))
              (record l { min_max = m } ∷ record r { min_max = n } ∷ [])
    go (make s m) (make t n) =
        cast_to_same_type_for_comparison-promotion shift s t m n l.count r.count

pub count-promote :
    (shift : Option ℤ) (p : Promotion) (l g : GenericStats)
    → promote_stats shift p l ≡ ok g
    → g.count ≡ l.count
count-promote shift p l g = go l.min_max
  where
    go :
        (m : GenericMinMaxStats)
        → promote_stats shift p (record l { min_max = m }) ≡ ok g
        → g.count ≡ l.count
    go (make s m) h = count-promote_stats shift p s m l.count g h

-- If the cast of a promotion (to int4, int8, float8 or timestamp, or none) answers statistics for
-- those of an argument, the range of the argument holds a value, and the promotion makes another
-- value of it, then the range of the answer holds the other value. No bound of the range is NaN; a
-- bound that is a date or a timestamptz, and the shift of the settings if it is set, fit 32, 64 and 64
-- bits and are not the least integer of their type.
pub promote-HoldsDatum :
    (shift : Option ℤ) (p : Promotion) (l g : GenericStats) (d e : Datum)
    → ShiftIsValid shift
    → Ordered l.min_max
    → HoldsDatum l d
    → promote_stats shift p l ≡ ok g
    → promote shift p d ≡ some e
    → HoldsDatum g e
promote-HoldsDatum shift p l g (datum t v) e sv o (s, m, h) run f =
    promote_stats-HoldsDatum shift p t s l.count v g e sv (subst Ordered m o) h
      (subst (λ k. promote_stats shift p (record l { min_max = k }) ≡ ok g) m run) f

-- Of two arguments, a successful cast gives two.
pub promote_all-inversion :
    (shift : Option ℤ) (o : Option Promotion) (l r : GenericStats) (gs : List GenericStats)
    → promote_all shift o (l ∷ r ∷ []) ≡ ok gs
    → (p : Promotion) × (l' : GenericStats) × (r' : GenericStats) × (o ≡ some p)
      × (promote_stats shift p l ≡ ok l')
      × (promote_stats shift p r ≡ ok r')
      × (gs ≡ l' ∷ r' ∷ [])
promote_all-inversion shift none l r gs h = cc
promote_all-inversion shift (some p) l r gs h =
    let (l', e, h') = >>=-eq-ok (promote_stats shift p l) _ h in
    let (rs, f, k) = >>=-eq-ok (map_result (promote_stats shift p) (r ∷ [])) _ h' in
    let (r', q, k') = >>=-eq-ok (promote_stats shift p r) _ f in (p, l', r', refl, e, q, cc)
