-- ===== src/Filter/Stats.antt =====
-- Minima and maxima of a column or an expression: iceberg/filter/stats_filter/stats.h. The type
-- parameter of a template is an explicit argument, and a `std::variant` with its tag is one
-- constructor that holds the tag.
use iceberg_cxx.Common.{
  refl, ◌≡◌, Bool, true, false, ◌&&◌, ◌||◌, not, Option, none, some, if◌then◌else◌,
}
use iceberg_cxx.Filter.Value.{
  ValueType, bool, int2, int4, int8, float4, float8, numeric, string, date, timestamp, timestamptz,
  time, interval, PhysicalType,
}
use iceberg_cxx.Filter.Order.{eqb_bool}

pub record MinMaxStats (t : ValueType) : Type 0 where
  pub min : PhysicalType t
  pub max : PhysicalType t

abbrev pub BoolStats : Type 0
BoolStats = MinMaxStats bool

-- `operator==`.
abbrev pub eqb_stats : BoolStats → BoolStats → Bool
eqb_stats l r = eqb_bool l.min r.min && eqb_bool l.max r.max

abbrev pub bool_stats_true : BoolStats
bool_stats_true = record { min = true; max = true }

abbrev pub bool_stats_false : BoolStats
bool_stats_false = record { min = false; max = false }

abbrev pub bool_stats_unknown : BoolStats
bool_stats_unknown = record { min = false; max = true }

-- `operator||`, `operator&&` and `operator!`.
unfoldable pub or_stats : BoolStats → BoolStats → BoolStats
or_stats l r =
    if eqb_stats l bool_stats_true || eqb_stats r bool_stats_true
    then bool_stats_true
    else (if eqb_stats l bool_stats_false && eqb_stats r bool_stats_false
        then bool_stats_false
        else bool_stats_unknown)

unfoldable pub and_stats : BoolStats → BoolStats → BoolStats
and_stats l r =
    if eqb_stats l bool_stats_true && eqb_stats r bool_stats_true
    then bool_stats_true
    else (if eqb_stats l bool_stats_false || eqb_stats r bool_stats_false
        then bool_stats_false
        else bool_stats_unknown)

unfoldable pub not_stats : BoolStats → BoolStats
not_stats s = record { min = not s.max; max = not s.min }

pub record CountStats : Type 0 where
  pub contains_null : Bool
  pub contains_non_null : Bool

abbrev pub one_value_to_stats : (t : ValueType) → PhysicalType t → MinMaxStats t
one_value_to_stats t v = record { min = v; max = v }

pub data GenericMinMaxStats : Type 0 where
  make : (t : ValueType) → MinMaxStats t → GenericMinMaxStats

abbrev pub value_type : GenericMinMaxStats → ValueType
value_type (make t s) = t

-- `std::get`, which fails on another alternative of the variant.
unfoldable pub get : (t : ValueType) → GenericMinMaxStats → Option (MinMaxStats t)
get bool (make bool s) = some s
get int2 (make int2 s) = some s
get int4 (make int4 s) = some s
get int8 (make int8 s) = some s
get float4 (make float4 s) = some s
get float8 (make float8 s) = some s
get numeric (make numeric s) = some s
get string (make string s) = some s
get date (make date s) = some s
get timestamp (make timestamp s) = some s
get timestamptz (make timestamptz s) = some s
get time (make time s) = some s
get interval (make interval s) = some s
get _ _ = none

pub record GenericStats : Type 0 where
  pub min_max : GenericMinMaxStats
  pub count : CountStats

-- The constructor of `GenericStats` with no counts.
abbrev pub uncounted : GenericMinMaxStats → GenericStats
uncounted m = record {
  min_max = m;
  count = record { contains_null = true; contains_non_null = true };
}

-- What `std::get` gives back is what the variant holds.
pub get-make :
    (t : ValueType) (g : GenericMinMaxStats) (s : MinMaxStats t) → get t g ≡ some s → g ≡ make t s
unfolding get
get-make bool (make bool s) s' h = cc
get-make int2 (make int2 s) s' h = cc
get-make int4 (make int4 s) s' h = cc
get-make int8 (make int8 s) s' h = cc
get-make float4 (make float4 s) s' h = cc
get-make float8 (make float8 s) s' h = cc
get-make numeric (make numeric s) s' h = cc
get-make string (make string s) s' h = cc
get-make date (make date s) s' h = cc
get-make timestamp (make timestamp s) s' h = cc
get-make timestamptz (make timestamptz s) s' h = cc
get-make time (make time s) s' h = cc
get-make interval (make interval s) s' h = cc
get-make _ _ _ h = cc

pub get_self : (t : ValueType) (s : MinMaxStats t) → get t (make t s) ≡ some s
unfolding get
get_self bool s = refl
get_self int2 s = refl
get_self int4 s = refl
get_self int8 s = refl
get_self float4 s = refl
get_self float8 s = refl
get_self numeric s = refl
get_self string s = refl
get_self date s = refl
get_self timestamp s = refl
get_self timestamptz s = refl
get_self time s = refl
get_self interval s = refl
