-- ===== src/Filter/Value.antt =====
-- The value types of filter expressions and their physical types: iceberg/filter/representation/
-- value.h. A float is NaN or its place in the order of the doubles (both zeros at one place, and a
-- float4 at the place of the double of the same value), since the statistics only compare floats.
use iceberg_cxx.Common.{ℕ, ◌≡◌, Bool, true, false, List, Option, arith}
use iceberg_cxx.Common.Int.{ℤ}

pub data ValueType : Type 0 where
  bool int2 int4 int8 float4 float8 numeric string date timestamp timestamptz time interval :
      ValueType

pub data Float : Type 0 where
  nan : Float
  at : ℤ → Float

-- The bytes of a string or of a numeric's digits.
abbrev pub Bytes : Type 0
Bytes = List ℕ

pub record IntervalMonthMicro : Type 0 where
  pub months : ℤ
  pub micros : ℤ

abbrev pub PhysicalType : ValueType → Type 0
PhysicalType bool = Bool
PhysicalType int2 = ℤ
PhysicalType int4 = ℤ
PhysicalType int8 = ℤ
PhysicalType float4 = Float
PhysicalType float8 = Float
PhysicalType numeric = Bytes
PhysicalType string = Bytes
PhysicalType date = ℤ
PhysicalType timestamp = ℤ
PhysicalType timestamptz = ℤ
PhysicalType time = ℤ
PhysicalType interval = IntervalMonthMicro

abbrev pub PhysicalNullableType : ValueType → Type 0
PhysicalNullableType t = Option (PhysicalType t)

abbrev pub Array : ValueType → Type 0
Array t = List (PhysicalNullableType t)

pub ValueType-discrete : Discrete ValueType
ValueType-discrete = hlevel

-- `==` on the tags.
unfoldable pub same_type : ValueType → ValueType → Bool
unfolding ValueType-discrete
same_type s t = elim (ValueType-discrete s t) [ yes _ ↦ true | no _ ↦ false ]

pub same_type-eq : (s t : ValueType) → same_type s t ≡ true → s ≡ t
unfolding same_type
same_type-eq s t h = ground arith
