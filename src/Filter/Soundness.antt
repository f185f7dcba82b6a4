-- ===== src/Filter/Soundness.antt =====
-- What it means that statistics describe a cell, for iceberg/filter/stats_filter.
pub mod Casts
pub mod Calls
pub mod Unary
pub mod Logic
pub mod Ordered
pub mod Regular
pub mod Branches
pub mod Arrays
pub mod Expressions
mod Examples
use iceberg_cxx.Common.{◌≡◌, refl, true, Option, none, some, List, [], ◌∷◌}
use iceberg_cxx.Common.{◌<◌, ◌^◌, All}
use iceberg_cxx.Common.Int.{ℤ, abs}
use iceberg_cxx.Filter.Order.{comparators}
use iceberg_cxx.Filter.Value.{ValueType, PhysicalType, date, timestamptz}
use iceberg_cxx.Filter.Stats.{MinMaxStats, make, GenericStats, GenericMinMaxStats}
use iceberg_cxx.Filter.Registry.Bounds.{Within}
use iceberg_cxx.Filter.Rows.{Cell, Datum, datum}

-- The range has the value's type and holds it.
abbrev pub Holds : GenericStats → (t : ValueType) → PhysicalType t → Type 0
Holds g t v = (s : MinMaxStats t) × (g.min_max ≡ make t s) × Within t s v

abbrev pub HoldsDatum : GenericStats → Datum → Type 0
HoldsDatum g (datum t v) = Holds g t v

-- The counts admit the cell, and the range holds its value.
abbrev pub Describes : GenericStats → Cell → Type 0
Describes g none = g.count.contains_null ≡ true
Describes g (some d) = (g.count.contains_non_null ≡ true) × HoldsDatum g d

abbrev pub DescribesAll : List GenericStats → List Cell → Type 0
DescribesAll [] [] = Unit
DescribesAll (g ∷ gs) (c ∷ cs) = Describes g c × DescribesAll gs cs
DescribesAll _ _ = ⊥

-- A date is an integer of 32 bits and a timestamptz one of 64, and neither is the least of them, of
-- which `abs` is negative.
abbrev pub InRange : (t : ValueType) → PhysicalType t → Type 0
InRange date v = abs v < 2 ^ 31
InRange timestamptz v = abs v < 2 ^ 63
InRange _ v = Unit

-- A value that is at most itself, which NaN is not, and that is in the range of its type.
abbrev pub IsBound : (t : ValueType) → PhysicalType t → Type 0
IsBound t v = ((comparators t).le v v ≡ true) × InRange t v

abbrev pub Ordered : GenericMinMaxStats → Type 0
Ordered (make t s) = IsBound t s.min × IsBound t s.max

abbrev pub AllOrdered : List GenericStats → Type 0
AllOrdered = All (λ g. Ordered g.min_max)

-- The shift of the settings is of 64 bits, and not the least integer.
abbrev pub ShiftIsValid : Option ℤ → Type 0
ShiftIsValid none = Unit
ShiftIsValid (some k) = abs k < 2 ^ 63
