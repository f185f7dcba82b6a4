-- ===== src/Types.antt =====
-- The types of columns and their names: iceberg/type.h and iceberg/type.cpp.
mod Names
mod Examples
use iceberg_cxx.Common.{
  ℕ, ◌≤◌, Bool, true, false, ◌&&◌, Option, none, some, List, [], ◌∷◌, ltb, leb, if◌then◌else◌,
}
use iceberg_cxx.Common.Int.{ℤ, pos, ltb_ℤ, leb_ℤ}
use Prim.Native.String.{String, compare, ◌++◌}
use Prim.Native.Nat.{Ordering}

pub data TypeId : Type 0 where
  boolean int long float double decimal date time timestamp timestamptz timestamp_ns
        timestamptz_ns :
      TypeId
  string uuid fixed binary struct list map unknown : TypeId

pub TypeId-discrete : Discrete TypeId
TypeId-discrete = hlevel

-- `==` on type ids and on names.
unfoldable pub same_type_id : TypeId → TypeId → Bool
unfolding TypeId-discrete
same_type_id s t = elim (TypeId-discrete s t) [ yes _ ↦ true | no _ ↦ false ]

abbrev pub same_name : String → String → Bool
same_name s t = elim (compare s t) [ Ordering.eq ↦ true | _ ↦ false ]

pub record StringToTypeEntry : Type 0 where
  pub name : String
  pub type_id : TypeId

abbrev entry : String → TypeId → StringToTypeEntry
entry s t = record { name = s; type_id = t }

unfoldable pub string_to_primitive_type_id : List StringToTypeEntry
string_to_primitive_type_id =
    entry "boolean" boolean
    ∷ entry "int" int
    ∷ entry "long" long
    ∷ entry "float" float
    ∷ entry "double" double
    ∷ entry "date" date
    ∷ entry "time" time
    ∷ entry "timestamp" timestamp
    ∷ entry "timestamptz" timestamptz
    ∷ entry "timestamp_ns" timestamp_ns
    ∷ entry "timestamptz_ns" timestamptz_ns
    ∷ entry "string" string
    ∷ entry "uuid" uuid
    ∷ entry "binary" binary
    ∷ []

-- The two loops over the table.
unfoldable pub find_by_name : List StringToTypeEntry → String → Option TypeId
find_by_name [] s = none
find_by_name (e ∷ es) s =
    let rest = find_by_name es s in if same_name e.name s then some e.type_id else rest

unfoldable pub find_by_type : List StringToTypeEntry → TypeId → Option String
unfolding same_type_id
find_by_type [] t = none
find_by_type (e ∷ es) t =
    let rest = find_by_type es t in if same_type_id e.type_id t then some e.name else rest

unfoldable pub name_to_primitive_type : String → Option TypeId
unfolding find_by_name string_to_primitive_type_id
name_to_primitive_type name_to_find = find_by_name string_to_primitive_type_id name_to_find

unfoldable pub primitive_type_to_name : TypeId → Option String
unfolding find_by_type string_to_primitive_type_id
primitive_type_to_name t = find_by_type string_to_primitive_type_id t

-- `Type` and its derived classes. A decimal and a fixed type have checked parameters.
pub data IcebergType : Type 0 where
  primitive_type : TypeId → IcebergType
  decimal_type : (precision scale : ℤ) → IcebergType
  fixed_type : (size : ℤ) → IcebergType
  list_type : (element_id : ℤ) → (element_required : Bool) → IcebergType → IcebergType

unfoldable pub type_id_of : IcebergType → TypeId
type_id_of (primitive_type t) = t
type_id_of (decimal_type precision scale) = decimal
type_id_of (fixed_type size) = fixed
type_id_of (list_type element_id required element) = list

abbrev max_precision : ℤ
max_precision = pos 38

-- The constructors' `Ensure`; an exception is `none`.
unfoldable pub make_decimal_type : ℤ → ℤ → Option IcebergType
make_decimal_type precision scale =
    if ltb_ℤ (pos 0) precision && leb_ℤ precision max_precision
    then some (decimal_type precision scale)
    else none

unfoldable pub make_fixed_type : ℤ → Option IcebergType
make_fixed_type size = if ltb_ℤ (pos 0) size then some (fixed_type size) else none

-- `ToString`, for `std::to_string` of the numbers. `value()` of a missing name throws.
unfoldable pub to_string : (ℤ → String) → IcebergType → Option String
unfolding primitive_type_to_name
to_string show (primitive_type t) = primitive_type_to_name t
to_string show (decimal_type precision scale) =
    some ("decimal(" ++ show precision ++ ", " ++ show scale ++ ")")
to_string show (fixed_type size) = some ("fixed(" ++ show size ++ ")")
to_string show (list_type element_id required element) = elim (to_string show element) [
  | none ↦ none
  | some s ↦ some ("list(" ++ s ++ ")")
]
