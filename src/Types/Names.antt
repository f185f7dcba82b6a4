-- ===== src/Types/Names.antt =====
-- The names of the primitive types (iceberg/type.cpp) and the types of names.
use iceberg_cxx.Common.{◌≡◌, refl, none, some, ◌⊎◌, inl, inr, ap, sym, ◌∙◌, eq_of_some-eq-some}
use Prim.Native.String.{String}
use iceberg_cxx.Types.{
  TypeId, boolean, int, long, float, double, decimal, date, time, timestamp, timestamptz,
  timestamp_ns, timestamptz_ns, string, uuid, fixed, binary, struct, list, map, unknown,
  name_to_primitive_type, primitive_type_to_name,
}

-- A type has no name, or its name is read as the type.
names :
    (t : TypeId)
    → (primitive_type_to_name t ≡ none)
      ⊎ ((s : String) × (primitive_type_to_name t ≡ some s) × (name_to_primitive_type s ≡ some t))
unfolding name_to_primitive_type primitive_type_to_name
names boolean = inr ("boolean", refl, refl)
names int = inr ("int", refl, refl)
names long = inr ("long", refl, refl)
names float = inr ("float", refl, refl)
names double = inr ("double", refl, refl)
names date = inr ("date", refl, refl)
names time = inr ("time", refl, refl)
names timestamp = inr ("timestamp", refl, refl)
names timestamptz = inr ("timestamptz", refl, refl)
names timestamp_ns = inr ("timestamp_ns", refl, refl)
names timestamptz_ns = inr ("timestamptz_ns", refl, refl)
names string = inr ("string", refl, refl)
names uuid = inr ("uuid", refl, refl)
names binary = inr ("binary", refl, refl)
names decimal = inl refl
names fixed = inl refl
names struct = inl refl
names list = inl refl
names map = inl refl
names unknown = inl refl

-- The name that PrimitiveTypeToName answers for a type is read by NameToPrimitiveType as that type.
pub name_to_primitive_type-primitive_type_to_name :
    (t : TypeId) (s : String)
    → primitive_type_to_name t ≡ some s
    → name_to_primitive_type s ≡ some t
name_to_primitive_type-primitive_type_to_name t s h = elim (names t) [
  | inl e ↦ cc
  | inr (n, e, r) ↦ ap name_to_primitive_type (eq_of_some-eq-some (sym h ∙ e)) ∙ r
]
