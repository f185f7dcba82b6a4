-- ===== src/Filter/Order.antt =====
-- The orders that the standard comparators `std::less`, `std::less_equal` and `==` give on the
-- physical types of iceberg/filter/representation/value.h. No comparison is registered for numerics
-- and intervals: their place is held by an order that tells no two values apart.
pub mod Laws
use iceberg_cxx.Common.{Bool, true, false, ◌&&◌, ◌||◌, not, [], ◌∷◌, ltb, ◌==◌}
use iceberg_cxx.Common.Int.{ℤ, ltb_ℤ, leb_ℤ, eqb_ℤ}
use iceberg_cxx.Filter.Value.{
  ValueType, bool, int2, int4, int8, float4, float8, numeric, string, date, timestamp, timestamptz,
  time, interval, Float, nan, at, Bytes, PhysicalType,
}

pub record Comparators (A : Type 0) : Type 0 where
  pub lt : A → A → Bool
  pub le : A → A → Bool
  pub eq : A → A → Bool

abbrev pub int_comparators : Comparators ℤ
int_comparators = record { lt = ltb_ℤ; le = leb_ℤ; eq = eqb_ℤ }

-- `false < true`.
abbrev pub ltb_bool : Bool → Bool → Bool
ltb_bool a b = not a && b

abbrev pub leb_bool : Bool → Bool → Bool
leb_bool a b = not a || b

abbrev pub eqb_bool : Bool → Bool → Bool
eqb_bool true b = b
eqb_bool false b = not b

abbrev pub bool_comparators : Comparators Bool
bool_comparators = record { lt = ltb_bool; le = leb_bool; eq = eqb_bool }

-- Every comparison with NaN is false.
abbrev pub ltb_float : Float → Float → Bool
ltb_float (at a) (at b) = ltb_ℤ a b
ltb_float _ _ = false

abbrev pub leb_float : Float → Float → Bool
leb_float (at a) (at b) = leb_ℤ a b
leb_float _ _ = false

abbrev pub eqb_float : Float → Float → Bool
eqb_float (at a) (at b) = eqb_ℤ a b
eqb_float _ _ = false

abbrev pub float_comparators : Comparators Float
float_comparators = record { lt = ltb_float; le = leb_float; eq = eqb_float }

-- Strings are compared byte by byte.
unfoldable pub ltb_bytes : Bytes → Bytes → Bool
ltb_bytes xs [] = false
ltb_bytes [] (y ∷ ys) = true
ltb_bytes (x ∷ xs) (y ∷ ys) = ltb x y || (x == y && ltb_bytes xs ys)

unfoldable pub leb_bytes : Bytes → Bytes → Bool
leb_bytes [] ys = true
leb_bytes (x ∷ xs) [] = false
leb_bytes (x ∷ xs) (y ∷ ys) = ltb x y || (x == y && leb_bytes xs ys)

unfoldable pub eqb_bytes : Bytes → Bytes → Bool
eqb_bytes [] [] = true
eqb_bytes [] (y ∷ ys) = false
eqb_bytes (x ∷ xs) [] = false
eqb_bytes (x ∷ xs) (y ∷ ys) = x == y && eqb_bytes xs ys

abbrev pub bytes_comparators : Comparators Bytes
bytes_comparators = record { lt = ltb_bytes; le = leb_bytes; eq = eqb_bytes }

abbrev pub unranked : {A : Type 0} → Comparators A
unranked = record { lt = λ a b. false; le = λ a b. true; eq = λ a b. true }

abbrev pub comparators : (t : ValueType) → Comparators (PhysicalType t)
comparators bool = bool_comparators
comparators int2 = int_comparators
comparators int4 = int_comparators
comparators int8 = int_comparators
comparators float4 = float_comparators
comparators float8 = float_comparators
comparators numeric = unranked
comparators string = bytes_comparators
comparators date = int_comparators
comparators timestamp = int_comparators
comparators timestamptz = int_comparators
comparators time = int_comparators
comparators interval = unranked
