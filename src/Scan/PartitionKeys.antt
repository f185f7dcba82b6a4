-- ===== src/Scan/PartitionKeys.antt =====
-- `SerializeValue`, `SerializePartitionKey` and `SerializePartitionTuple` of iceberg/tea_scan.cpp. A
-- number is given by the bytes that `memcpy` copies, and a type by its text.
use iceberg_cxx.Common.{
  ℕ, zero, suc, ◌+◌, ◌/◌, ◌%◌, ◌≡◌, ◌≢◌, refl, Option, none, some, List, [], ◌∷◌, ◌++◌, arith, ltb,
  if◌then◌else◌, length, length-append,
}
use mathlib.Core.List.{append_assoc}
use iceberg_cxx.Filter.Value.{Bytes}

-- `AvroValueHolder`: the alternatives of the variant.
pub data AvroValue : Type 0 where
  null_value : AvroValue
  bool_value : Bytes → AvroValue
  int_value : Bytes → AvroValue
  long_value : Bytes → AvroValue
  float_value : Bytes → AvroValue
  double_value : Bytes → AvroValue
  string_value : Bytes → AvroValue
  bytes_value : Bytes → AvroValue
  fixed_value : Bytes → AvroValue

abbrev pub variant_index : AvroValue → ℕ
variant_index null_value = 0
variant_index (bool_value b) = 1
variant_index (int_value b) = 2
variant_index (long_value b) = 3
variant_index (float_value b) = 4
variant_index (double_value b) = 5
variant_index (string_value b) = 6
variant_index (bytes_value b) = 7
variant_index (fixed_value b) = 8

abbrev pub serialize_value : AvroValue → Bytes
serialize_value null_value = b'n' ∷ b'u' ∷ b'l' ∷ b'l' ∷ []
serialize_value (bool_value b) = b
serialize_value (int_value b) = b
serialize_value (long_value b) = b
serialize_value (float_value b) = b
serialize_value (double_value b) = b
serialize_value (string_value b) = b
serialize_value (bytes_value b) = b
serialize_value (fixed_value b) = b

pub record PartitionKey : Type 0 where
  pub name : Bytes
  pub value : AvroValue
  pub type_text : Option Bytes

-- `std::to_string`: the decimal digits, before those in `after`.
unfoldable pub decimal_loop : ℕ → ℕ → Bytes → Bytes
decimal_loop zero n after = after
decimal_loop (suc fuel) n after =
    let rest = decimal_loop fuel (n / 10) ((b'0' + n % 10) ∷ after) in
    if ltb n 10 then (b'0' + n) ∷ after else rest

unfoldable pub decimal : ℕ → Bytes
unfolding decimal_loop
decimal n = decimal_loop (suc n) n []

abbrev pub text_or_empty : Option Bytes → Bytes
text_or_empty none = []
text_or_empty (some text) = text

unfoldable pub serialize_partition_key : PartitionKey → Bytes
unfolding decimal
serialize_partition_key key =
    key.name
    ++ (text_or_empty key.type_text
        ++ (decimal (variant_index key.value) ++ serialize_value key.value))

unfoldable pub serialize_partition_tuple : List PartitionKey → Bytes
unfolding serialize_partition_key
serialize_partition_tuple [] = []
serialize_partition_tuple (key ∷ fields) =
    let text = serialize_partition_key key in
    text ++ (decimal (length text) ++ serialize_partition_tuple fields)

-- A field of strings.
abbrev pub string_field : ℕ → Bytes → PartitionKey
string_field name value = record {
  name = name ∷ [];
  value = string_value value;
  type_text = some (b's' ∷ b't' ∷ b'r' ∷ b'i' ∷ b'n' ∷ b'g' ∷ []);
}

-- What follows the name of a field of strings.
abbrev pub string_mark : Bytes
string_mark = b's' ∷ b't' ∷ b'r' ∷ b'i' ∷ b'n' ∷ b'g' ∷ b'6' ∷ []

abbrev pub two_fields : Bytes → Bytes → List PartitionKey
two_fields first second = string_field b'p' first ∷ string_field b'q' second ∷ []

abbrev pub long_second : Bytes → List PartitionKey
long_second middle =
    two_fields [] (middle ++ (b'1' ∷ b'0' ∷ b'7' ∷ b'q' ∷ (string_mark ++ b'z' ∷ b'z' ∷ [])))

abbrev pub long_first : Bytes → List PartitionKey
long_first middle = two_fields (b'8' ∷ b'q' ∷ (string_mark ++ middle)) (b'z' ∷ b'z' ∷ b'1' ∷ [])

-- Tuples of two string fields `p` and `q` that differ in both values are serialized to one text,
-- whatever the ninety bytes in the middle of the long value are.
pub serialize_partition_tuple-collision :
    (middle : Bytes)
    → length middle ≡ 90
    → (serialize_partition_tuple (long_second middle)
        ≡ serialize_partition_tuple (long_first middle))
      × (long_second middle ≢ long_first middle)
unfolding serialize_partition_tuple
serialize_partition_tuple-collision middle h =
    let rest = b'1' ∷ b'0' ∷ b'7' ∷ b'q' ∷ (string_mark ++ b'z' ∷ b'z' ∷ []) in
    let second : length (b'q' ∷ (string_mark ++ (middle ++ rest))) ≡ 111 =
      omega (arith, length-append middle rest) in
    let first : length (b'p' ∷ (string_mark ++ (b'8' ∷ b'q' ∷ (string_mark ++ middle)))) ≡ 107 =
      omega arith in
    (rw (second, first, append_assoc middle rest (b'1' ∷ b'1' ∷ b'1' ∷ [])) refl, λ e. cc)
