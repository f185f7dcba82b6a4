-- ===== src/DeletionVector/Blob.antt =====
-- The blob of a deletion vector: the constructor that reads one and GetBlob of
-- iceberg/deletion_vector.cpp. The checks stand in the order of the code. Of the metadata there is
-- what the checks read, and of the object its bitmap.
use iceberg_cxx.Common.{
  ℕ, ◌+◌, ◌-◌, ◌*◌, ◌/◌, ◌%◌, Bool, true, false, not, ◌&&◌, ◌||◌, Option, none, some, List, [], ◌∷◌,
  ◌++◌, ltb, leb, ◌==◌, if◌then◌else◌, length, take, drop, Result, ok, err, ◌>>=◌, or_err,
}
use iceberg_cxx.Filter.Value.{Bytes}
use iceberg_cxx.Filter.Order.{eqb_bytes}
use iceberg_cxx.DeletionVector.{BitmapLibrary, cardinality_in}

pub record BlobMetadata : Type 0 where
  pub type : Bytes
  pub properties : List (Bytes × Bytes)
  pub compression_codec : Option Bytes
  pub length : ℕ

pub data BlobError : Type 0 where
  invalid_blob_type no_referenced_data_file codec_in_properties codec_in_metadata : BlobError
  wrong_metadata_length too_small wrong_length wrong_magic not_deserialized : BlobError
  no_cardinality cardinality_is_no_number wrong_cardinality wrong_checksum : BlobError

abbrev pub blob_type : Bytes
blob_type =
    100 ∷ 101 ∷ 108 ∷ 101 ∷ 116 ∷ 105 ∷ 111 ∷ 110 ∷ 45 ∷ 118 ∷ 101 ∷ 99 ∷ 116 ∷ 111 ∷ 114 ∷ 45 ∷ 118
    ∷ 49 ∷ []

abbrev pub referenced_data_file : Bytes
referenced_data_file =
    114 ∷ 101 ∷ 102 ∷ 101 ∷ 114 ∷ 101 ∷ 110 ∷ 99 ∷ 101 ∷ 100 ∷ 45 ∷ 100 ∷ 97 ∷ 116 ∷ 97 ∷ 45 ∷ 102
    ∷ 105 ∷ 108 ∷ 101 ∷ []

abbrev pub compression_codec_name : Bytes
compression_codec_name =
    99 ∷ 111 ∷ 109 ∷ 112 ∷ 114 ∷ 101 ∷ 115 ∷ 115 ∷ 105 ∷ 111 ∷ 110 ∷ 45 ∷ 99 ∷ 111 ∷ 100 ∷ 101 ∷ 99
    ∷ []

abbrev pub cardinality_name : Bytes
cardinality_name = 99 ∷ 97 ∷ 114 ∷ 100 ∷ 105 ∷ 110 ∷ 97 ∷ 108 ∷ 105 ∷ 116 ∷ 121 ∷ []

abbrev pub magic_sequence : Bytes
magic_sequence = 209 ∷ 211 ∷ 57 ∷ 100 ∷ []

-- `find` of the map of properties.
unfoldable pub find_property : Bytes → List (Bytes × Bytes) → Option Bytes
find_property name [] = none
find_property name ((key, value) ∷ rest) =
    if eqb_bytes key name then some value else find_property name rest

abbrev pub has_property : Option Bytes → Bool
has_property none = false
has_property (some value) = true

-- `std::stoull`: blanks, a sign, and digits up to the first byte that is none; `none` is an exception.
abbrev is_digit : ℕ → Bool
is_digit c = leb 48 c && leb c 57

abbrev is_blank : ℕ → Bool
is_blank c = c == 32 || (leb 9 c && leb c 13)

unfoldable pub read_digits : ℕ → Bytes → ℕ
read_digits n [] = n
read_digits n (c ∷ cs) = if is_digit c then read_digits (10 * n + (c - 48)) cs else n

abbrev in_64_bits : ℕ → Option ℕ
in_64_bits n = if ltb n 18446744073709551616 then some n else none

unfoldable pub read_number : Bytes → Option ℕ
unfolding read_digits
read_number [] = none
read_number (c ∷ cs) = if is_digit c then in_64_bits (read_digits 0 (c ∷ cs)) else none

abbrev negated : Option ℕ → Option ℕ
negated none = none
negated (some n) = some ((18446744073709551616 - n) % 18446744073709551616)

unfoldable pub stoull : Bytes → Option ℕ
unfolding read_number
stoull [] = none
stoull (c ∷ cs) =
    if is_blank c
    then stoull cs
    else if c == 43
    then read_number cs
    else if c == 45
    then negated (read_number cs)
    else read_number (c ∷ cs)

-- `memcpy` of a number of 32 bits to bytes, and `std::reverse`.
unfoldable pub ui_to_little_endian_bytes : ℕ → Bytes
ui_to_little_endian_bytes v = v / 16777216 % 256 ∷ v / 65536 % 256 ∷ v / 256 % 256 ∷ v % 256 ∷ []

-- `std::reverse` of four bytes, and `memcpy` of them to a number. The callers have four bytes.
unfoldable pub bytes_to_ui : Bytes → ℕ
bytes_to_ui (a ∷ b ∷ c ∷ d ∷ []) = d + 256 * c + 65536 * b + 16777216 * a
bytes_to_ui _ = 0

-- `substr`, where the first position is in the string.
abbrev pub substr : Bytes → ℕ → ℕ → Bytes
substr s pos count = take count (drop pos s)

-- `Ensure`.
abbrev pub ensure : Bool → BlobError → Result BlobError Unit
ensure true e = ok tt
ensure false e = err e

unfoldable pub get_len : Bytes → Result BlobError ℕ
unfolding bytes_to_ui
get_len blob = do
  _ ← ensure (bytes_to_ui (substr blob 0 4) + 8 == length blob) wrong_length
  ok (bytes_to_ui (substr blob 0 4))

unfoldable pub validate_magic_sequence : Bytes → Result BlobError Unit
validate_magic_sequence blob = ensure (eqb_bytes (substr blob 4 4) magic_sequence) wrong_magic

unfoldable pub get_check_sum : Bytes → ℕ
unfolding bytes_to_ui
get_check_sum blob = bytes_to_ui (substr blob (length blob - 4) 4)

abbrev pub uint32_max : ℕ
uint32_max = 4294967295

abbrev pub uint64_max : ℕ
uint64_max = 18446744073709551615

module _ (lib : BitmapLibrary) where
  -- The checks of the metadata.
  unfoldable pub check_metadata : BlobMetadata → Bytes → Result BlobError Unit
  unfolding find_property
  check_metadata m blob = do
    _ ← ensure (eqb_bytes m.type blob_type) invalid_blob_type
    _ ←
        ensure (has_property (find_property referenced_data_file m.properties))
          no_referenced_data_file
    _ ←
        ensure (not (has_property (find_property compression_codec_name m.properties)))
          codec_in_properties
    _ ← ensure (not (has_property m.compression_codec)) codec_in_metadata
    _ ← ensure (m.length == length blob) wrong_metadata_length
    ensure (leb 12 (length blob)) too_small

  -- The checks of the number of elements and of the checksum.
  unfoldable pub check_bitmap : BlobMetadata → Bytes → ℕ → lib.Bitmap → Result BlobError Unit
  unfolding find_property stoull get_check_sum cardinality_in
  check_bitmap m blob len bitmap = do
    text ← or_err (find_property cardinality_name m.properties) no_cardinality
    expected ← or_err (stoull text) cardinality_is_no_number
    _ ← ensure (expected == cardinality_in lib bitmap 0 uint64_max) wrong_cardinality
    ensure (lib.crc32 (substr blob 4 len) == get_check_sum blob) wrong_checksum

  -- The constructor from a blob.
  unfoldable pub make_deletion_vector : BlobMetadata → Bytes → Result BlobError lib.Bitmap
  unfolding check_metadata get_len validate_magic_sequence check_bitmap
  make_deletion_vector m blob = do
    _ ← check_metadata m blob
    len ← get_len blob
    _ ← validate_magic_sequence blob
    bitmap ← or_err (lib.read_safe (substr blob 8 (len - 4))) not_deserialized
    _ ← check_bitmap m blob len bitmap
    ok bitmap

  -- What GetBlob writes of a bitmap.
  unfoldable pub blob_of : lib.Bitmap → Bytes
  unfolding ui_to_little_endian_bytes
  blob_of b =
      ui_to_little_endian_bytes (4 + lib.size_in_bytes b)
      ++ magic_sequence
      ++ lib.write b
      ++ ui_to_little_endian_bytes (lib.crc32 (magic_sequence ++ lib.write b))

  -- The bitmap that GetBlob writes, after `shrinkToFit` if it would be too large, and the blob. `none`
  -- is the exception of `Ensure`.
  unfoldable pub get_blob : lib.Bitmap → Option (lib.Bitmap × Bytes)
  unfolding blob_of
  get_blob b =
      if ltb uint32_max (4 + lib.size_in_bytes b)
      then (if leb (4 + lib.size_in_bytes (lib.shrink_to_fit b)) uint32_max
          then some (lib.shrink_to_fit b, blob_of (lib.shrink_to_fit b))
          else none)
      else some (b, blob_of b)
