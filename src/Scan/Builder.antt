-- ===== src/Scan/Builder.antt =====
-- `ScanMetadataBuilder` of iceberg/tea_scan.cpp: what it stores for an entry of a manifest. The
-- partition tuple is the serialized key that `StoreEntry` is called with. Split offsets are taken to
-- ascend, so that the length of a segment is their difference.
pub mod Stored
pub mod Entries
pub mod Keys
pub mod Sequence
pub mod Numbers
use iceberg_cxx.Common.{
  ℕ, ◌+◌, ◌-◌, Bool, true, false, not, ◌||◌, Option, none, some, List, [], ◌∷◌, ◌++◌, arith, ltb,
  ◌==◌, if◌then◌else◌, Result, err, ok, ◌>>=◌, or_err, ◌≡◌,
}
use iceberg_cxx.Common.Int.{ℤ, pos, negsuc, ◌+ℤ◌, ltb_ℤ, eqb_ℤ}
use iceberg_cxx.Common.OrderedMap.{KeyOrder, update}
use iceberg_cxx.Filter.Value.{Bytes}
use iceberg_cxx.Filter.Order.{ltb_bytes, eqb_bytes}
use iceberg_cxx.PositionalDelete.Position.{
  bytes_lt_irrefl, bytes_lt_asym, bytes_not_lt_trans, bytes_eq_of_not_lt, eqb_bytes-eq,
  eqb_bytes_self,
}
use iceberg_cxx.Scan.MapKeys.{key_order, number_order}
use iceberg_cxx.Segments.{Segment}
use iceberg_cxx.Scan.{
  DataEntry, PositionalDeleteWithExtraInfo, EqualityDeleteInfo, DeletionVectorInfo,
  LayerWithExtraInfo, empty_layer, is_empty, has_value, ScanError, bad_optional_access,
  consistency_error, specification_not_found, many_specifications,
}
use iceberg_cxx.Scan.Dangling.{Layers, Partitions}

pub data EntryStatus : Type 0 where
  existing : EntryStatus
  added : EntryStatus
  deleted : EntryStatus

pub data FileContent : Type 0 where
  data_content : FileContent
  position_deletes : FileContent
  equality_deletes : FileContent

-- The fields of `DataFile` that the planning reads.
pub record DataFile : Type 0 where
  pub content : FileContent
  pub file_path : Bytes
  pub file_format : Bytes
  pub split_offsets : List ℕ
  pub lower_bounds : List (ℤ × Bytes)
  pub upper_bounds : List (ℤ × Bytes)
  pub equality_ids : List ℤ
  pub referenced_data_file : Option Bytes
  pub content_offset : Option ℤ
  pub content_size_in_bytes : Option ℤ

pub record ManifestEntry : Type 0 where
  pub status : EntryStatus
  pub sequence_number : Option ℤ
  pub data_file : DataFile

-- The state: the layers of the partitions, and the equality deletes of the unpartitioned table.
pub record Builder : Type 0 where
  pub partitions : Partitions
  pub global_equality_deletes : List (ℤ × List EqualityDeleteInfo)

-- A change of `partitions[key][sequence_number]`.
unfoldable pub at_layer : Bytes → ℤ → (LayerWithExtraInfo → LayerWithExtraInfo) → Builder → Builder
at_layer key number change b = record b {
  partitions =
      update key_order [] key (λ layers. update number_order empty_layer number change layers)
        b.partitions;
}

unfoldable pub add_data_file : Bytes → ℤ → Bytes → List Segment → Builder → Builder
add_data_file key number path segments = at_layer key number λ l. record l {
  data_entries = l.data_entries ++ record { path = path; parts = segments; dv = none } ∷ [];
}

unfoldable pub add_position_deletes : Bytes → ℤ → Bytes → Option (Bytes × Bytes) → Builder → Builder
add_position_deletes key number path range = at_layer key number λ l. record l {
  positional_delete_entries =
      l.positional_delete_entries
      ++ record { positional_delete = record { path = path }; min_max_referenced_path = range }
        ∷ [];
}

abbrev pub previous : ℤ → ℤ
previous number = number +ℤ negsuc 0

unfoldable pub add_global_equality_deletes : ℤ → Bytes → List ℤ → Builder → Builder
add_global_equality_deletes number path ids b = record b {
  global_equality_deletes =
      update number_order [] (previous number)
        (λ deletes. deletes ++ record { path = path; field_ids = ids } ∷ [])
        b.global_equality_deletes;
}

unfoldable pub add_equality_deletes : Bytes → ℤ → Bytes → List ℤ → Builder → Builder
add_equality_deletes key number path ids = at_layer key (previous number) λ l. record l {
  equality_delete_entries =
      l.equality_delete_entries ++ record { path = path; field_ids = ids } ∷ [];
}

abbrev pub no_vector : DeletionVectorInfo
no_vector = record { path = []; offset = pos 0; length = pos 0; referenced_data_file = [] }

-- `dv_entries_[referenced_data_file] = ...`: a vector that is there is replaced. The
-- `std::unordered_map` is kept by ascending keys.
unfoldable pub add_deletion_vector : Bytes → ℤ → Bytes → Bytes → ℤ → ℤ → Builder → Builder
add_deletion_vector key number path referenced offset length = at_layer key number λ l. record l {
  dv_entries =
      update key_order no_vector referenced
        (λ old. record {
          path = path;
          offset = offset;
          length = length;
          referenced_data_file = referenced;
        })
        l.dv_entries;
}

unfoldable pub segments_from : ℕ → List ℕ → List Segment
segments_from offset [] = record { offset = offset; length = 0 } ∷ []
segments_from offset (next ∷ offsets) =
    record { offset = offset; length = next - offset } ∷ segments_from next offsets

unfoldable pub segments_of : List ℕ → List Segment
segments_of [] = record { offset = 4; length = 0 } ∷ []
segments_of (offset ∷ offsets) = segments_from offset offsets

unfoldable pub bound_at : ℤ → List (ℤ × Bytes) → Option Bytes
bound_at id [] = none
bound_at id ((i, bytes) ∷ bounds) =
    let rest = bound_at id bounds in if eqb_ℤ i id then some bytes else rest

abbrev pub file_path_id : ℤ
file_path_id = pos 2147483546

-- Both bounds on the column of paths, or none.
unfoldable pub referenced_range : DataFile → Option (Bytes × Bytes)
referenced_range file = elim (bound_at file_path_id file.lower_bounds) [
  | none ↦ none
  | some low ↦ elim (bound_at file_path_id file.upper_bounds) [
    | none ↦ none
    | some high ↦ some (low, high)
  ]
]

-- "PUFFIN".
abbrev pub deletion_vector_format : Bytes
deletion_vector_format = b'P' ∷ b'U' ∷ b'F' ∷ b'F' ∷ b'I' ∷ b'N' ∷ []

unfoldable pub store_deletion_vector : Bytes → ℤ → DataFile → Builder → Result ScanError Builder
store_deletion_vector key number file b = do
  referenced ← or_err file.referenced_data_file consistency_error
  offset ← or_err file.content_offset consistency_error
  length ← or_err file.content_size_in_bytes consistency_error
  ok (add_deletion_vector key number file.file_path referenced offset length b)

unfoldable pub store_file : FileContent → Bytes → ℤ → DataFile → Builder → Result ScanError Builder
store_file data_content key number file b =
    ok (add_data_file key number file.file_path (segments_of file.split_offsets) b)
store_file position_deletes key number file b =
    if eqb_bytes file.file_format deletion_vector_format
    then store_deletion_vector key number file b
    else ok (add_position_deletes key number file.file_path (referenced_range file) b)
store_file equality_deletes key number file b =
    if is_empty key
    then ok (add_global_equality_deletes number file.file_path file.equality_ids b)
    else ok (add_equality_deletes key number file.file_path file.equality_ids b)

unfoldable pub store_entry : Bytes → ManifestEntry → Builder → Result ScanError Builder
store_entry key entry b = do
  number ← or_err entry.sequence_number bad_optional_access
  store_file entry.data_file.content key number entry.data_file b

-- The loop of `CheckPartitionTupleIsCorrect` over what `MatchesSpecification` answers for each
-- specification of the table.
unfoldable pub matching_specifications : List Bool → ℕ
matching_specifications [] = 0
matching_specifications (matches ∷ specs) =
    let rest = matching_specifications specs in if matches then rest + 1 else rest

unfoldable pub check_partition_tuple : List Bool → Result ScanError (Unit {0})
check_partition_tuple specs =
    let matching = matching_specifications specs in
    if matching == 0
    then err specification_not_found
    else if ltb 1 matching
    then err many_specifications
    else ok tt

abbrev pub is_deleted : EntryStatus → Bool
is_deleted existing = false
is_deleted added = false
is_deleted deleted = true

-- An entry with what the specifications of the table answer for it, and its serialized partition.
pub record Arrival : Type 0 where
  pub specs : List Bool
  pub key : Bytes
  pub entry : ManifestEntry

unfoldable pub add_entry : Arrival → Builder → Result ScanError Builder
add_entry a b =
    if is_deleted a.entry.status
    then ok b
    else do checked ← check_partition_tuple a.specs; store_entry a.key a.entry b

-- What the loop of `GetScanMetadata` does to the builder: `AddEntry` of the planner (Scan/Planner) passes
-- each entry on to it.
unfoldable pub add_entries : List Arrival → Builder → Result ScanError Builder
add_entries [] b = ok b
add_entries (a ∷ arrivals) b = do next ← add_entry a b; add_entries arrivals next
