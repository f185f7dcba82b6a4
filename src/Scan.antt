-- ===== src/Scan.antt =====
-- The data types of scan planning in iceberg/tea_scan.h. Paths are byte strings; a partition is the
-- list of its layers, from the lowest sequence number.
pub mod Timeline
pub mod Optimizer
pub mod Dangling
pub mod MapKeys
pub mod Builder
pub mod Vectors
pub mod PartitionKeys
pub mod Planner
pub mod EntryStreams
pub mod Samples
mod Examples
use iceberg_cxx.Common.{Bool, true, false, ◌&&◌, Option, none, some, List, [], ◌∷◌}
use iceberg_cxx.Common.Int.{ℤ}
use iceberg_cxx.Filter.Value.{Bytes}
use iceberg_cxx.Segments.{Segment}

pub record PositionalDeleteInfo : Type 0 where
  pub path : Bytes

pub record EqualityDeleteInfo : Type 0 where
  pub path : Bytes
  pub field_ids : List ℤ

pub record DeletionVectorInfo : Type 0 where
  pub path : Bytes
  pub offset : ℤ
  pub length : ℤ
  pub referenced_data_file : Bytes

pub record DataEntry : Type 0 where
  pub path : Bytes
  pub parts : List Segment
  pub dv : Option DeletionVectorInfo

-- `ScanMetadata::Layer`: what a scan reads.
pub record Layer : Type 0 where
  pub data_entries : List DataEntry
  pub positional_delete_entries : List PositionalDeleteInfo
  pub equality_delete_entries : List EqualityDeleteInfo

-- With the range of paths that the file's statistics give.
pub record PositionalDeleteWithExtraInfo : Type 0 where
  pub positional_delete : PositionalDeleteInfo
  pub min_max_referenced_path : Option (Bytes × Bytes)

-- A layer while the scan is planned; the deletion vectors are keyed by the data file's path.
pub record LayerWithExtraInfo : Type 0 where
  pub data_entries : List DataEntry
  pub positional_delete_entries : List PositionalDeleteWithExtraInfo
  pub equality_delete_entries : List EqualityDeleteInfo
  pub dv_entries : List (Bytes × DeletionVectorInfo)

abbrev pub empty_layer : LayerWithExtraInfo
empty_layer = record {
  data_entries = [];
  positional_delete_entries = [];
  equality_delete_entries = [];
  dv_entries = [];
}

abbrev pub is_empty {ℓ} : {A : Type ℓ} → List A → Bool
is_empty [] = true
is_empty (x ∷ xs) = false

abbrev pub has_value {ℓ} : {A : Type ℓ} → Option A → Bool
has_value none = false
has_value (some a) = true

-- `Layer::Empty`.
unfoldable pub layer_empty : Layer → Bool
layer_empty l =
    is_empty l.data_entries
    && is_empty l.positional_delete_entries
    && is_empty l.equality_delete_entries

-- The exceptions: `Ensure` with the text "internal error" or with the text of a consistency error,
-- the access to an absent optional value, the statuses of `CheckPartitionTupleIsCorrect`, those of
-- the planner, and `Ensure` for an entry without a sequence number.
pub data ScanError : Type 0 where
  internal_error : ScanError
  bad_optional_access : ScanError
  consistency_error : ScanError
  specification_not_found : ScanError
  many_specifications : ScanError
  execution_error : ScanError
  no_sequence_number : ScanError
