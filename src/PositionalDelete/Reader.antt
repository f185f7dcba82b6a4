-- ===== src/PositionalDelete/Reader.antt =====
-- PositionalDeleteStream::Reader, its position, and RowGroupFilter::State of
-- iceberg/positional_delete/positional_delete.cpp. The Parquet reader behind it is the list of the
-- values that it gives; both columns of a row group hold as many values, none of them null.
use iceberg_cxx.Common.{
  ℕ, Bool, true, false, not, ◌&&◌, ◌||◌, Option, none, some, List, [], ◌∷◌, ltb, leb, ◌==◌,
  if◌then◌else◌, Result, ok, err,
}
use iceberg_cxx.Common.Int.{ℤ}
use iceberg_cxx.Filter.Value.{Bytes}
use iceberg_cxx.Filter.Order.{ltb_bytes, eqb_bytes}
use iceberg_cxx.PositionalDelete.Position.{Row, Position}

-- The statistics of both columns of a row group.
pub record RowGroupMetadata : Type 0 where
  pub path_stats_set : Bool
  pub path_min_max : Option (Bytes × Bytes)
  pub pos_stats_set : Bool
  pub pos_min_max : Option (ℕ × ℕ)

pub record RowGroup : Type 0 where
  pub metadata : RowGroupMetadata
  pub rows : List Row

pub data PhysicalType : Type 0 where
  byte_array int64 other : PhysicalType

-- A delete file, as `parquet::FileMetaData` and its row groups.
pub record DeleteFile : Type 0 where
  pub num_columns : ℕ
  pub column_0_type : PhysicalType
  pub column_1_type : PhysicalType
  pub row_groups : List RowGroup

-- The row group that is read, the values of it that are not read yet, and the row groups after it.
pub record Reader : Type 0 where
  pub current_file_path : Option Bytes
  pub current_pos : Option ℕ
  pub metadata : RowGroupMetadata
  pub unread : List Row
  pub row_groups : List RowGroup
  pub layer : ℤ

pub data ReaderError : Type 0 where
  unexpected_number_of_columns unexpected_column_0_type unexpected_column_1_type : ReaderError

abbrev pub is_byte_array : PhysicalType → Bool
is_byte_array byte_array = true
is_byte_array _ = false

abbrev pub is_int64 : PhysicalType → Bool
is_int64 int64 = true
is_int64 _ = false

-- `Reader::Reader`: the checks of the file, and the row groups to read.
unfoldable pub open_reader : DeleteFile → Result ReaderError (List RowGroup)
open_reader f =
    if not (f.num_columns == 2 || f.num_columns == 3)
    then err unexpected_number_of_columns
    else if not (is_byte_array f.column_0_type)
    then err unexpected_column_0_type
    else if not (is_int64 f.column_1_type)
    then err unexpected_column_1_type
    else ok f.row_groups

-- A reader at the start of a row group.
abbrev pub start : ℤ → RowGroup → List RowGroup → Reader
start layer g gs = record {
  current_file_path = none;
  current_pos = none;
  metadata = g.metadata;
  unread = g.rows;
  row_groups = gs;
  layer = layer;
}

-- `Reader::NextRowGroup` on the row groups left; `none` is false.
unfoldable pub next_row_group : ℤ → List RowGroup → Option Reader
next_row_group layer [] = none
next_row_group layer (g ∷ gs) = some (start layer g gs)

-- The path is compared with an empty value, so an empty path is not taken over.
unfoldable pub next_value : Reader → List Row → Option Reader
unfolding next_row_group
next_value r [] = next_row_group r.layer r.row_groups
next_value r (row ∷ rows) = some (record r {
  current_file_path =
      if eqb_bytes [] row.file_path then r.current_file_path else some row.file_path;
  current_pos = some row.pos;
  unread = rows;
})

unfoldable pub next : Reader → Option Reader
unfolding next_value
next r = next_value r r.unread

-- `ReaderHolder::IsStarted`.
abbrev pub has_value {ℓ} : {A : Type ℓ} → Option A → Bool
has_value none = false
has_value (some a) = true

abbrev pub is_started : Reader → Bool
is_started r = has_value r.current_pos

abbrev minimum {ℓ} : {A : Type ℓ} → Option (A × A) → Option A
minimum none = none
minimum (some (a, b)) = some a

-- The least position that the statistics of a row group admit.
unfoldable pub metadata_position : RowGroupMetadata → Position
metadata_position m =
    if m.path_stats_set && m.pos_stats_set
    then record {
      path = minimum m.path_min_max;
      row = if has_value m.path_min_max then minimum m.pos_min_max else none;
    }
    else record { path = none; row = none }

-- `ReaderHolder::GetPosition`.
unfoldable pub get_position : Reader → Position
unfolding metadata_position
get_position r =
    if is_started r
    then record { path = r.current_file_path; row = r.current_pos }
    else metadata_position r.metadata

pub record Query : Type 0 where
  pub url : Bytes
  pub begin : ℕ
  pub end : ℕ

-- `RowGroupFilter::Result`.
pub data RowGroupState : Type 0 where
  less inter greater : RowGroupState

-- `RowGroupFilter::State` on the range of positions, and on the range of paths.
abbrev pos_state : Option (ℕ × ℕ) → Query → RowGroupState
pos_state none q = inter
pos_state (some (a, b)) q = if ltb b q.begin then less else if leb q.end a then greater else inter

abbrev path_state : Option (Bytes × Bytes) → Option (ℕ × ℕ) → Query → RowGroupState
path_state none pos q = inter
path_state (some (a, b)) pos q =
    if ltb_bytes b q.url
    then less
    else if ltb_bytes q.url a
    then greater
    else if not (eqb_bytes a b)
    then inter
    else pos_state pos q

unfoldable pub state : RowGroupMetadata → Query → RowGroupState
state m q =
    if m.path_stats_set && m.pos_stats_set then path_state m.path_min_max m.pos_min_max q else inter
