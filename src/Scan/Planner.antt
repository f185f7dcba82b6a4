-- ===== src/Scan/Planner.antt =====
-- `ReferencedDataFileAwareScanPlanner` and `GetScanMetadata` of iceberg/tea_scan.cpp. The texts of the
-- errors and the schema of the result are not modelled. The stream of entries is the list of the
-- entries that it gives (see Scan/EntryStreams), each with its partition tuple (see Scan/Builder).
pub mod Collected
pub mod Placed
pub mod Layered
pub mod Shapes
pub mod Plan
pub mod Annotated
pub mod Distinct
pub mod Errors
pub mod Noted
pub mod Known
pub mod Entries
pub mod Stored
pub mod Deletes
pub mod Whole
mod Examples
use iceberg_cxx.Common.{
  ℕ, suc, Bool, true, false, not, ◌&&◌, Option, none, some, List, [], ◌∷◌, ◌++◌, ltb, if◌then◌else◌,
  Result, err, ok, ◌>>=◌,
}
use iceberg_cxx.Common.OrderedMap.{update, find}
use iceberg_cxx.Common.OrderedMap.Keys.{contains}
use iceberg_cxx.Filter.Value.{Bytes}
use iceberg_cxx.Filter.Order.{eqb_bytes}
use iceberg_cxx.Scan.{
  DataEntry, PositionalDeleteInfo, Layer, is_empty, has_value, ScanError, execution_error,
}
use iceberg_cxx.Scan.MapKeys.{key_order}
use iceberg_cxx.Scan.Builder.{
  FileContent, data_content, position_deletes, equality_deletes, DataFile, Builder, Arrival,
  is_deleted, add_entry, deletion_vector_format,
}
use iceberg_cxx.Scan.Vectors.{get_result}

-- The data file that each delete file refers to, by the path of the delete file.
abbrev pub ReferencedPaths : Type 0
ReferencedPaths = List (Bytes × Bytes)

pub record Planner : Type 0 where
  pub builder : Builder
  pub referenced_paths : ReferencedPaths
  pub all_annotated : Bool
  pub has_equality_delete : Bool
  pub has_referenced_data_file : Bool

abbrev pub new_planner : Planner
new_planner = record {
  builder = record { partitions = []; global_equality_deletes = [] };
  referenced_paths = [];
  all_annotated = true;
  has_equality_delete = false;
  has_referenced_data_file = false;
}

unfoldable pub handle_position_delete : DataFile → Bytes → Planner → Result ScanError Planner
handle_position_delete file data_path p =
    let noted : Planner = record p { has_referenced_data_file = true } in
    if eqb_bytes file.file_format deletion_vector_format
    then ok noted
    else if contains key_order file.file_path noted.referenced_paths
    then err execution_error
    else ok (record noted {
      referenced_paths =
          update key_order [] file.file_path (λ old. data_path) noted.referenced_paths;
    })

-- The switch of `AddEntry`.
unfoldable pub note_file : FileContent → DataFile → Planner → Result ScanError Planner
note_file data_content file p = ok p
note_file equality_deletes file p = ok (record p { has_equality_delete = true })
note_file position_deletes file p = elim file.referenced_data_file [
  | none ↦ ok (record p { all_annotated = false })
  | some data_path ↦ handle_position_delete file data_path p
]

unfoldable pub planner_add_entry : Arrival → Planner → Result ScanError Planner
planner_add_entry a p = if is_deleted a.entry.status then ok p else do
  noted ← note_file a.entry.data_file.content a.entry.data_file p
  stored ← add_entry a noted.builder
  ok (record noted { builder = stored })

-- A data file or a delete with the number of its layer, counted from 0.
abbrev pub DataByPath : Type 0
DataByPath = List (Bytes × (DataEntry × ℕ))

abbrev pub DeletesByPath : Type 0
DeletesByPath = List (Bytes × List (PositionalDeleteInfo × ℕ))

-- The value that `update` passes to a function which does not read it.
abbrev pub no_data : DataEntry × ℕ
no_data = (record { path = []; parts = []; dv = none }, 0)

unfoldable pub collect_data : ℕ → List DataEntry → DataByPath → Result ScanError DataByPath
collect_data layer_no [] by_path = ok by_path
collect_data layer_no (entry ∷ entries) by_path =
    let rest =
      collect_data layer_no entries
        (update key_order no_data entry.path (λ old. (entry, layer_no)) by_path) in
    if contains key_order entry.path by_path then err execution_error else rest

unfoldable pub collect_deletes :
    ReferencedPaths → ℕ → List PositionalDeleteInfo → DeletesByPath → Result ScanError DeletesByPath
collect_deletes referenced layer_no [] deletes = ok deletes
collect_deletes referenced layer_no (del ∷ dels) deletes =
    let data_path = find key_order [] del.path referenced in
    let rest =
      collect_deletes referenced layer_no dels
        (update key_order [] data_path (λ old. old ++ (del, layer_no) ∷ []) deletes) in
    if not (contains key_order del.path referenced) then err execution_error else rest

-- The loop over the layers.
unfoldable pub collect_partition :
    ReferencedPaths
    → ℕ
    → List Layer
    → DataByPath
    → DeletesByPath
    → Result ScanError (DataByPath × DeletesByPath)
collect_partition referenced layer_no [] by_path deletes = ok (by_path, deletes)
collect_partition referenced layer_no (l ∷ layers) by_path deletes = do
  more_data ← collect_data layer_no l.data_entries by_path
  more_deletes ← collect_deletes referenced layer_no l.positional_delete_entries deletes
  collect_partition referenced (suc layer_no) layers more_data more_deletes

-- The partitions of the result: the data files of the only layer of the 0-th one, and the others.
pub record Regrouped : Type 0 where
  pub without_deletes : List DataEntry
  pub with_deletes : List (List Layer)

-- Without the deletes of layers below that of the data file.
unfoldable pub deletes_from : ℕ → List (PositionalDeleteInfo × ℕ) → List PositionalDeleteInfo
deletes_from data_layer_no [] = []
deletes_from data_layer_no ((del, del_layer_no) ∷ deletes) =
    let rest = deletes_from data_layer_no deletes in
    if ltb del_layer_no data_layer_no then rest else del ∷ rest

unfoldable pub new_partition : DataEntry → List PositionalDeleteInfo → List Layer
new_partition entry deletes =
    record {
      data_entries = entry ∷ [];
      positional_delete_entries = deletes;
      equality_delete_entries = [];
    }
    ∷ []

-- The loop over the data files by their paths.
unfoldable pub place_data : DeletesByPath → DataByPath → Regrouped → Regrouped
place_data deletes [] result = result
place_data deletes ((data_path, (entry, data_layer_no)) ∷ by_path) result =
    place_data deletes by_path (
      if not (contains key_order data_path deletes) && not (has_value entry.dv)
      then record result { without_deletes = result.without_deletes ++ entry ∷ [] }
      else record result {
        with_deletes =
            result.with_deletes
            ++ new_partition entry (
                if contains key_order data_path deletes
                then deletes_from data_layer_no (find key_order [] data_path deletes)
                else [])
              ∷ [];
      })

unfoldable pub handle_partition :
    ReferencedPaths → List Layer → Regrouped → Result ScanError Regrouped
handle_partition referenced partition result = do
  (by_path, deletes) ← collect_partition referenced 0 partition [] []
  ok (place_data deletes by_path result)

unfoldable pub handle_partitions :
    ReferencedPaths → List (List Layer) → Regrouped → Result ScanError Regrouped
handle_partitions referenced [] result = ok result
handle_partitions referenced (partition ∷ partitions) result = do
  next ← handle_partition referenced partition result
  handle_partitions referenced partitions next

unfoldable pub plain_partition : List DataEntry → List Layer
plain_partition entries =
    record { data_entries = entries; positional_delete_entries = []; equality_delete_entries = [] }
    ∷ []

-- The 0-th partition is removed if it has no data file.
unfoldable pub all_partitions : Regrouped → List (List Layer)
all_partitions result =
    if is_empty result.without_deletes
    then result.with_deletes
    else plain_partition result.without_deletes ∷ result.with_deletes

unfoldable pub regroup : ReferencedPaths → List (List Layer) → Result ScanError (List (List Layer))
regroup referenced planned = do
  result ← handle_partitions referenced planned record { without_deletes = []; with_deletes = [] }
  ok (all_partitions result)

-- The rest of `GetResult`, after that of the builder.
unfoldable pub regroup_if_annotated :
    Planner → List (List Layer) → Result ScanError (List (List Layer))
regroup_if_annotated p planned =
    if not p.has_referenced_data_file
    then ok planned
    else if p.has_equality_delete
    then ok planned
    else if not p.all_annotated
    then ok planned
    else regroup p.referenced_paths planned

unfoldable pub planner_get_result : Planner → Result ScanError (List (List Layer))
planner_get_result p = do planned ← get_result p.builder; regroup_if_annotated p planned

-- The loop of `GetScanMetadata` over the entries.
unfoldable pub planner_add_entries : List Arrival → Planner → Result ScanError Planner
planner_add_entries [] p = ok p
planner_add_entries (a ∷ arrivals) p = do
  next ← planner_add_entry a p
  planner_add_entries arrivals next

unfoldable pub get_scan_metadata : List Arrival → Result ScanError (List (List Layer))
get_scan_metadata arrivals = do p ← planner_add_entries arrivals new_planner; planner_get_result p
