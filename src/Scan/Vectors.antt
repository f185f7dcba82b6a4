-- ===== src/Scan/Vectors.antt =====
-- `ApplyGlobalEqualityDeletes`, `ResolveDeletionVectors` and `GetResult` of `ScanMetadataBuilder` in
-- iceberg/tea_scan.cpp. The schema of the result and what is logged are not modelled.
pub mod Resolved
pub mod Global
use iceberg_cxx.Common.{
  Bool, true, false, not, Option, none, some, List, [], ◌∷◌, ◌++◌, if◌then◌else◌, Result, err, ok,
  ◌>>=◌, map_result,
}
use iceberg_cxx.Common.Int.{ℤ, ltb_ℤ}
use iceberg_cxx.Common.OrderedMap.{update, find}
use iceberg_cxx.Filter.Value.{Bytes}
use iceberg_cxx.Scan.{
  DataEntry, EqualityDeleteInfo, DeletionVectorInfo, LayerWithExtraInfo, Layer, empty_layer,
  is_empty, ScanError, consistency_error,
}
use iceberg_cxx.Scan.MapKeys.{key_order, number_order}
use iceberg_cxx.Scan.Dangling.{Layers, Partitions, get_partitions}
use iceberg_cxx.Scan.Builder.{Builder}

unfoldable pub apply_global_equality_deletes : List (ℤ × List EqualityDeleteInfo) → Layers → Layers
apply_global_equality_deletes [] layers = layers
apply_global_equality_deletes ((number, deletes) ∷ others) layers =
    apply_global_equality_deletes others (
      update number_order empty_layer number
        (λ l. record l { equality_delete_entries = l.equality_delete_entries ++ deletes }) layers)

-- `current_dvs`: the vector and the layer's number for the path of a data file. A path without a
-- vector is at `none`.
abbrev pub CurrentDvs : Type 0
CurrentDvs = List (Bytes × Option (DeletionVectorInfo × ℤ))

-- `insert_or_assign` for each vector of a layer.
unfoldable pub collect_layer : ℤ → List (Bytes × DeletionVectorInfo) → CurrentDvs → CurrentDvs
collect_layer number [] current_dvs = current_dvs
collect_layer number ((path, dv) ∷ entries) current_dvs =
    collect_layer number entries (update key_order none path (λ old. some (dv, number)) current_dvs)

unfoldable pub collect_dvs : Layers → CurrentDvs → CurrentDvs
collect_dvs [] current_dvs = current_dvs
collect_dvs ((number, l) ∷ layers) current_dvs =
    collect_dvs layers (collect_layer number l.dv_entries current_dvs)

unfoldable pub assign_dv :
    ℤ
    → LayerWithExtraInfo
    → DataEntry
    → Option (DeletionVectorInfo × ℤ)
    → Result ScanError DataEntry
assign_dv number l entry none = ok entry
assign_dv number l entry (some (dv, dv_number)) =
    if ltb_ℤ dv_number number
    then ok entry
    else if not (is_empty l.equality_delete_entries)
    then err consistency_error
    else if not (is_empty l.positional_delete_entries)
    then err consistency_error
    else ok (record entry { dv = some dv })

-- The loop over the data files of a layer.
unfoldable pub resolve_entries :
    CurrentDvs → ℤ → LayerWithExtraInfo → List DataEntry → Result ScanError (List DataEntry)
resolve_entries current_dvs number l [] = ok []
resolve_entries current_dvs number l (entry ∷ entries) = do
  resolved ← assign_dv number l entry (find key_order none entry.path current_dvs)
  rest ← resolve_entries current_dvs number l entries
  ok (resolved ∷ rest)

unfoldable pub resolve_layers : CurrentDvs → Layers → Result ScanError Layers
resolve_layers current_dvs [] = ok []
resolve_layers current_dvs ((number, l) ∷ layers) = do
  entries ← resolve_entries current_dvs number l l.data_entries
  rest ← resolve_layers current_dvs layers
  ok ((number, record l { data_entries = entries }) ∷ rest)

unfoldable pub resolve_deletion_vectors : Layers → Result ScanError Layers
resolve_deletion_vectors layers = resolve_layers (collect_dvs layers []) layers

unfoldable pub resolve_partitions :
    List (ℤ × List EqualityDeleteInfo) → Partitions → Result ScanError Partitions
resolve_partitions global [] = ok []
resolve_partitions global ((key, layers) ∷ partitions) = do
  resolved ← resolve_deletion_vectors (apply_global_equality_deletes global layers)
  rest ← resolve_partitions global partitions
  ok ((key, resolved) ∷ rest)

unfoldable pub get_result : Builder → Result ScanError (List (List Layer))
get_result b = do
  resolved ← resolve_partitions b.global_equality_deletes b.partitions
  get_partitions resolved
