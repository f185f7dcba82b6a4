-- ===== src/Scan/Dangling.antt =====
-- `ScanMetadataBuilder::RemoveDanglingDeletes`, `MapToVec` and `GetPartitions` of
-- iceberg/tea_scan.cpp. What is logged is not modelled. A `std::set` of paths is an ascending list.
pub mod Prune
pub mod Useful
pub mod Origins
pub mod Plan
pub mod Planning
use iceberg_cxx.Common.{
  ℕ, suc, Bool, true, false, ◌&&◌, not, Option, none, some, List, [], ◌∷◌, ◌++◌, map, ◌==◌,
  if◌then◌else◌, Result, err, ok, ◌>>=◌,
}
use iceberg_cxx.Common.Int.{ℤ}
use iceberg_cxx.Filter.Value.{Bytes}
use iceberg_cxx.Filter.Order.{ltb_bytes}
use iceberg_cxx.Scan.{
  DataEntry, PositionalDeleteInfo, PositionalDeleteWithExtraInfo, LayerWithExtraInfo, Layer,
  is_empty, layer_empty, ScanError,
}
use iceberg_cxx.Scan.Optimizer.{upper_bound}
use iceberg_cxx.Scan.Optimizer.Buckets.{can_optimize, optimize}

-- `std::set::insert`.
unfoldable pub insert_path : Bytes → List Bytes → List Bytes
insert_path path [] = path ∷ []
insert_path path (p ∷ paths) =
    let rest = insert_path path paths in
    if ltb_bytes path p then path ∷ p ∷ paths else if ltb_bytes p path then p ∷ rest else p ∷ paths

-- `std::set::lower_bound`: the place of the first path that is not below.
unfoldable pub lower_bound : List Bytes → Bytes → ℕ
lower_bound [] path = 0
lower_bound (p ∷ paths) path =
    let rest = lower_bound paths path in if ltb_bytes p path then suc rest else 0

unfoldable pub insert_data_paths : List DataEntry → List Bytes → List Bytes
insert_data_paths [] data_paths = data_paths
insert_data_paths (entry ∷ entries) data_paths =
    insert_data_paths entries (insert_path entry.path data_paths)

-- No data file is in the range: the two iterators meet. A delete without a range is kept.
unfoldable pub is_dangling : List Bytes → Option (Bytes × Bytes) → Bool
is_dangling data_paths none = false
is_dangling data_paths (some (low, high)) =
    lower_bound data_paths low == upper_bound data_paths high

unfoldable pub keep_deletes :
    List Bytes → List PositionalDeleteWithExtraInfo → List PositionalDeleteInfo
keep_deletes data_paths [] = []
keep_deletes data_paths (del ∷ deletes) =
    let rest = keep_deletes data_paths deletes in
    if is_dangling data_paths del.min_max_referenced_path
    then rest
    else del.positional_delete ∷ rest

-- The loop over the layers, with the paths that it has collected.
unfoldable pub prune_layers : List Bytes → List LayerWithExtraInfo → List Layer
prune_layers data_paths [] = []
prune_layers data_paths (layer ∷ layers) =
    let collected = insert_data_paths layer.data_entries data_paths in
    let result_layer : Layer = record {
      data_entries = layer.data_entries;
      positional_delete_entries = keep_deletes collected layer.positional_delete_entries;
      equality_delete_entries = layer.equality_delete_entries;
    } in
    let rest = prune_layers collected layers in
    if layer_empty result_layer then rest else result_layer ∷ rest

-- `std::all_of`: no layer has a data file.
unfoldable pub without_data : List LayerWithExtraInfo → Bool
without_data [] = true
without_data (layer ∷ layers) = is_empty layer.data_entries && without_data layers

unfoldable pub remove_dangling_deletes : List (List LayerWithExtraInfo) → List (List Layer)
remove_dangling_deletes [] = []
remove_dangling_deletes (layers ∷ partitions) =
    let rest = remove_dangling_deletes partitions in
    if without_data layers then rest else prune_layers [] layers ∷ rest

-- `std::map` by ascending keys: the serialized partition, then the sequence number.
abbrev pub Layers : Type 0
Layers = List (ℤ × LayerWithExtraInfo)

abbrev pub Partitions : Type 0
Partitions = List (Bytes × Layers)

unfoldable pub values {ℓ} : {A B : Type ℓ} → List (A × B) → List B
values [] = []
values ((key, value) ∷ entries) = value ∷ values entries

unfoldable pub map_to_vec : Partitions → List (List LayerWithExtraInfo)
unfolding values
map_to_vec [] = []
map_to_vec ((key, layers) ∷ partitions) = values layers ∷ map_to_vec partitions

unfoldable pub get_partitions : Partitions → Result ScanError (List (List Layer))
get_partitions partitions =
    let meta_as_vec = map_to_vec partitions in
    if can_optimize meta_as_vec
    then (do optimized ← optimize meta_as_vec; ok (remove_dangling_deletes optimized))
    else ok (remove_dangling_deletes meta_as_vec)
