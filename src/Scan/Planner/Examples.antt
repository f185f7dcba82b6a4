-- ===== src/Scan/Planner/Examples.antt =====
-- Theorems on the planner of iceberg/tea_scan.cpp at two data files and a delete file that refers to
-- one of them, and tests.
use mathlib.Core.Path.{subst}
use iceberg_cxx.Common.{◌≡◌, refl, true, ok, inl, inr}
use iceberg_cxx.Common.Int.{◌+ℤ◌}
use iceberg_cxx.Common.OrderedMap.{update, find}
use iceberg_cxx.Common.OrderedMap.Keys.{contains}
use iceberg_cxx.Filter.Order.{ltb_bytes, eqb_bytes}
use iceberg_cxx.Scan.{layer_empty}
use iceberg_cxx.Scan.Samples.{annotated_arrivals, annotated_planner, annotated_plan, regrouped_plan}
use iceberg_cxx.Scan.Builder.{
  Arrival, add_entry, check_partition_tuple, matching_specifications, store_entry, store_file,
  add_data_file, add_position_deletes, at_layer, segments_of, segments_from, referenced_range,
  bound_at,
}
use iceberg_cxx.Scan.Vectors.{
  get_result, resolve_partitions, resolve_deletion_vectors, apply_global_equality_deletes,
  collect_dvs, collect_layer, resolve_layers, resolve_entries, assign_dv,
}
use iceberg_cxx.Scan.Dangling.{
  get_partitions, map_to_vec, values, remove_dangling_deletes, without_data, prune_layers,
  insert_data_paths, insert_path, keep_deletes, is_dangling,
}
use iceberg_cxx.Scan.Optimizer.Buckets.{can_optimize, can_optimize_partition}
use iceberg_cxx.Scan.Planner.{
  new_planner, handle_position_delete, note_file, planner_add_entry, planner_add_entries,
  collect_data, collect_deletes, collect_partition, deletes_from, new_partition, place_data,
  handle_partition, handle_partitions, plain_partition, all_partitions, regroup,
  regroup_if_annotated, planner_get_result, get_scan_metadata,
}
use iceberg_cxx.Scan.Planner.Placed.{deletes_behind}
use iceberg_cxx.Scan.Planner.Annotated.{IsRegrouping, regroup-IsRegrouping}
use iceberg_cxx.Scan.Planner.Distinct.{has_path, distinct_paths}
use iceberg_cxx.Scan.Planner.Errors.{data_of_layers, all_known, is_regular, all_regular}
use iceberg_cxx.Scan.Planner.Whole.{
  all_distinct, RangedEntries, OnlyAnnotated, Regroups, get_scan_metadata-Regroups,
}
use iceberg_cxx.Scan.Optimizer.Ranges.{InOrder}
use iceberg_cxx.Scan.Planner.Stored.{KnowsEntries, planner_add_entries-KnowsEntries}

annotated_arrivals-run : planner_add_entries annotated_arrivals new_planner ≡ ok annotated_planner
unfolding planner_add_entries planner_add_entry note_file handle_position_delete add_entry
    check_partition_tuple matching_specifications store_entry store_file add_data_file
    add_position_deletes at_layer update contains segments_of segments_from referenced_range
    bound_at eqb_bytes ltb_bytes ◌+ℤ◌
annotated_arrivals-run = refl

annotated_plan-run : regroup annotated_planner.referenced_paths annotated_plan ≡ ok regrouped_plan
unfolding regroup handle_partitions handle_partition collect_partition collect_data collect_deletes
    place_data deletes_from new_partition plain_partition all_partitions update contains find
    eqb_bytes ltb_bytes
annotated_plan-run = refl

annotated_builder-run : get_result annotated_planner.builder ≡ ok annotated_plan
unfolding get_result resolve_partitions resolve_deletion_vectors apply_global_equality_deletes
    collect_dvs collect_layer resolve_layers resolve_entries assign_dv get_partitions map_to_vec
    values remove_dangling_deletes without_data prune_layers insert_data_paths insert_path
    keep_deletes is_dangling can_optimize can_optimize_partition layer_empty find ltb_bytes
annotated_builder-run = refl

annotated_arrivals-RangedEntries : RangedEntries annotated_arrivals
unfolding referenced_range bound_at
annotated_arrivals-RangedEntries a among kind = elim among [
  | inl same ↦ subst no_range same tt
  | inr (inl same) ↦ subst no_range same tt
  | inr (inr (inl same)) ↦ subst no_range same tt
  | inr (inr (inr wrong)) ↦ absurd wrong
]
  where
    no_range : Arrival → Type 0
    no_range x = InOrder (referenced_range x.entry.data_file)

annotated_arrivals-OnlyAnnotated : OnlyAnnotated annotated_arrivals
annotated_arrivals-OnlyAnnotated = (refl, refl, refl)

get_scan_metadata-Regroups_example :
    Regroups
      (all_distinct annotated_plan)
      annotated_planner.referenced_paths
      annotated_plan
      (get_scan_metadata annotated_arrivals)
get_scan_metadata-Regroups_example =
    get_scan_metadata-Regroups annotated_arrivals annotated_arrivals-run annotated_builder-run
      annotated_arrivals-RangedEntries annotated_arrivals-OnlyAnnotated

annotated_plan-all_distinct : all_distinct annotated_plan ≡ true
unfolding all_distinct data_of_layers distinct_paths has_path eqb_bytes
annotated_plan-all_distinct = refl

-- The whole of `GetScanMetadata`.
annotated_arrivals-plan : get_scan_metadata annotated_arrivals ≡ ok regrouped_plan
unfolding get_scan_metadata planner_get_result regroup_if_annotated get_result resolve_partitions
    resolve_deletion_vectors apply_global_equality_deletes collect_dvs collect_layer resolve_layers
    resolve_entries assign_dv get_partitions map_to_vec values remove_dangling_deletes without_data
    prune_layers insert_data_paths insert_path keep_deletes is_dangling can_optimize
    can_optimize_partition layer_empty regroup handle_partitions handle_partition collect_partition
    collect_data collect_deletes place_data deletes_from new_partition plain_partition
    all_partitions planner_add_entries planner_add_entry note_file handle_position_delete add_entry
    check_partition_tuple matching_specifications store_entry store_file add_data_file
    add_position_deletes at_layer update contains find segments_of segments_from referenced_range
    bound_at eqb_bytes ltb_bytes ◌+ℤ◌
annotated_arrivals-plan = refl

regroup-IsRegrouping_example :
    IsRegrouping annotated_planner.referenced_paths annotated_plan regrouped_plan
regroup-IsRegrouping_example =
    regroup-IsRegrouping annotated_planner.referenced_paths annotated_plan annotated_plan-run

annotated_plan-all_regular : all_regular annotated_planner.referenced_paths annotated_plan ≡ true
unfolding all_regular is_regular all_known data_of_layers deletes_behind distinct_paths has_path
    contains eqb_bytes ltb_bytes
annotated_plan-all_regular = refl

planner_add_entries-KnowsEntries_example : KnowsEntries annotated_arrivals annotated_planner
planner_add_entries-KnowsEntries_example =
    planner_add_entries-KnowsEntries annotated_arrivals annotated_arrivals-run
