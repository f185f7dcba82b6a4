-- ===== src/Scan/Examples.antt =====
-- Theorems on the scan planning of iceberg/tea_scan.cpp at a partition of two layers, and tests.
use iceberg_cxx.Common.{
  ◌≡◌, refl, ◌↔◌, true, List, [], ◌∷◌, All, ok, false, err, if◌then◌else◌, ◌≢◌,
}
use iceberg_cxx.Common.Sequences.{Some, Among}
use iceberg_cxx.Filter.Value.{Bytes}
use iceberg_cxx.Filter.Order.{ltb_bytes, eqb_bytes}
use iceberg_cxx.Scan.{
  DataEntry, PositionalDeleteWithExtraInfo, LayerWithExtraInfo, Layer, empty_layer,
  consistency_error,
}
use iceberg_cxx.Scan.MapKeys.{number_order}
use iceberg_cxx.Scan.PartitionKeys.{
  serialize_partition_tuple, long_first, long_second, serialize_partition_tuple-collision,
}
use iceberg_cxx.Scan.Vectors.{apply_global_equality_deletes, resolve_deletion_vectors}
use iceberg_cxx.Scan.Vectors.Resolved.{
  mixes, mixes_entries, applying_vector, highest_vector, layer_vector, with_vectors,
  resolve_deletion_vectors_lem,
}
use iceberg_cxx.Scan.Vectors.Global.{
  GivesDeletes, global_at, apply_global_equality_deletes-GivesDeletes,
}
use iceberg_cxx.Scan.Timeline.{Item}
use iceberg_cxx.Scan.Samples.{
  path_at, first_layer, two_layers, one_partition, three_arrivals, three_stored, stored_entry,
  stored_delete, vector_layers, global_deletes, ninety_bytes,
}
use iceberg_cxx.Common.Int.{ℤ, pos, leb_ℤ, ◌+ℤ◌}
use iceberg_cxx.Common.OrderedMap.{update, find}
use iceberg_cxx.Scan.Builder.{
  add_entries, add_entry, check_partition_tuple, matching_specifications, store_entry, store_file,
  add_data_file, add_position_deletes, add_equality_deletes, at_layer, segments_of,
  referenced_range, bound_at,
}
use iceberg_cxx.Scan.Builder.Stored.{layer_at, Adds}
use iceberg_cxx.Scan.Builder.Entries.{data_of, positional_of, equality_of, add_entries-Adds}
use iceberg_cxx.Scan.Builder.Numbers.{new_builder, add_entries-Precedes}
use iceberg_cxx.Scan.Optimizer.{
  event_lt, create_from_delete, create_from_data, events_of_deletes, get_events_in_partition,
  insert_event, sort_events, next_balance, sweep, find_bucket_lower_bounds,
}
use iceberg_cxx.Scan.Optimizer.Buckets.{optimize}
use iceberg_cxx.Scan.Optimizer.Ranges.{Ranged, EveryDelete}
use iceberg_cxx.Scan.Optimizer.Correctness.{Applies, Precedes}
use iceberg_cxx.Scan.Optimizer.Equivalence.{Hereditary, OnTimeline}
use iceberg_cxx.Scan.Optimizer.Whole.{optimize-Applies}
use iceberg_cxx.Scan.Dangling.{map_to_vec, values, get_partitions}
use iceberg_cxx.Scan.Dangling.Planning.{Implements, get_partitions-Implements}

three_arrivals-run : add_entries three_arrivals new_builder ≡ ok three_stored
unfolding add_entries add_entry check_partition_tuple matching_specifications store_entry store_file
    add_data_file add_position_deletes add_equality_deletes at_layer update segments_of
    referenced_range bound_at eqb_bytes ltb_bytes ◌+ℤ◌
three_arrivals-run = refl

add_entries-Precedes_example :
    Some (Precedes stored_entry stored_delete) (map_to_vec three_stored.partitions) ↔ (
      (key : Bytes) × (t : ℤ) × (s : ℤ) × (leb_ℤ t s ≡ true)
      × Among stored_entry (data_of key t three_arrivals)
      × Among stored_delete (positional_of key s three_arrivals))
add_entries-Precedes_example =
    add_entries-Precedes three_arrivals three_stored three_arrivals-run stored_entry stored_delete

add_entries-Adds_example :
    Adds
      (layer_at (path_at b'k') (pos 1) new_builder)
      (layer_at (path_at b'k') (pos 1) three_stored)
      (data_of (path_at b'k') (pos 1) three_arrivals)
      (positional_of (path_at b'k') (pos 1) three_arrivals)
      (equality_of (path_at b'k') (pos 1) three_arrivals)
add_entries-Adds_example =
    add_entries-Adds (path_at b'k') (pos 1) three_arrivals new_builder three_arrivals-run

-- The bounds that the comment on the source gives.
bounds_of_comment :
    find_bucket_lower_bounds (first_layer ∷ [])
    ≡ ok (path_at b'A' ∷ path_at b'D' ∷ path_at b'E' ∷ [])
unfolding find_bucket_lower_bounds get_events_in_partition events_of_deletes create_from_delete
    create_from_data sort_events insert_event event_lt sweep next_balance ltb_bytes
bounds_of_comment = refl

two_layers-Ranged : All (EveryDelete Ranged) (two_layers ∷ [])
unfolding ltb_bytes
two_layers-Ranged = (((refl, (refl, tt)), ((refl, (refl, tt)), tt)), tt)

one_partition-Ranged : All (EveryDelete Ranged) (map_to_vec one_partition)
unfolding ltb_bytes map_to_vec values
one_partition-Ranged = (((refl, (refl, tt)), ((refl, (refl, tt)), tt)), tt)

optimize-Applies_example :
    (out : List (List LayerWithExtraInfo)) × (optimize (two_layers ∷ []) ≡ ok out)
    × ((entry : DataEntry) (del : PositionalDeleteWithExtraInfo)
        → Some (Applies entry del) (two_layers ∷ []) ↔ Some (Applies entry del) out)
    × ((P : List Item → Type 0)
        → Hereditary P
        → Some (OnTimeline P) out
        → Some (OnTimeline P) (two_layers ∷ []))
optimize-Applies_example = optimize-Applies (two_layers ∷ []) two_layers-Ranged

get_partitions-Implements_example :
    (plan : List (List Layer)) × (get_partitions one_partition ≡ ok plan)
    × Implements plan (map_to_vec one_partition)
get_partitions-Implements_example = get_partitions-Implements one_partition one_partition-Ranged

resolve_deletion_vectors_lem_example : resolve_deletion_vectors vector_layers ≡ (
    if mixes vector_layers vector_layers
    then err consistency_error
    else ok (with_vectors vector_layers vector_layers))
resolve_deletion_vectors_lem_example = resolve_deletion_vectors_lem vector_layers

-- The vector is for the data file, and there are no other deletes in its layer.
vector_layers-mixes : mixes vector_layers vector_layers ≡ false
unfolding mixes mixes_entries applying_vector highest_vector layer_vector eqb_bytes
vector_layers-mixes = refl

apply_global_equality_deletes-GivesDeletes_example :
    GivesDeletes
      (find number_order empty_layer (pos 2) vector_layers)
      (find number_order empty_layer
        (pos 2)
        (apply_global_equality_deletes global_deletes vector_layers))
      (global_at (pos 2) global_deletes)
apply_global_equality_deletes-GivesDeletes_example =
    apply_global_equality_deletes-GivesDeletes global_deletes vector_layers (pos 2)

serialize_partition_tuple-collision_example :
    (serialize_partition_tuple (long_second ninety_bytes)
      ≡ serialize_partition_tuple (long_first ninety_bytes))
    × (long_second ninety_bytes ≢ long_first ninety_bytes)
serialize_partition_tuple-collision_example = serialize_partition_tuple-collision ninety_bytes refl
