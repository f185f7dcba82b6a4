-- ===== src/Scan/Builder/Keys.antt =====
-- The maps of a `ScanMetadataBuilder` of iceberg/tea_scan.cpp keep their keys in order.
use iceberg_cxx.Common.{
  ◌≡◌, inl, inr, List, [], ◌∷◌, Bool-cases, ok, >>=-eq-ok, or_err, eq_of_ok-eq-ok,
}
use iceberg_cxx.Common.Int.{ℤ}
use iceberg_cxx.Common.OrderedMap
use iceberg_cxx.Common.OrderedMap.{Ascends, AllValues, update}
use iceberg_cxx.Filter.Value.{Bytes}
use iceberg_cxx.Filter.Order.{eqb_bytes}
use iceberg_cxx.Scan.{
  LayerWithExtraInfo, empty_layer, is_empty, bad_optional_access, consistency_error,
}
use iceberg_cxx.Scan.Dangling.{Layers}
use iceberg_cxx.Scan.MapKeys.{key_order, number_order}
use iceberg_cxx.Scan.Builder.{
  FileContent, data_content, position_deletes, equality_deletes, DataFile, Builder, at_layer,
  add_data_file, add_position_deletes, add_equality_deletes, add_global_equality_deletes,
  add_deletion_vector, deletion_vector_format, store_deletion_vector, store_file, store_entry,
  Arrival, is_deleted, check_partition_tuple, add_entry, add_entries,
}

-- The partitions ascend by key, and the layers of each by sequence number.
abbrev pub HasOrder : Builder → Type 0
HasOrder b =
    Ascends key_order [] b.partitions
    × AllValues key_order [] (Ascends number_order empty_layer) b.partitions

at_layer-HasOrder :
    (k : Bytes) (n : ℤ) (change : LayerWithExtraInfo → LayerWithExtraInfo) (b : Builder)
    → HasOrder b
    → HasOrder (at_layer k n change b)
unfolding at_layer
at_layer-HasOrder k n change b (keys, numbers) =
    let inner = λ (layers : Layers). update number_order empty_layer n change layers in
    (
      OrderedMap.update-Ascends key_order [] k inner b.partitions keys,
      OrderedMap.AllValues-update key_order [] (Ascends number_order empty_layer) k inner
          b.partitions tt
          (λ layers ascends.
            OrderedMap.update-Ascends number_order empty_layer n change layers ascends)
          numbers,
    )

store_deletion_vector-HasOrder :
    (k : Bytes) (n : ℤ) (file : DataFile) (b : Builder) {out : Builder}
    → store_deletion_vector k n file b ≡ ok out
    → HasOrder b
    → HasOrder out
unfolding store_deletion_vector add_deletion_vector
store_deletion_vector-HasOrder k n file b {out} run order =
    let (referenced, e, rest) =
      >>=-eq-ok (or_err file.referenced_data_file consistency_error) _ run in
    let (offset, f, last) = >>=-eq-ok (or_err file.content_offset consistency_error) _ rest in
    let (length, g, done) =
      >>=-eq-ok (or_err file.content_size_in_bytes consistency_error) _ last in
    let same : add_deletion_vector k n file.file_path referenced offset length b ≡ out =
      eq_of_ok-eq-ok done in
    rw (← same) (at_layer-HasOrder k n _ b order)

store_file-HasOrder :
    (content : FileContent) (k : Bytes) (n : ℤ) (file : DataFile) (b : Builder) {out : Builder}
    → store_file content k n file b ≡ ok out
    → HasOrder b
    → HasOrder out
unfolding store_file add_data_file add_position_deletes add_equality_deletes
    add_global_equality_deletes
store_file-HasOrder data_content k n file b run order =
    rw (← eq_of_ok-eq-ok run) (at_layer-HasOrder k n _ b order)
store_file-HasOrder position_deletes k n file b run order =
    elim (Bool-cases (eqb_bytes file.file_format deletion_vector_format)) [
      | inl is_vector ↦ store_deletion_vector-HasOrder k n file b (rw is_vector at run) order
      | inr not_vector ↦
          rw (← eq_of_ok-eq-ok (rw not_vector at run)) (at_layer-HasOrder k n _ b order)
    ]
store_file-HasOrder equality_deletes k n file b run order = elim (Bool-cases (is_empty k)) [
  | inl no_key ↦ rw (← eq_of_ok-eq-ok (rw no_key at run)) order
  | inr some_key ↦ rw (← eq_of_ok-eq-ok (rw some_key at run)) (at_layer-HasOrder k _ _ b order)
]

add_entry-HasOrder :
    (a : Arrival) (b : Builder) {out : Builder} → add_entry a b ≡ ok out → HasOrder b → HasOrder out
unfolding add_entry store_entry
add_entry-HasOrder a b run order = elim (Bool-cases (is_deleted a.entry.status)) [
  | inl gone ↦ rw (← eq_of_ok-eq-ok (rw gone at run)) order
  | inr live ↦
      let (checked, passed, rest) = >>=-eq-ok (check_partition_tuple a.specs) _ (rw live at run) in
      let (n, e, stored) = >>=-eq-ok (or_err a.entry.sequence_number bad_optional_access) _ rest in
      store_file-HasOrder a.entry.data_file.content a.key n a.entry.data_file b stored order
]

-- Storing entries keeps the partitions in the order of their keys, each key once, and the layers of a
-- partition in the order of their sequence numbers, each number once.
pub add_entries-HasOrder :
    (arrivals : List Arrival) (b : Builder) {out : Builder}
    → add_entries arrivals b ≡ ok out
    → HasOrder b
    → HasOrder out
unfolding add_entries
add_entries-HasOrder [] b run order = rw (← eq_of_ok-eq-ok run) order
add_entries-HasOrder (a ∷ arrivals) b run order =
    let (next, first, rest) = >>=-eq-ok (add_entry a b) _ run in
    add_entries-HasOrder arrivals next rest (add_entry-HasOrder a b first order)
