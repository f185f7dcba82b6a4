-- ===== src/Scan/Builder/Stored.antt =====
-- What the layers of a `ScanMetadataBuilder` of iceberg/tea_scan.cpp hold after entries were stored.
use iceberg_cxx.Common.{
  ◌≡◌, refl, inl, inr, Bool, true, false, ◌&&◌, not, none, List, [], ◌∷◌, ◌++◌, arith,
  if◌then◌else◌, Bool-cases, ok, >>=-eq-ok, or_err, eq_of_ok-eq-ok,
}
use mathlib.Core.List.{append-nil}
use iceberg_cxx.Common.Int.{ℤ, eqb_ℤ, eq_of_parts}
use iceberg_cxx.Common.OrderedMap.{update, find, find-update}
use iceberg_cxx.Filter.Value.{Bytes}
use iceberg_cxx.Filter.Order.{eqb_bytes}
use iceberg_cxx.PositionalDelete.Position.{eqb_bytes-eq}
use iceberg_cxx.Scan.{
  DataEntry, PositionalDeleteWithExtraInfo, EqualityDeleteInfo, LayerWithExtraInfo, empty_layer,
  is_empty, consistency_error,
}
use iceberg_cxx.Scan.Dangling.{Layers}
use iceberg_cxx.Scan.MapKeys.{key_order, number_order}
use iceberg_cxx.Scan.Builder.{
  FileContent, data_content, position_deletes, equality_deletes, DataFile, Builder, at_layer,
  add_data_file, add_position_deletes, add_equality_deletes, add_global_equality_deletes,
  add_deletion_vector, previous, segments_of, referenced_range, deletion_vector_format,
  store_deletion_vector, store_file,
}

unfoldable pub layer_at : Bytes → ℤ → Builder → LayerWithExtraInfo
layer_at key number b = find number_order empty_layer number (find key_order [] key b.partitions)

abbrev pub same_layer : Bytes → ℤ → Bytes → ℤ → Bool
same_layer k n key number = eqb_bytes k key && eqb_ℤ n number

layer_at-at_layer :
    (k key : Bytes) (n number : ℤ) (change : LayerWithExtraInfo → LayerWithExtraInfo) (b : Builder)
    → layer_at key number (at_layer k n change b) ≡ (
        if same_layer k n key number then change (layer_at key number b) else layer_at key number b)
unfolding layer_at at_layer
layer_at-at_layer k key n number change b =
    let inner = λ (layers : Layers). update number_order empty_layer n change layers in
    rw (find-update key_order [] key k inner b.partitions) (elim (Bool-cases (eqb_bytes k key)) [
      | inr other ↦ rw other refl
      | inl same ↦
          let here : k ≡ key = eqb_bytes-eq k key same in
          rw
            (
              same,
              find-update number_order empty_layer number n change
                  (find key_order [] k b.partitions),
              here,
            )
            (elim (Bool-cases (eqb_ℤ n number)) [
              | inl at ↦
                  let number_here : n ≡ number = eq_of_parts n number (ground arith) in
                  rw (at, number_here) refl
              | inr elsewhere ↦ rw elsewhere refl
            ])
    ])

-- What a file is stored as: a data file, a positional delete or an equality delete.
unfoldable pub file_data : FileContent → DataFile → List DataEntry
file_data data_content file =
    record { path = file.file_path; parts = segments_of file.split_offsets; dv = none } ∷ []
file_data position_deletes file = []
file_data equality_deletes file = []

unfoldable pub file_positional : FileContent → DataFile → List PositionalDeleteWithExtraInfo
file_positional data_content file = []
file_positional position_deletes file =
    if eqb_bytes file.file_format deletion_vector_format
    then []
    else record {
      positional_delete = record { path = file.file_path };
      min_max_referenced_path = referenced_range file;
    }
      ∷ []
file_positional equality_deletes file = []

unfoldable pub file_equality : FileContent → DataFile → List EqualityDeleteInfo
file_equality data_content file = []
file_equality position_deletes file = []
file_equality equality_deletes file =
    record { path = file.file_path; field_ids = file.equality_ids } ∷ []

-- The lists of a layer after a file was stored.
abbrev pub Adds :
    LayerWithExtraInfo
    → LayerWithExtraInfo
    → List DataEntry
    → List PositionalDeleteWithExtraInfo
    → List EqualityDeleteInfo
    → Type 0
Adds before after entries positional equality =
    (after.data_entries ≡ before.data_entries ++ entries)
    × (after.positional_delete_entries ≡ before.positional_delete_entries ++ positional)
    × (after.equality_delete_entries ≡ before.equality_delete_entries ++ equality)

abbrev pub when {ℓ} : {A : Type ℓ} → Bool → List A → List A
when test xs = if test then xs else []

abbrev pub FileAdds : FileContent → Bytes → ℤ → DataFile → Bytes → ℤ → Builder → Builder → Type 0
FileAdds content k n file key number b out =
    Adds (layer_at key number b) (layer_at key number out)
      (when (same_layer k n key number) (file_data content file))
      (when (same_layer k n key number) (file_positional content file))
      (when (not (is_empty k) && same_layer k (previous n) key number) (file_equality content file))

module _ (k key : Bytes) (n number : ℤ) (file : DataFile) (b : Builder) where
  store_data :
      FileAdds data_content k n file key number b
        (add_data_file k n file.file_path (segments_of file.split_offsets) b)
  unfolding add_data_file file_data file_positional file_equality
  store_data =
      let l = layer_at key number b in
      rw (layer_at-at_layer k key n number _ b) (
        ground (
          arith,
          append-nil l.data_entries,
          append-nil l.positional_delete_entries,
          append-nil l.equality_delete_entries,
        ))

  store_positional :
      eqb_bytes file.file_format deletion_vector_format ≡ false
      → FileAdds position_deletes k n file key number b
          (add_position_deletes k n file.file_path (referenced_range file) b)
  unfolding add_position_deletes file_data file_positional file_equality
  store_positional h =
      let l = layer_at key number b in
      rw (layer_at-at_layer k key n number _ b, h)
        (ground (
          arith,
          append-nil l.data_entries,
          append-nil l.positional_delete_entries,
          append-nil l.equality_delete_entries,
        ))

  store_vector :
      (referenced : Bytes) (offset length : ℤ)
      → eqb_bytes file.file_format deletion_vector_format ≡ true
      → FileAdds position_deletes k n file key number b
          (add_deletion_vector k n file.file_path referenced offset length b)
  unfolding add_deletion_vector file_data file_positional file_equality
  store_vector referenced offset length h =
      let l = layer_at key number b in
      rw (layer_at-at_layer k key n number _ b, h)
        (ground (
          arith,
          append-nil l.data_entries,
          append-nil l.positional_delete_entries,
          append-nil l.equality_delete_entries,
        ))

  store_equality :
      is_empty k ≡ false
      → FileAdds equality_deletes k n file key number b
          (add_equality_deletes k n file.file_path file.equality_ids b)
  unfolding add_equality_deletes file_data file_positional file_equality
  store_equality h =
      let l = layer_at key number b in
      rw (layer_at-at_layer k key (previous n) number _ b, h)
        (ground (
          arith,
          append-nil l.data_entries,
          append-nil l.positional_delete_entries,
          append-nil l.equality_delete_entries,
        ))

  store_global :
      is_empty k ≡ true
      → FileAdds equality_deletes k n file key number b
          (add_global_equality_deletes n file.file_path file.equality_ids b)
  unfolding add_global_equality_deletes file_data file_positional file_equality layer_at
  store_global h =
      let l = layer_at key number b in
      rw h (
        ground (
          arith,
          append-nil l.data_entries,
          append-nil l.positional_delete_entries,
          append-nil l.equality_delete_entries,
        ))

  store_vector_file :
      {out : Builder}
      → eqb_bytes file.file_format deletion_vector_format ≡ true
      → store_deletion_vector k n file b ≡ ok out
      → FileAdds position_deletes k n file key number b out
  unfolding store_deletion_vector
  store_vector_file {out} h run =
      let (referenced, e, rest) =
        >>=-eq-ok (or_err file.referenced_data_file consistency_error) _ run in
      let (offset, f, last) = >>=-eq-ok (or_err file.content_offset consistency_error) _ rest in
      let (length, g, done) =
        >>=-eq-ok (or_err file.content_size_in_bytes consistency_error) _ last in
      let same : add_deletion_vector k n file.file_path referenced offset length b ≡ out =
        eq_of_ok-eq-ok done in
      rw (← same) (store_vector referenced offset length h)

  pub store_file-Adds :
      (content : FileContent) {out : Builder}
      → store_file content k n file b ≡ ok out
      → FileAdds content k n file key number b out
  unfolding store_file
  store_file-Adds data_content {out} run =
      let same : add_data_file k n file.file_path (segments_of file.split_offsets) b ≡ out =
        eq_of_ok-eq-ok run in
      rw (← same) store_data
  store_file-Adds position_deletes {out} run =
      elim (Bool-cases (eqb_bytes file.file_format deletion_vector_format)) [
        | inl is_vector ↦ store_vector_file is_vector (rw is_vector at run)
        | inr not_vector ↦
            let same : add_position_deletes k n file.file_path (referenced_range file) b ≡ out =
              eq_of_ok-eq-ok (rw not_vector at run) in
            rw (← same) (store_positional not_vector)
      ]
  store_file-Adds equality_deletes {out} run = elim (Bool-cases (is_empty k)) [
    | inl no_key ↦
        let same : add_global_equality_deletes n file.file_path file.equality_ids b ≡ out =
          eq_of_ok-eq-ok (rw no_key at run) in
        rw (← same) (store_global no_key)
    | inr some_key ↦
        let same : add_equality_deletes k n file.file_path file.equality_ids b ≡ out =
          eq_of_ok-eq-ok (rw some_key at run) in
        rw (← same) (store_equality some_key)
  ]
