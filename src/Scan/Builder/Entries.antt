-- ===== src/Scan/Builder/Entries.antt =====
-- The layers of a `ScanMetadataBuilder` of iceberg/tea_scan.cpp after the entries of a table.
use iceberg_cxx.Common.{
  ◌≡◌, sym, ◌∙◌, inl, inr, ◌&&◌, not, Option, none, some, List, [], ◌∷◌, ◌++◌, Bool-cases, ok,
  >>=-eq-ok, or_err, eq_of_ok-eq-ok,
}
use mathlib.Core.List.{append-nil, append_assoc}
use iceberg_cxx.Common.Int.{ℤ}
use iceberg_cxx.Filter.Value.{Bytes}
use iceberg_cxx.Scan.{
  DataEntry, PositionalDeleteWithExtraInfo, EqualityDeleteInfo, LayerWithExtraInfo, is_empty,
  bad_optional_access,
}
use iceberg_cxx.Scan.Builder.{
  DataFile, Builder, previous, Arrival, is_deleted, store_entry, check_partition_tuple, add_entry,
  add_entries,
}
use iceberg_cxx.Scan.Builder.Stored.{
  layer_at, same_layer, file_data, file_positional, file_equality, Adds, when, store_file-Adds,
}

or_err-eq-ok {ℓ} : {E A : Type ℓ} (o : Option A) (e : E) {a : A} → or_err o e ≡ ok a → o ≡ some a
or_err-eq-ok none e h = cc
or_err-eq-ok (some b) e h = cc

-- What an entry puts into a layer, by its sequence number.
module _ (key : Bytes) (number : ℤ) where
  numbered_data : Bytes → DataFile → Option ℤ → List DataEntry
  numbered_data k file none = []
  numbered_data k file (some n) = when (same_layer k n key number) (file_data file.content file)

  unfoldable pub numbered_positional :
      Bytes → DataFile → Option ℤ → List PositionalDeleteWithExtraInfo
  numbered_positional k file none = []
  numbered_positional k file (some n) =
      when (same_layer k n key number) (file_positional file.content file)

  -- An equality delete belongs to the layer below its sequence number.
  numbered_equality : Bytes → DataFile → Option ℤ → List EqualityDeleteInfo
  numbered_equality k file none = []
  numbered_equality k file (some n) =
      when (not (is_empty k) && same_layer k (previous n) key number)
        (file_equality file.content file)

  pub data_of : List Arrival → List DataEntry
  data_of [] = []
  data_of (a ∷ arrivals) =
      when (not (is_deleted a.entry.status))
        (numbered_data a.key a.entry.data_file a.entry.sequence_number)
      ++ data_of arrivals

  unfoldable pub positional_of : List Arrival → List PositionalDeleteWithExtraInfo
  positional_of [] = []
  positional_of (a ∷ arrivals) =
      when (not (is_deleted a.entry.status))
        (numbered_positional a.key a.entry.data_file a.entry.sequence_number)
      ++ positional_of arrivals

  pub equality_of : List Arrival → List EqualityDeleteInfo
  equality_of [] = []
  equality_of (a ∷ arrivals) =
      when (not (is_deleted a.entry.status))
        (numbered_equality a.key a.entry.data_file a.entry.sequence_number)
      ++ equality_of arrivals

  Adds-append :
      (a b c : LayerWithExtraInfo) (xs xs' : List DataEntry)
      (ps ps' : List PositionalDeleteWithExtraInfo) (es es' : List EqualityDeleteInfo)
      → Adds a b xs ps es
      → Adds b c xs' ps' es'
      → Adds a c (xs ++ xs') (ps ++ ps') (es ++ es')
  Adds-append a b c xs xs' ps ps' es es' (h, k, l) (h', k', l') = (
    h' ∙ rw h (append_assoc a.data_entries xs xs'),
    k' ∙ rw k (append_assoc a.positional_delete_entries ps ps'),
    l' ∙ rw l (append_assoc a.equality_delete_entries es es'),
  )

  add_entry-Adds :
      (a : Arrival) (b : Builder) {out : Builder}
      → add_entry a b ≡ ok out
      → Adds
          (layer_at key number b)
          (layer_at key number out)
          (when
            (not (is_deleted a.entry.status))
            (numbered_data a.key a.entry.data_file a.entry.sequence_number))
          (when
            (not (is_deleted a.entry.status))
            (numbered_positional a.key a.entry.data_file a.entry.sequence_number))
          (when
            (not (is_deleted a.entry.status))
            (numbered_equality a.key a.entry.data_file a.entry.sequence_number))
  unfolding add_entry store_entry numbered_data numbered_positional numbered_equality
  add_entry-Adds a b {out} run = elim (Bool-cases (is_deleted a.entry.status)) [
    | inl gone ↦
        let same : b ≡ out = eq_of_ok-eq-ok (rw gone at run) in
        rw (gone, ← same) (sym (append-nil _), sym (append-nil _), sym (append-nil _))
    | inr live ↦
        let (checked, passed, rest) =
          >>=-eq-ok (check_partition_tuple a.specs) _ (rw live at run) in
        let (n, e, stored) =
          >>=-eq-ok (or_err a.entry.sequence_number bad_optional_access) _ rest in
        let numbered : a.entry.sequence_number ≡ some n =
          or_err-eq-ok a.entry.sequence_number bad_optional_access e in
        rw (live, numbered)
          (store_file-Adds a.key key n number a.entry.data_file b a.entry.data_file.content stored)
  ]

  -- After entries were stored without an error, the layer of a partition and a sequence number has
  -- what it had and then, in the order of the entries, those of the partition that are not deleted:
  -- the data files of the sequence number, the positional deletes of the sequence number that are no
  -- deletion vectors, and, in a partition with a key, the equality deletes of the number above.
  pub add_entries-Adds :
      (arrivals : List Arrival) (b : Builder) {out : Builder}
      → add_entries arrivals b ≡ ok out
      → Adds
          (layer_at key number b)
          (layer_at key number out)
          (data_of arrivals)
          (positional_of arrivals)
          (equality_of arrivals)
  unfolding add_entries data_of positional_of equality_of
  add_entries-Adds [] b {out} run =
      let same : b ≡ out = eq_of_ok-eq-ok run in
      let l = layer_at key number b in
      rw (← same) (
        sym (append-nil l.data_entries),
        sym (append-nil l.positional_delete_entries),
        sym (append-nil l.equality_delete_entries),
      )
  add_entries-Adds (a ∷ arrivals) b {out} run =
      let (next, first, rest) = >>=-eq-ok (add_entry a b) _ run in
      Adds-append (layer_at key number b) (layer_at key number next) (layer_at key number out) _
        (data_of arrivals) _ (positional_of arrivals) _ (equality_of arrivals)
        (add_entry-Adds a b first) (add_entries-Adds arrivals next rest)
