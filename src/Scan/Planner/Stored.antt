-- ===== src/Scan/Planner/Stored.antt =====
-- What the planner of iceberg/tea_scan.cpp knows of the entries of a table, and the deletes that its
-- builder has stored by then.
use iceberg_cxx.Common.{
  ◌≡◌, refl, inl, inr, Bool, true, false, ◌&&◌, not, Option, none, some, List, [], ◌∷◌, arith,
  Bool-cases, Option-cases, ok, ap,
}
use iceberg_cxx.Common.Int.{ℤ}
use iceberg_cxx.Common.Sequences
use iceberg_cxx.Common.Sequences.{Among}
use iceberg_cxx.Common.OrderedMap.{find}
use iceberg_cxx.Common.OrderedMap.Keys.{contains}
use iceberg_cxx.Filter.Value.{Bytes}
use iceberg_cxx.Filter.Order.{eqb_bytes}
use iceberg_cxx.Scan.{PositionalDeleteWithExtraInfo}
use iceberg_cxx.Scan.MapKeys.{key_order}
use iceberg_cxx.Scan.Builder.{
  FileContent, data_content, position_deletes, equality_deletes, DataFile, Arrival, is_deleted,
  add_entries, deletion_vector_format, referenced_range,
}
use iceberg_cxx.Scan.Builder.Stored.{layer_at, file_positional, same_layer, when}
use iceberg_cxx.Scan.Builder.Entries.{positional_of, numbered_positional, add_entries-Adds}
use iceberg_cxx.Scan.Builder.Numbers.{new_builder}
use iceberg_cxx.Scan.Planner.{Planner, new_planner, planner_add_entries}
use iceberg_cxx.Scan.Planner.Noted.{
  some_entry, is_position, live_file, is_annotated_file, is_annotated, is_unannotated,
  is_equality_delete, Notes, planner_add_entries-Notes,
}
use iceberg_cxx.Scan.Planner.Known.{Knows}
use iceberg_cxx.Scan.Planner.Entries.{planner_add_entries-add_entries, planner_add_entries-Knows}

-- A positional delete that is no deletion vector.
abbrev pub is_delete_file : DataFile → Bool
is_delete_file file =
    is_position file.content && not (eqb_bytes file.file_format deletion_vector_format)

abbrev pub Source : PositionalDeleteWithExtraInfo → Arrival → Type 0
Source del a =
    (live_file is_delete_file a ≡ true)
    × (a.entry.data_file.file_path ≡ del.positional_delete.path)
    × (referenced_range a.entry.data_file ≡ del.min_max_referenced_path)

Among-when :
    {A : Type 0} (a : A) (test : Bool) (xs : List A)
    → Among a (when test xs)
    → (test ≡ true) × Among a xs
Among-when a true xs h = (refl, h)
Among-when a false xs h = absurd h

file_positional-Among :
    (content : FileContent) (file : DataFile) (del : PositionalDeleteWithExtraInfo)
    → Among del (file_positional content file)
    → (is_position content && not (eqb_bytes file.file_format deletion_vector_format) ≡ true)
      × (file.file_path ≡ del.positional_delete.path)
      × (referenced_range file ≡ del.min_max_referenced_path)
unfolding file_positional
file_positional-Among data_content file del h = absurd h
file_positional-Among equality_deletes file del h = absurd h
file_positional-Among position_deletes file del h =
    elim (Bool-cases (eqb_bytes file.file_format deletion_vector_format)) [
      | inl vector ↦ absurd (rw vector at h)
      | inr plain ↦ elim (rw plain at h) [
        | inl same ↦ (
          rw plain refl,
          ap (λ (d : PositionalDeleteWithExtraInfo). d.positional_delete.path) same,
          ap (λ (d : PositionalDeleteWithExtraInfo). d.min_max_referenced_path) same,
        )
        | inr wrong ↦ absurd wrong
      ]
    ]

module _ (key : Bytes) (number : ℤ) (del : PositionalDeleteWithExtraInfo) where
  numbered_positional-Among :
      (k : Bytes) (file : DataFile) (n : Option ℤ)
      → Among del (numbered_positional key number k file n)
      → Among del (file_positional file.content file)
  unfolding numbered_positional
  numbered_positional-Among k file none h = absurd h
  numbered_positional-Among k file (some n) h =
      (Among-when del (same_layer k n key number) (file_positional file.content file) h).1

  pub positional_of-Source :
      (arrivals : List Arrival)
      → Among del (positional_of key number arrivals)
      → (a : Arrival) × Among a arrivals × Source del a
  unfolding positional_of
  positional_of-Source [] h = absurd h
  positional_of-Source (a ∷ arrivals) h =
      let file = a.entry.data_file in
      let here = numbered_positional key number a.key file a.entry.sequence_number in
      elim (Sequences.Among-append del (when (not (is_deleted a.entry.status)) here)
        (positional_of key number arrivals) h) [
          | inr later ↦
              let (b, among, source) = positional_of-Source arrivals later in (b, inr among, source)
          | inl now ↦
              let (live, among) = Among-when del (not (is_deleted a.entry.status)) here now in
              let (plain, same, range) =
                file_positional-Among file.content file del
                  (numbered_positional-Among a.key file a.entry.sequence_number among) in
              (a, inl refl, (ground arith, same, range))
        ]

some_entry_none :
    (test : Arrival → Bool) (arrivals : List Arrival) (a : Arrival)
    → some_entry test arrivals ≡ false
    → Among a arrivals
    → test a ≡ false
some_entry_none test [] a h among = absurd among
some_entry_none test (b ∷ arrivals) a h (inl same) = rw (← same) (ground arith)
some_entry_none test (b ∷ arrivals) a h (inr later) =
    some_entry_none test arrivals a (ground arith) later

-- What the planner knows after the entries.
abbrev pub KnowsEntries : List Arrival → Planner → Type 0
KnowsEntries arrivals p =
    (add_entries arrivals new_builder ≡ ok p.builder)
    × Notes new_planner p (some_entry (live_file is_equality_delete) arrivals)
        (some_entry (live_file is_unannotated) arrivals)
        (some_entry (live_file is_annotated) arrivals)
    × ((a : Arrival) (data_path : Bytes)
        → Among a arrivals
        → live_file is_annotated_file a ≡ true
        → a.entry.data_file.referenced_data_file ≡ some data_path
        → Knows p.referenced_paths a.entry.data_file.file_path data_path)
    × (p.all_annotated ≡ true
        → (key : Bytes) (number : ℤ) (del : PositionalDeleteWithExtraInfo)
        → Among del (layer_at key number p.builder).positional_delete_entries
        → contains key_order del.positional_delete.path p.referenced_paths ≡ true)

-- After the entries of a table were added to a new planner without an error, its builder is the one
-- that stores them; its flags say whether an entry that is not deleted is an equality delete, a
-- positional delete without a referenced data file, or one with it; for every delete file with a
-- referenced data file that is not deleted it knows that data file; and if none is without, it knows
-- every positional delete that the builder has stored in any layer.
pub planner_add_entries-KnowsEntries :
    (arrivals : List Arrival) {p : Planner}
    → planner_add_entries arrivals new_planner ≡ ok p
    → KnowsEntries arrivals p
planner_add_entries-KnowsEntries arrivals {p} run =
    let stored = planner_add_entries-add_entries arrivals new_planner run in
    let notes = planner_add_entries-Notes arrivals new_planner run in
    let knows = planner_add_entries-Knows arrivals new_planner run in
    (
      stored,
      notes,
      knows,
      λ annotated key number del among.
          let (entries, positional, equality) =
            add_entries-Adds key number arrivals new_builder stored in
          let added : Among del (positional_of key number arrivals) =
            unfold layer_at in unfold find in rw positional at among in
          let (a, arrived, (kind, same, range)) =
            positional_of-Source key number del arrivals added in
          let none_without : some_entry (live_file is_unannotated) arrivals ≡ false =
            ground (arith, notes.1) in
          let with : live_file is_unannotated a ≡ false =
            some_entry_none (live_file is_unannotated) arrivals a none_without arrived in
          elim (Option-cases a.entry.data_file.referenced_data_file) [
            | inl absent ↦ absurd (ground arith)
            | inr (data_path, present) ↦
                rw (← same) (knows a data_path arrived (rw present (ground arith)) present).0
          ],
    )
