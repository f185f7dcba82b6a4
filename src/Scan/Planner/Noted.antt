-- ===== src/Scan/Planner/Noted.antt =====
-- What the planner of iceberg/tea_scan.cpp knows of the entries that it has added.
use iceberg_cxx.Common.{
  ◌≡◌, inl, inr, Bool, true, false, ◌&&◌, ◌||◌, not, List, [], ◌∷◌, arith, Bool-cases, Option-cases,
  ok, >>=-eq-ok, eq_of_ok-eq-ok,
}
use iceberg_cxx.Common.OrderedMap.Keys.{contains}
use iceberg_cxx.Filter.Value.{Bytes}
use iceberg_cxx.Filter.Order.{eqb_bytes}
use iceberg_cxx.Scan.{has_value}
use iceberg_cxx.Scan.MapKeys.{key_order}
use iceberg_cxx.Scan.Builder.{
  FileContent, data_content, position_deletes, equality_deletes, DataFile, Arrival, is_deleted,
  add_entry, deletion_vector_format,
}
use iceberg_cxx.Scan.Planner.{
  Planner, handle_position_delete, note_file, planner_add_entry, planner_add_entries,
}

abbrev pub some_entry : (Arrival → Bool) → List Arrival → Bool
some_entry test [] = false
some_entry test (a ∷ arrivals) = test a || some_entry test arrivals

abbrev pub is_equality : FileContent → Bool
is_equality data_content = false
is_equality position_deletes = false
is_equality equality_deletes = true

abbrev pub is_position : FileContent → Bool
is_position data_content = false
is_position position_deletes = true
is_position equality_deletes = false

-- An equality delete; a positional delete without a referenced data file, and with one; the last as a
-- delete file and not as a deletion vector.
abbrev pub is_equality_delete : DataFile → Bool
is_equality_delete file = is_equality file.content

abbrev pub is_unannotated : DataFile → Bool
is_unannotated file = is_position file.content && not (has_value file.referenced_data_file)

abbrev pub is_annotated : DataFile → Bool
is_annotated file = is_position file.content && has_value file.referenced_data_file

abbrev pub is_annotated_file : DataFile → Bool
is_annotated_file file =
    is_annotated file && not (eqb_bytes file.file_format deletion_vector_format)

-- The entry is not deleted, and its file is of the kind.
abbrev pub live_file : (DataFile → Bool) → Arrival → Bool
live_file test a = not (is_deleted a.entry.status) && test a.entry.data_file

-- What the planner knows after entries, from what it knew.
abbrev pub Notes : Planner → Planner → Bool → Bool → Bool → Type 0
Notes p q equality unannotated annotated =
    (q.has_equality_delete ≡ (p.has_equality_delete || equality))
    × (q.all_annotated ≡ (p.all_annotated && not unannotated))
    × (q.has_referenced_data_file ≡ (p.has_referenced_data_file || annotated))

handle_position_delete-Notes :
    (file : DataFile) (path : Bytes) (p : Planner) {q : Planner}
    → handle_position_delete file path p ≡ ok q
    → Notes p q false false true
unfolding handle_position_delete
handle_position_delete-Notes file path p run =
    elim (Bool-cases (eqb_bytes file.file_format deletion_vector_format)) [
      | inl vector ↦
          rw (← eq_of_ok-eq-ok (rw vector at run)) (ground arith, ground arith, ground arith)
      | inr plain ↦ elim (Bool-cases (contains key_order file.file_path p.referenced_paths)) [
        | inl present ↦ let wrong = rw (plain, present) at run in cc
        | inr absent ↦
            rw (← eq_of_ok-eq-ok (rw (plain, absent) at run))
              (ground arith, ground arith, ground arith)
      ]
    ]

note_file-Notes :
    (file : DataFile) (p : Planner) {q : Planner}
    → note_file file.content file p ≡ ok q
    → Notes p q (is_equality_delete file) (is_unannotated file) (is_annotated file)
unfolding note_file handle_position_delete
note_file-Notes file p run = by_content file.content run
  where
    by_content :
        (content : FileContent) {q : Planner}
        → note_file content file p ≡ ok q
        → Notes p q
            (is_equality content)
            (is_position content && not (has_value file.referenced_data_file))
            (is_position content && has_value file.referenced_data_file)
    by_content data_content run =
        rw (← eq_of_ok-eq-ok run) (ground arith, ground arith, ground arith)
    by_content equality_deletes run =
        rw (← eq_of_ok-eq-ok run) (ground arith, ground arith, ground arith)
    by_content position_deletes {q} run = elim (Option-cases file.referenced_data_file) [
      | inl absent ↦
          rw (absent, ← eq_of_ok-eq-ok (rw absent at run))
            (ground arith, ground arith, ground arith)
      | inr (path, present) ↦
          rw present (handle_position_delete-Notes file path p {q = q} (rw present at run))
    ]

planner_add_entry-Notes :
    (a : Arrival) (p : Planner) {q : Planner}
    → planner_add_entry a p ≡ ok q
    → Notes p q
        (live_file is_equality_delete a)
        (live_file is_unannotated a)
        (live_file is_annotated a)
unfolding planner_add_entry
planner_add_entry-Notes a p run = elim (Bool-cases (is_deleted a.entry.status)) [
  | inl gone ↦
      rw (gone, ← eq_of_ok-eq-ok (rw gone at run)) (ground arith, ground arith, ground arith)
  | inr live ↦
      let (noted, first, rest) =
        >>=-eq-ok (note_file a.entry.data_file.content a.entry.data_file p) _ (rw live at run) in
      let (stored, second, last) = >>=-eq-ok (add_entry a noted.builder) _ rest in
      rw (live, ← eq_of_ok-eq-ok last) (note_file-Notes a.entry.data_file p first)
]

-- The flags after entries: what they were, and whether some entry that is not deleted is an equality
-- delete, a positional delete without a referenced data file, or one with it.
pub planner_add_entries-Notes :
    (arrivals : List Arrival) (p : Planner) {q : Planner}
    → planner_add_entries arrivals p ≡ ok q
    → Notes p q
        (some_entry (live_file is_equality_delete) arrivals)
        (some_entry (live_file is_unannotated) arrivals)
        (some_entry (live_file is_annotated) arrivals)
unfolding planner_add_entries
planner_add_entries-Notes [] p run =
    rw (← eq_of_ok-eq-ok run) (ground arith, ground arith, ground arith)
planner_add_entries-Notes (a ∷ arrivals) p run =
    let (next, first, rest) = >>=-eq-ok (planner_add_entry a p) _ run in
    let (e, u, n) = planner_add_entry-Notes a p first in
    let (es, us, ns) = planner_add_entries-Notes arrivals next rest in
    (ground arith, ground arith, ground arith)
