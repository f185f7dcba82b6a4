-- ===== src/Scan/Planner/Entries.antt =====
-- The planner of iceberg/tea_scan.cpp after the entries of a table, and the deletes that its builder
-- has stored by then.
use iceberg_cxx.Common.{
  ◌≡◌, refl, sym, inl, inr, ◌⊎◌, true, false, some, List, [], ◌∷◌, arith, Bool-cases, ok, >>=-eq-ok,
  eq_of_ok-eq-ok, ap,
}
use iceberg_cxx.Common.Sequences.{Among}
use iceberg_cxx.Filter.Value.{Bytes}
use iceberg_cxx.Filter.Order.{eqb_bytes}
use iceberg_cxx.Scan.Builder.{Arrival, is_deleted, add_entry, add_entries, deletion_vector_format}
use iceberg_cxx.Scan.Planner.{Planner, note_file, planner_add_entry, planner_add_entries}
use iceberg_cxx.Scan.Planner.Noted.{is_position, live_file, is_annotated_file}
use iceberg_cxx.Scan.Planner.Known.{Knows, note_file-builder, note_file_keeps, note_file-Knows}

planner_add_entry-cases :
    (a : Arrival) (p : Planner) {q : Planner}
    → planner_add_entry a p ≡ ok q
    → ((is_deleted a.entry.status ≡ true) × (p ≡ q))
      ⊎ ((is_deleted a.entry.status ≡ false)
          × ((noted : Planner) × (note_file a.entry.data_file.content a.entry.data_file p
                ≡ ok noted)
              × (add_entry a noted.builder ≡ ok q.builder)
              × (q.referenced_paths ≡ noted.referenced_paths)))
unfolding planner_add_entry
planner_add_entry-cases a p {q} run = elim (Bool-cases (is_deleted a.entry.status)) [
  | inl gone ↦ inl (gone, eq_of_ok-eq-ok (rw gone at run))
  | inr live ↦
      let (noted, first, rest) =
        >>=-eq-ok (note_file a.entry.data_file.content a.entry.data_file p) _ (rw live at run) in
      let (stored, second, last) = >>=-eq-ok (add_entry a noted.builder) _ rest in
      let result = eq_of_ok-eq-ok last in
      inr (
        live,
        (
          noted,
          first,
          rw (← ap (λ (r : Planner). r.builder) result) second,
          sym (ap (λ (r : Planner). r.referenced_paths) result),
        ),
      )
]

planner_add_entry-add_entry :
    (a : Arrival) (p : Planner) {q : Planner}
    → planner_add_entry a p ≡ ok q
    → add_entry a p.builder ≡ ok q.builder
planner_add_entry-add_entry a p {q} run = elim (planner_add_entry-cases a p run) [
  | inl (gone, same) ↦ unfold add_entry in rw (gone, same) refl
  | inr (live, (noted, first, stored, referenced)) ↦
      rw (← note_file-builder a.entry.data_file.content a.entry.data_file p first) stored
]

pub planner_add_entries-add_entries :
    (arrivals : List Arrival) (p : Planner) {q : Planner}
    → planner_add_entries arrivals p ≡ ok q
    → add_entries arrivals p.builder ≡ ok q.builder
unfolding planner_add_entries add_entries
planner_add_entries-add_entries [] p run = rw (eq_of_ok-eq-ok run) refl
planner_add_entries-add_entries (a ∷ arrivals) p run =
    let (next, first, rest) = >>=-eq-ok (planner_add_entry a p) _ run in
    rw (planner_add_entry-add_entry a p first) (planner_add_entries-add_entries arrivals next rest)

planner_add_entry_keeps :
    (a : Arrival) (p : Planner) {q : Planner}
    → planner_add_entry a p ≡ ok q
    → (path data_path : Bytes) → Knows p.referenced_paths path data_path
    → Knows q.referenced_paths path data_path
planner_add_entry_keeps a p {q} run path data_path known = elim (planner_add_entry-cases a p run) [
  | inl (gone, same) ↦ rw (← same) known
  | inr (live, (noted, first, stored, referenced)) ↦
      rw referenced
        (note_file_keeps a.entry.data_file.content a.entry.data_file p first path data_path known)
]

planner_add_entries_keeps :
    (arrivals : List Arrival) (p : Planner) {q : Planner}
    → planner_add_entries arrivals p ≡ ok q
    → (path data_path : Bytes) → Knows p.referenced_paths path data_path
    → Knows q.referenced_paths path data_path
unfolding planner_add_entries
planner_add_entries_keeps [] p run path data_path known = rw (← eq_of_ok-eq-ok run) known
planner_add_entries_keeps (a ∷ arrivals) p run path data_path known =
    let (next, first, rest) = >>=-eq-ok (planner_add_entry a p) _ run in
    planner_add_entries_keeps arrivals next rest path data_path
      (planner_add_entry_keeps a p first path data_path known)

planner_add_entry-Knows :
    (a : Arrival) (p : Planner) {q : Planner}
    → planner_add_entry a p ≡ ok q
    → (data_path : Bytes) → live_file is_annotated_file a ≡ true
    → a.entry.data_file.referenced_data_file ≡ some data_path
    → Knows q.referenced_paths a.entry.data_file.file_path data_path
planner_add_entry-Knows a p {q} run data_path kind refers_to =
    let file = a.entry.data_file in
    elim (planner_add_entry-cases a p run) [
      | inl (gone, same) ↦ absurd (ground arith)
      | inr (live, (noted, first, stored, referenced)) ↦
          let position : is_position file.content ≡ true = ground arith in
          let plain : eqb_bytes file.file_format deletion_vector_format ≡ false = ground arith in
          rw referenced
            (note_file-Knows file.content file p first data_path position plain refers_to)
    ]

-- Every delete file that was added, is not deleted and is annotated is known.
pub planner_add_entries-Knows :
    (arrivals : List Arrival) (p : Planner) {q : Planner}
    → planner_add_entries arrivals p ≡ ok q
    → (a : Arrival) (data_path : Bytes) → Among a arrivals
    → live_file is_annotated_file a ≡ true
    → a.entry.data_file.referenced_data_file ≡ some data_path
    → Knows q.referenced_paths a.entry.data_file.file_path data_path
unfolding planner_add_entries
planner_add_entries-Knows [] p run a data_path among kind refers_to = absurd among
planner_add_entries-Knows (b ∷ arrivals) p run a data_path (inl same) kind refers_to =
    let (next, first, rest) = >>=-eq-ok (planner_add_entry b p) _ run in
    planner_add_entries_keeps arrivals next rest a.entry.data_file.file_path data_path
      (planner_add_entry-Knows a p (rw same at first) data_path kind refers_to)
planner_add_entries-Knows (b ∷ arrivals) p run a data_path (inr later) kind refers_to =
    let (next, first, rest) = >>=-eq-ok (planner_add_entry b p) _ run in
    planner_add_entries-Knows arrivals next rest a data_path later kind refers_to
