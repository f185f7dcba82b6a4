-- ===== src/Scan/Planner/Known.antt =====
-- The delete files that the planner of iceberg/tea_scan.cpp knows the data files of.
use iceberg_cxx.Common.{
  ◌≡◌, refl, ◌∙◌, inl, inr, ◌⊎◌, true, false, ◌&&◌, some, [], arith, Bool-cases, Option-cases, ok,
  eq_of_ok-eq-ok,
}
use iceberg_cxx.Common.OrderedMap.{find, find-update}
use iceberg_cxx.Common.OrderedMap.Keys.{contains, contains-update}
use iceberg_cxx.Filter.Value.{Bytes}
use iceberg_cxx.Filter.Order.{eqb_bytes}
use iceberg_cxx.PositionalDelete.Position.{eqb_bytes-eq, eqb_bytes_self}
use iceberg_cxx.Scan.{has_value}
use iceberg_cxx.Scan.MapKeys.{key_order}
use iceberg_cxx.Scan.Builder.{
  FileContent, data_content, position_deletes, equality_deletes, DataFile, deletion_vector_format,
}
use iceberg_cxx.Scan.Planner.{ReferencedPaths, Planner, handle_position_delete, note_file}
use iceberg_cxx.Scan.Planner.Noted.{is_position}

-- The delete file of the path is known, with the data file that it refers to.
abbrev pub Knows : ReferencedPaths → Bytes → Bytes → Type 0
Knows referenced path data_path =
    (contains key_order path referenced ≡ true) × (find key_order [] path referenced ≡ data_path)

-- What is known stays so: a delete file of a path that is known is refused.
handle_position_delete_keeps :
    (file : DataFile) (data_path : Bytes) (p : Planner) {q : Planner}
    → handle_position_delete file data_path p ≡ ok q
    → (path other : Bytes) → Knows p.referenced_paths path other
    → Knows q.referenced_paths path other
unfolding handle_position_delete
handle_position_delete_keeps file data_path p {q} run path other (known, found) =
    elim (Bool-cases (eqb_bytes file.file_format deletion_vector_format)) [
      | inl vector ↦ rw (← eq_of_ok-eq-ok (rw vector at run)) (known, found)
      | inr plain ↦ elim (Bool-cases (contains key_order file.file_path p.referenced_paths)) [
        | inl present ↦ let wrong = rw (plain, present) at run in cc
        | inr absent ↦
            let has =
              contains-update key_order [] path file.file_path (λ old. data_path)
                p.referenced_paths in
            let value =
              find-update key_order [] path file.file_path (λ old. data_path) p.referenced_paths in
            rw (← eq_of_ok-eq-ok (rw (plain, absent) at run)) (
              ground arith,
              elim (Bool-cases (eqb_bytes file.file_path path)) [
                | inl same ↦
                    let here = eqb_bytes-eq file.file_path path same in
                    let wrong : contains key_order path p.referenced_paths ≡ false =
                      rw here at absent in
                    cc
                | inr differ ↦ value ∙ rw differ found
              ],
            )
      ]
    ]

handle_position_delete-Knows :
    (file : DataFile) (data_path : Bytes) (p : Planner) {q : Planner}
    → handle_position_delete file data_path p ≡ ok q
    → eqb_bytes file.file_format deletion_vector_format ≡ false
    → Knows q.referenced_paths file.file_path data_path
unfolding handle_position_delete
handle_position_delete-Knows file data_path p {q} run plain =
    elim (Bool-cases (contains key_order file.file_path p.referenced_paths)) [
      | inl present ↦ let wrong = rw (plain, present) at run in cc
      | inr absent ↦
          let self = eqb_bytes_self file.file_path in
          rw (← eq_of_ok-eq-ok (rw (plain, absent) at run)) (
            contains-update key_order [] file.file_path file.file_path (λ old. data_path)
                  p.referenced_paths
                ∙ rw self refl,
            find-update key_order [] file.file_path file.file_path (λ old. data_path)
                  p.referenced_paths
                ∙ rw self refl,
          )
    ]

handle_position_delete-builder :
    (file : DataFile) (data_path : Bytes) (p : Planner) {q : Planner}
    → handle_position_delete file data_path p ≡ ok q
    → q.builder ≡ p.builder
unfolding handle_position_delete
handle_position_delete-builder file data_path p {q} run = ground arith

-- What follows from each way to note a file.
note_file-cases :
    (content : FileContent) (file : DataFile) (p : Planner) {q : Planner}
    → note_file content file p ≡ ok q
    → ((q.builder ≡ p.builder)
        × (q.referenced_paths ≡ p.referenced_paths)
        × (is_position content && has_value file.referenced_data_file ≡ false))
      ⊎ ((path : Bytes) × (file.referenced_data_file ≡ some path)
          × (handle_position_delete file path p ≡ ok q))
unfolding note_file handle_position_delete
note_file-cases data_content file p run = rw (← eq_of_ok-eq-ok run) (inl (refl, refl, refl))
note_file-cases equality_deletes file p run = rw (← eq_of_ok-eq-ok run) (inl (refl, refl, refl))
note_file-cases position_deletes file p {q} run = elim (Option-cases file.referenced_data_file) [
  | inl absent ↦ rw (← eq_of_ok-eq-ok (rw absent at run)) (inl (refl, refl, rw absent refl))
  | inr (path, present) ↦ inr (path, present, rw present at run)
]

module _ (content : FileContent) (file : DataFile) (p : Planner) where
  pub note_file-builder : {q : Planner} → note_file content file p ≡ ok q → q.builder ≡ p.builder
  note_file-builder {q} run = elim (note_file-cases content file p run) [
    | inl (same, referenced, other) ↦ same
    | inr (path, present, handled) ↦ handle_position_delete-builder file path p handled
  ]

  pub note_file_keeps :
      {q : Planner}
      → note_file content file p ≡ ok q
      → (path data_path : Bytes) → Knows p.referenced_paths path data_path
      → Knows q.referenced_paths path data_path
  note_file_keeps {q} run path data_path known = elim (note_file-cases content file p run) [
    | inl (same, referenced, other) ↦ rw referenced known
    | inr (other, present, handled) ↦
        handle_position_delete_keeps file other p handled path data_path known
  ]

  pub note_file-Knows :
      {q : Planner}
      → note_file content file p ≡ ok q
      → (data_path : Bytes) → is_position content ≡ true
      → eqb_bytes file.file_format deletion_vector_format ≡ false
      → file.referenced_data_file ≡ some data_path
      → Knows q.referenced_paths file.file_path data_path
  note_file-Knows {q} run data_path position plain refers_to =
      elim (note_file-cases content file p run) [
        | inl (same, referenced, other) ↦
            let wrong : true ≡ false = rw (position, refers_to) at other in cc
        | inr (path, present, handled) ↦
            let one : path ≡ data_path = cc in
            rw (← one) (handle_position_delete-Knows file path p handled plain)
      ]
