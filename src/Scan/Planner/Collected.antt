-- ===== src/Scan/Planner/Collected.antt =====
-- The two maps that `HandlePartition` of iceberg/tea_scan.cpp makes of a partition: its data files by
-- their paths, and its deletes by the data files that they refer to.
use iceberg_cxx.Common.{
  ℕ, zero, suc, ◌+◌, Bool, not, ◌&&◌, ◌||◌, ◌≡◌, refl, sym, ◌∙◌, ◌↔◌, ◌⊎◌, inl, inr, List, [], ◌∷◌,
  ◌++◌, arith, Bool-cases, ok, >>=-eq-ok, eq_of_ok-eq-ok,
}
use iceberg_cxx.Common.Sequences.{Among, select}
use iceberg_cxx.Common.OrderedMap.{update, find, find-update}
use iceberg_cxx.Common.OrderedMap.Keys.{contains, contains-update, Among-update}
use iceberg_cxx.Filter.Value.{Bytes}
use iceberg_cxx.Filter.Order.{eqb_bytes}
use iceberg_cxx.PositionalDelete.Position.{eqb_bytes-eq}
use iceberg_cxx.Scan.{DataEntry, PositionalDeleteInfo, Layer, is_empty}
use iceberg_cxx.Scan.MapKeys.{key_order}
use iceberg_cxx.Scan.Planner.{
  ReferencedPaths, no_data, DataByPath, DeletesByPath, collect_data, collect_deletes,
  collect_partition,
}
use mathlib.Core.List.{append-nil, append_assoc}

-- The data file is in the layer of that number.
abbrev pub DataAt : DataEntry → ℕ → List Layer → Type 0
DataAt entry n [] = ⊥
DataAt entry zero (l ∷ layers) = Among entry l.data_entries
DataAt entry (suc n) (l ∷ layers) = DataAt entry n layers

-- The map has the data file at its path, with the number.
abbrev pub HasData : DataEntry → ℕ → DataByPath → Type 0
HasData entry i by_path = Among (entry.path, (entry, i)) by_path

collect_data-HasData :
    (layer_no : ℕ) (entries : List DataEntry) (by_path : DataByPath) {out : DataByPath}
    → collect_data layer_no entries by_path ≡ ok out
    → (path : Bytes) (entry : DataEntry) (i : ℕ)
    → Among (path, (entry, i)) out ↔ (
        Among (path, (entry, i)) by_path
        ⊎ ((path ≡ entry.path) × (i ≡ layer_no) × Among entry entries))
unfolding collect_data
collect_data-HasData layer_no [] by_path run path entry i =
    rw (← eq_of_ok-eq-ok run)
      (λ h. inl h, λ h. elim h [ inl old ↦ old | inr (p, n, wrong) ↦ absurd wrong ])
collect_data-HasData layer_no (e ∷ entries) by_path run path entry i =
    elim (Bool-cases (contains key_order e.path by_path)) [
      | inl present ↦ let wrong = rw present at run in cc
      | inr absent ↦
          let (there, back) =
            collect_data-HasData layer_no entries
              (update key_order no_data e.path (λ old. (e, layer_no)) by_path) (rw absent at run)
              path entry i in
          let (split, join) =
            Among-update key_order no_data (path, (entry, i)) e.path (λ old. (e, layer_no)) by_path
              absent in
          (
            λ h. elim (there h) [
              | inr (p, n, later) ↦ inr (p, n, inr later)
              | inl old ↦ elim (split old) [
                | inr older ↦ inl older
                | inl same ↦ inr (cc, cc, inl cc)
              ]
            ],
            λ h. elim h [
              | inl older ↦ back (inl (join (inr older)))
              | inr (p, n, inr later) ↦ back (inr (p, n, later))
              | inr (p, n, inl same) ↦ back (inl (join (inl cc)))
            ],
          )
    ]

-- The delete refers to the data file of the path.
abbrev pub refers : ReferencedPaths → Bytes → PositionalDeleteInfo → Bool
refers referenced path del = eqb_bytes (find key_order [] del.path referenced) path

unfoldable pub with_number : ℕ → List PositionalDeleteInfo → List (PositionalDeleteInfo × ℕ)
with_number n [] = []
with_number n (del ∷ deletes) = (del, n) ∷ with_number n deletes

module _ (referenced : ReferencedPaths) (path : Bytes) where
  -- The deletes of the layers that refer to the path, with the numbers of their layers.
  unfoldable pub numbered : ℕ → List Layer → List (PositionalDeleteInfo × ℕ)
  numbered n [] = []
  numbered n (l ∷ layers) =
      with_number n (select (refers referenced path) l.positional_delete_entries)
      ++ numbered (suc n) layers

  collect_deletes_lem :
      (layer_no : ℕ) (dels : List PositionalDeleteInfo) (deletes : DeletesByPath)
      {out : DeletesByPath}
      → collect_deletes referenced layer_no dels deletes ≡ ok out
      → (find key_order [] path out
          ≡ find key_order [] path deletes
            ++ with_number layer_no (select (refers referenced path) dels))
        × (contains key_order path out ≡ (
            contains key_order path deletes
            || not (is_empty (with_number layer_no (select (refers referenced path) dels)))))
  unfolding collect_deletes with_number select
  collect_deletes_lem layer_no [] deletes run =
      rw (← eq_of_ok-eq-ok run) (sym (append-nil _), ground arith)
  collect_deletes_lem layer_no (del ∷ dels) deletes run =
      let data_path = find key_order [] del.path referenced in
      elim (Bool-cases (contains key_order del.path referenced)) [
        | inr unknown ↦ let wrong = rw unknown at run in cc
        | inl known ↦
            let (found, present) =
              collect_deletes_lem layer_no dels
                (update key_order [] data_path (λ old. old ++ (del, layer_no) ∷ []) deletes)
                (rw known at run) in
            let at_path =
              find-update key_order [] path data_path (λ old. old ++ (del, layer_no) ∷ [])
                deletes in
            let has_path =
              contains-update key_order [] path data_path (λ old. old ++ (del, layer_no) ∷ [])
                deletes in
            elim (Bool-cases (refers referenced path del)) [
              | inl for_path ↦ (
                found
                    ∙ rw (at_path, for_path, eqb_bytes-eq data_path path for_path)
                        (append_assoc (find key_order [] path deletes) ((del, layer_no) ∷ []) _),
                ground arith,
              )
              | inr other ↦ (found ∙ rw (at_path, other) refl, ground arith)
            ]
      ]

module _ (referenced : ReferencedPaths) where
  -- What both maps are after the layers of a partition.
  abbrev pub Collects :
      ℕ → List Layer → DataByPath → DeletesByPath → DataByPath × DeletesByPath → Type 0
  Collects layer_no layers by_path deletes out =
      ((path : Bytes) (entry : DataEntry) (i : ℕ)
        → Among (path, (entry, i)) out.0 ↔ (
            Among (path, (entry, i)) by_path
            ⊎ ((path ≡ entry.path) × ((n : ℕ) × (i ≡ layer_no + n) × DataAt entry n layers))))
      × ((path : Bytes)
          → (find key_order [] path out.1
              ≡ find key_order [] path deletes ++ numbered referenced path layer_no layers)
            × (contains key_order path out.1 ≡ (
                contains key_order path deletes
                || not (is_empty (numbered referenced path layer_no layers)))))

  is_empty-append :
      (xs ys : List (PositionalDeleteInfo × ℕ)) → is_empty (xs ++ ys) ≡ (is_empty xs && is_empty ys)
  is_empty-append [] ys = refl
  is_empty-append (x ∷ xs) ys = refl

  pub collect_partition-Collects :
      (layer_no : ℕ) (layers : List Layer) (by_path : DataByPath) (deletes : DeletesByPath)
      {out : DataByPath × DeletesByPath}
      → collect_partition referenced layer_no layers by_path deletes ≡ ok out
      → Collects layer_no layers by_path deletes out
  unfolding collect_partition numbered
  collect_partition-Collects layer_no [] by_path deletes run = rw (← eq_of_ok-eq-ok run) (
    λ path entry i.
        (λ h. inl h, λ h. elim h [ inl old ↦ old | inr (p, (n, e, wrong)) ↦ absurd wrong ]),
    λ path. (sym (append-nil _), ground arith),
  )
  collect_partition-Collects layer_no (l ∷ layers) by_path deletes run =
      let (more_data, data_run, rest) =
        >>=-eq-ok (collect_data layer_no l.data_entries by_path) _ run in
      let (more_deletes, deletes_run, last) =
        >>=-eq-ok (collect_deletes referenced layer_no l.positional_delete_entries deletes) _
          rest in
      let (data_split, deletes_split) =
        collect_partition-Collects (suc layer_no) layers more_data more_deletes last in
      (
        λ path entry i.
            let (there, back) = data_split path entry i in
            let (first, again) =
              collect_data-HasData layer_no l.data_entries by_path data_run path entry i in
            (
              λ h. elim (there h) [
                | inr (p, (n, e, at)) ↦ inr (p, (suc n, omega arith, at))
                | inl sooner ↦ elim (first sooner) [
                  | inl old ↦ inl old
                  | inr (p, e, among) ↦ inr (p, (0, omega arith, among))
                ]
              ],
              λ h. elim h [
                | inl old ↦ back (inl (again (inl old)))
                | inr (p, (zero, e, among)) ↦ back (inl (again (inr (p, omega arith, among))))
                | inr (p, (suc n, e, at)) ↦ back (inr (p, (n, omega arith, at)))
              ],
            ),
        λ path.
            let here =
              with_number layer_no (select (refers referenced path) l.positional_delete_entries) in
            let (found, present) =
              collect_deletes_lem referenced path layer_no l.positional_delete_entries deletes
                deletes_run in
            let (found_rest, present_rest) = deletes_split path in
            (
              found_rest ∙ rw found (append_assoc (find key_order [] path deletes) here _),
              ground (
                arith,
                is_empty-append here (numbered referenced path (suc layer_no) layers),
                present,
                present_rest,
              ),
            ),
      )
