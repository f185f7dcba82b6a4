-- ===== src/Scan/Planner/Plan.antt =====
-- The scan that `GetResult` of the planner in iceberg/tea_scan.cpp makes of the builder's, where every
-- positional delete is annotated with the data file that it refers to.
use iceberg_cxx.Common.{
  ℕ, ◌-◌, Bool, ◌≡◌, refl, ap, ◌∙◌, ◌↔◌, ◌⊎◌, inl, inr, true, List, [], ◌∷◌, Bool-cases, ok,
  >>=-eq-ok, eq_of_ok-eq-ok, arith,
}
use iceberg_cxx.Common.Sequences
use iceberg_cxx.Common.Sequences.{Among, Some, select}
use iceberg_cxx.Common.OrderedMap.{find}
use iceberg_cxx.Filter.Value.{Bytes}
use iceberg_cxx.PositionalDelete.Position.{eqb_bytes-eq, eqb_bytes_self}
use iceberg_cxx.Scan.{DataEntry, PositionalDeleteInfo, Layer}
use iceberg_cxx.Scan.MapKeys.{key_order}
use iceberg_cxx.Scan.Dangling.Plan.{Reads}
use iceberg_cxx.Scan.Planner.{
  ReferencedPaths, DataByPath, DeletesByPath, Regrouped, collect_partition, handle_partition,
  handle_partitions,
}
use iceberg_cxx.Scan.Planner.Collected.{refers, numbered, Collects, collect_partition-Collects}
use iceberg_cxx.Scan.Planner.Placed.{
  deletes_behind, deletes_from-numbered, deletes_of, place_data-Reads,
}
use iceberg_cxx.Scan.Planner.Layered.{ReadsData, ReadsData-DataAt, Reads-DataAt}
use iceberg_cxx.Scan.Planner.Shapes.{HasEntry, place_data-HasEntry, HasShape, place_data-HasShape}

select_test :
    {A : Type 0} (test : A → Bool) (a : A) (xs : List A) → Among a (select test xs) → test a ≡ true
unfolding select
select_test test a [] h = absurd h
select_test test a (x ∷ xs) h = elim (Bool-cases (test x)) [
  | inl kept ↦
      let either : (x ≡ a) ⊎ Among a (select test xs) = rw kept at h in
      elim either [ inl same ↦ rw (← same) kept | inr later ↦ select_test test a xs later ]
  | inr left ↦ select_test test a xs (rw left at h)
]

module _ (referenced : ReferencedPaths) where
  -- The scan reads the data file, and the delete, which refers to it.
  abbrev pub ReadsReferred : DataEntry → PositionalDeleteInfo → List Layer → Type 0
  ReadsReferred entry info layers =
      (find key_order [] info.path referenced ≡ entry.path) × Reads entry info layers

  -- The deletes for a data file of a layer are those that refer to it, of that layer or a later one.
  deletes_of-Collects :
      (partition : List Layer) (out : DataByPath × DeletesByPath)
      → Collects referenced 0 partition [] [] out
      → (path : Bytes) (n : ℕ)
      → deletes_of out.1 path n ≡ select (refers referenced path) (deletes_behind n partition)
  deletes_of-Collects partition out (data_split, deletes_split) path n =
      let found : find key_order [] path out.1 ≡ numbered referenced path 0 partition =
        (deletes_split path).0 ∙ (unfold find in refl) in
      let same : n - 0 ≡ n = omega arith in
      rw found (
        deletes_from-numbered referenced path n 0 partition
        ∙ ap (λ m. select (refers referenced path) (deletes_behind m partition)) same)

  handle_partition-Reads :
      (partition : List Layer) (result : Regrouped) {out : Regrouped}
      → handle_partition referenced partition result ≡ ok out
      → (entry : DataEntry) (info : PositionalDeleteInfo)
      → Some (Reads entry info) out.with_deletes
        ↔ (Some (Reads entry info) result.with_deletes ⊎ ReadsReferred entry info partition)
  unfolding handle_partition
  handle_partition-Reads partition result run entry info =
      let ((by_path, deletes), collected, placed) =
        >>=-eq-ok (collect_partition referenced 0 partition [] []) _ run in
      let (data_split, deletes_split) =
        collect_partition-Collects referenced 0 partition [] [] collected in
      let (there, back) = place_data-Reads deletes entry info by_path result in
      rw (← eq_of_ok-eq-ok placed) (
        λ h. elim (there h) [
          | inl old ↦ inl old
          | inr (path, n, stored, among) ↦ elim ((data_split path entry n).0 stored) [
            | inl wrong ↦ absurd wrong
            | inr (at_path, (m, number, at)) ↦
                let chosen : Among info
                    (select (refers referenced path) (deletes_behind n partition)) =
                  rw (deletes_of-Collects partition _ (data_split, deletes_split) path n) at
                    among in
                let same_number : n ≡ m = omega arith in
                let refers_to = select_test (refers referenced path) info _ chosen in
                inr (
                  rw (← at_path) (eqb_bytes-eq _ path refers_to),
                  (Reads-DataAt entry info partition).1 (
                    m,
                    at,
                    rw (← same_number)
                        (Sequences.Among-of_select info (refers referenced path) _ chosen),
                  ),
                )
          ]
        ],
        λ h. elim h [
          | inl old ↦ back (inl old)
          | inr (refers_to, reads) ↦
              let (n, at, among) = (Reads-DataAt entry info partition).0 reads in
              let test : refers referenced entry.path info ≡ true =
                rw refers_to (eqb_bytes_self entry.path) in
              back (
                inr (
                  entry.path,
                  n,
                  (data_split entry.path entry n).1 (inr (refl, (n, omega arith, at))),
                  rw (deletes_of-Collects partition _ (data_split, deletes_split) entry.path n)
                      (Sequences.Among-select info (refers referenced entry.path) _ test among),
                ))
        ],
      )

  handle_partition-HasEntry :
      (partition : List Layer) (result : Regrouped) {out : Regrouped}
      → handle_partition referenced partition result ≡ ok out
      → (entry : DataEntry)
      → HasEntry entry out ↔ (HasEntry entry result ⊎ ReadsData entry partition)
  unfolding handle_partition
  handle_partition-HasEntry partition result run entry =
      let ((by_path, deletes), collected, placed) =
        >>=-eq-ok (collect_partition referenced 0 partition [] []) _ run in
      let (data_split, deletes_split) =
        collect_partition-Collects referenced 0 partition [] [] collected in
      let (there, back) = place_data-HasEntry deletes entry by_path result in
      rw (← eq_of_ok-eq-ok placed) (
        λ h. elim (there h) [
          | inl old ↦ inl old
          | inr (path, n, stored) ↦ elim ((data_split path entry n).0 stored) [
            | inl wrong ↦ absurd wrong
            | inr (at_path, (m, number, at)) ↦ inr ((ReadsData-DataAt entry partition).1 (m, at))
          ]
        ],
        λ h. elim h [
          | inl old ↦ back (inl old)
          | inr reads ↦
              let (n, at) = (ReadsData-DataAt entry partition).0 reads in
              back (
                inr (
                  entry.path,
                  n,
                  (data_split entry.path entry n).1 (inr (refl, (n, omega arith, at))),
                ))
        ],
      )

  handle_partition-HasShape :
      (partition : List Layer) (result : Regrouped) {out : Regrouped}
      → handle_partition referenced partition result ≡ ok out
      → HasShape result
      → HasShape out
  unfolding handle_partition
  handle_partition-HasShape partition result run shape =
      let ((by_path, deletes), collected, placed) =
        >>=-eq-ok (collect_partition referenced 0 partition [] []) _ run in
      rw (← eq_of_ok-eq-ok placed) (place_data-HasShape deletes by_path result shape)

  pub handle_partitions-Reads :
      (partitions : List (List Layer)) (result : Regrouped) {out : Regrouped}
      → handle_partitions referenced partitions result ≡ ok out
      → (entry : DataEntry) (info : PositionalDeleteInfo)
      → Some (Reads entry info) out.with_deletes
        ↔ (Some (Reads entry info) result.with_deletes ⊎ Some (ReadsReferred entry info) partitions)
  unfolding handle_partitions
  handle_partitions-Reads [] result run entry info =
      rw (← eq_of_ok-eq-ok run)
        (λ h. inl h, λ h. elim h [ inl old ↦ old | inr wrong ↦ absurd wrong ])
  handle_partitions-Reads (partition ∷ partitions) result run entry info =
      let (next, first, rest) = >>=-eq-ok (handle_partition referenced partition result) _ run in
      let (there, back) = handle_partitions-Reads partitions next rest entry info in
      let (split, join) = handle_partition-Reads partition result first entry info in
      (
        λ h. elim (there h) [
          | inr later ↦ inr (inr later)
          | inl sooner ↦ elim (split sooner) [ inl old ↦ inl old | inr here ↦ inr (inl here) ]
        ],
        λ h. elim h [
          | inl old ↦ back (inl (join (inl old)))
          | inr (inl here) ↦ back (inl (join (inr here)))
          | inr (inr later) ↦ back (inr later)
        ],
      )

  pub handle_partitions-HasEntry :
      (partitions : List (List Layer)) (result : Regrouped) {out : Regrouped}
      → handle_partitions referenced partitions result ≡ ok out
      → (entry : DataEntry)
      → HasEntry entry out ↔ (HasEntry entry result ⊎ Some (ReadsData entry) partitions)
  unfolding handle_partitions
  handle_partitions-HasEntry [] result run entry =
      rw (← eq_of_ok-eq-ok run)
        (λ h. inl h, λ h. elim h [ inl old ↦ old | inr wrong ↦ absurd wrong ])
  handle_partitions-HasEntry (partition ∷ partitions) result run entry =
      let (next, first, rest) = >>=-eq-ok (handle_partition referenced partition result) _ run in
      let (there, back) = handle_partitions-HasEntry partitions next rest entry in
      let (split, join) = handle_partition-HasEntry partition result first entry in
      (
        λ h. elim (there h) [
          | inr later ↦ inr (inr later)
          | inl sooner ↦ elim (split sooner) [ inl old ↦ inl old | inr here ↦ inr (inl here) ]
        ],
        λ h. elim h [
          | inl old ↦ back (inl (join (inl old)))
          | inr (inl here) ↦ back (inl (join (inr here)))
          | inr (inr later) ↦ back (inr later)
        ],
      )

  pub handle_partitions-HasShape :
      (partitions : List (List Layer)) (result : Regrouped) {out : Regrouped}
      → handle_partitions referenced partitions result ≡ ok out
      → HasShape result
      → HasShape out
  unfolding handle_partitions
  handle_partitions-HasShape [] result run shape = rw (← eq_of_ok-eq-ok run) shape
  handle_partitions-HasShape (partition ∷ partitions) result run shape =
      let (next, first, rest) = >>=-eq-ok (handle_partition referenced partition result) _ run in
      handle_partitions-HasShape partitions next rest
        (handle_partition-HasShape partition result first shape)
