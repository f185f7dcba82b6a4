-- ===== src/Scan/Planner/Errors.antt =====
-- When the planner of iceberg/tea_scan.cpp refuses a partition.
use iceberg_cxx.Common.{
  ℕ, suc, ◌≡◌, refl, Bool, true, false, ◌&&◌, List, [], ◌∷◌, ◌++◌, arith, Result, err, Bool-cases,
  inl, inr, ◌>>=◌,
}
use iceberg_cxx.Common.OrderedMap.Keys.{contains}
use iceberg_cxx.Scan.{DataEntry, PositionalDeleteInfo, Layer, ScanError, execution_error}
use iceberg_cxx.Scan.MapKeys.{key_order}
use iceberg_cxx.Scan.Planner.{
  ReferencedPaths, DataByPath, DeletesByPath, Regrouped, collect_data, collect_deletes,
  collect_partition, place_data, handle_partition, handle_partitions, all_partitions, regroup,
}
use iceberg_cxx.Scan.Planner.Placed.{deletes_behind}
use iceberg_cxx.Scan.Planner.Distinct.{
  Succeeds, distinct_paths, avoids, fits, collect_data-Succeeds, fits-collect_data, fits-append,
}

-- A second step that succeeds by another test.
>>=-Succeeds :
    {A B : Type 0} (b c : Bool) (first : Result ScanError A) (next : A → Result ScanError B)
    → Succeeds b first
    → ((a : A) → Succeeds c (next a))
    → Succeeds (b && c) (first >>= next)
>>=-Succeeds true c first next (a, run) rest = rw run (rest a)
>>=-Succeeds false c first next run rest = rw run refl

unfoldable pub data_of_layers : List Layer → List DataEntry
data_of_layers [] = []
data_of_layers (l ∷ layers) = l.data_entries ++ data_of_layers layers

module _ (referenced : ReferencedPaths) where
  -- Every delete is one that an entry with a reference was added for.
  unfoldable pub all_known : List PositionalDeleteInfo → Bool
  all_known [] = true
  all_known (del ∷ dels) = contains key_order del.path referenced && all_known dels

  all_known-append :
      (xs ys : List PositionalDeleteInfo) → all_known (xs ++ ys) ≡ (all_known xs && all_known ys)
  unfolding all_known
  all_known-append [] ys = refl
  all_known-append (x ∷ xs) ys = ground (arith, all_known-append xs ys)

  collect_deletes-Succeeds :
      (n : ℕ) (dels : List PositionalDeleteInfo) (deletes : DeletesByPath)
      → Succeeds (all_known dels) (collect_deletes referenced n dels deletes)
  unfolding collect_deletes all_known
  collect_deletes-Succeeds n [] deletes = (deletes, refl)
  collect_deletes-Succeeds n (del ∷ dels) deletes =
      elim (Bool-cases (contains key_order del.path referenced)) [
        | inl known ↦ rw known (collect_deletes-Succeeds n dels _)
        | inr unknown ↦ rw unknown refl
      ]

  collect_partition-Succeeds :
      (n : ℕ) (layers : List Layer) (by_path : DataByPath) (deletes : DeletesByPath)
      → Succeeds
          (fits by_path (data_of_layers layers) && all_known (deletes_behind 0 layers))
          (collect_partition referenced n layers by_path deletes)
  unfolding collect_partition data_of_layers deletes_behind
  collect_partition-Succeeds n [] by_path deletes =
      unfold fits in
      unfold avoids in unfold distinct_paths in unfold all_known in ((by_path, deletes), refl)
  collect_partition-Succeeds n (l ∷ layers) by_path deletes =
      let dels = l.positional_delete_entries in
      elim (Bool-cases (fits by_path l.data_entries)) [
        | inr clash ↦
            let refused : collect_data n l.data_entries by_path ≡ err execution_error =
              rw clash at (collect_data-Succeeds n l.data_entries by_path) in
            rw (refused, fits-append n l.data_entries (data_of_layers layers) by_path clash) refl
        | inl fitting ↦
            let (more_data, collected) =
              rw fitting at (collect_data-Succeeds n l.data_entries by_path) in
            elim (Bool-cases (all_known dels)) [
              | inr unknown ↦
                  let refused : collect_deletes referenced n dels deletes ≡ err execution_error =
                    rw unknown at (collect_deletes-Succeeds n dels deletes) in
                  let fails : (fits by_path (l.data_entries ++ data_of_layers layers)
                        && all_known (dels ++ deletes_behind 0 layers))
                      ≡ false =
                    ground (arith, all_known-append dels (deletes_behind 0 layers)) in
                  rw (collected, refused, fails) refl
              | inl known ↦
                  let (more_deletes, gathered) =
                    rw known at (collect_deletes-Succeeds n dels deletes) in
                  rw
                    (
                      collected,
                      gathered,
                      fits-collect_data n l.data_entries (data_of_layers layers) by_path collected,
                      all_known-append dels (deletes_behind 0 layers),
                      known,
                    )
                    (collect_partition-Succeeds (suc n) layers more_data more_deletes)
            ]
      ]

  -- The data files of a partition have different paths, and its deletes are known.
  unfoldable pub is_regular : List Layer → Bool
  is_regular partition =
      distinct_paths (data_of_layers partition) && all_known (deletes_behind 0 partition)

  unfoldable pub all_regular : List (List Layer) → Bool
  all_regular [] = true
  all_regular (partition ∷ partitions) = is_regular partition && all_regular partitions

  fits-empty : (entries : List DataEntry) → fits [] entries ≡ distinct_paths entries
  unfolding fits avoids contains distinct_paths
  fits-empty [] = refl
  fits-empty (e ∷ entries) = ground (arith, fits-empty entries)

  handle_partition-Succeeds :
      (partition : List Layer) (result : Regrouped)
      → Succeeds (is_regular partition) (handle_partition referenced partition result)
  unfolding handle_partition is_regular
  handle_partition-Succeeds partition result =
      let collected : Succeeds (is_regular partition)
          (collect_partition referenced 0 partition [] []) =
        rw (← fits-empty (data_of_layers partition))
          (collect_partition-Succeeds 0 partition [] []) in
      elim (Bool-cases (is_regular partition)) [
        | inl regular ↦
            let ((by_path, deletes), run) = rw regular at collected in
            rw (regular, run) (place_data deletes by_path result, refl)
        | inr irregular ↦ rw (irregular, rw irregular at collected) refl
      ]

  handle_partitions-Succeeds :
      (partitions : List (List Layer)) (result : Regrouped)
      → Succeeds (all_regular partitions) (handle_partitions referenced partitions result)
  unfolding handle_partitions all_regular
  handle_partitions-Succeeds [] result = (result, refl)
  handle_partitions-Succeeds (partition ∷ partitions) result =
      >>=-Succeeds (is_regular partition) (all_regular partitions)
        (handle_partition referenced partition result) (handle_partitions referenced partitions)
        (handle_partition-Succeeds partition result) (handle_partitions-Succeeds partitions)

  -- The partitions are regrouped exactly when in each of them the data files have different paths and
  -- every positional delete is known to refer to a data file; otherwise the planner answers an error.
  pub regroup-Succeeds :
      (planned : List (List Layer)) → Succeeds (all_regular planned) (regroup referenced planned)
  unfolding regroup
  regroup-Succeeds planned =
      let start : Regrouped = record { without_deletes = []; with_deletes = [] } in
      let loop = handle_partitions-Succeeds planned start in
      elim (Bool-cases (all_regular planned)) [
        | inl regular ↦
            let (result, run) = rw regular at loop in
            rw (regular, run) (all_partitions result, refl)
        | inr irregular ↦ rw (irregular, rw irregular at loop) refl
      ]
