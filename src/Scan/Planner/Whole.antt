-- ===== src/Scan/Planner/Whole.antt =====
-- `GetScanMetadata` of iceberg/tea_scan.cpp as a whole, on a table whose deletes are all positional and
-- annotated with the data files that they refer to.
use iceberg_cxx.Common.{
  ◌≡◌, refl, sym, ◌∙◌, inl, inr, Bool, true, false, ◌&&◌, List, [], ◌∷◌, ◌++◌, map, All, arith,
  Result, err, ok, >>=-eq-ok, eq_of_ok-eq-ok, Bool-cases,
}
use iceberg_cxx.Common.Sequences
use iceberg_cxx.Common.Sequences.{Among, Some}
use iceberg_cxx.Common.OrderedMap.{find}
use iceberg_cxx.Common.OrderedMap.Keys.{contains}
use iceberg_cxx.Scan.{
  PositionalDeleteInfo, PositionalDeleteWithExtraInfo, LayerWithExtraInfo, Layer, ScanError,
  execution_error,
}
use iceberg_cxx.Scan.MapKeys.{key_order}
use iceberg_cxx.Scan.Timeline.{data_item, delete_item, timeline}
use iceberg_cxx.Scan.Optimizer.Ranges.{InOrder, Ranged, EveryDelete}
use iceberg_cxx.Scan.Optimizer.Equivalence.{not-Among-data, Among-deletes}
use iceberg_cxx.Scan.Dangling.{map_to_vec}
use iceberg_cxx.Scan.Dangling.Plan.{ReadsDelete}
use iceberg_cxx.Scan.Dangling.Planning.{get_partitions-Implements}
use iceberg_cxx.Scan.Builder.{Arrival, referenced_range}
use iceberg_cxx.Scan.Builder.Stored.{layer_at}
use iceberg_cxx.Scan.Builder.Entries.{positional_of, add_entries-Adds}
use iceberg_cxx.Scan.Builder.Keys.{add_entries-HasOrder}
use iceberg_cxx.Scan.Builder.Numbers.{new_builder}
use iceberg_cxx.Scan.Vectors.{get_result, resolve_partitions}
use iceberg_cxx.Scan.Planner.{
  ReferencedPaths, Planner, new_planner, planner_add_entries, regroup_if_annotated,
  planner_get_result, get_scan_metadata,
}
use iceberg_cxx.Scan.Planner.Placed.{deletes_behind}
use iceberg_cxx.Scan.Planner.Layered.{delete_timeline}
use iceberg_cxx.Scan.Planner.Annotated.{IsRegrouping, regroup-IsRegrouping}
use iceberg_cxx.Scan.Planner.Distinct.{distinct_paths}
use iceberg_cxx.Scan.Planner.Errors.{
  data_of_layers, all_known, is_regular, all_regular, regroup-Succeeds,
}
use iceberg_cxx.Scan.Planner.Noted.{
  some_entry, live_file, is_equality_delete, is_unannotated, is_annotated,
}
use iceberg_cxx.Scan.Planner.Stored.{
  is_delete_file, positional_of-Source, planner_add_entries-KnowsEntries,
}
use iceberg_cxx.Scan.Planner.Deletes.{
  EveryStored, EveryStored-of_layer_at, resolve_partitions-EveryStored, EveryStored-map_to_vec,
}

-- In each partition, the data files have different paths.
unfoldable pub all_distinct : List (List Layer) → Bool
all_distinct [] = true
all_distinct (partition ∷ partitions) =
    distinct_paths (data_of_layers partition) && all_distinct partitions

module _ (referenced : ReferencedPaths) where
  IsKnown : PositionalDeleteInfo → Type 0
  IsKnown info = contains key_order info.path referenced ≡ true

  all_known-of_IsKnown :
      (dels : List PositionalDeleteInfo)
      → ((info : PositionalDeleteInfo) → Among info dels → IsKnown info)
      → all_known referenced dels ≡ true
  unfolding all_known IsKnown
  all_known-of_IsKnown [] h = refl
  all_known-of_IsKnown (del ∷ dels) h =
      let first = h del (inl refl) in
      let rest = all_known-of_IsKnown dels (λ info among. h info (inr among)) in ground arith

  all_regular-all_distinct :
      (planned : List (List Layer))
      → ((info : PositionalDeleteInfo) → Some (ReadsDelete info) planned → IsKnown info)
      → all_regular referenced planned ≡ all_distinct planned
  unfolding all_regular is_regular all_distinct
  all_regular-all_distinct [] h = refl
  all_regular-all_distinct (partition ∷ planned) h =
      let known =
        all_known-of_IsKnown (deletes_behind 0 partition)
          (λ info among. h info (inl ((delete_timeline info partition).1 among))) in
      let rest = all_regular-all_distinct planned (λ info later. h info (inr later)) in ground arith

-- The range of the paths that the statistics of a delete file give is not empty.
abbrev pub RangedEntries : List Arrival → Type 0
RangedEntries arrivals =
    (a : Arrival)
    → Among a arrivals
    → live_file is_delete_file a ≡ true
    → InOrder (referenced_range a.entry.data_file)

-- There are no equality deletes, and there are positional deletes, all of them annotated.
abbrev pub OnlyAnnotated : List Arrival → Type 0
OnlyAnnotated arrivals =
    (some_entry (live_file is_equality_delete) arrivals ≡ false)
    × (some_entry (live_file is_unannotated) arrivals ≡ false)
    × (some_entry (live_file is_annotated) arrivals ≡ true)

-- If the test is true, the call answers a plan that regroups, and otherwise the planner's error.
abbrev pub Regroups :
    Bool → ReferencedPaths → List (List Layer) → Result ScanError (List (List Layer)) → Type 0
Regroups true referenced planned result =
    (plan : List (List Layer)) × (result ≡ ok plan) × IsRegrouping referenced planned plan
Regroups false referenced planned result = result ≡ err execution_error

module _ (P : PositionalDeleteWithExtraInfo → Type 0) where
  EveryDelete-Among :
      (del : PositionalDeleteWithExtraInfo) (layers : List LayerWithExtraInfo)
      → EveryDelete P layers
      → Among (delete_item del) (timeline layers)
      → P del
  unfolding timeline
  EveryDelete-Among del [] every among = absurd among
  EveryDelete-Among del (l ∷ layers) (first, rest) among =
      let entries = map data_item l.data_entries in
      let dels = map delete_item l.positional_delete_entries in
      elim (Sequences.Among-append (delete_item del) (entries ++ dels) (timeline layers) among) [
        | inr later ↦ EveryDelete-Among del layers rest later
        | inl here ↦ elim (Sequences.Among-append (delete_item del) entries dels here) [
          | inl wrong ↦ absurd (not-Among-data del l.data_entries wrong)
          | inr now ↦
              Sequences.All-Among P del l.positional_delete_entries first
                (Among-deletes del l.positional_delete_entries now)
        ]
      ]

  EveryDelete-Some :
      (del : PositionalDeleteWithExtraInfo) (partitions : List (List LayerWithExtraInfo))
      → All (EveryDelete P) partitions
      → Some (λ layers. Among (delete_item del) (timeline layers)) partitions
      → P del
  EveryDelete-Some del [] every some = absurd some
  EveryDelete-Some del (layers ∷ partitions) (first, rest) (inl here) =
      EveryDelete-Among del layers first here
  EveryDelete-Some del (layers ∷ partitions) (first, rest) (inr later) =
      EveryDelete-Some del partitions rest later

All-weaken :
    {A : Type 0} (P Q : A → Type 0) (xs : List A) → ((a : A) → P a → Q a) → All P xs → All Q xs
All-weaken P Q [] h all = tt
All-weaken P Q (x ∷ xs) h (first, rest) = (h x first, All-weaken P Q xs h rest)

module _ (arrivals : List Arrival) {p : Planner}
    (run : planner_add_entries arrivals new_planner ≡ ok p) (ranged : RangedEntries arrivals)
    (annotated : p.all_annotated ≡ true) where
  IsGood : PositionalDeleteWithExtraInfo → Type 0
  IsGood del = Ranged del × IsKnown p.referenced_paths del.positional_delete

  stored_IsGood : EveryStored IsGood p.builder.partitions
  unfolding IsGood IsKnown
  stored_IsGood =
      let (stored, notes, knows, known) = planner_add_entries-KnowsEntries arrivals run in
      EveryStored-of_layer_at IsGood p.builder
        (add_entries-HasOrder arrivals new_builder stored (tt, tt))
        (λ key number del among.
          let (entries, positional, equality) =
            add_entries-Adds key number arrivals new_builder stored in
          let added : Among del (positional_of key number arrivals) =
            unfold layer_at in unfold find in rw positional at among in
          let (a, arrived, (kind, path, range)) =
            positional_of-Source key number del arrivals added in
          (rw (← range) (ranged a arrived kind), known annotated key number del among))

  planned_IsKnown :
      (planned : List (List Layer))
      → get_result p.builder ≡ ok planned
      → (info : PositionalDeleteInfo) → Some (ReadsDelete info) planned
      → IsKnown p.referenced_paths info
  unfolding get_result IsGood
  planned_IsKnown planned got info reads =
      let (resolved, first, rest) =
        >>=-eq-ok (resolve_partitions p.builder.global_equality_deletes p.builder.partitions) _
          got in
      let every = EveryStored-map_to_vec IsGood resolved (
        resolve_partitions-EveryStored IsGood p.builder.global_equality_deletes p.builder.partitions
          first stored_IsGood) in
      let every_Ranged =
        All-weaken (EveryDelete IsGood) (EveryDelete Ranged) (map_to_vec resolved)
          (λ layers all.
            All-weaken _ _ layers
              (λ l dels.
                All-weaken IsGood Ranged l.positional_delete_entries (λ del good. good.0) dels)
              all)
          every in
      let (plan, run_plan, (all, ordered, needed)) =
        get_partitions-Implements resolved every_Ranged in
      let same : plan ≡ planned = eq_of_ok-eq-ok (sym run_plan ∙ rest) in
      let (del, is_info, (there, reason)) = needed info (rw same reads) in
      rw (← is_info) (EveryDelete-Some IsGood del (map_to_vec resolved) every there).1

-- On a table with positional deletes that are all annotated with the data files that they refer to,
-- without equality deletes, and where no range of a delete file is empty: once the entries are added
-- and the builder has planned, `get_scan_metadata` answers a plan that regroups what the builder
-- planned, so that a delete is read for exactly the data files that it refers to and was planned for,
-- if in each planned partition the data files have different paths; otherwise it answers an error.
pub get_scan_metadata-Regroups :
    (arrivals : List Arrival) {p : Planner} {planned : List (List Layer)}
    → planner_add_entries arrivals new_planner ≡ ok p
    → get_result p.builder ≡ ok planned
    → RangedEntries arrivals
    → OnlyAnnotated arrivals
    → Regroups (all_distinct planned) p.referenced_paths planned (get_scan_metadata arrivals)
unfolding get_scan_metadata planner_get_result regroup_if_annotated
get_scan_metadata-Regroups arrivals {p} {planned} run got ranged
      (equality, unannotated, referenced) =
    let (stored, (has_equality, all_annotated, has_referenced), knows, known) =
      planner_add_entries-KnowsEntries arrivals run in
    let no_equality : p.has_equality_delete ≡ false = ground arith in
    let annotated : p.all_annotated ≡ true = ground arith in
    let some_referenced : p.has_referenced_data_file ≡ true = ground arith in
    let regular =
      all_regular-all_distinct p.referenced_paths planned
        (planned_IsKnown arrivals run ranged annotated planned got) in
    let outcome = regroup-Succeeds p.referenced_paths planned in
    elim (Bool-cases (all_distinct planned)) [
      | inl distinct ↦
          let (plan, regrouped) = rw (regular, distinct) at outcome in
          rw (distinct, run, got, no_equality, annotated, some_referenced)
            (plan, regrouped, regroup-IsRegrouping p.referenced_paths planned regrouped)
      | inr clash ↦
          rw (clash, run, got, no_equality, annotated, some_referenced)
            (rw (regular, clash) at outcome)
    ]
