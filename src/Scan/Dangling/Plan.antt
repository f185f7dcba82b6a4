-- ===== src/Scan/Dangling/Plan.antt =====
-- What `ScanMetadataBuilder::GetPartitions` of iceberg/tea_scan.cpp plans to read.
use iceberg_cxx.Common.{
  ◌≡◌, refl, ◌⊎◌, inl, inr, false, none, List, [], ◌∷◌, ◌++◌, map, arith, All, Bool-cases,
}
use iceberg_cxx.Common.Sequences
use iceberg_cxx.Common.Sequences.{Among, Before, Some}
use iceberg_cxx.Scan.{
  DataEntry, PositionalDeleteInfo, PositionalDeleteWithExtraInfo, LayerWithExtraInfo, Layer,
  is_empty,
}
use iceberg_cxx.Scan.Timeline.{data_item, delete_item, timeline}
use iceberg_cxx.Scan.Optimizer.Correctness.{Precedes, Applies}
use iceberg_cxx.Scan.Dangling.{prune_layers, without_data, remove_dangling_deletes}
use iceberg_cxx.Scan.Dangling.Prune.{data_read, delete_read, scan_timeline, prune_layers-timeline}
use iceberg_cxx.Scan.Dangling.Useful.{Before-prune}
use iceberg_cxx.Scan.Dangling.Origins.{Origin, RangedItem, prune-Before, prune-Useful}

-- The scan reads the data file, and the delete for it.
abbrev pub Reads : DataEntry → PositionalDeleteInfo → List Layer → Type 0
Reads entry info layers = Before (data_read entry) (delete_read info) (scan_timeline layers)

abbrev pub ReadsDelete : PositionalDeleteInfo → List Layer → Type 0
ReadsDelete info layers = Among (delete_read info) (scan_timeline layers)

abbrev pub RangedItems : List LayerWithExtraInfo → Type 0
RangedItems partition = All RangedItem (timeline partition)

-- The delete is in the partition, and without a range or for a data file of it.
abbrev pub HasUse : PositionalDeleteWithExtraInfo → List LayerWithExtraInfo → Type 0
HasUse del partition =
    Among (delete_item del) (timeline partition)
    × ((del.min_max_referenced_path ≡ none) ⊎ ((entry : DataEntry) × Applies entry del partition))

pub not-Among-deletes :
    (entry : DataEntry) (deletes : List PositionalDeleteWithExtraInfo)
    → Among (data_item entry) (map delete_item deletes)
    → ⊥
not-Among-deletes entry [] h = h
not-Among-deletes entry (del ∷ deletes) (inl h) = cc
not-Among-deletes entry (del ∷ deletes) (inr h) = not-Among-deletes entry deletes h

is_empty-Among :
    (entry : DataEntry) (entries : List DataEntry)
    → Among (data_item entry) (map data_item entries)
    → is_empty entries ≡ false
is_empty-Among entry [] h = elim h [ ]
is_empty-Among entry (d ∷ entries) h = refl

-- A partition with a data file is not passed over.
without_data-Among :
    (entry : DataEntry) (partition : List LayerWithExtraInfo)
    → Among (data_item entry) (timeline partition)
    → without_data partition ≡ false
unfolding without_data timeline
without_data-Among entry [] h = elim h [ ]
without_data-Among entry (l ∷ layers) h =
    let entries = map data_item l.data_entries in
    let deletes = map delete_item l.positional_delete_entries in
    elim (Sequences.Among-append (data_item entry) (entries ++ deletes) (timeline layers) h) [
      | inr later ↦ ground (arith, without_data-Among entry layers later)
      | inl here ↦ elim (Sequences.Among-append (data_item entry) entries deletes here) [
        | inl among ↦ ground (arith, is_empty-Among entry l.data_entries among)
        | inr wrong ↦ absurd (not-Among-deletes entry l.positional_delete_entries wrong)
      ]
    ]

module _ (partition : List LayerWithExtraInfo) where
  Reads-of_Applies :
      (entry : DataEntry) (del : PositionalDeleteWithExtraInfo)
      → Applies entry del partition
      → Reads entry del.positional_delete (prune_layers [] partition)
  Reads-of_Applies entry del (admits, before) =
      rw (prune_layers-timeline [] partition)
        (Before-prune entry del [] (timeline partition) tt admits before)

  Precedes-of_Reads :
      (entry : DataEntry) (info : PositionalDeleteInfo)
      → Reads entry info (prune_layers [] partition)
      → Origin info (λ del. Precedes entry del partition)
  Precedes-of_Reads entry info reads =
      prune-Before entry info [] (timeline partition)
        (rw (prune_layers-timeline [] partition) at reads)

  HasUse-of_ReadsDelete :
      (info : PositionalDeleteInfo)
      → All RangedItem (timeline partition)
      → ReadsDelete info (prune_layers [] partition)
      → Origin info (λ del. HasUse del partition)
  HasUse-of_ReadsDelete info ranged reads =
      let (del, same, (among, useful)) =
        prune-Useful info [] (timeline partition) ranged
          (rw (prune_layers-timeline [] partition) at reads) in
      (
        del,
        same,
        (
          among,
          elim useful [
            | inl no_range ↦ inl no_range
            | inr (inl (p, wrong, admits)) ↦ absurd wrong
            | inr (inr (entry, admits, before)) ↦ inr (entry, (admits, before))
          ],
        ),
      )

Reads-of_Some :
    (entry : DataEntry) (del : PositionalDeleteWithExtraInfo)
    (partitions : List (List LayerWithExtraInfo))
    → Some (Applies entry del) partitions
    → Some (Reads entry del.positional_delete) (remove_dangling_deletes partitions)
unfolding remove_dangling_deletes
Reads-of_Some entry del [] h = elim h [ ]
Reads-of_Some entry del (layers ∷ partitions) (inl applies) =
    let among =
      Sequences.Before-Among (data_item entry) (delete_item del) (timeline layers) applies.1 in
    rw (without_data-Among entry layers among.0) (inl (Reads-of_Applies layers entry del applies))
Reads-of_Some entry del (layers ∷ partitions) (inr later) =
    let rest = Reads-of_Some entry del partitions later in
    elim (Bool-cases (without_data layers)) [
      | inl no_data ↦ rw no_data rest
      | inr some_data ↦ rw some_data (inr rest)
    ]

-- What holds of some partition of the plan comes from some partition.
module _ (P : List Layer → Type 0)
    (Q : PositionalDeleteWithExtraInfo → List LayerWithExtraInfo → Type 0)
    (info : PositionalDeleteInfo)
    (origin : (partition : List LayerWithExtraInfo)
      → RangedItems partition
      → P (prune_layers [] partition)
      → Origin info (λ del. Q del partition)) where
  Origin-remove_dangling_deletes :
      (partitions : List (List LayerWithExtraInfo))
      → All RangedItems partitions
      → Some P (remove_dangling_deletes partitions)
      → Origin info (λ del. Some (Q del) partitions)
  unfolding remove_dangling_deletes
  Origin-remove_dangling_deletes [] ranged h = elim h [ ]
  Origin-remove_dangling_deletes (layers ∷ partitions) (first, rest) h =
      let later = Origin-remove_dangling_deletes partitions rest in
      elim (Bool-cases (without_data layers)) [
        | inl no_data ↦ let (del, same, found) = later (rw no_data at h) in (del, same, inr found)
        | inr some_data ↦
            let either : P (prune_layers [] layers) ⊎ Some P (remove_dangling_deletes partitions) =
              rw some_data at h in
            elim either [
              | inl here ↦
                  let (del, same, found) = origin layers first here in (del, same, inl found)
              | inr there ↦ let (del, same, found) = later there in (del, same, inr found)
            ]
      ]

-- The scan reads what applies, in its order; a delete is read only after data files it came after;
-- and each delete that is read has no range or applies to some data file.
abbrev pub IsPlanOf : List (List Layer) → List (List LayerWithExtraInfo) → Type 0
IsPlanOf plan partitions =
    ((entry : DataEntry) (del : PositionalDeleteWithExtraInfo)
      → Some (Applies entry del) partitions
      → Some (Reads entry del.positional_delete) plan)
    × ((entry : DataEntry) (info : PositionalDeleteInfo)
        → Some (Reads entry info) plan
        → Origin info (λ del. Some (Precedes entry del) partitions))
    × ((info : PositionalDeleteInfo)
        → Some (ReadsDelete info) plan
        → Origin info (λ del. Some (HasUse del) partitions))

pub remove_dangling_deletes-IsPlanOf :
    (partitions : List (List LayerWithExtraInfo))
    → All RangedItems partitions
    → IsPlanOf (remove_dangling_deletes partitions) partitions
remove_dangling_deletes-IsPlanOf partitions ranged = (
  λ entry del. Reads-of_Some entry del partitions,
  λ entry info.
      Origin-remove_dangling_deletes (Reads entry info) (Precedes entry) info
        (λ partition items. Precedes-of_Reads partition entry info) partitions ranged,
  λ info.
      Origin-remove_dangling_deletes (ReadsDelete info) HasUse info
        (λ partition items. HasUse-of_ReadsDelete partition info items) partitions ranged,
)
