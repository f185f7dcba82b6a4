-- ===== src/Scan/Dangling/Planning.antt =====
-- `ScanMetadataBuilder::GetPartitions` of iceberg/tea_scan.cpp as a whole: the optimization, then the
-- removal of dangling deletes.
use iceberg_cxx.Common.{
  ◌≡◌, refl, ◌⊎◌, inl, inr, none, List, [], ◌∷◌, ◌++◌, map, All, Bool-cases, ok, ◌>>=◌,
}
use iceberg_cxx.Common.Sequences
use iceberg_cxx.Common.Sequences.{Among, Before, Some, select}
use iceberg_cxx.Scan.{
  DataEntry, PositionalDeleteInfo, PositionalDeleteWithExtraInfo, LayerWithExtraInfo, Layer,
}
use iceberg_cxx.Scan.Timeline.{Item, data_item, delete_item, timeline}
use iceberg_cxx.Scan.Optimizer.Buckets.{can_optimize}
use iceberg_cxx.Scan.Optimizer.Ranges.{Ranged, EveryDelete}
use iceberg_cxx.Scan.Optimizer.Correctness.{Precedes, Applies}
use iceberg_cxx.Scan.Optimizer.Equivalence.{}
use iceberg_cxx.Scan.Optimizer.Whole.{optimize-Applies}
use iceberg_cxx.Scan.Dangling.{remove_dangling_deletes, Partitions, map_to_vec, get_partitions}
use iceberg_cxx.Scan.Dangling.Origins.{Origin, RangedItem}
use iceberg_cxx.Scan.Dangling.Plan.{
  Reads, ReadsDelete, HasUse, RangedItems, remove_dangling_deletes-IsPlanOf,
}

All-append {ℓ} :
    {A : Type ℓ} (P : A → Type 0) (xs ys : List A) → All P xs → All P ys → All P (xs ++ ys)
All-append P [] ys all_xs all_ys = all_ys
All-append P (x ∷ xs) ys (first, rest) all_ys = (first, All-append P xs ys rest all_ys)

data_RangedItem : (entries : List DataEntry) → All RangedItem (map data_item entries)
data_RangedItem [] = tt
data_RangedItem (entry ∷ entries) = (tt, data_RangedItem entries)

delete_RangedItem :
    (deletes : List PositionalDeleteWithExtraInfo)
    → All Ranged deletes
    → All RangedItem (map delete_item deletes)
delete_RangedItem [] ranged = tt
delete_RangedItem (del ∷ deletes) (first, rest) = (first, delete_RangedItem deletes rest)

EveryDelete-RangedItems :
    (partition : List LayerWithExtraInfo) → EveryDelete Ranged partition → RangedItems partition
unfolding timeline
EveryDelete-RangedItems [] ranged = tt
EveryDelete-RangedItems (l ∷ layers) (first, rest) =
    let entries = map data_item l.data_entries in
    let deletes = map delete_item l.positional_delete_entries in
    All-append RangedItem (entries ++ deletes) (timeline layers)
      (All-append RangedItem entries deletes (data_RangedItem l.data_entries)
        (delete_RangedItem l.positional_delete_entries first))
      (EveryDelete-RangedItems layers rest)

every-RangedItems :
    (partitions : List (List LayerWithExtraInfo))
    → All (EveryDelete Ranged) partitions
    → All RangedItems partitions
every-RangedItems [] ranged = tt
every-RangedItems (partition ∷ partitions) (first, rest) =
    (EveryDelete-RangedItems partition first, every-RangedItems partitions rest)

Has : Item → List LayerWithExtraInfo → Type 0
Has item partition = Among item (timeline partition)

-- What every item of the partitions has, and the other way round.
RangedItems-of_All :
    (partitions : List (List LayerWithExtraInfo))
    → ((item : Item) → Some (Has item) partitions → RangedItem item)
    → All RangedItems partitions
unfolding Has
RangedItems-of_All [] h = tt
RangedItems-of_All (partition ∷ partitions) h = (
  Sequences.All-intro RangedItem (timeline partition) (λ item here. h item (inl here)),
  RangedItems-of_All partitions (λ item later. h item (inr later)),
)

RangedItem-of_Some :
    (item : Item) (partitions : List (List LayerWithExtraInfo))
    → All RangedItems partitions
    → Some (Has item) partitions
    → RangedItem item
unfolding Has
RangedItem-of_Some item [] ranged h = elim h [ ]
RangedItem-of_Some item (partition ∷ partitions) (first, rest) (inl here) =
    Sequences.All-Among RangedItem item (timeline partition) first here
RangedItem-of_Some item (partition ∷ partitions) (first, rest) (inr later) =
    RangedItem-of_Some item partitions rest later

Some-and :
    (del : PositionalDeleteWithExtraInfo) (partitions : List (List LayerWithExtraInfo))
    → Some (HasUse del) partitions
    → Some (Has (delete_item del)) partitions
      × ((del.min_max_referenced_path ≡ none)
          ⊎ ((entry : DataEntry) × Some (Applies entry del) partitions))
unfolding Has
Some-and del [] h = elim h [ ]
Some-and del (partition ∷ partitions) (inl (here, reason)) = (
  inl here,
  elim reason [ inl no_range ↦ inl no_range | inr (entry, applies) ↦ inr (entry, inl applies) ],
)
Some-and del (partition ∷ partitions) (inr later) =
    let (there, reason) = Some-and del partitions later in
    (
      inr there,
      elim reason [ inl no_range ↦ inl no_range | inr (entry, applies) ↦ inr (entry, inr applies) ],
    )

-- The delete is in some partition, and has no range or applies to a data file of some partition.
abbrev pub IsNeeded : PositionalDeleteWithExtraInfo → List (List LayerWithExtraInfo) → Type 0
IsNeeded del partitions =
    Some (λ p. Among (delete_item del) (timeline p)) partitions
    × ((del.min_max_referenced_path ≡ none)
        ⊎ ((entry : DataEntry) × Some (Applies entry del) partitions))

-- Everything that applies is read in its order; a delete is read only after data files that it came
-- after; and each delete that is read is needed.
abbrev pub Implements : List (List Layer) → List (List LayerWithExtraInfo) → Type 0
Implements plan partitions =
    ((entry : DataEntry) (del : PositionalDeleteWithExtraInfo)
      → Some (Applies entry del) partitions
      → Some (Reads entry del.positional_delete) plan)
    × ((entry : DataEntry) (info : PositionalDeleteInfo)
        → Some (Reads entry info) plan
        → Origin info (λ del. Some (Precedes entry del) partitions))
    × ((info : PositionalDeleteInfo)
        → Some (ReadsDelete info) plan
        → Origin info (λ del. IsNeeded del partitions))

-- `get_partitions` with ranges that are not empty raises no internal error, and its plan implements
-- what the layers say: a delete that applies to a data file of its partition (it is in the file's
-- layer or a later one, and has no range or one that admits the file's path) is read in the same
-- partition as the file, after it; a delete that is read after a data file was in its layer or in a
-- later one; and every delete that is read stood in the partitions and has no range or applies to
-- some data file.
pub get_partitions-Implements :
    (partitions : Partitions)
    → All (EveryDelete Ranged) (map_to_vec partitions)
    → (plan : List (List Layer)) × (get_partitions partitions ≡ ok plan)
      × Implements plan (map_to_vec partitions)
unfolding get_partitions Has
get_partitions-Implements partitions ranged =
    let vec = map_to_vec partitions in
    elim (Bool-cases (can_optimize vec)) [
      | inr cannot ↦
          let (all, ordered, used) =
            remove_dangling_deletes-IsPlanOf vec (every-RangedItems vec ranged) in
          (
            remove_dangling_deletes vec,
            rw cannot refl,
            (
              all,
              ordered,
              λ info reads.
                  let (del, same, needed) = used info reads in (del, same, Some-and del vec needed),
            ),
          )
      | inl can ↦
          let (out, run, applies, back) = optimize-Applies vec ranged in
          let items = RangedItems-of_All out (λ item found.
            RangedItem-of_Some item vec (every-RangedItems vec ranged)
              (back (Among item) (λ test xs. Sequences.Among-of_select item test xs) found)) in
          let (all, ordered, used) = remove_dangling_deletes-IsPlanOf out items in
          (
            remove_dangling_deletes out,
            rw (can, run, ◌>>=◌) refl,
            (
              λ entry del somewhere. all entry del ((applies entry del).0 somewhere),
              λ entry info reads.
                  let (del, same, before) = ordered entry info reads in
                  (
                    del,
                    same,
                    back (Before (data_item entry) (delete_item del))
                        (λ test xs.
                          Sequences.Before-of_select (data_item entry) (delete_item del) test xs)
                        before,
                  ),
              λ info reads.
                  let (del, same, needed) = used info reads in
                  let (there, reason) = Some-and del out needed in
                  (
                    del,
                    same,
                    (
                      back (Among (delete_item del))
                          (λ test xs. Sequences.Among-of_select (delete_item del) test xs) there,
                      elim reason [
                        | inl no_range ↦ inl no_range
                        | inr (entry, found) ↦ inr (entry, (applies entry del).1 found)
                      ],
                    ),
                  ),
            ),
          )
    ]
