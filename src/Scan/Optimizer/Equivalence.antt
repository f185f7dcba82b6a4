-- ===== src/Scan/Optimizer/Equivalence.antt =====
-- `OptimizePartition` of iceberg/tea_scan.cpp keeps which positional deletes apply to which data files.
use iceberg_cxx.Common.{
  ℕ, suc, ◌-◌, ◌<◌, ◌≡◌, ◌↔◌, inl, inr, Bool, true, Option, some, List, [], ◌∷◌, ◌++◌, map, arith,
  ◌==◌, ok, length,
}
use mathlib.Core.Path.{subst}
use iceberg_cxx.Common.Sequences
use iceberg_cxx.Common.Sequences.{Among, Before, Some, select}
use iceberg_cxx.Filter.Value.{Bytes}
use iceberg_cxx.Scan.{DataEntry, PositionalDeleteWithExtraInfo, LayerWithExtraInfo}
use iceberg_cxx.Scan.Timeline.{Item, data_item, delete_item, timeline}
use iceberg_cxx.Scan.Optimizer.{find_bucket_lower_bounds, upper_bound}
use iceberg_cxx.Scan.Optimizer.Buckets.{Buckets, optimize_partition}
use iceberg_cxx.Scan.Optimizer.Ranges.{Ranged, HasRange, EveryDelete, DeleteIn}
use iceberg_cxx.Scan.Optimizer.Placement.{
  upper_bound-le-length, upper_bound-DeleteIn, upper_bound-in_range,
}
use iceberg_cxx.Scan.Optimizer.Redistribution.{in_group}
use iceberg_cxx.Scan.Optimizer.Correctness.{
  Admits, Applies, has_range_value, HasRange-DeleteIn, optimize_partition_lem,
}

-- What holds of the items that pass a test holds of all of them.
abbrev pub Hereditary : (List Item → Type 0) → Type 0
Hereditary P = (test : Item → Bool) (items : List Item) → P (select test items) → P items

abbrev pub OnTimeline : (List Item → Type 0) → List LayerWithExtraInfo → Type 0
OnTimeline P partition = P (timeline partition)

pub not-Among-data :
    (del : PositionalDeleteWithExtraInfo) (entries : List DataEntry)
    → Among (delete_item del) (map data_item entries)
    → ⊥
not-Among-data del [] h = h
not-Among-data del (entry ∷ entries) (inl h) = cc
not-Among-data del (entry ∷ entries) (inr h) = not-Among-data del entries h

pub Among-deletes :
    (del : PositionalDeleteWithExtraInfo) (deletes : List PositionalDeleteWithExtraInfo)
    → Among (delete_item del) (map delete_item deletes)
    → Among del deletes
Among-deletes del [] h = h
Among-deletes del (d ∷ deletes) (inl h) = inl (cc)
Among-deletes del (d ∷ deletes) (inr h) = inr (Among-deletes del deletes h)

pub DeleteIn-timeline :
    (del : PositionalDeleteWithExtraInfo) (partition : List LayerWithExtraInfo)
    → Among (delete_item del) (timeline partition)
    → DeleteIn del partition
unfolding timeline
DeleteIn-timeline del [] h = h
DeleteIn-timeline del (l ∷ layers) h =
    let entries = map data_item l.data_entries in
    let deletes = map delete_item l.positional_delete_entries in
    elim (Sequences.Among-append (delete_item del) (entries ++ deletes) (timeline layers) h) [
      | inr later ↦ inr (DeleteIn-timeline del layers later)
      | inl here ↦ elim (Sequences.Among-append (delete_item del) entries deletes here) [
        | inl wrong ↦ absurd (not-Among-data del l.data_entries wrong)
        | inr right ↦ inl (Among-deletes del l.positional_delete_entries right)
      ]
    ]

in_group_at :
    (bounds : List Bytes) (low high : Bytes) (g : ℕ) (del : PositionalDeleteWithExtraInfo)
    → del.min_max_referenced_path ≡ some (low, high)
    → (upper_bound bounds low == suc g) ≡ true
    → in_group bounds g (delete_item del) ≡ true
unfolding in_group
in_group_at bounds low high g del range at_low = rw range at_low

module _ (partition : List LayerWithExtraInfo) (has_range : EveryDelete HasRange partition)
    (ranged : EveryDelete Ranged partition) (bounds : List Bytes)
    (found : find_bucket_lower_bounds partition ≡ ok bounds) (entry : DataEntry)
    (del : PositionalDeleteWithExtraInfo) (applies : Applies entry del partition) where
  -- The data file and the delete that applies to it have the same bucket.
  common_group :
      (g : ℕ) × (g < length bounds)
      × (in_group bounds g (data_item entry) ≡ true)
      × (in_group bounds g (delete_item del) ≡ true)
  unfolding in_group
  common_group =
      let among =
        DeleteIn-timeline del partition
          (Sequences.Before-Among (data_item entry) (delete_item del) (timeline partition)
            applies.1).1 in
      let ((low, high), range) =
        has_range_value del.min_max_referenced_path
          (HasRange-DeleteIn del partition has_range among) in
      let admits : Admits (some (low, high)) entry.path =
        subst (λ (r : Option (Bytes × Bytes)). Admits r entry.path) range applies.0 in
      let positive =
        upper_bound-DeleteIn partition has_range ranged bounds found del among low high range in
      let same =
        upper_bound-in_range partition has_range ranged bounds found del among low high range
          entry.path admits.0 admits.1 in
      let at_most = upper_bound-le-length bounds low in
      (
        upper_bound bounds low - 1,
        omega arith,
        rw same (ground arith),
        in_group_at bounds low high _ del range (ground arith),
      )

module _ (partition : List LayerWithExtraInfo) (has_range : EveryDelete HasRange partition)
    (ranged : EveryDelete Ranged partition) where
  pub optimize_partition-Applies :
      (out : Buckets) × (optimize_partition partition ≡ ok out)
      × ((entry : DataEntry) (del : PositionalDeleteWithExtraInfo)
          → Applies entry del partition ↔ Some (Applies entry del) out)
      × ((P : List Item → Type 0) → Hereditary P → Some (OnTimeline P) out → OnTimeline P partition)
  optimize_partition-Applies =
      let (bounds, out, found, run, same_length, same) =
        optimize_partition_lem partition has_range ranged in
      (
        out,
        run,
        (λ entry del. (
          λ applies.
              let (g, inside, first, second) =
                common_group partition has_range ranged bounds found entry del applies in
              Sequences.Some-get_or (Applies entry del) out g [] (omega arith) (
                applies.0,
                rw (same g inside) (
                    Sequences.Before-select (data_item entry) (delete_item del) (in_group bounds g)
                      (timeline partition) first second applies.1),
              ),
          λ somewhere.
              let (g, inside, applies) =
                Sequences.get_or-Some (Applies entry del) out [] somewhere in
              (
                applies.0,
                Sequences.Before-of_select (data_item entry) (delete_item del) (in_group bounds g)
                    (timeline partition) (rw (same g (omega arith)) at applies.1),
              ),
        )),
        λ P hereditary somewhere.
            let (g, inside, holds) = Sequences.get_or-Some (OnTimeline P) out [] somewhere in
            hereditary (in_group bounds g) (timeline partition)
              (subst P (same g (omega arith)) holds),
      )
