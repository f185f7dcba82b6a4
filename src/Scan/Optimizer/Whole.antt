-- ===== src/Scan/Optimizer/Whole.antt =====
-- `Optimize` of iceberg/tea_scan.cpp over all partitions: what it keeps.
use iceberg_cxx.Common.{
  ◌≡◌, refl, ◌↔◌, inl, inr, true, false, not, List, [], ◌∷◌, ◌++◌, arith, All, Bool-cases, ok,
  ◌>>=◌,
}
use iceberg_cxx.Common.Sequences
use iceberg_cxx.Common.Sequences.{Among, Before, Some, select}
use iceberg_cxx.Scan.{DataEntry, PositionalDeleteWithExtraInfo, LayerWithExtraInfo, has_value}
use iceberg_cxx.Scan.Timeline.{Item}
use iceberg_cxx.Scan.Optimizer.Buckets.{any, can_optimize_partition, optimize}
use iceberg_cxx.Scan.Optimizer.Ranges.{Ranged, HasRange, EveryDelete}
use iceberg_cxx.Scan.Optimizer.Correctness.{Applies}
use iceberg_cxx.Scan.Optimizer.Equivalence.{Hereditary, OnTimeline, optimize_partition-Applies}

any_flag :
    (deletes : List PositionalDeleteWithExtraInfo)
    → any (λ entry. not (has_value entry.min_max_referenced_path)) deletes ≡ false
    → All HasRange deletes
any_flag [] h = tt
any_flag (del ∷ deletes) h = (ground arith, any_flag deletes (ground arith))

HasRange-of_flag :
    (partition : List LayerWithExtraInfo)
    → any
        (λ layer.
          any
            (λ entry. not (has_value entry.min_max_referenced_path))
            layer.positional_delete_entries)
        partition
      ≡ false
    → EveryDelete HasRange partition
HasRange-of_flag [] h = tt
HasRange-of_flag (layer ∷ layers) h = (
  any_flag layer.positional_delete_entries (ground arith),
  HasRange-of_flag layers (ground arith),
)

can_optimize_partition-HasRange :
    (partition : List LayerWithExtraInfo)
    → can_optimize_partition partition ≡ true
    → EveryDelete HasRange partition
unfolding can_optimize_partition
can_optimize_partition-HasRange partition h = HasRange-of_flag partition (ground arith)

Some_of_single :
    (P : List LayerWithExtraInfo → Type 0) (partition : List LayerWithExtraInfo)
    → Some P (partition ∷ [])
    → P partition
Some_of_single P partition (inl h) = h
Some_of_single P partition (inr h) = elim h [ ]

Some-iff :
    (P : List LayerWithExtraInfo → Type 0) (partition : List LayerWithExtraInfo)
    (partitions groups later : List (List LayerWithExtraInfo))
    → P partition ↔ Some P groups
    → Some P partitions ↔ Some P later
    → Some P (partition ∷ partitions) ↔ Some P (groups ++ later)
Some-iff P partition partitions groups later here there = (
  λ h. elim h [
    | inl now ↦ Sequences.Some-append_left P groups later (here.0 now)
    | inr after ↦ Sequences.Some-append_right P groups later (there.0 after)
  ],
  λ h. elim (Sequences.Some-append P groups later h) [
    | inl now ↦ inl (here.1 now)
    | inr after ↦ inr (there.1 after)
  ],
)

Some-back :
    (P : List LayerWithExtraInfo → Type 0) (partition : List LayerWithExtraInfo)
    (partitions groups later : List (List LayerWithExtraInfo))
    → (Some P groups → P partition)
    → (Some P later → Some P partitions)
    → Some P (groups ++ later)
    → Some P (partition ∷ partitions)
Some-back P partition partitions groups later here there h =
    elim (Sequences.Some-append P groups later h) [
      | inl now ↦ inl (here now)
      | inr after ↦ inr (there after)
    ]

-- `optimize` raises no internal error where no range of a delete is empty. A positional delete
-- applies to a data file in some partition afterwards (it comes after it, and has no range or one
-- that admits the file's path) exactly when it did before, and what holds of a timeline whenever it
-- holds of a selection of its items holds of some partition if it holds of some partition afterwards.
pub optimize-Applies :
    (partitions : List (List LayerWithExtraInfo))
    → All (EveryDelete Ranged) partitions
    → (out : List (List LayerWithExtraInfo)) × (optimize partitions ≡ ok out)
      × ((entry : DataEntry) (del : PositionalDeleteWithExtraInfo)
          → Some (Applies entry del) partitions ↔ Some (Applies entry del) out)
      × ((P : List Item → Type 0)
          → Hereditary P
          → Some (OnTimeline P) out
          → Some (OnTimeline P) partitions)
unfolding optimize
optimize-Applies [] ranged = ([], refl, λ entry del. (λ h. h, λ h. h), λ P hereditary h. h)
optimize-Applies (partition ∷ partitions) (first, rest) =
    let (later, run, same, back) = optimize-Applies partitions rest in
    elim (Bool-cases (can_optimize_partition partition)) [
      | inl can ↦
          let (groups, run_here, here, back_here) =
            optimize_partition-Applies partition (can_optimize_partition-HasRange partition can)
              first in
          (
            groups ++ later,
            rw (can, run_here, ◌>>=◌, run) refl,
            λ entry del.
                Some-iff (Applies entry del) partition partitions groups later (here entry del)
                  (same entry del),
            λ P hereditary.
                Some-back (OnTimeline P) partition partitions groups later (back_here P hereditary)
                  (back P hereditary),
          )
      | inr cannot ↦ (
        partition ∷ later,
        rw (cannot, ◌>>=◌, run) refl,
        λ entry del.
            Some-iff (Applies entry del) partition partitions (partition ∷ []) later
              ((λ h. inl h), Some_of_single (Applies entry del) partition) (same entry del),
        λ P hereditary.
            Some-back (OnTimeline P) partition partitions (partition ∷ []) later
              (Some_of_single (OnTimeline P) partition) (back P hereditary),
      )
    ]
