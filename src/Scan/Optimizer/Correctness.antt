-- ===== src/Scan/Optimizer/Correctness.antt =====
-- What the optimization of iceberg/tea_scan.cpp keeps: a positional delete applies to a data file
-- after it exactly when it did before.
use iceberg_cxx.Common.{
  ℕ, zero, suc, ◌<◌, ◌≡◌, refl, ap, ◌∙◌, inl, inr, true, false, Option, none, some, List, [], ◌∷◌,
  arith, All, ok, ◌>>=◌, length, get_or,
}
use iceberg_cxx.Common.Sequences
use iceberg_cxx.Common.Sequences.{Among, Before, Some, select}
use iceberg_cxx.Filter.Value.{Bytes}
use iceberg_cxx.Filter.Order.{ltb_bytes}
use iceberg_cxx.PositionalDelete.Position.{bytes_lt_irrefl}
use iceberg_cxx.Scan.{DataEntry, PositionalDeleteWithExtraInfo, LayerWithExtraInfo, has_value}
use iceberg_cxx.Scan.Timeline.{data_item, delete_item, timeline}
use iceberg_cxx.Scan.Optimizer.{find_bucket_lower_bounds, upper_bound}
use iceberg_cxx.Scan.Optimizer.Buckets.{
  Buckets, empty_buckets, redistribute_data_into_buckets, optimize_partition,
}
use iceberg_cxx.Scan.Optimizer.Ranges.{Ranged, HasRange, EveryDelete, DeleteIn}
use iceberg_cxx.Scan.Optimizer.Paths.{DataIn}
use iceberg_cxx.Scan.Optimizer.Placement.{
  InOrder-DeleteIn, find_total, upper_bound-DataIn, upper_bound-DeleteIn, upper_bound-in_range,
}
use iceberg_cxx.Scan.Optimizer.Redistribution.{Placed, in_group, put_layers-Extends}

-- The range admits the path; a delete without statistics admits every path.
abbrev pub Admits : Option (Bytes × Bytes) → Bytes → Type 0
Admits none path = Unit
Admits (some (low, high)) path = (ltb_bytes path low ≡ false) × (ltb_bytes high path ≡ false)

-- The delete comes after the data file: their layers are so ordered that it may apply.
abbrev pub Precedes : DataEntry → PositionalDeleteWithExtraInfo → List LayerWithExtraInfo → Type 0
Precedes entry del partition = Before (data_item entry) (delete_item del) (timeline partition)

-- The delete comes after the data file, and its range admits the file's path.
abbrev pub Applies : DataEntry → PositionalDeleteWithExtraInfo → List LayerWithExtraInfo → Type 0
Applies entry del partition =
    Admits del.min_max_referenced_path entry.path × Precedes entry del partition

pub has_range_value :
    (o : Option (Bytes × Bytes)) → has_value o ≡ true → (range : Bytes × Bytes) × (o ≡ some range)
has_range_value none h = cc
has_range_value (some range) h = (range, refl)

pub HasRange-DeleteIn :
    (del : PositionalDeleteWithExtraInfo) (partition : List LayerWithExtraInfo)
    → EveryDelete HasRange partition
    → DeleteIn del partition
    → HasRange del
HasRange-DeleteIn del [] ranges among = elim among [ ]
HasRange-DeleteIn del (layer ∷ layers) (first, rest) (inl here) =
    Sequences.All-Among HasRange del layer.positional_delete_entries first here
HasRange-DeleteIn del (layer ∷ layers) (first, rest) (inr later) =
    HasRange-DeleteIn del layers rest later

All-DataIn :
    (P : DataEntry → Type 0) (partition : List LayerWithExtraInfo)
    → ((entry : DataEntry) → DataIn entry partition → P entry)
    → All (λ l. All P l.data_entries) partition
unfolding DataIn
All-DataIn P [] h = tt
All-DataIn P (layer ∷ layers) h = (
  Sequences.All-intro P layer.data_entries (λ entry here. h entry (inl here)),
  All-DataIn P layers (λ entry later. h entry (inr later)),
)

All-DeleteIn :
    (P : PositionalDeleteWithExtraInfo → Type 0) (partition : List LayerWithExtraInfo)
    → ((del : PositionalDeleteWithExtraInfo) → DeleteIn del partition → P del)
    → EveryDelete P partition
All-DeleteIn P [] h = tt
All-DeleteIn P (layer ∷ layers) h = (
  Sequences.All-intro P layer.positional_delete_entries (λ del here. h del (inl here)),
  All-DeleteIn P layers (λ del later. h del (inr later)),
)

length-empty_buckets : (bounds : List Bytes) → length (empty_buckets bounds) ≡ length bounds
length-empty_buckets [] = refl
length-empty_buckets (bound ∷ bounds) = ap suc (length-empty_buckets bounds)

get_or-empty_buckets : (bounds : List Bytes) (g : ℕ) → get_or (empty_buckets bounds) g [] ≡ []
get_or-empty_buckets [] g = refl
get_or-empty_buckets (bound ∷ bounds) zero = refl
get_or-empty_buckets (bound ∷ bounds) (suc g) = get_or-empty_buckets bounds g

module _ (partition : List LayerWithExtraInfo) (has_range : EveryDelete HasRange partition)
    (ranged : EveryDelete Ranged partition) where
  delete_Placed :
      (bounds : List Bytes)
      → find_bucket_lower_bounds partition ≡ ok bounds
      → (del : PositionalDeleteWithExtraInfo) → DeleteIn del partition
      → Placed bounds (delete_item del)
  delete_Placed bounds found del among =
      let ((low, high), range) =
        has_range_value del.min_max_referenced_path
          (HasRange-DeleteIn del partition has_range among) in
      let in_order = InOrder-DeleteIn del low high range partition ranged among in
      (
        (low, high),
        range,
        upper_bound-DeleteIn partition has_range ranged bounds found del among low high range,
        upper_bound-in_range partition has_range ranged bounds found del among low high range high
            in_order (bytes_lt_irrefl high),
      )

  -- No internal error; a bucket's timeline is what the partition's has for it.
  pub optimize_partition_lem :
      (bounds : List Bytes) × (out : Buckets) × (find_bucket_lower_bounds partition ≡ ok bounds)
      × (optimize_partition partition ≡ ok out)
      × (length out ≡ length bounds)
      × ((g : ℕ)
          → g < length bounds
          → timeline (get_or out g []) ≡ select (in_group bounds g) (timeline partition))
  unfolding optimize_partition redistribute_data_into_buckets timeline
  optimize_partition_lem =
      let (bounds, found) = find_total partition has_range ranged in
      let (out, run, (same_length, same)) =
        put_layers-Extends bounds partition (empty_buckets bounds)
          (All-DataIn (λ entry. 0 < upper_bound bounds entry.path) partition
            (λ entry among. upper_bound-DataIn partition has_range ranged bounds found entry among))
          (All-DeleteIn (λ del. Placed bounds (delete_item del)) partition
            (delete_Placed bounds found)) in
      (
        bounds,
        out,
        found,
        rw (found, ◌>>=◌) run,
        same_length ∙ length-empty_buckets bounds,
        λ g inside.
            rw (same g (omega (arith, length-empty_buckets bounds)), get_or-empty_buckets bounds g)
              refl,
      )
