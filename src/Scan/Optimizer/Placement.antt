-- ===== src/Scan/Optimizer/Placement.antt =====
-- Where `CalculateBucketByPath` of iceberg/tea_scan.cpp puts the files of a partition, with the bounds
-- that `FindBucketLowerBounds` returns for it.
use iceberg_cxx.Common.{
  ◌≤◌, ◌<◌, ◌≡◌, refl, sym, ◌∙◌, inl, inr, false, ◌&&◌, some, List, [], ◌∷◌, arith, All, ok, ◌>>=◌,
  length,
}
use iceberg_cxx.Common.Sequences.{All-Among}
use iceberg_cxx.Filter.Value.{Bytes}
use iceberg_cxx.Filter.Order.{ltb_bytes}
use iceberg_cxx.PositionalDelete.Position.{bytes_lt_irrefl, bytes_not_lt_trans}
use iceberg_cxx.Scan.{DataEntry, PositionalDeleteWithExtraInfo, LayerWithExtraInfo}
use iceberg_cxx.Scan.Optimizer.{Event, sort_events, sweep, find_bucket_lower_bounds, upper_bound}
use iceberg_cxx.Scan.Optimizer.Events.{count-sort_events, sort_events-IsSorted}
use iceberg_cxx.Scan.Optimizer.Sweep
use iceberg_cxx.Scan.Optimizer.Sweep.{is_start, is_end}
use iceberg_cxx.Scan.Optimizer.Bounds.{
  range_start, range_end, until, sooner, inside, Balanced, Closed, Open, Clear, sweep_total,
  sweep-Clear,
}
use iceberg_cxx.Scan.Optimizer.Ranges.{
  Ranged, HasRange, EveryDelete, DeleteIn, partition_events, get_events_lem, Dominated,
  Dominated-until, Dominated-sooner, Dominated-partition, Dominated-DeleteIn,
}
use iceberg_cxx.Scan.Optimizer.Paths.{
  at_or_below, Reached, upper_bound-pos, DataIn, Reached-DataIn, Reached-DeleteIn,
  Balanced-partition,
}

pub upper_bound-le-length :
    (bounds : List Bytes) (path : Bytes) → upper_bound bounds path ≤ length bounds
unfolding upper_bound
upper_bound-le-length [] path = omega arith
upper_bound-le-length (bound ∷ bounds) path = ground (arith, upper_bound-le-length bounds path)

-- Bounds that do not cut a range tell no two paths in it apart.
upper_bound-Clear :
    (low high path : Bytes) (bounds : List Bytes)
    → ltb_bytes path low ≡ false
    → ltb_bytes high path ≡ false
    → All (Clear low high) bounds
    → upper_bound bounds path ≡ upper_bound bounds low
unfolding upper_bound
upper_bound-Clear low high path [] above below clear = refl
upper_bound-Clear low high path (bound ∷ bounds) above below (first, rest) = ground (
  arith,
  upper_bound-Clear low high path bounds above below rest,
  bytes_not_lt_trans bound path high,
  bytes_not_lt_trans bound low path,
)

Dominated-sooner_any :
    (k : Event) (low high : Bytes)
    → ltb_bytes high low ≡ false
    → Dominated (sooner k) 0 (range_start low ∷ range_end high ∷ [])
Dominated-sooner_any k low high h = omega (arith, Dominated-sooner k low high h)

pub InOrder-DeleteIn :
    (del : PositionalDeleteWithExtraInfo) (low high : Bytes)
    → del.min_max_referenced_path ≡ some (low, high)
    → (partition : List LayerWithExtraInfo) → EveryDelete Ranged partition
    → DeleteIn del partition
    → ltb_bytes high low ≡ false
InOrder-DeleteIn del low high range [] ranged among = elim among [ ]
InOrder-DeleteIn del low high range (layer ∷ layers) (first, rest) (inl here) =
    rw range at (All-Among Ranged del layer.positional_delete_entries first here)
InOrder-DeleteIn del low high range (layer ∷ layers) (first, rest) (inr later) =
    InOrder-DeleteIn del low high range layers rest later

module _ (partition : List LayerWithExtraInfo) (has_range : EveryDelete HasRange partition)
    (ranged : EveryDelete Ranged partition) where
  find_bucket_lower_bounds_lem :
      find_bucket_lower_bounds partition ≡ sweep 0 (sort_events (partition_events partition))
  unfolding find_bucket_lower_bounds
  find_bucket_lower_bounds_lem = rw (get_events_lem partition has_range, ◌>>=◌) refl

  Closed-sorted : Closed 0 (sort_events (partition_events partition))
  unfolding Sweep.starts Sweep.ends
  Closed-sorted k allowed reaches = omega (
    arith,
    count-sort_events (λ e. is_end e.kind && until k e) (partition_events partition),
    count-sort_events (λ e. is_start e.kind && until k e) (partition_events partition),
    Dominated-partition (until k) (Dominated-until k) partition ranged,
  )

  -- None of the checks of `FindBucketLowerBounds` fails.
  pub find_total : (bounds : List Bytes) × (find_bucket_lower_bounds partition ≡ ok bounds)
  find_total =
      let events = partition_events partition in
      let balanced : Balanced 0 (sort_events events) = omega (
        arith,
        count-sort_events (λ e. is_end e.kind) events,
        count-sort_events (λ e. is_start e.kind) events,
        Balanced-partition partition,
      ) in
      let (bounds, run) =
        sweep_total 0 (sort_events events) (sort_events-IsSorted events) Closed-sorted balanced in
      (bounds, find_bucket_lower_bounds_lem ∙ run)

  module _ (bounds : List Bytes) (found : find_bucket_lower_bounds partition ≡ ok bounds) where
    swept : sweep 0 (sort_events (partition_events partition)) ≡ ok bounds
    swept = sym find_bucket_lower_bounds_lem ∙ found

    upper_bound-Reached :
        (path : Bytes) → Reached path (partition_events partition) → 0 < upper_bound bounds path
    upper_bound-Reached path reached =
        upper_bound-pos path (sort_events (partition_events partition))
          (sort_events-IsSorted (partition_events partition))
          (omega (arith, count-sort_events (at_or_below path) (partition_events partition))) swept

    pub upper_bound-DataIn :
        (entry : DataEntry) → DataIn entry partition → 0 < upper_bound bounds entry.path
    upper_bound-DataIn entry among =
        upper_bound-Reached entry.path (Reached-DataIn entry partition among)

    module _ (del : PositionalDeleteWithExtraInfo) (among : DeleteIn del partition)
        (low high : Bytes) (range : del.min_max_referenced_path ≡ some (low, high)) where
      Open-sorted : Open low high 0 (sort_events (partition_events partition))
      unfolding Sweep.starts Sweep.ends
      Open-sorted k allowed reaches =
          let in_order = InOrder-DeleteIn del low high range partition ranged among in
          omega (
            arith,
            count-sort_events (λ e. is_end e.kind && sooner k e) (partition_events partition),
            count-sort_events (λ e. is_start e.kind && sooner k e) (partition_events partition),
            Dominated-DeleteIn (sooner k) (Dominated-sooner_any k) low high (inside low high k)
                (Dominated-sooner k low high in_order) del range partition ranged among,
          )

      pub upper_bound-DeleteIn : 0 < upper_bound bounds low
      upper_bound-DeleteIn =
          upper_bound-Reached low
            (Reached-DeleteIn low high low (bytes_lt_irrefl low) del range partition among)

      -- All paths of a delete's range are in one bucket.
      pub upper_bound-in_range :
          (path : Bytes)
          → ltb_bytes path low ≡ false
          → ltb_bytes high path ≡ false
          → upper_bound bounds path ≡ upper_bound bounds low
      upper_bound-in_range path above below = upper_bound-Clear low high path bounds above below (
          sweep-Clear low high 0 (sort_events (partition_events partition))
            (sort_events-IsSorted (partition_events partition)) Open-sorted swept)
