-- ===== src/Scan/Optimizer/Paths.antt =====
-- The paths of a partition's files lie at or above the first bound that `FindBucketLowerBounds` of
-- iceberg/tea_scan.cpp returns, and every range that is opened is closed.
use iceberg_cxx.Common.{
  ◌<◌, ◌≡◌, refl, ◌⊎◌, inl, inr, Bool, true, false, not, some, List, [], ◌∷◌, ◌++◌, map, arith, ok,
  >>=-eq-ok,
}
use iceberg_cxx.Common.Sequences.{Among}
use iceberg_cxx.Filter.Value.{Bytes}
use iceberg_cxx.Filter.Order.{ltb_bytes}
use iceberg_cxx.PositionalDelete.Position.{bytes_lt_irrefl, bytes_not_lt_trans}
use iceberg_cxx.Scan.{DataEntry, PositionalDeleteWithExtraInfo, LayerWithExtraInfo}
use iceberg_cxx.Scan.Optimizer.{Event, event_lt, create_from_data, next_balance, sweep, upper_bound}
use iceberg_cxx.Scan.Optimizer.Events.{count, count-append, NoneBefore, IsSorted}
use iceberg_cxx.Scan.Optimizer.Sweep.{is_start, is_end}
use iceberg_cxx.Scan.Optimizer.Bounds.{Balanced}
use iceberg_cxx.Scan.Optimizer.Ranges.{DeleteIn, range_events, delete_events, partition_events}

abbrev pub at_or_below : Bytes → Event → Bool
at_or_below path e = not (ltb_bytes path e.path)

-- Some event's path is at or below the given one.
abbrev pub Reached : Bytes → List Event → Type 0
Reached path events = 0 < count (at_or_below path) events

count-above :
    (path : Bytes) (e : Event) (events : List Event)
    → ltb_bytes path e.path ≡ true
    → NoneBefore e events
    → count (at_or_below path) events ≡ 0
unfolding count event_lt
count-above path e [] above first = refl
count-above path e (f ∷ events) above (first, rest) =
    ground (arith, bytes_not_lt_trans e.path f.path path, count-above path e events above rest)

-- The first bound is the path of the first event.
pub upper_bound-pos :
    (path : Bytes) (events : List Event) {bounds : List Bytes}
    → IsSorted events
    → Reached path events
    → sweep 0 events ≡ ok bounds
    → 0 < upper_bound bounds path
unfolding sweep upper_bound count
upper_bound-pos path [] sorted reached run = absurd (omega arith)
upper_bound-pos path (e ∷ events) {bounds} (first, sorted) reached run =
    let (next, step, rest_run) = >>=-eq-ok (next_balance e.kind 0) _ run in
    let (rest, later, same) = >>=-eq-ok (sweep next events) _ rest_run in
    let out : e.path ∷ rest ≡ bounds = ground arith in
    rw (← out) (ground (arith, count-above path e events))

Reached-append_left :
    (path : Bytes) (xs ys : List Event) → Reached path xs → Reached path (xs ++ ys)
Reached-append_left path xs ys h = omega (arith, count-append (at_or_below path) xs ys)

Reached-append_right :
    (path : Bytes) (xs ys : List Event) → Reached path ys → Reached path (xs ++ ys)
Reached-append_right path xs ys h = omega (arith, count-append (at_or_below path) xs ys)

unfoldable pub DataIn : DataEntry → List LayerWithExtraInfo → Type 0
DataIn entry [] = ⊥
DataIn entry (layer ∷ layers) = Among entry layer.data_entries ⊎ DataIn entry layers

Reached-entries :
    (entry : DataEntry) (entries : List DataEntry)
    → Among entry entries
    → Reached entry.path (map create_from_data entries)
unfolding count create_from_data
Reached-entries entry [] among = elim among [ ]
Reached-entries entry (d ∷ entries) (inl same) =
    rw same (ground (arith, bytes_lt_irrefl entry.path))
Reached-entries entry (d ∷ entries) (inr later) =
    ground (arith, Reached-entries entry entries later)

pub Reached-DataIn :
    (entry : DataEntry) (partition : List LayerWithExtraInfo)
    → DataIn entry partition
    → Reached entry.path (partition_events partition)
unfolding partition_events DataIn
Reached-DataIn entry [] among = elim among [ ]
Reached-DataIn entry (layer ∷ layers) (inl here) =
    let entries = map create_from_data layer.data_entries in
    Reached-append_right entry.path (delete_events layer.positional_delete_entries)
      (entries ++ partition_events layers)
      (Reached-append_left entry.path entries (partition_events layers)
        (Reached-entries entry layer.data_entries here))
Reached-DataIn entry (layer ∷ layers) (inr later) =
    let entries = map create_from_data layer.data_entries in
    Reached-append_right entry.path (delete_events layer.positional_delete_entries)
      (entries ++ partition_events layers)
      (Reached-append_right entry.path entries (partition_events layers)
        (Reached-DataIn entry layers later))

-- A path that is not below the lower end of some delete's range.
module _ (low high path : Bytes) (above : ltb_bytes path low ≡ false)
    (del : PositionalDeleteWithExtraInfo)
    (range : del.min_max_referenced_path ≡ some (low, high)) where
  Reached-deletes :
      (deletes : List PositionalDeleteWithExtraInfo)
      → Among del deletes
      → Reached path (delete_events deletes)
  unfolding count
  Reached-deletes [] among = elim among [ ]
  Reached-deletes (d ∷ deletes) (inl same) = rw (same, range) (ground arith)
  Reached-deletes (d ∷ deletes) (inr later) =
      Reached-append_right path (range_events d.min_max_referenced_path) (delete_events deletes)
        (Reached-deletes deletes later)

  pub Reached-DeleteIn :
      (partition : List LayerWithExtraInfo)
      → DeleteIn del partition
      → Reached path (partition_events partition)
  unfolding partition_events
  Reached-DeleteIn [] among = elim among [ ]
  Reached-DeleteIn (layer ∷ layers) (inl here) =
      Reached-append_left path (delete_events layer.positional_delete_entries)
        (map create_from_data layer.data_entries ++ partition_events layers)
        (Reached-deletes layer.positional_delete_entries here)
  Reached-DeleteIn (layer ∷ layers) (inr later) =
      let entries = map create_from_data layer.data_entries in
      Reached-append_right path (delete_events layer.positional_delete_entries)
        (entries ++ partition_events layers)
        (Reached-append_right path entries (partition_events layers)
          (Reached-DeleteIn layers later))

Balanced-append : (xs ys : List Event) → Balanced 0 xs → Balanced 0 ys → Balanced 0 (xs ++ ys)
Balanced-append xs ys h k =
    omega
      (arith, count-append (λ e. is_end e.kind) xs ys, count-append (λ e. is_start e.kind) xs ys)

Balanced-deletes :
    (deletes : List PositionalDeleteWithExtraInfo) → Balanced 0 (delete_events deletes)
unfolding count
Balanced-deletes [] = omega arith
Balanced-deletes (del ∷ deletes) = ground (arith, Balanced-deletes deletes)

Balanced-entries : (entries : List DataEntry) → Balanced 0 (map create_from_data entries)
unfolding count create_from_data
Balanced-entries [] = omega arith
Balanced-entries (entry ∷ entries) = Balanced-entries entries

pub Balanced-partition :
    (partition : List LayerWithExtraInfo) → Balanced 0 (partition_events partition)
unfolding partition_events count
Balanced-partition [] = omega arith
Balanced-partition (layer ∷ layers) =
    Balanced-append (delete_events layer.positional_delete_entries)
      (map create_from_data layer.data_entries ++ partition_events layers)
      (Balanced-deletes layer.positional_delete_entries)
      (Balanced-append (map create_from_data layer.data_entries) (partition_events layers)
        (Balanced-entries layer.data_entries) (Balanced-partition layers))
