-- ===== src/Scan/Optimizer/Ranges.antt =====
-- The events of a partition whose positional deletes have ranges that are not empty, as
-- `GetEventsInPartition` of iceberg/tea_scan.cpp makes them: each range opens before it closes.
use iceberg_cxx.Common.{
  ℕ, ◌+◌, ◌≤◌, ◌≡◌, refl, ap, ◌∙◌, ◌⊎◌, inl, inr, Bool, true, false, ◌&&◌, Option, none, some, List,
  [], ◌∷◌, ◌++◌, map, arith, All, ok, ◌>>=◌,
}
use iceberg_cxx.Common.Sequences.{Among}
use iceberg_cxx.Filter.Value.{Bytes}
use iceberg_cxx.Filter.Order.{ltb_bytes}
use iceberg_cxx.Scan.{DataEntry, PositionalDeleteWithExtraInfo, LayerWithExtraInfo, has_value}
use iceberg_cxx.Scan.Optimizer.{
  Event, event_lt, create_from_delete, create_from_data, events_of_deletes, get_events_in_partition,
}
use iceberg_cxx.Scan.Optimizer.Events.{event_lt_asym, event_not_lt_trans, count, count-append}
use iceberg_cxx.Scan.Optimizer.Sweep.{is_start, is_end}
use iceberg_cxx.Scan.Optimizer.Bounds.{until, sooner, range_start, range_end, inside}

-- A range from the statistics is not empty.
abbrev pub InOrder : Option (Bytes × Bytes) → Type 0
InOrder none = Unit
InOrder (some (low, high)) = ltb_bytes high low ≡ false

abbrev pub Ranged : PositionalDeleteWithExtraInfo → Type 0
Ranged del = InOrder del.min_max_referenced_path

abbrev pub HasRange : PositionalDeleteWithExtraInfo → Type 0
HasRange del = has_value del.min_max_referenced_path ≡ true

abbrev pub EveryDelete : (PositionalDeleteWithExtraInfo → Type 0) → List LayerWithExtraInfo → Type 0
EveryDelete P partition = All (λ l. All P l.positional_delete_entries) partition

abbrev pub DeleteIn : PositionalDeleteWithExtraInfo → List LayerWithExtraInfo → Type 0
DeleteIn del [] = ⊥
DeleteIn del (layer ∷ layers) = Among del layer.positional_delete_entries ⊎ DeleteIn del layers

abbrev pub range_events : Option (Bytes × Bytes) → List Event
range_events none = []
range_events (some (low, high)) = range_start low ∷ range_end high ∷ []

abbrev pub delete_events : List PositionalDeleteWithExtraInfo → List Event
delete_events [] = []
delete_events (del ∷ deletes) = range_events del.min_max_referenced_path ++ delete_events deletes

unfoldable pub partition_events : List LayerWithExtraInfo → List Event
partition_events [] = []
partition_events (layer ∷ layers) =
    delete_events layer.positional_delete_entries
    ++ (map create_from_data layer.data_entries ++ partition_events layers)

events_of_deletes_lem :
    (deletes : List PositionalDeleteWithExtraInfo)
    → All HasRange deletes
    → events_of_deletes deletes ≡ ok (delete_events deletes)
unfolding events_of_deletes create_from_delete
events_of_deletes_lem [] ranges = refl
events_of_deletes_lem (del ∷ deletes) (first, rest) =
    ground (arith, events_of_deletes_lem deletes rest)

-- Ranges that are closed at `k` were opened, with `extra` more that are open.
abbrev pub Dominated : (Event → Bool) → ℕ → List Event → Type 0
Dominated met extra events =
    count (λ e. is_end e.kind && met e) events + extra
    ≤ count (λ e. is_start e.kind && met e) events

Dominated-append :
    (met : Event → Bool) (m n : ℕ) (xs ys : List Event)
    → Dominated met m xs
    → Dominated met n ys
    → Dominated met (m + n) (xs ++ ys)
Dominated-append met m n xs ys h k = omega (
  arith,
  count-append (λ e. is_end e.kind && met e) xs ys,
  count-append (λ e. is_start e.kind && met e) xs ys,
)

Dominated-data :
    (met : Event → Bool) (entries : List DataEntry) → Dominated met 0 (map create_from_data entries)
unfolding count create_from_data
Dominated-data met [] = omega arith
Dominated-data met (entry ∷ entries) = Dominated-data met entries

start_not_after_end :
    (low high : Bytes)
    → ltb_bytes high low ≡ false
    → event_lt (range_end high) (range_start low) ≡ false
unfolding event_lt
start_not_after_end low high h = ground arith

pub Dominated-until :
    (k : Event) (low high : Bytes)
    → ltb_bytes high low ≡ false
    → Dominated (until k) 0 (range_start low ∷ range_end high ∷ [])
unfolding count
Dominated-until k low high h = ground (
  arith,
  event_not_lt_trans (range_start low) (range_end high) k (start_not_after_end low high h),
)

pub Dominated-sooner :
    (k : Event) (low high : Bytes)
    → ltb_bytes high low ≡ false
    → Dominated (sooner k) (inside low high k) (range_start low ∷ range_end high ∷ [])
unfolding count
Dominated-sooner k low high h = ground (
  arith,
  start_not_after_end low high h,
  event_lt_asym k (range_end high),
  event_not_lt_trans k (range_start low) (range_end high),
)

pub get_events_lem :
    (partition : List LayerWithExtraInfo)
    → EveryDelete HasRange partition
    → get_events_in_partition partition ≡ ok (partition_events partition)
unfolding get_events_in_partition partition_events
get_events_lem [] ranges = refl
get_events_lem (layer ∷ layers) (first, rest) =
    rw
      (
        events_of_deletes_lem layer.positional_delete_entries first,
        ◌>>=◌,
        get_events_lem layers rest,
      )
      refl

-- Every range counts as closed only after it was opened.
module _ (met : Event → Bool)
    (closed : (low high : Bytes)
      → ltb_bytes high low ≡ false
      → Dominated met 0 (range_start low ∷ range_end high ∷ [])) where
  Dominated-range :
      (range : Option (Bytes × Bytes)) → InOrder range → Dominated met 0 (range_events range)
  unfolding count
  Dominated-range none h = omega arith
  Dominated-range (some (low, high)) h = closed low high h

  Dominated-deletes :
      (deletes : List PositionalDeleteWithExtraInfo)
      → All Ranged deletes
      → Dominated met 0 (delete_events deletes)
  unfolding count
  Dominated-deletes [] ranged = omega arith
  Dominated-deletes (del ∷ deletes) (first, rest) =
      Dominated-append met 0 0 (range_events del.min_max_referenced_path) (delete_events deletes)
        (Dominated-range del.min_max_referenced_path first) (Dominated-deletes deletes rest)

  Dominated-layer :
      (layer : LayerWithExtraInfo) (m n : ℕ) (layers : List LayerWithExtraInfo)
      → Dominated met m (delete_events layer.positional_delete_entries)
      → Dominated met n (partition_events layers)
      → Dominated met (m + n) (partition_events (layer ∷ layers))
  unfolding partition_events
  Dominated-layer layer m n layers h k =
      let deletes = delete_events layer.positional_delete_entries in
      let entries = map create_from_data layer.data_entries in
      omega (
        arith,
        Dominated-append met m (0 + n) deletes (entries ++ partition_events layers) h (
            Dominated-append met 0 n entries (partition_events layers)
              (Dominated-data met layer.data_entries) k),
      )

  pub Dominated-partition :
      (partition : List LayerWithExtraInfo)
      → EveryDelete Ranged partition
      → Dominated met 0 (partition_events partition)
  unfolding count partition_events
  Dominated-partition [] ranged = omega arith
  Dominated-partition (layer ∷ layers) (first, rest) =
      Dominated-layer layer 0 0 layers (Dominated-deletes layer.positional_delete_entries first)
        (Dominated-partition layers rest)

  -- A range that is open at the event adds one.
  module _ (low high : Bytes) (extra : ℕ)
      (opened : Dominated met extra (range_start low ∷ range_end high ∷ []))
      (del : PositionalDeleteWithExtraInfo)
      (range : del.min_max_referenced_path ≡ some (low, high)) where
    Dominated-deletes-Among :
        (deletes : List PositionalDeleteWithExtraInfo)
        → All Ranged deletes
        → Among del deletes
        → Dominated met extra (delete_events deletes)
    Dominated-deletes-Among [] ranged among = elim among [ ]
    Dominated-deletes-Among (d ∷ deletes) (first, rest) (inl same) =
        let here : range_events d.min_max_referenced_path ≡ range_start low ∷ range_end high ∷ [] =
          ap (λ (x : PositionalDeleteWithExtraInfo). range_events x.min_max_referenced_path) same
          ∙ ap range_events range in
        rw here (
          omega (
            arith,
            Dominated-append met extra 0 (range_start low ∷ range_end high ∷ [])
                (delete_events deletes) opened (Dominated-deletes deletes rest),
          ))
    Dominated-deletes-Among (d ∷ deletes) (first, rest) (inr later) = omega (
      arith,
      Dominated-append met 0 extra (range_events d.min_max_referenced_path) (delete_events deletes)
          (Dominated-range d.min_max_referenced_path first)
          (Dominated-deletes-Among deletes rest later),
    )

    pub Dominated-DeleteIn :
        (partition : List LayerWithExtraInfo)
        → EveryDelete Ranged partition
        → DeleteIn del partition
        → Dominated met extra (partition_events partition)
    Dominated-DeleteIn [] ranged among = elim among [ ]
    Dominated-DeleteIn (layer ∷ layers) (first, rest) (inl here) = omega (
      arith,
      Dominated-layer layer extra 0 layers
          (Dominated-deletes-Among layer.positional_delete_entries first here)
          (Dominated-partition layers rest),
    )
    Dominated-DeleteIn (layer ∷ layers) (first, rest) (inr later) = omega (
      arith,
      Dominated-layer layer 0 extra layers (Dominated-deletes layer.positional_delete_entries first)
          (Dominated-DeleteIn layers rest later),
    )
