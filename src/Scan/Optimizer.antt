-- ===== src/Scan/Optimizer.antt =====
-- `PositonalDeleteOptimizer` of iceberg/tea_scan.cpp: the events of a partition, and the bounds of
-- the buckets that a line swept over the paths finds.
pub mod Buckets
pub mod Events
pub mod Sweep
pub mod Bounds
pub mod Ranges
pub mod Paths
pub mod Placement
pub mod Redistribution
pub mod Correctness
pub mod Equivalence
pub mod Whole
use iceberg_cxx.Common.{
  ℕ, suc, ◌-◌, Bool, true, false, ◌&&◌, ◌||◌, not, Option, none, some, List, [], ◌∷◌, ◌++◌, map,
  ltb, ◌==◌, if◌then◌else◌, Result, err, ok, ◌>>=◌, length,
}
use iceberg_cxx.Filter.Value.{Bytes}
use iceberg_cxx.Filter.Order.{ltb_bytes}
use iceberg_cxx.Scan.{
  DataEntry, PositionalDeleteWithExtraInfo, LayerWithExtraInfo, empty_layer, is_empty, ScanError,
  internal_error, bad_optional_access,
}

pub data EventType : Type 0 where
  start_positional_delete : EventType
  data_file : EventType
  end_positional_delete : EventType

-- The enumeration's number.
abbrev pub type_number : EventType → ℕ
type_number start_positional_delete = 0
type_number data_file = 1
type_number end_positional_delete = 2

pub record Event : Type 0 where
  pub kind : EventType
  pub path : Bytes

-- `operator<`: by path, then by type.
unfoldable pub event_lt : Event → Event → Bool
event_lt e f =
    ltb_bytes e.path f.path
    || (not (ltb_bytes f.path e.path) && ltb (type_number e.kind) (type_number f.kind))

unfoldable pub create_from_delete : PositionalDeleteWithExtraInfo → Result ScanError (Event × Event)
create_from_delete del = elim del.min_max_referenced_path [
  | none ↦ err internal_error
  | some (low, high) ↦ ok (
    record { kind = start_positional_delete; path = low },
    record { kind = end_positional_delete; path = high },
  )
]

unfoldable pub create_from_data : DataEntry → Event
create_from_data entry = record { kind = data_file; path = entry.path }

unfoldable pub events_of_deletes :
    List PositionalDeleteWithExtraInfo → Result ScanError (List Event)
events_of_deletes [] = ok []
events_of_deletes (del ∷ deletes) = do
  pair ← create_from_delete del
  rest ← events_of_deletes deletes
  ok (pair.0 ∷ pair.1 ∷ rest)

unfoldable pub get_events_in_partition : List LayerWithExtraInfo → Result ScanError (List Event)
get_events_in_partition [] = ok []
get_events_in_partition (layer ∷ layers) = do
  deletes ← events_of_deletes layer.positional_delete_entries
  rest ← get_events_in_partition layers
  ok (deletes ++ (map create_from_data layer.data_entries ++ rest))

-- `std::sort`: events that `operator<` does not tell apart are equal, so every sort gives this list.
unfoldable pub insert_event : Event → List Event → List Event
insert_event e [] = e ∷ []
insert_event e (f ∷ events) =
    let rest = insert_event e events in if event_lt f e then f ∷ rest else e ∷ f ∷ events

unfoldable pub sort_events : List Event → List Event
sort_events [] = []
sort_events (e ∷ events) = insert_event e (sort_events events)

-- The `switch` on the event's type.
unfoldable pub next_balance : EventType → ℕ → Result ScanError ℕ
next_balance start_positional_delete balance = ok (suc balance)
next_balance data_file balance = ok balance
next_balance end_positional_delete balance =
    if ltb 0 balance then ok (balance - 1) else err internal_error

-- The loop over the events, and the check after it.
unfoldable pub sweep : ℕ → List Event → Result ScanError (List Bytes)
sweep balance [] = if balance == 0 then ok [] else err internal_error
sweep balance (e ∷ events) = do
  next ← next_balance e.kind balance
  rest ← sweep next events
  ok (if balance == 0 then e.path ∷ rest else rest)

unfoldable pub find_bucket_lower_bounds : List LayerWithExtraInfo → Result ScanError (List Bytes)
find_bucket_lower_bounds partition = do
  events ← get_events_in_partition partition
  sweep 0 (sort_events events)

-- `std::upper_bound`: the place of the first bound above the path. The bounds ascend.
unfoldable pub upper_bound : List Bytes → Bytes → ℕ
upper_bound [] path = 0
upper_bound (bound ∷ bounds) path =
    let rest = upper_bound bounds path in if ltb_bytes path bound then 0 else suc rest

unfoldable pub calculate_bucket_by_path : List Bytes → Bytes → Result ScanError ℕ
calculate_bucket_by_path bounds path =
    let it = upper_bound bounds path in if it == 0 then err internal_error else ok (it - 1)

abbrev pub layer_of_data : DataEntry → LayerWithExtraInfo
layer_of_data entry = record empty_layer { data_entries = entry ∷ [] }

unfoldable pub append_data_file_to_bucket :
    List LayerWithExtraInfo → DataEntry → List LayerWithExtraInfo
append_data_file_to_bucket [] entry = layer_of_data entry ∷ []
append_data_file_to_bucket (back ∷ []) entry =
    if is_empty back.positional_delete_entries
    then record back { data_entries = back.data_entries ++ entry ∷ [] } ∷ []
    else back ∷ layer_of_data entry ∷ []
append_data_file_to_bucket (layer ∷ next ∷ bucket) entry =
    layer ∷ append_data_file_to_bucket (next ∷ bucket) entry

unfoldable pub append_delete_file_to_bucket :
    List LayerWithExtraInfo → PositionalDeleteWithExtraInfo → List LayerWithExtraInfo
append_delete_file_to_bucket [] del =
    record empty_layer { positional_delete_entries = del ∷ [] } ∷ []
append_delete_file_to_bucket (back ∷ []) del =
    record back { positional_delete_entries = back.positional_delete_entries ++ del ∷ [] } ∷ []
append_delete_file_to_bucket (layer ∷ next ∷ bucket) del =
    layer ∷ append_delete_file_to_bucket (next ∷ bucket) del
