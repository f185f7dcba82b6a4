-- ===== src/Scan/Builder/Numbers.antt =====
-- The order of the layers of a `ScanMetadataBuilder` of iceberg/tea_scan.cpp is that of the sequence
-- numbers of the entries.
use iceberg_cxx.Common.{◌≡◌, refl, ◌↔◌, inl, inr, true, List, [], ◌∷◌, map, arith, ok}
use iceberg_cxx.Common.Int.{ℤ, ltb_ℤ, leb_ℤ}
use iceberg_cxx.Common.Sequences
use iceberg_cxx.Common.Sequences.{Among, Before, Some}
use iceberg_cxx.Common.OrderedMap
use iceberg_cxx.Common.OrderedMap.{Ascends, AllValues, After, find}
use iceberg_cxx.Filter.Value.{Bytes}
use iceberg_cxx.Scan.{DataEntry, PositionalDeleteWithExtraInfo, LayerWithExtraInfo, empty_layer}
use iceberg_cxx.Scan.Timeline.{data_item, delete_item, layer_items, timeline}
use iceberg_cxx.Scan.Optimizer.Correctness.{Precedes}
use iceberg_cxx.Scan.Optimizer.Equivalence.{not-Among-data, Among-deletes}
use iceberg_cxx.Scan.Dangling.{Layers, Partitions, values, map_to_vec}
use iceberg_cxx.Scan.Dangling.Plan.{not-Among-deletes}
use iceberg_cxx.Scan.MapKeys.{key_order, number_order}
use iceberg_cxx.Scan.Builder.{Builder, Arrival, add_entries}
use iceberg_cxx.Scan.Builder.Stored.{layer_at}
use iceberg_cxx.Scan.Builder.Entries.{data_of, positional_of, add_entries-Adds}
use iceberg_cxx.Scan.Builder.Keys.{add_entries-HasOrder}
use iceberg_cxx.Scan.Builder.Sequence.{find_layer, Precedes-of_keys}

Among-entries :
    (entry : DataEntry) (entries : List DataEntry)
    → Among (data_item entry) (map data_item entries)
    → Among entry entries
Among-entries entry [] h = h
Among-entries entry (d ∷ entries) (inl h) = inl (cc)
Among-entries entry (d ∷ entries) (inr h) = inr (Among-entries entry entries h)

data_of_layer :
    (entry : DataEntry) (l : LayerWithExtraInfo)
    → Among (data_item entry) (layer_items l)
    → Among entry l.data_entries
data_of_layer entry l h =
    elim (Sequences.Among-append (data_item entry) (map data_item l.data_entries)
      (map delete_item l.positional_delete_entries) h) [
        | inl here ↦ Among-entries entry l.data_entries here
        | inr wrong ↦ absurd (not-Among-deletes entry l.positional_delete_entries wrong)
      ]

delete_of_layer :
    (del : PositionalDeleteWithExtraInfo) (l : LayerWithExtraInfo)
    → Among (delete_item del) (layer_items l)
    → Among del l.positional_delete_entries
delete_of_layer del l h =
    elim (Sequences.Among-append (delete_item del) (map data_item l.data_entries)
      (map delete_item l.positional_delete_entries) h) [
        | inl wrong ↦ absurd (not-Among-data del l.data_entries wrong)
        | inr here ↦ Among-deletes del l.positional_delete_entries here
      ]

-- The layer that holds a delete.
Holder : PositionalDeleteWithExtraInfo → Layers → Type 0
Holder del layers =
    (s : ℤ) × (l : LayerWithExtraInfo) × Among (s, l) layers × Among del l.positional_delete_entries

delete_of_timeline :
    (del : PositionalDeleteWithExtraInfo) (layers : Layers)
    → Among (delete_item del) (timeline (values layers))
    → Holder del layers
unfolding values timeline Holder
delete_of_timeline del [] h = elim h [ ]
delete_of_timeline del ((n, l) ∷ layers) h =
    elim (Sequences.Among-append (delete_item del) (layer_items l) (timeline (values layers)) h) [
      | inl here ↦ (n, l, inl refl, delete_of_layer del l here)
      | inr later ↦
          let (s, l', among, held) = delete_of_timeline del layers later in (s, l', inr among, held)
    ]

-- The numbers of the layers of a data file and of a delete for it.
abbrev pub InOrderIn : DataEntry → PositionalDeleteWithExtraInfo → Layers → Type 0
InOrderIn entry del layers =
    (t : ℤ) × (s : ℤ) × (leb_ℤ t s ≡ true)
    × Among entry (find_layer t layers).data_entries
    × Among del (find_layer s layers).positional_delete_entries

Pair : DataEntry → PositionalDeleteWithExtraInfo → Layers → Type 0
Pair entry del layers =
    (t : ℤ) × (l : LayerWithExtraInfo) × (s : ℤ) × (l' : LayerWithExtraInfo) × (leb_ℤ t s ≡ true)
    × (Among (t, l) layers × Among entry l.data_entries)
    × (Among (s, l') layers × Among del l'.positional_delete_entries)

leb_of_ltb : (a b : ℤ) → ltb_ℤ a b ≡ true → leb_ℤ a b ≡ true
leb_of_ltb a b h = ground arith

leb_self : (a : ℤ) → leb_ℤ a a ≡ true
leb_self a = ground arith

Pair-of_Before :
    (entry : DataEntry) (del : PositionalDeleteWithExtraInfo) (layers : Layers)
    → Ascends number_order empty_layer layers
    → Before (data_item entry) (delete_item del) (timeline (values layers))
    → Pair entry del layers
unfolding values timeline Pair Holder
Pair-of_Before entry del [] ascends h = elim h [ ]
Pair-of_Before entry del ((n, l) ∷ layers) (first, rest) h =
    let a = data_item entry in
    let b = delete_item del in
    elim (Sequences.Before-append a b (layer_items l) (timeline (values layers)) h) [
      | inl here ↦
          let (of_a, of_b) = Sequences.Before-Among a b (layer_items l) here in
          (
            n,
            l,
            n,
            l,
            leb_self n,
            (inl refl, data_of_layer entry l of_a),
            (inl refl, delete_of_layer del l of_b),
          )
      | inr (inl (of_a, of_b)) ↦
          let (s, l', among, held) = delete_of_timeline del layers of_b in
          let above = OrderedMap.After-Among number_order empty_layer n s l' layers first among in
          (
            n,
            l,
            s,
            l',
            leb_of_ltb n s above,
            (inl refl, data_of_layer entry l of_a),
            (inr among, held),
          )
      | inr (inr later) ↦
          let (t, l', s, l'', ordered, (among, held), (among', held')) =
            Pair-of_Before entry del layers rest later in
          (t, l', s, l'', ordered, (inr among, held), (inr among', held'))
    ]

InOrderIn-of_Before :
    (entry : DataEntry) (del : PositionalDeleteWithExtraInfo) (layers : Layers)
    → Ascends number_order empty_layer layers
    → Before (data_item entry) (delete_item del) (timeline (values layers))
    → InOrderIn entry del layers
unfolding Pair
InOrderIn-of_Before entry del layers ascends h =
    let (t, l, s, l', ordered, (among, held), (among', held')) =
      Pair-of_Before entry del layers ascends h in
    (
      t,
      s,
      ordered,
      rw (OrderedMap.find-Among number_order empty_layer t l layers ascends among) held,
      rw (OrderedMap.find-Among number_order empty_layer s l' layers ascends among') held',
    )

-- The partition's key, and the numbers.
InOrder_of_Some :
    (entry : DataEntry) (del : PositionalDeleteWithExtraInfo) (partitions : Partitions)
    → AllValues key_order [] (Ascends number_order empty_layer) partitions
    → Some (Precedes entry del) (map_to_vec partitions)
    → (key : Bytes) × (layers : Layers) × Among (key, layers) partitions
      × InOrderIn entry del layers
unfolding map_to_vec
InOrder_of_Some entry del [] ascend h = elim h [ ]
InOrder_of_Some entry del ((key, layers) ∷ partitions) (first, rest) (inl here) =
    (key, layers, inl refl, InOrderIn-of_Before entry del layers first here)
InOrder_of_Some entry del ((key, layers) ∷ partitions) (first, rest) (inr later) =
    let (k, ls, among, ordered) = InOrder_of_Some entry del partitions rest later in
    (k, ls, inr among, ordered)

abbrev pub new_builder : Builder
new_builder = record { partitions = []; global_equality_deletes = [] }

module _ (arrivals : List Arrival) (out : Builder)
    (run : add_entries arrivals new_builder ≡ ok out) where
  stored_data :
      (key : Bytes) (number : ℤ)
      → (find_layer number (find key_order [] key out.partitions)).data_entries
        ≡ data_of key number arrivals
  unfolding layer_at find
  stored_data key number = (add_entries-Adds key number arrivals new_builder run).0

  stored_deletes :
      (key : Bytes) (number : ℤ)
      → (find_layer number (find key_order [] key out.partitions)).positional_delete_entries
        ≡ positional_of key number arrivals
  unfolding layer_at find
  stored_deletes key number = (add_entries-Adds key number arrivals new_builder run).1

-- Once the entries of a table are stored in a new builder without an error, a positional delete comes
-- after a data file in a partition exactly when entries that are not deleted gave them with the same
-- serialized partition, and the data file's sequence number is at most that of the delete.
pub add_entries-Precedes :
    (arrivals : List Arrival) (out : Builder)
    → add_entries arrivals new_builder ≡ ok out
    → (entry : DataEntry) (del : PositionalDeleteWithExtraInfo)
    → Some (Precedes entry del) (map_to_vec out.partitions) ↔ (
        (key : Bytes) × (t : ℤ) × (s : ℤ) × (leb_ℤ t s ≡ true)
        × Among entry (data_of key t arrivals)
        × Among del (positional_of key s arrivals))
add_entries-Precedes arrivals out run entry del = (
  λ precedes.
      let order = add_entries-HasOrder arrivals new_builder run (tt, tt) in
      let (key, layers, among, (t, s, ordered, of_entry, of_del)) =
        InOrder_of_Some entry del out.partitions order.1 precedes in
      let found = OrderedMap.find-Among key_order [] key layers out.partitions order.0 among in
      (
        key,
        t,
        s,
        ordered,
        rw (← stored_data arrivals out run key t, found) of_entry,
        rw (← stored_deletes arrivals out run key s, found) of_del,
      ),
  λ h.
      let (key, t, s, ordered, of_entry, of_del) = h in
      Precedes-of_keys entry del key t s out.partitions ordered
        (rw (stored_data arrivals out run key t) of_entry)
        (rw (stored_deletes arrivals out run key s) of_del),
)
