-- ===== src/Scan/Builder/Sequence.antt =====
-- Which positional deletes apply to which data files by their sequence numbers, in the layers of a
-- `ScanMetadataBuilder` of iceberg/tea_scan.cpp.
use iceberg_cxx.Common.{◌≡◌, inl, inr, true, false, [], ◌∷◌, map, arith, Bool-cases}
use iceberg_cxx.Common.Int.{ℤ, ltb_ℤ, leb_ℤ}
use iceberg_cxx.Common.Sequences
use iceberg_cxx.Common.Sequences.{Among, Before, Some}
use iceberg_cxx.Common.OrderedMap
use iceberg_cxx.Common.OrderedMap.{Ascends, AllValues, After, find}
use iceberg_cxx.Filter.Value.{Bytes}
use iceberg_cxx.Filter.Order.{ltb_bytes}
use iceberg_cxx.Scan.{DataEntry, PositionalDeleteWithExtraInfo, LayerWithExtraInfo, empty_layer}
use iceberg_cxx.Scan.Timeline.{data_item, delete_item, layer_items, timeline}
use iceberg_cxx.Scan.Optimizer.Correctness.{Precedes}
use iceberg_cxx.Scan.Dangling.{Layers, Partitions, values, map_to_vec}
use iceberg_cxx.Scan.MapKeys.{key_order, number_order}
use iceberg_cxx.Scan.Builder.{}

-- A file of a layer stands in the layer's part of the timeline.
data_on_layer :
    (entry : DataEntry) (l : LayerWithExtraInfo)
    → Among entry l.data_entries
    → Among (data_item entry) (layer_items l)
data_on_layer entry l h =
    let entries = map data_item l.data_entries in
    Sequences.Among-append_left (data_item entry) entries
      (map delete_item l.positional_delete_entries)
      (Sequences.Among-map (λ (d : DataEntry). data_item d) entry l.data_entries h)

delete_on_layer :
    (del : PositionalDeleteWithExtraInfo) (l : LayerWithExtraInfo)
    → Among del l.positional_delete_entries
    → Among (delete_item del) (layer_items l)
delete_on_layer del l h =
    Sequences.Among-append_right (delete_item del) (map data_item l.data_entries)
      (map delete_item l.positional_delete_entries)
      (Sequences.Among-map (λ (d : PositionalDeleteWithExtraInfo). delete_item d) del
        l.positional_delete_entries h)

abbrev pub find_layer : ℤ → Layers → LayerWithExtraInfo
find_layer = find number_order empty_layer

delete_on_timeline :
    (del : PositionalDeleteWithExtraInfo) (s : ℤ) (layers : Layers)
    → Among del (find_layer s layers).positional_delete_entries
    → Among (delete_item del) (timeline (values layers))
unfolding values timeline
delete_on_timeline del s [] h = unfold find in elim h [ ]
delete_on_timeline del s ((n, l) ∷ layers) h =
    elim (OrderedMap.find-cases number_order empty_layer
      (λ (x : LayerWithExtraInfo). Among del x.positional_delete_entries) s n l layers
      (λ wrong. wrong) h) [
        | inl (above, later) ↦
            Sequences.Among-append_right (delete_item del) (layer_items l)
              (timeline (values layers)) (delete_on_timeline del s layers later)
        | inr (same, same', here) ↦
            Sequences.Among-append_left (delete_item del) (layer_items l) (timeline (values layers))
              (delete_on_layer del l here)
      ]

-- A delete of a sequence number at or above that of a data file comes after it.
Before-of_numbers :
    (entry : DataEntry) (del : PositionalDeleteWithExtraInfo) (t s : ℤ) (layers : Layers)
    → leb_ℤ t s ≡ true
    → Among entry (find_layer t layers).data_entries
    → Among del (find_layer s layers).positional_delete_entries
    → Before (data_item entry) (delete_item del) (timeline (values layers))
unfolding values timeline
Before-of_numbers entry del t s [] le h k = unfold find in elim h [ ]
Before-of_numbers entry del t s ((n, l) ∷ layers) le h k =
    let rest = timeline (values layers) in
    let data_case =
      OrderedMap.find-cases number_order empty_layer
        (λ (x : LayerWithExtraInfo). Among entry x.data_entries) t n l layers (λ wrong. wrong) h in
    let delete_case =
      OrderedMap.find-cases number_order empty_layer
        (λ (x : LayerWithExtraInfo). Among del x.positional_delete_entries) s n l layers
        (λ wrong. wrong) k in
    elim data_case [
      | inl (above, later) ↦ elim delete_case [
        | inl (above', later') ↦
            Sequences.append-Before_right (data_item entry) (delete_item del) (layer_items l) rest
              (Before-of_numbers entry del t s layers le later later')
        | inr (not_below, not_above, here) ↦ absurd (number_gap t s n le above not_below)
      ]
      | inr (same, same', here) ↦ elim delete_case [
        | inl (above', later') ↦
            Sequences.append-Before (data_item entry) (delete_item del) (layer_items l) rest
              (data_on_layer entry l here) (delete_on_timeline del s layers later')
        | inr (not_below, not_above, here') ↦
            Sequences.append-Before_left (data_item entry) (delete_item del) (layer_items l) rest (
              Sequences.append-Before (data_item entry) (delete_item del)
                (map data_item l.data_entries) (map delete_item l.positional_delete_entries)
                (Sequences.Among-map (λ (d : DataEntry). data_item d) entry l.data_entries here)
                (Sequences.Among-map (λ (d : PositionalDeleteWithExtraInfo). delete_item d) del
                  l.positional_delete_entries here'))
      ]
    ]
  where
    number_gap : (a b c : ℤ) → leb_ℤ a b ≡ true → ltb_ℤ c a ≡ true → ltb_ℤ c b ≡ false → ⊥
    number_gap a b c h k m = ground arith

pub Precedes-of_keys :
    (entry : DataEntry) (del : PositionalDeleteWithExtraInfo) (key : Bytes) (t s : ℤ)
    (partitions : Partitions)
    → leb_ℤ t s ≡ true
    → Among entry (find_layer t (find key_order [] key partitions)).data_entries
    → Among del (find_layer s (find key_order [] key partitions)).positional_delete_entries
    → Some (Precedes entry del) (map_to_vec partitions)
unfolding map_to_vec find
Precedes-of_keys entry del key t s [] le h k = elim h [ ]
Precedes-of_keys entry del key t s ((n, layers) ∷ partitions) le h k =
    elim (Bool-cases (ltb_bytes key n)) [
      | inl below ↦ absurd (rw below at h)
      | inr not_below ↦ elim (Bool-cases (ltb_bytes n key)) [
        | inl above ↦ inr (
            Precedes-of_keys entry del key t s partitions le (rw (not_below, above) at h)
              (rw (not_below, above) at k))
        | inr same ↦ inl (
            Before-of_numbers entry del t s layers le (rw (not_below, same) at h)
              (rw (not_below, same) at k))
      ]
    ]
