-- ===== src/Scan/Dangling/Prune.antt =====
-- The pass of `RemoveDanglingDeletes` of iceberg/tea_scan.cpp over the timeline of a partition.
use iceberg_cxx.Common.{
  ◌≡◌, refl, ap, ◌∙◌, ◌⊎◌, inl, inr, false, List, [], ◌∷◌, ◌++◌, map, arith, All, if◌then◌else◌,
  Bool-cases,
}
use mathlib.Core.List.{append_assoc}
use iceberg_cxx.Common.Sequences.{Among}
use iceberg_cxx.Filter.Value.{Bytes}
use iceberg_cxx.Filter.Order.{ltb_bytes}
use iceberg_cxx.PositionalDelete.Position.{bytes_lt_asym, bytes_not_lt_trans, bytes_eq_of_not_lt}
use iceberg_cxx.Scan.{
  DataEntry, PositionalDeleteInfo, PositionalDeleteWithExtraInfo, LayerWithExtraInfo, Layer,
  layer_empty,
}
use iceberg_cxx.Scan.Timeline.{Item, data_item, delete_item, timeline}
use iceberg_cxx.Scan.Dangling.{
  insert_path, insert_data_paths, is_dangling, keep_deletes, prune_layers,
}

-- What a scan reads, in the order of its layers.
pub data ScanItem : Type 0 where
  data_read : DataEntry → ScanItem
  delete_read : PositionalDeleteInfo → ScanItem

unfoldable pub scan_timeline : List Layer → List ScanItem
scan_timeline [] = []
scan_timeline (l ∷ layers) =
    (map data_read l.data_entries ++ map delete_read l.positional_delete_entries)
    ++ scan_timeline layers

-- The same pass over single items.
unfoldable pub prune : List Bytes → List Item → List ScanItem
prune data_paths [] = []
prune data_paths (data_item entry ∷ items) =
    data_read entry ∷ prune (insert_path entry.path data_paths) items
prune data_paths (delete_item del ∷ items) =
    let rest = prune data_paths items in
    if is_dangling data_paths del.min_max_referenced_path
    then rest
    else delete_read del.positional_delete ∷ rest

prune-data :
    (entries : List DataEntry) (data_paths : List Bytes) (items : List Item)
    → prune data_paths (map data_item entries ++ items)
      ≡ map data_read entries ++ prune (insert_data_paths entries data_paths) items
unfolding prune insert_data_paths
prune-data [] data_paths items = refl
prune-data (entry ∷ entries) data_paths items =
    ap (◌∷◌ (data_read entry)) (prune-data entries (insert_path entry.path data_paths) items)

prune-deletes :
    (deletes : List PositionalDeleteWithExtraInfo) (data_paths : List Bytes) (items : List Item)
    → prune data_paths (map delete_item deletes ++ items)
      ≡ map delete_read (keep_deletes data_paths deletes) ++ prune data_paths items
unfolding prune keep_deletes
prune-deletes [] data_paths items = refl
prune-deletes (del ∷ deletes) data_paths items =
    elim (Bool-cases (is_dangling data_paths del.min_max_referenced_path)) [
      | inl dangling ↦ rw (dangling, prune-deletes deletes data_paths items) refl
      | inr useful ↦ rw (useful, prune-deletes deletes data_paths items) refl
    ]

scan_timeline-layer :
    (l : Layer) (layers : List Layer)
    → scan_timeline (if layer_empty l then layers else l ∷ layers)
      ≡ (map data_read l.data_entries ++ map delete_read l.positional_delete_entries)
        ++ scan_timeline layers
unfolding scan_timeline layer_empty
scan_timeline-layer l layers = ground arith

-- The layers that are left read the items that the pass over the timeline leaves.
pub prune_layers-timeline :
    (data_paths : List Bytes) (layers : List LayerWithExtraInfo)
    → scan_timeline (prune_layers data_paths layers) ≡ prune data_paths (timeline layers)
unfolding prune_layers timeline
prune_layers-timeline data_paths [] = unfold prune in unfold scan_timeline in refl
prune_layers-timeline data_paths (l ∷ layers) =
    let collected = insert_data_paths l.data_entries data_paths in
    let result_layer : Layer = record {
      data_entries = l.data_entries;
      positional_delete_entries = keep_deletes collected l.positional_delete_entries;
      equality_delete_entries = l.equality_delete_entries;
    } in
    let entries = map data_item l.data_entries in
    let deletes = map delete_item l.positional_delete_entries in
    scan_timeline-layer result_layer (prune_layers collected layers)
    ∙ rw
        (
          prune_layers-timeline collected layers,
          append_assoc entries deletes (timeline layers),
          prune-data l.data_entries data_paths (deletes ++ timeline layers),
          prune-deletes l.positional_delete_entries collected (timeline layers),
        )
        (append_assoc (map data_read l.data_entries)
          (map delete_read (keep_deletes collected l.positional_delete_entries))
          (prune collected (timeline layers)))

abbrev pub IsAscending : List Bytes → Type 0
IsAscending [] = Unit
IsAscending (p ∷ paths) = All (λ q. ltb_bytes q p ≡ false) paths × IsAscending paths

All-insert_path :
    (path p : Bytes) (paths : List Bytes)
    → ltb_bytes path p ≡ false
    → All (λ q. ltb_bytes q p ≡ false) paths
    → All (λ q. ltb_bytes q p ≡ false) (insert_path path paths)
unfolding insert_path
All-insert_path path p [] h all = (h, tt)
All-insert_path path p (q ∷ paths) h (first, rest) =
    ground (arith, All-insert_path path p paths h rest)

All-weaken :
    (a b : Bytes) (paths : List Bytes)
    → ltb_bytes b a ≡ false
    → All (λ q. ltb_bytes q b ≡ false) paths
    → All (λ q. ltb_bytes q a ≡ false) paths
All-weaken a b [] h all = tt
All-weaken a b (q ∷ paths) h (first, rest) =
    (bytes_not_lt_trans a b q h first, All-weaken a b paths h rest)

pub insert_path-IsAscending :
    (path : Bytes) (paths : List Bytes) → IsAscending paths → IsAscending (insert_path path paths)
unfolding insert_path
insert_path-IsAscending path [] ascending = (tt, tt)
insert_path-IsAscending path (p ∷ paths) (first, rest) = elim (Bool-cases (ltb_bytes path p)) [
  | inl below ↦
      let ordered = bytes_lt_asym path p below in
      rw below ((ordered, All-weaken path p paths ordered first), (first, rest))
  | inr not_below ↦ elim (Bool-cases (ltb_bytes p path)) [
    | inl above ↦
        rw (not_below, above)
          (All-insert_path path p paths not_below first, insert_path-IsAscending path paths rest)
    | inr same ↦ rw (not_below, same) (first, rest)
  ]
]

pub Among-insert_path_self :
    (path : Bytes) (paths : List Bytes) → Among path (insert_path path paths)
unfolding insert_path
Among-insert_path_self path [] = inl refl
Among-insert_path_self path (p ∷ paths) = elim (Bool-cases (ltb_bytes path p)) [
  | inl below ↦ rw below (inl refl)
  | inr not_below ↦ elim (Bool-cases (ltb_bytes p path)) [
    | inl above ↦ rw (not_below, above) (inr (Among-insert_path_self path paths))
    | inr same ↦ rw (not_below, same) (inl (bytes_eq_of_not_lt p path same not_below))
  ]
]

pub Among-insert_path :
    (q path : Bytes) (paths : List Bytes) → Among q paths → Among q (insert_path path paths)
unfolding insert_path
Among-insert_path q path [] h = elim h [ ]
Among-insert_path q path (p ∷ paths) h = elim (Bool-cases (ltb_bytes path p)) [
  | inl below ↦ rw below (inr h)
  | inr not_below ↦ elim (Bool-cases (ltb_bytes p path)) [
    | inl above ↦
        rw (not_below, above)
          (elim h [ inl same ↦ inl same | inr later ↦ inr (Among-insert_path q path paths later) ])
    | inr same ↦ rw (not_below, same) h
  ]
]

pub insert_path-Among :
    (q path : Bytes) (paths : List Bytes)
    → Among q (insert_path path paths)
    → (path ≡ q) ⊎ Among q paths
unfolding insert_path
insert_path-Among q path [] h = h
insert_path-Among q path (p ∷ paths) h = elim (Bool-cases (ltb_bytes path p)) [
  | inl below ↦ rw below at h
  | inr not_below ↦ elim (Bool-cases (ltb_bytes p path)) [
    | inl above ↦
        let either : (p ≡ q) ⊎ Among q (insert_path path paths) = rw (not_below, above) at h in
        elim either [
          | inl same ↦ inr (inl same)
          | inr later ↦ elim (insert_path-Among q path paths later) [
            | inl new ↦ inl new
            | inr old ↦ inr (inr old)
          ]
        ]
    | inr same ↦ inr (rw (not_below, same) at h)
  ]
]
