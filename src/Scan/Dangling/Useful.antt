-- ===== src/Scan/Dangling/Useful.antt =====
-- Which positional deletes `RemoveDanglingDeletes` of iceberg/tea_scan.cpp keeps.
use iceberg_cxx.Common.{
  ◌<◌, ◌≡◌, refl, ◌⊎◌, inl, inr, false, Option, none, some, List, [], ◌∷◌, arith, ◌==◌, Bool-cases,
}
use iceberg_cxx.Common.Sequences
use iceberg_cxx.Common.Sequences.{Among, Before}
use iceberg_cxx.Filter.Value.{Bytes}
use iceberg_cxx.Filter.Order.{ltb_bytes}
use iceberg_cxx.PositionalDelete.Position.{bytes_lt_asym, bytes_not_lt_trans}
use iceberg_cxx.Scan.{DataEntry, PositionalDeleteWithExtraInfo}
use iceberg_cxx.Scan.Timeline.{Item, data_item, delete_item}
use iceberg_cxx.Scan.Optimizer.{upper_bound}
use iceberg_cxx.Scan.Optimizer.Ranges.{InOrder}
use iceberg_cxx.Scan.Optimizer.Correctness.{Admits}
use iceberg_cxx.Scan.Dangling.{insert_path, lower_bound, is_dangling}
use iceberg_cxx.Scan.Dangling.Prune.{
  data_read, delete_read, prune, IsAscending, insert_path-IsAscending, Among-insert_path_self,
  Among-insert_path,
}

lower_bound-lt-upper_bound :
    (low high p : Bytes) (paths : List Bytes)
    → IsAscending paths
    → Among p paths
    → Admits (some (low, high)) p
    → lower_bound paths low < upper_bound paths high
unfolding lower_bound upper_bound
lower_bound-lt-upper_bound low high p [] ascending among admits = elim among [ ]
lower_bound-lt-upper_bound low high p (x ∷ paths) ascending (inl same) (above, below) =
    let above' : ltb_bytes x low ≡ false = rw same above in
    let below' : ltb_bytes high x ≡ false = rw same below in ground arith
lower_bound-lt-upper_bound low high p (x ∷ paths) (first, rest) (inr later) (above, below) =
    let after = Sequences.All-Among (λ q. ltb_bytes q x ≡ false) p paths first later in
    let below' = bytes_not_lt_trans x p high after below in
    let ih = lower_bound-lt-upper_bound low high p paths rest later (above, below) in ground arith

-- A delete whose range admits a collected path is kept.
is_dangling-Admits :
    (range : Option (Bytes × Bytes)) (p : Bytes) (paths : List Bytes)
    → IsAscending paths
    → Among p paths
    → Admits range p
    → is_dangling paths range ≡ false
unfolding is_dangling
is_dangling-Admits none p paths ascending among admits = refl
is_dangling-Admits (some (low, high)) p paths ascending among admits =
    ground (arith, lower_bound-lt-upper_bound low high p paths ascending among admits)

admitted_path :
    (low high : Bytes) (paths : List Bytes)
    → ltb_bytes high low ≡ false
    → (lower_bound paths low == upper_bound paths high) ≡ false
    → (p : Bytes) × Among p paths × Admits (some (low, high)) p
unfolding lower_bound upper_bound
admitted_path low high [] in_order apart = cc
admitted_path low high (x ∷ paths) in_order apart = elim (Bool-cases (ltb_bytes x low)) [
  | inl before ↦
      let not_after : ltb_bytes high x ≡ false = ground (
        arith,
        bytes_not_lt_trans low high x,
        bytes_lt_asym x low,
        bytes_not_lt_trans x low high,
      ) in
      let (p, among, admits) = admitted_path low high paths in_order (ground arith) in
      (p, inr among, admits)
  | inr not_before ↦ (x, inl refl, (not_before, ground arith))
]

-- A delete with a range is kept for a path that it admits.
pub is_dangling-useful :
    (range : Option (Bytes × Bytes)) (paths : List Bytes)
    → InOrder range
    → is_dangling paths range ≡ false
    → (range ≡ none) ⊎ ((p : Bytes) × Among p paths × Admits range p)
unfolding is_dangling
is_dangling-useful none paths in_order useful = inl refl
is_dangling-useful (some (low, high)) paths in_order useful =
    inr (admitted_path low high paths in_order useful)

Among-prune :
    (entry : DataEntry) (del : PositionalDeleteWithExtraInfo) (paths : List Bytes)
    (items : List Item)
    → IsAscending paths
    → Among entry.path paths
    → Admits del.min_max_referenced_path entry.path
    → Among (delete_item del) items
    → Among (delete_read del.positional_delete) (prune paths items)
unfolding prune
Among-prune entry del paths [] ascending seen admits among = elim among [ ]
Among-prune entry del paths (data_item d ∷ items) ascending seen admits (inl wrong) = cc
Among-prune entry del paths (data_item d ∷ items) ascending seen admits (inr later) = inr (
    Among-prune entry del (insert_path d.path paths) items
      (insert_path-IsAscending d.path paths ascending)
      (Among-insert_path entry.path d.path paths seen) admits later)
Among-prune entry del paths (delete_item d ∷ items) ascending seen admits (inl same) =
    let same' : d ≡ del = cc in
    let kept =
      is_dangling-Admits del.min_max_referenced_path entry.path paths ascending seen admits in
    rw (same', kept) (inl refl)
Among-prune entry del paths (delete_item d ∷ items) ascending seen admits (inr later) =
    let rest = Among-prune entry del paths items ascending seen admits later in
    elim (Bool-cases (is_dangling paths d.min_max_referenced_path)) [
      | inl dangling ↦ rw dangling rest
      | inr useful ↦ rw useful (inr rest)
    ]

-- What applies is still read, in the same order.
pub Before-prune :
    (entry : DataEntry) (del : PositionalDeleteWithExtraInfo) (paths : List Bytes)
    (items : List Item)
    → IsAscending paths
    → Admits del.min_max_referenced_path entry.path
    → Before (data_item entry) (delete_item del) items
    → Before (data_read entry) (delete_read del.positional_delete) (prune paths items)
unfolding prune
Before-prune entry del paths [] ascending admits h = elim h [ ]
Before-prune entry del paths (data_item d ∷ items) ascending admits (inl (same, later)) =
    let same' : d ≡ entry = cc in
    rw same' (
      inl (
        refl,
        Among-prune entry del (insert_path entry.path paths) items
            (insert_path-IsAscending entry.path paths ascending)
            (Among-insert_path_self entry.path paths) admits later,
      ))
Before-prune entry del paths (data_item d ∷ items) ascending admits (inr h) = inr (
    Before-prune entry del (insert_path d.path paths) items
      (insert_path-IsAscending d.path paths ascending) admits h)
Before-prune entry del paths (delete_item d ∷ items) ascending admits (inl (wrong, later)) = cc
Before-prune entry del paths (delete_item d ∷ items) ascending admits (inr h) =
    let rest = Before-prune entry del paths items ascending admits h in
    elim (Bool-cases (is_dangling paths d.min_max_referenced_path)) [
      | inl dangling ↦ rw dangling rest
      | inr useful ↦ rw useful (inr rest)
    ]
