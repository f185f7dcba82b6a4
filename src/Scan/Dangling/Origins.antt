-- ===== src/Scan/Dangling/Origins.antt =====
-- Where the positional deletes that `RemoveDanglingDeletes` of iceberg/tea_scan.cpp keeps come from.
use iceberg_cxx.Common.{◌≡◌, refl, ◌⊎◌, inl, inr, false, none, List, [], ◌∷◌, All, Bool-cases}
use iceberg_cxx.Common.Sequences.{Among, Before}
use iceberg_cxx.Filter.Value.{Bytes}
use iceberg_cxx.Scan.{DataEntry, PositionalDeleteInfo, PositionalDeleteWithExtraInfo}
use iceberg_cxx.Scan.Timeline.{Item, data_item, delete_item}
use iceberg_cxx.Scan.Optimizer.Ranges.{Ranged}
use iceberg_cxx.Scan.Optimizer.Correctness.{Admits}
use iceberg_cxx.Scan.Dangling.{insert_path, is_dangling}
use iceberg_cxx.Scan.Dangling.Useful.{is_dangling-useful}
use iceberg_cxx.Scan.Dangling.Prune.{ScanItem, data_read, delete_read, prune, insert_path-Among}

-- A delete stands in what is read if it is kept, and whatever else stands there is from the rest.
prune_delete-Among :
    (x : ScanItem) (paths : List Bytes) (d : PositionalDeleteWithExtraInfo) (items : List Item)
    → Among x (prune paths (delete_item d ∷ items))
    → ((is_dangling paths d.min_max_referenced_path ≡ false)
        × (delete_read d.positional_delete ≡ x))
      ⊎ Among x (prune paths items)
unfolding prune
prune_delete-Among x paths d items h =
    elim (Bool-cases (is_dangling paths d.min_max_referenced_path)) [
      | inl dangling ↦ inr (rw dangling at h)
      | inr useful ↦
          let either : (delete_read d.positional_delete ≡ x) ⊎ Among x (prune paths items) =
            rw useful at h in
          elim either [ inl same ↦ inl (useful, same) | inr later ↦ inr later ]
    ]

prune_delete-Before :
    (entry : DataEntry) (x : ScanItem) (paths : List Bytes) (d : PositionalDeleteWithExtraInfo)
    (items : List Item)
    → Before (data_read entry) x (prune paths (delete_item d ∷ items))
    → Before (data_read entry) x (prune paths items)
unfolding prune
prune_delete-Before entry x paths d items h =
    elim (Bool-cases (is_dangling paths d.min_max_referenced_path)) [
      | inl dangling ↦ rw dangling at h
      | inr useful ↦
          let either : ((delete_read d.positional_delete ≡ data_read entry)
                × Among x (prune paths items))
              ⊎ Before (data_read entry) x (prune paths items) =
            rw useful at h in
          elim either [ inl wrong ↦ cc | inr later ↦ later ]
    ]

-- The deletes that are read are the information of deletes among the items.
abbrev pub Origin : PositionalDeleteInfo → (PositionalDeleteWithExtraInfo → Type 0) → Type 0
Origin info P = (del : PositionalDeleteWithExtraInfo) × (del.positional_delete ≡ info) × P del

prune-Among :
    (info : PositionalDeleteInfo) (paths : List Bytes) (items : List Item)
    → Among (delete_read info) (prune paths items)
    → Origin info (λ del. Among (delete_item del) items)
unfolding prune
prune-Among info paths [] h = elim h [ ]
prune-Among info paths (data_item d ∷ items) (inl h) = cc
prune-Among info paths (data_item d ∷ items) (inr h) =
    let (del, same_info, among) = prune-Among info (insert_path d.path paths) items h in
    (del, same_info, inr among)
prune-Among info paths (delete_item d ∷ items) h =
    let rest = prune-Among info paths items in
    elim (prune_delete-Among (delete_read info) paths d items h) [
      | inl (useful, same) ↦ (d, cc, inl refl)
      | inr later ↦ let (del, same_info, among) = rest later in (del, same_info, inr among)
    ]

-- A delete that is read after a data file came after it before.
pub prune-Before :
    (entry : DataEntry) (info : PositionalDeleteInfo) (paths : List Bytes) (items : List Item)
    → Before (data_read entry) (delete_read info) (prune paths items)
    → Origin info (λ del. Before (data_item entry) (delete_item del) items)
unfolding prune
prune-Before entry info paths [] h = elim h [ ]
prune-Before entry info paths (data_item d ∷ items) (inl (same, later)) =
    let (del, same_info, among) = prune-Among info (insert_path d.path paths) items later in
    (del, same_info, inl (cc, among))
prune-Before entry info paths (data_item d ∷ items) (inr h) =
    let (del, same_info, before) = prune-Before entry info (insert_path d.path paths) items h in
    (del, same_info, inr before)
prune-Before entry info paths (delete_item d ∷ items) h =
    let (del, same_info, before) =
      prune-Before entry info paths items
        (prune_delete-Before entry (delete_read info) paths d items h) in
    (del, same_info, inr before)

-- The delete has no range, or its range admits a path of those collected or of a data file before it.
abbrev pub Useful : List Bytes → List Item → PositionalDeleteWithExtraInfo → Type 0
Useful paths items del =
    Among (delete_item del) items
    × ((del.min_max_referenced_path ≡ none)
        ⊎ ((p : Bytes) × Among p paths × Admits del.min_max_referenced_path p)
        ⊎ ((entry : DataEntry) × Admits del.min_max_referenced_path entry.path
            × Before (data_item entry) (delete_item del) items))

abbrev pub RangedItem : Item → Type 0
RangedItem (data_item entry) = Unit
RangedItem (delete_item del) = Ranged del

Useful-data :
    (entry : DataEntry) (paths : List Bytes) (items : List Item)
    (del : PositionalDeleteWithExtraInfo)
    → Useful (insert_path entry.path paths) items del
    → Useful paths (data_item entry ∷ items) del
Useful-data entry paths items del (among, inl no_range) = (inr among, inl no_range)
Useful-data entry paths items del (among, inr (inl (p, seen, admits))) = (
  inr among,
  elim (insert_path-Among p entry.path paths seen) [
    | inl here ↦ inr (inr (entry, rw here admits, inl (refl, among)))
    | inr old ↦ inr (inl (p, old, admits))
  ],
)
Useful-data entry paths items del (among, inr (inr (e, admits, before))) =
    (inr among, inr (inr (e, admits, inr before)))

Useful-delete :
    (d : PositionalDeleteWithExtraInfo) (paths : List Bytes) (items : List Item)
    (del : PositionalDeleteWithExtraInfo)
    → Useful paths items del
    → Useful paths (delete_item d ∷ items) del
Useful-delete d paths items del (among, inl no_range) = (inr among, inl no_range)
Useful-delete d paths items del (among, inr (inl seen)) = (inr among, inr (inl seen))
Useful-delete d paths items del (among, inr (inr (e, admits, before))) =
    (inr among, inr (inr (e, admits, inr before)))

pub prune-Useful :
    (info : PositionalDeleteInfo) (paths : List Bytes) (items : List Item)
    → All RangedItem items
    → Among (delete_read info) (prune paths items)
    → Origin info (Useful paths items)
unfolding prune
prune-Useful info paths [] ranged h = elim h [ ]
prune-Useful info paths (data_item d ∷ items) ranged (inl h) = cc
prune-Useful info paths (data_item d ∷ items) ranged (inr h) =
    let (del, same_info, useful) = prune-Useful info (insert_path d.path paths) items ranged.1 h in
    (del, same_info, Useful-data d paths items del useful)
prune-Useful info paths (delete_item d ∷ items) (first, rest) h =
    let later = prune-Useful info paths items rest in
    elim (prune_delete-Among (delete_read info) paths d items h) [
      | inl (kept, same) ↦
          let reason : (d.min_max_referenced_path ≡ none)
              ⊎ ((p : Bytes) × Among p paths × Admits d.min_max_referenced_path p) =
            is_dangling-useful d.min_max_referenced_path paths first kept in
          (
            d,
            cc,
            (inl refl, elim reason [ inl no_range ↦ inl no_range | inr seen ↦ inr (inl seen) ]),
          )
      | inr among ↦
          let (del, same_info, useful) = later among in
          (del, same_info, Useful-delete d paths items del useful)
    ]
