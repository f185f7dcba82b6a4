-- ===== src/Scan/Vectors/Resolved.antt =====
-- Which data files get a deletion vector from `ResolveDeletionVectors` of iceberg/tea_scan.cpp.
use iceberg_cxx.Common.{
  ◌≡◌, refl, ◌∙◌, Bool, false, ◌||◌, not, Option, none, some, List, [], ◌∷◌, map, arith,
  if◌then◌else◌, err, ok,
}
use iceberg_cxx.Common.Int.{ℤ, ltb_ℤ}
use iceberg_cxx.Common.OrderedMap.{update, find, find-update}
use iceberg_cxx.Filter.Value.{Bytes}
use iceberg_cxx.Filter.Order.{eqb_bytes}
use iceberg_cxx.Scan.{
  DataEntry, DeletionVectorInfo, LayerWithExtraInfo, is_empty, consistency_error,
}
use iceberg_cxx.Scan.MapKeys.{key_order}
use iceberg_cxx.Scan.Dangling.{Layers}
use iceberg_cxx.Scan.Vectors.{
  CurrentDvs, collect_layer, collect_dvs, assign_dv, resolve_entries, resolve_layers,
  resolve_deletion_vectors,
}

abbrev pub or_else {ℓ} : {A : Type ℓ} → Option A → Option A → Option A
or_else none other = other
or_else (some a) other = some a

-- The vector of a layer for a data file.
unfoldable pub layer_vector :
    Bytes → ℤ → List (Bytes × DeletionVectorInfo) → Option (DeletionVectorInfo × ℤ)
layer_vector path number [] = none
layer_vector path number ((p, dv) ∷ entries) =
    or_else (layer_vector path number entries)
      (if eqb_bytes p path then some (dv, number) else none)

-- The vector for a data file in the highest layer that has one, with the layer's number.
unfoldable pub highest_vector : Bytes → Layers → Option (DeletionVectorInfo × ℤ)
highest_vector path [] = none
highest_vector path ((number, l) ∷ layers) =
    or_else (highest_vector path layers) (layer_vector path number l.dv_entries)

find-collect_layer :
    (path : Bytes) (number : ℤ) (entries : List (Bytes × DeletionVectorInfo)) (current : CurrentDvs)
    → find key_order none path (collect_layer number entries current)
      ≡ or_else (layer_vector path number entries) (find key_order none path current)
unfolding collect_layer layer_vector
find-collect_layer path number [] current = refl
find-collect_layer path number ((p, dv) ∷ entries) current =
    let assigned : Option (DeletionVectorInfo × ℤ) → Option (DeletionVectorInfo × ℤ) =
      λ old. some (dv, number) in
    ground (
      arith,
      find-collect_layer path number entries (update key_order none p assigned current),
      find-update key_order none path p assigned current,
    )

find-collect_dvs :
    (path : Bytes) (layers : Layers) (current : CurrentDvs)
    → find key_order none path (collect_dvs layers current)
      ≡ or_else (highest_vector path layers) (find key_order none path current)
unfolding collect_dvs highest_vector
find-collect_dvs path [] current = refl
find-collect_dvs path ((number, l) ∷ layers) current = ground (
  arith,
  find-collect_dvs path layers (collect_layer number l.dv_entries current),
  find-collect_layer path number l.dv_entries current,
)

or_else-none {ℓ} : {A : Type ℓ} (o : Option A) → or_else o none ≡ o
or_else-none none = refl
or_else-none (some a) = refl

collected :
    (layers : Layers) (path : Bytes)
    → find key_order none path (collect_dvs layers []) ≡ highest_vector path layers
unfolding find
collected layers path = find-collect_dvs path layers [] ∙ or_else-none (highest_vector path layers)

-- The vector that applies to a data file of a layer: not that of a lower layer.
unfoldable pub applying_vector : Layers → ℤ → DataEntry → Option DeletionVectorInfo
applying_vector layers number entry = elim (highest_vector entry.path layers) [
  | none ↦ none
  | some (dv, dv_number) ↦ if ltb_ℤ dv_number number then none else some dv
]

pub with_vector : Layers → ℤ → DataEntry → DataEntry
with_vector layers number entry = elim (applying_vector layers number entry) [
  | none ↦ entry
  | some dv ↦ record entry { dv = some dv }
]

abbrev pub has_other_deletes : LayerWithExtraInfo → Bool
has_other_deletes l =
    not (is_empty l.equality_delete_entries) || not (is_empty l.positional_delete_entries)

-- A data file of a layer with other deletes has a vector that applies.
unfoldable pub mixes_entries : Layers → ℤ → LayerWithExtraInfo → List DataEntry → Bool
mixes_entries layers number l [] = false
mixes_entries layers number l (entry ∷ entries) =
    elim (applying_vector layers number entry) [ none ↦ false | some dv ↦ has_other_deletes l ]
    || mixes_entries layers number l entries

unfoldable pub mixes : Layers → Layers → Bool
mixes all [] = false
mixes all ((number, l) ∷ layers) = mixes_entries all number l l.data_entries || mixes all layers

pub with_vectors : Layers → Layers → Layers
with_vectors all [] = []
with_vectors all ((number, l) ∷ layers) =
    (number, record l { data_entries = map (with_vector all number) l.data_entries })
    ∷ with_vectors all layers

assign_dv_lem :
    (all : Layers) (number : ℤ) (l : LayerWithExtraInfo) (entry : DataEntry)
    → assign_dv number l entry (highest_vector entry.path all) ≡ (
        if elim (applying_vector all number entry) [ none ↦ false | some dv ↦ has_other_deletes l ]
        then err consistency_error
        else ok (with_vector all number entry))
unfolding assign_dv with_vector applying_vector
assign_dv_lem all number l entry = ground arith

module _ (all : Layers) (current : CurrentDvs)
    (found : (path : Bytes) → find key_order none path current ≡ highest_vector path all) where
  resolve_entries_lem :
      (number : ℤ) (l : LayerWithExtraInfo) (entries : List DataEntry)
      → resolve_entries current number l entries ≡ (
          if mixes_entries all number l entries
          then err consistency_error
          else ok (map (with_vector all number) entries))
  unfolding resolve_entries mixes_entries
  resolve_entries_lem number l [] = refl
  resolve_entries_lem number l (entry ∷ entries) = ground (
    arith,
    found entry.path,
    assign_dv_lem all number l entry,
    resolve_entries_lem number l entries,
  )

  resolve_layers_lem :
      (layers : Layers)
      → resolve_layers current layers
        ≡ (if mixes all layers then err consistency_error else ok (with_vectors all layers))
  unfolding resolve_layers mixes with_vectors
  resolve_layers_lem [] = refl
  resolve_layers_lem ((number, l) ∷ layers) =
      ground (arith, resolve_entries_lem number l l.data_entries, resolve_layers_lem layers)

-- `resolve_deletion_vectors` fails exactly when some data file has a vector that applies to it and
-- its layer has equality deletes or positional deletes too. Otherwise each data file gets the vector
-- for its path of the highest layer that has one, if that layer is not below its own, and nothing
-- else changes.
pub resolve_deletion_vectors_lem :
    (layers : Layers)
    → resolve_deletion_vectors layers
      ≡ (if mixes layers layers then err consistency_error else ok (with_vectors layers layers))
unfolding resolve_deletion_vectors
resolve_deletion_vectors_lem layers =
    resolve_layers_lem layers (collect_dvs layers []) (collected layers) layers
