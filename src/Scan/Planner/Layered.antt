-- ===== src/Scan/Planner/Layered.antt =====
-- What the scan of a partition reads, by the numbers of its layers: a data file of a layer, and the
-- deletes of that layer and of the later ones.
use iceberg_cxx.Common.{ℕ, zero, suc, ◌↔◌, inl, inr, List, [], ◌∷◌, ◌++◌, map}
use iceberg_cxx.Common.Sequences
use iceberg_cxx.Common.Sequences.{Among, Before, select}
use iceberg_cxx.Scan.{DataEntry, PositionalDeleteInfo, Layer}
use iceberg_cxx.Scan.Dangling.Prune.{data_read, delete_read, scan_timeline}
use iceberg_cxx.Scan.Dangling.Plan.{Reads}
use iceberg_cxx.Scan.Planner.Collected.{DataAt}
use iceberg_cxx.Scan.Planner.Placed.{deletes_behind, Among-delete_read}

Among-data_read :
    (entry : DataEntry) (entries : List DataEntry)
    → Among (data_read entry) (map data_read entries)
    → Among entry entries
Among-data_read entry [] h = h
Among-data_read entry (e ∷ entries) (inl same) = inl cc
Among-data_read entry (e ∷ entries) (inr later) = inr (Among-data_read entry entries later)

not-Among-data :
    (info : PositionalDeleteInfo) (entries : List DataEntry)
    → Among (delete_read info) (map data_read entries)
    → ⊥
not-Among-data info [] h = h
not-Among-data info (e ∷ entries) (inl same) = cc
not-Among-data info (e ∷ entries) (inr later) = not-Among-data info entries later

pub not-Among-delete :
    (entry : DataEntry) (dels : List PositionalDeleteInfo)
    → Among (data_read entry) (map delete_read dels)
    → ⊥
not-Among-delete entry [] h = h
not-Among-delete entry (del ∷ dels) (inl same) = cc
not-Among-delete entry (del ∷ dels) (inr later) = not-Among-delete entry dels later

-- The data files of a layer, and its deletes, are those that it reads.
layer_data :
    (entry : DataEntry) (l : Layer)
    → Among
        (data_read entry)
        (map data_read l.data_entries ++ map delete_read l.positional_delete_entries)
    → Among entry l.data_entries
layer_data entry l h =
    elim (Sequences.Among-append (data_read entry) (map data_read l.data_entries)
      (map delete_read l.positional_delete_entries) h) [
        | inl here ↦ Among-data_read entry l.data_entries here
        | inr wrong ↦ absurd (not-Among-delete entry l.positional_delete_entries wrong)
      ]

layer_delete :
    (info : PositionalDeleteInfo) (l : Layer)
    → Among
        (delete_read info)
        (map data_read l.data_entries ++ map delete_read l.positional_delete_entries)
    → Among info l.positional_delete_entries
layer_delete info l h =
    elim (Sequences.Among-append (delete_read info) (map data_read l.data_entries)
      (map delete_read l.positional_delete_entries) h) [
        | inl wrong ↦ absurd (not-Among-data info l.data_entries wrong)
        | inr here ↦ Among-delete_read info l.positional_delete_entries here
      ]

-- A layer reads any of its data files before any of its deletes.
Before-layer :
    (entry : DataEntry) (info : PositionalDeleteInfo) (l : Layer)
    → Among entry l.data_entries
    → Among info l.positional_delete_entries
    → Before
        (data_read entry)
        (delete_read info)
        (map data_read l.data_entries ++ map delete_read l.positional_delete_entries)
Before-layer entry info l h k =
    Sequences.append-Before (data_read entry) (delete_read info) (map data_read l.data_entries)
      (map delete_read l.positional_delete_entries)
      (Sequences.Among-map data_read entry l.data_entries h)
      (Sequences.Among-map delete_read info l.positional_delete_entries k)

Among-layer_data :
    (entry : DataEntry) (l : Layer)
    → Among entry l.data_entries
    → Among
        (data_read entry)
        (map data_read l.data_entries ++ map delete_read l.positional_delete_entries)
Among-layer_data entry l h =
    Sequences.Among-append_left (data_read entry) (map data_read l.data_entries)
      (map delete_read l.positional_delete_entries)
      (Sequences.Among-map data_read entry l.data_entries h)

-- The scan reads the data files of the layers.
abbrev pub ReadsData : DataEntry → List Layer → Type 0
ReadsData entry layers = Among (data_read entry) (scan_timeline layers)

ReadsData-of_DataAt :
    (entry : DataEntry) (n : ℕ) (layers : List Layer)
    → DataAt entry n layers
    → ReadsData entry layers
unfolding scan_timeline
ReadsData-of_DataAt entry n [] h = absurd h
ReadsData-of_DataAt entry zero (l ∷ layers) h =
    Sequences.Among-append_left (data_read entry)
      (map data_read l.data_entries ++ map delete_read l.positional_delete_entries)
      (scan_timeline layers) (Among-layer_data entry l h)
ReadsData-of_DataAt entry (suc n) (l ∷ layers) h =
    Sequences.Among-append_right (data_read entry)
      (map data_read l.data_entries ++ map delete_read l.positional_delete_entries)
      (scan_timeline layers) (ReadsData-of_DataAt entry n layers h)

DataAt-of_ReadsData :
    (entry : DataEntry) (layers : List Layer)
    → ReadsData entry layers
    → (n : ℕ) × DataAt entry n layers
unfolding scan_timeline
DataAt-of_ReadsData entry [] h = absurd h
DataAt-of_ReadsData entry (l ∷ layers) h =
    let here = map data_read l.data_entries ++ map delete_read l.positional_delete_entries in
    elim (Sequences.Among-append (data_read entry) here (scan_timeline layers) h) [
      | inl now ↦ (0, layer_data entry l now)
      | inr later ↦ let (n, at) = DataAt-of_ReadsData entry layers later in (suc n, at)
    ]

pub ReadsData-DataAt :
    (entry : DataEntry) (layers : List Layer)
    → ReadsData entry layers ↔ ((n : ℕ) × DataAt entry n layers)
ReadsData-DataAt entry layers = (
  DataAt-of_ReadsData entry layers,
  λ h. let (n, at) = h in ReadsData-of_DataAt entry n layers at,
)

-- The scan reads the deletes of the layers.
pub delete_timeline :
    (info : PositionalDeleteInfo) (layers : List Layer)
    → Among (delete_read info) (scan_timeline layers) ↔ Among info (deletes_behind 0 layers)
unfolding scan_timeline deletes_behind
delete_timeline info [] = (λ h. h, λ h. h)
delete_timeline info (l ∷ layers) =
    let here = map data_read l.data_entries ++ map delete_read l.positional_delete_entries in
    let dels = l.positional_delete_entries in
    let (there, back) = delete_timeline info layers in
    (
      λ h. elim (Sequences.Among-append (delete_read info) here (scan_timeline layers) h) [
        | inl now ↦
            Sequences.Among-append_left info dels (deletes_behind 0 layers)
              (layer_delete info l now)
        | inr later ↦ Sequences.Among-append_right info dels (deletes_behind 0 layers) (there later)
      ],
      λ h. elim (Sequences.Among-append info dels (deletes_behind 0 layers) h) [
        | inl now ↦ Sequences.Among-append_left (delete_read info) here (scan_timeline layers) (
            Sequences.Among-append_right (delete_read info) (map data_read l.data_entries)
              (map delete_read dels) (Sequences.Among-map delete_read info dels now))
        | inr later ↦
            Sequences.Among-append_right (delete_read info) here (scan_timeline layers) (back later)
      ],
    )

layer_Before :
    (entry : DataEntry) (info : PositionalDeleteInfo) (l : Layer)
    → Before
        (data_read entry)
        (delete_read info)
        (map data_read l.data_entries ++ map delete_read l.positional_delete_entries)
    → Among entry l.data_entries × Among info l.positional_delete_entries
layer_Before entry info l h =
    let (first, second) = Sequences.Before-Among (data_read entry) (delete_read info) _ h in
    (layer_data entry l first, layer_delete info l second)

Reads-of_DataAt :
    (entry : DataEntry) (info : PositionalDeleteInfo) (n : ℕ) (layers : List Layer)
    → DataAt entry n layers
    → Among info (deletes_behind n layers)
    → Reads entry info layers
unfolding scan_timeline deletes_behind
Reads-of_DataAt entry info n [] e d = absurd e
Reads-of_DataAt entry info zero (l ∷ layers) e d =
    let here = map data_read l.data_entries ++ map delete_read l.positional_delete_entries in
    elim (Sequences.Among-append info l.positional_delete_entries (deletes_behind 0 layers) d) [
      | inl now ↦
          Sequences.append-Before_left (data_read entry) (delete_read info) here
            (scan_timeline layers) (Before-layer entry info l e now)
      | inr later ↦
          Sequences.append-Before (data_read entry) (delete_read info) here (scan_timeline layers)
            (Among-layer_data entry l e) ((delete_timeline info layers).1 later)
    ]
Reads-of_DataAt entry info (suc n) (l ∷ layers) e d =
    Sequences.append-Before_right (data_read entry) (delete_read info)
      (map data_read l.data_entries ++ map delete_read l.positional_delete_entries)
      (scan_timeline layers) (Reads-of_DataAt entry info n layers e d)

DataAt-of_Reads :
    (entry : DataEntry) (info : PositionalDeleteInfo) (layers : List Layer)
    → Reads entry info layers
    → (n : ℕ) × DataAt entry n layers × Among info (deletes_behind n layers)
unfolding scan_timeline deletes_behind
DataAt-of_Reads entry info [] h = absurd h
DataAt-of_Reads entry info (l ∷ layers) h =
    let here = map data_read l.data_entries ++ map delete_read l.positional_delete_entries in
    let dels = l.positional_delete_entries in
    elim (Sequences.Before-append (data_read entry) (delete_read info) here (scan_timeline layers)
      h) [
        | inl now ↦
            let (e, d) = layer_Before entry info l now in
            (0, e, Sequences.Among-append_left info dels (deletes_behind 0 layers) d)
        | inr (inl (e, d)) ↦ (
          0,
          layer_data entry l e,
          Sequences.Among-append_right info dels (deletes_behind 0 layers)
              ((delete_timeline info layers).0 d),
        )
        | inr (inr later) ↦ let (n, e, d) = DataAt-of_Reads entry info layers later in (suc n, e, d)
      ]

-- The scan reads a data file and the delete for it exactly when the delete is in the layer of the
-- data file or in a later one.
pub Reads-DataAt :
    (entry : DataEntry) (info : PositionalDeleteInfo) (layers : List Layer)
    → Reads entry info layers
      ↔ ((n : ℕ) × DataAt entry n layers × Among info (deletes_behind n layers))
Reads-DataAt entry info layers = (
  DataAt-of_Reads entry info layers,
  λ h. let (n, e, d) = h in Reads-of_DataAt entry info n layers e d,
)
