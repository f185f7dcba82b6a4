-- ===== src/Scan/Optimizer/Redistribution.antt =====
-- `RedistributeDataIntoBuckets` of iceberg/tea_scan.cpp: each bucket's timeline is what the
-- partition's timeline has for it.
use iceberg_cxx.Common.{
  ℕ, zero, suc, ◌-◌, ◌<◌, ◌≡◌, refl, sym, ap, ◌∙◌, inl, inr, Bool, true, false, none, some, List,
  [], ◌∷◌, ◌++◌, map, arith, All, ◌==◌, if◌then◌else◌, Bool-cases, ok, ◌>>=◌, length, get_or,
}
use mathlib.Core.List.{append-nil, append_assoc, map-append}
use iceberg_cxx.Common.Sequences.{select, select-append}
use iceberg_cxx.Filter.Value.{Bytes}
use iceberg_cxx.Scan.{DataEntry, PositionalDeleteWithExtraInfo, LayerWithExtraInfo, is_empty}
use iceberg_cxx.Scan.Timeline.{Item, data_item, delete_item, timeline}
use iceberg_cxx.Scan.Optimizer.{
  upper_bound, calculate_bucket_by_path, append_data_file_to_bucket, append_delete_file_to_bucket,
}
use iceberg_cxx.Scan.Optimizer.Buckets.{
  Buckets, modify, put_data, bucket_of_delete, put_deletes, put_layers,
}

nil_of_is_empty {ℓ} : {A : Type ℓ} (xs : List A) → is_empty xs ≡ true → xs ≡ []
nil_of_is_empty [] h = refl
nil_of_is_empty (x ∷ xs) h = cc

timeline-append_data :
    (bucket : List LayerWithExtraInfo) (entry : DataEntry)
    → timeline (append_data_file_to_bucket bucket entry) ≡ timeline bucket ++ data_item entry ∷ []
unfolding timeline append_data_file_to_bucket
timeline-append_data [] entry = refl
timeline-append_data (back ∷ []) entry =
    elim (Bool-cases (is_empty back.positional_delete_entries)) [
      | inl none_yet ↦
          simp (nil_of_is_empty back.positional_delete_entries none_yet, map-append, append-nil)
      | inr some_deletes ↦ simp (some_deletes, append-nil, append_assoc)
    ]
timeline-append_data (layer ∷ next ∷ bucket) entry =
    simp (timeline-append_data (next ∷ bucket) entry, append_assoc)

timeline-append_delete :
    (bucket : List LayerWithExtraInfo) (del : PositionalDeleteWithExtraInfo)
    → timeline (append_delete_file_to_bucket bucket del) ≡ timeline bucket ++ delete_item del ∷ []
unfolding timeline append_delete_file_to_bucket
timeline-append_delete [] del = refl
timeline-append_delete (back ∷ []) del = simp (map-append, append-nil, append_assoc)
timeline-append_delete (layer ∷ next ∷ bucket) del =
    simp (timeline-append_delete (next ∷ bucket) del, append_assoc)

-- The path that decides an item's bucket.
abbrev pub item_path : Item → Bytes
item_path (data_item entry) = entry.path
item_path (delete_item del) = elim del.min_max_referenced_path [
  | none ↦ []
  | some (low, high) ↦ low
]

unfoldable pub in_group : List Bytes → ℕ → Item → Bool
in_group bounds g item = upper_bound bounds (item_path item) == suc g

-- The buckets `out` are `buckets` with the items put behind, each into its own.
abbrev pub Extends : List Bytes → Buckets → List Item → Buckets → Type 0
Extends bounds buckets items out =
    (length out ≡ length buckets)
    × ((g : ℕ)
        → g < length buckets
        → timeline (get_or out g [])
          ≡ timeline (get_or buckets g []) ++ select (in_group bounds g) items)

Extends-append :
    (bounds : List Bytes) (a b c : Buckets) (xs ys : List Item)
    → Extends bounds a xs b
    → Extends bounds b ys c
    → Extends bounds a (xs ++ ys) c
Extends-append bounds a b c xs ys (m, h) (n, k) = (
  omega arith,
  λ g inside.
      k g (omega arith)
      ∙ ap (λ t. t ++ select (in_group bounds g) ys) (h g inside)
      ∙ append_assoc (timeline (get_or a g [])) (select (in_group bounds g) xs)
          (select (in_group bounds g) ys)
      ∙ ap (λ t. timeline (get_or a g []) ++ t) (sym (select-append (in_group bounds g) xs ys)),
)

module _ {ℓ} {A : Type ℓ} where
  length-modify : (xs : List A) (i : ℕ) (f : A → A) → length (modify xs i f) ≡ length xs
  length-modify [] i f = refl
  length-modify (x ∷ xs) zero f = refl
  length-modify (x ∷ xs) (suc i) f = omega (arith, length-modify xs i f)

  get_or-modify :
      (xs : List A) (i j : ℕ) (f : A → A) (d : A)
      → j < length xs
      → get_or (modify xs i f) j d ≡ (if i == j then f (get_or xs j d) else get_or xs j d)
  get_or-modify [] i j f d h = absurd (omega arith)
  get_or-modify (x ∷ xs) zero zero f d h = refl
  get_or-modify (x ∷ xs) zero (suc j) f d h = ground arith
  get_or-modify (x ∷ xs) (suc i) zero f d h = ground arith
  get_or-modify (x ∷ xs) (suc i) (suc j) f d h = ground (arith, get_or-modify xs i j f d)

-- One item is put at the end of its bucket.
Extends-modify :
    (bounds : List Bytes) (buckets : Buckets) (item : Item)
    (put : List LayerWithExtraInfo → List LayerWithExtraInfo)
    → ((bucket : List LayerWithExtraInfo) → timeline (put bucket) ≡ timeline bucket ++ item ∷ [])
    → 0 < upper_bound bounds (item_path item)
    → Extends bounds buckets
        (item ∷ [])
        (modify buckets (upper_bound bounds (item_path item) - 1) put)
unfolding select in_group
Extends-modify bounds buckets item put behind placed =
    let group = upper_bound bounds (item_path item) - 1 in
    (
      length-modify buckets group put,
      λ g inside. rw (get_or-modify buckets group g put [] inside) (elim (Bool-cases (group == g)) [
        | inl here ↦
            let same : (upper_bound bounds (item_path item) == suc g) ≡ true = ground arith in
            rw (here, same) (behind (get_or buckets g []))
        | inr elsewhere ↦
            let other : (upper_bound bounds (item_path item) == suc g) ≡ false = ground arith in
            rw (elsewhere, other) (sym (append-nil _))
      ]),
    )

-- An item has a bucket, and the ends of a delete's range have the same.
abbrev pub Placed : List Bytes → Item → Type 0
Placed bounds (data_item entry) = 0 < upper_bound bounds entry.path
Placed bounds (delete_item del) =
    (range : Bytes × Bytes) × (del.min_max_referenced_path ≡ some range)
    × (0 < upper_bound bounds range.0)
    × (upper_bound bounds range.1 ≡ upper_bound bounds range.0)

calculate_bucket_lem :
    (bounds : List Bytes) (path : Bytes)
    → 0 < upper_bound bounds path
    → calculate_bucket_by_path bounds path ≡ ok (upper_bound bounds path - 1)
unfolding calculate_bucket_by_path
calculate_bucket_lem bounds path h = ground arith

bucket_of_delete_lem :
    (bounds : List Bytes) (del : PositionalDeleteWithExtraInfo)
    → Placed bounds (delete_item del)
    → bucket_of_delete bounds del ≡ ok (upper_bound bounds (item_path (delete_item del)) - 1)
unfolding bucket_of_delete
bucket_of_delete_lem bounds del ((low, high), range, placed, same) =
    ground (arith, calculate_bucket_lem bounds low, calculate_bucket_lem bounds high)

delete_item-pos :
    (bounds : List Bytes) (del : PositionalDeleteWithExtraInfo)
    → Placed bounds (delete_item del)
    → 0 < upper_bound bounds (item_path (delete_item del))
delete_item-pos bounds del ((low, high), range, placed, same) = rw range placed

Extends-none : (bounds : List Bytes) (buckets : Buckets) → Extends bounds buckets [] buckets
unfolding select
Extends-none bounds buckets = (refl, λ g inside. sym (append-nil (timeline (get_or buckets g []))))

put_data-Extends :
    (bounds : List Bytes) (entries : List DataEntry) (buckets : Buckets)
    → All (λ entry. Placed bounds (data_item entry)) entries
    → (out : Buckets) × (put_data bounds entries buckets ≡ ok out)
      × Extends bounds buckets (map data_item entries) out
unfolding put_data
put_data-Extends bounds [] buckets placed = (buckets, refl, Extends-none bounds buckets)
put_data-Extends bounds (entry ∷ entries) buckets (first, rest) =
    let put = λ (b : List LayerWithExtraInfo). append_data_file_to_bucket b entry in
    let next = modify buckets (upper_bound bounds entry.path - 1) put in
    let (out, run, extends) = put_data-Extends bounds entries next rest in
    (
      out,
      rw (calculate_bucket_lem bounds entry.path first, ◌>>=◌) run,
      Extends-append bounds buckets next out (data_item entry ∷ []) (map data_item entries)
          (Extends-modify bounds buckets (data_item entry) put (λ b. timeline-append_data b entry)
            first)
          extends,
    )

put_deletes-Extends :
    (bounds : List Bytes) (deletes : List PositionalDeleteWithExtraInfo) (buckets : Buckets)
    → All (λ del. Placed bounds (delete_item del)) deletes
    → (out : Buckets) × (put_deletes bounds deletes buckets ≡ ok out)
      × Extends bounds buckets (map delete_item deletes) out
unfolding put_deletes
put_deletes-Extends bounds [] buckets placed = (buckets, refl, Extends-none bounds buckets)
put_deletes-Extends bounds (del ∷ deletes) buckets (first, rest) =
    let put = λ (b : List LayerWithExtraInfo). append_delete_file_to_bucket b del in
    let next = modify buckets (upper_bound bounds (item_path (delete_item del)) - 1) put in
    let (out, run, extends) = put_deletes-Extends bounds deletes next rest in
    (
      out,
      rw (bucket_of_delete_lem bounds del first, ◌>>=◌) run,
      Extends-append bounds buckets next out (delete_item del ∷ []) (map delete_item deletes)
          (Extends-modify bounds buckets (delete_item del) put (λ b. timeline-append_delete b del)
            (delete_item-pos bounds del first))
          extends,
    )

pub put_layers-Extends :
    (bounds : List Bytes) (layers : List LayerWithExtraInfo) (buckets : Buckets)
    → All (λ l. All (λ entry. Placed bounds (data_item entry)) l.data_entries) layers
    → All (λ l. All (λ del. Placed bounds (delete_item del)) l.positional_delete_entries) layers
    → (out : Buckets) × (put_layers bounds layers buckets ≡ ok out)
      × Extends bounds buckets (timeline layers) out
unfolding put_layers timeline
put_layers-Extends bounds [] buckets data_placed deletes_placed =
    (buckets, refl, Extends-none bounds buckets)
put_layers-Extends bounds (l ∷ layers) buckets (first, rest) (first', rest') =
    let (a, run_a, extends_a) = put_data-Extends bounds l.data_entries buckets first in
    let (b, run_b, extends_b) = put_deletes-Extends bounds l.positional_delete_entries a first' in
    let (out, run, extends) = put_layers-Extends bounds layers b rest rest' in
    let here = map data_item l.data_entries in
    let deletes = map delete_item l.positional_delete_entries in
    (
      out,
      rw (run_a, ◌>>=◌, run_b) run,
      Extends-append bounds buckets b out (here ++ deletes) (timeline layers)
          (Extends-append bounds buckets a b here deletes extends_a extends_b) extends,
    )
