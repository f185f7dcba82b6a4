-- ===== src/Scan/Planner/Shapes.antt =====
-- The partitions that `HandlePartition` of iceberg/tea_scan.cpp makes, and the data files in them.
use iceberg_cxx.Common.{
  ℕ, ◌≡◌, refl, ◌↔◌, ◌⊎◌, inl, inr, false, none, List, [], ◌∷◌, ◌++◌, map, arith, All, Bool-cases,
  not, ◌&&◌,
}
use iceberg_cxx.Common.Sequences
use iceberg_cxx.Common.Sequences.{Among, Some}
use iceberg_cxx.Common.OrderedMap.Keys.{contains}
use iceberg_cxx.Filter.Value.{Bytes}
use iceberg_cxx.Scan.{DataEntry, PositionalDeleteInfo, Layer, has_value}
use iceberg_cxx.Scan.MapKeys.{key_order}
use iceberg_cxx.Scan.Dangling.Prune.{delete_read, scan_timeline}
use iceberg_cxx.Scan.Planner.{DataByPath, DeletesByPath, Regrouped, new_partition, place_data}
use iceberg_cxx.Scan.Planner.Placed.{deletes_of, if_contains}
use iceberg_cxx.Scan.Planner.Layered.{ReadsData, not-Among-delete}
use mathlib.Core.List.{append-nil}

new_partition-ReadsData :
    (e entry : DataEntry) (dels : List PositionalDeleteInfo)
    → ReadsData entry (new_partition e dels) ↔ (e ≡ entry)
unfolding new_partition scan_timeline
new_partition-ReadsData e entry dels = rw (append-nil (map delete_read dels)) (
  λ h. elim h [ inl same ↦ cc | inr wrong ↦ absurd (not-Among-delete entry dels wrong) ],
  λ same. inl cc,
)

-- The result has the data file in the 0-th partition or in another one.
abbrev pub HasEntry : DataEntry → Regrouped → Type 0
HasEntry entry result =
    Among entry result.without_deletes ⊎ Some (ReadsData entry) result.with_deletes

module _ (deletes : DeletesByPath) where
  pub place_data-HasEntry :
      (entry : DataEntry) (by_path : DataByPath) (result : Regrouped)
      → HasEntry entry (place_data deletes by_path result)
        ↔ (HasEntry entry result ⊎ ((path : Bytes) × (n : ℕ) × Among (path, (entry, n)) by_path))
  unfolding place_data
  place_data-HasEntry entry [] result =
      (λ h. inl h, λ h. elim h [ inl old ↦ old | inr (path, n, wrong) ↦ absurd wrong ])
  place_data-HasEntry entry ((path, (e, n)) ∷ by_path) result =
      elim (Bool-cases (not (contains key_order path deletes) && not (has_value e.dv))) [
        | inl alone ↦
            let (there, back) =
              place_data-HasEntry entry by_path
                (record result { without_deletes = result.without_deletes ++ e ∷ [] }) in
            rw (Among, Some, alone)
              (
                λ h. elim (there h) [
                  | inr (p, i, later) ↦ inr (p, i, inr later)
                  | inl (inr old) ↦ inl (inr old)
                  | inl (inl sooner) ↦
                      elim (Sequences.Among-append entry result.without_deletes (e ∷ []) sooner) [
                        | inl old ↦ inl (inl old)
                        | inr (inl same) ↦ inr (path, n, inl cc)
                        | inr (inr wrong) ↦ absurd wrong
                      ]
                ],
                λ h. elim h [
                  | inl (inr old) ↦ back (inl (inr old))
                  | inl (inl old) ↦ back (
                      inl (
                        inl
                          (Sequences.Among-append_left entry result.without_deletes (e ∷ []) old)))
                  | inr (p, i, inr later) ↦ back (inr (p, i, later))
                  | inr (p, i, inl same) ↦ back (
                      inl (
                        inl (
                          Sequences.Among-append_right entry result.without_deletes (e ∷ [])
                            (inl cc))))
                ],
              )
        | inr own ↦
            let dels = deletes_of deletes path n in
            let added = new_partition e dels in
            let (there, back) =
              place_data-HasEntry entry by_path
                (record result { with_deletes = result.with_deletes ++ added ∷ [] }) in
            let (split, join) = new_partition-ReadsData e entry dels in
            rw (Among, Some, own, if_contains deletes path n)
              (
                λ h. elim (there h) [
                  | inr (p, i, later) ↦ inr (p, i, inr later)
                  | inl (inl old) ↦ inl (inl old)
                  | inl (inr sooner) ↦
                      elim (Sequences.Some-append (ReadsData entry) result.with_deletes (added ∷ [])
                        sooner) [
                          | inl old ↦ inl (inr old)
                          | inr (inl new) ↦ let same = split new in inr (path, n, inl cc)
                          | inr (inr wrong) ↦ absurd wrong
                        ]
                ],
                λ h. elim h [
                  | inl (inl old) ↦ back (inl (inl old))
                  | inl (inr old) ↦ back (
                      inl (
                        inr (
                          Sequences.Some-append_left (ReadsData entry) result.with_deletes
                            (added ∷ []) old)))
                  | inr (p, i, inr later) ↦ back (inr (p, i, later))
                  | inr (p, i, inl same) ↦
                      let e_same : e ≡ entry = cc in
                      back (
                        inl (
                          inr (
                            Sequences.Some-append_right (ReadsData entry) result.with_deletes
                              (added ∷ []) (inl (join e_same)))))
                ],
              )
      ]

-- The partition has one layer, of one data file and deletes.
abbrev pub IsOwn : List Layer → Type 0
IsOwn layers =
    (entry : DataEntry) × (dels : List PositionalDeleteInfo) × (layers ≡ new_partition entry dels)

abbrev pub NoVector : DataEntry → Type 0
NoVector entry = entry.dv ≡ none

abbrev pub HasShape : Regrouped → Type 0
HasShape result = All NoVector result.without_deletes × All IsOwn result.with_deletes

All-append_one {κ} :
    {A : Type 0} (P : A → Type κ) (xs : List A) (x : A) → All P xs → P x → All P (xs ++ x ∷ [])
All-append_one P [] x all last = (last, tt)
All-append_one P (y ∷ xs) x (first, rest) last = (first, All-append_one P xs x rest last)

NoVector-of_has_value : (entry : DataEntry) → has_value entry.dv ≡ false → NoVector entry
NoVector-of_has_value entry h = ground arith

module _ (deletes : DeletesByPath) where
  pub place_data-HasShape :
      (by_path : DataByPath) (result : Regrouped)
      → HasShape result
      → HasShape (place_data deletes by_path result)
  unfolding place_data
  place_data-HasShape [] result shape = shape
  place_data-HasShape ((path, (e, n)) ∷ by_path) result (plain, own) =
      elim (Bool-cases (not (contains key_order path deletes) && not (has_value e.dv))) [
        | inl alone ↦
            rw (All, alone)
              (place_data-HasShape by_path
                (record result { without_deletes = result.without_deletes ++ e ∷ [] })
                (
                  All-append_one NoVector result.without_deletes e plain
                      (NoVector-of_has_value e (ground arith)),
                  own,
                ))
        | inr with ↦
            let dels = deletes_of deletes path n in
            rw (All, with, if_contains deletes path n)
              (place_data-HasShape by_path
                (record result { with_deletes = result.with_deletes ++ new_partition e dels ∷ [] })
                (plain, All-append_one IsOwn result.with_deletes _ own (e, dels, refl)))
      ]
