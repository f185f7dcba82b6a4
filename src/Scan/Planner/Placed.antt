-- ===== src/Scan/Planner/Placed.antt =====
-- The second loop of `HandlePartition` of iceberg/tea_scan.cpp: where it puts a data file, and with
-- which deletes.
use iceberg_cxx.Common.{
  ℕ, zero, suc, ◌-◌, false, not, ◌&&◌, ◌≡◌, refl, sym, ◌∙◌, ◌↔◌, ◌⊎◌, inl, inr, List, [], ◌∷◌, ◌++◌,
  map, arith, if◌then◌else◌, Bool-cases, ltb,
}
use iceberg_cxx.Common.Sequences.{Among, Some, select, select-append, Some-append, Before}
use iceberg_cxx.Common.Sequences
use iceberg_cxx.Common.OrderedMap.{find}
use iceberg_cxx.Common.OrderedMap.Keys.{contains, find-absent}
use iceberg_cxx.Filter.Value.{Bytes}
use iceberg_cxx.Scan.{DataEntry, PositionalDeleteInfo, Layer, has_value}
use iceberg_cxx.Scan.MapKeys.{key_order}
use iceberg_cxx.Scan.Dangling.Prune.{data_read, delete_read, scan_timeline}
use iceberg_cxx.Scan.Dangling.Plan.{Reads}
use iceberg_cxx.Scan.Planner.{
  ReferencedPaths, DataByPath, DeletesByPath, Regrouped, deletes_from, new_partition, place_data,
}
use iceberg_cxx.Scan.Planner.Collected.{refers, with_number, numbered}
use mathlib.Core.List.{append-nil}

-- The deletes of the layers from that number on.
unfoldable pub deletes_behind : ℕ → List Layer → List PositionalDeleteInfo
deletes_behind n [] = []
deletes_behind zero (l ∷ layers) = l.positional_delete_entries ++ deletes_behind zero layers
deletes_behind (suc n) (l ∷ layers) = deletes_behind n layers

deletes_from-append :
    (i : ℕ) (xs ys : List (PositionalDeleteInfo × ℕ))
    → deletes_from i (xs ++ ys) ≡ deletes_from i xs ++ deletes_from i ys
unfolding deletes_from
deletes_from-append i [] ys = refl
deletes_from-append i ((del, n) ∷ xs) ys = ground (arith, deletes_from-append i xs ys)

deletes_from-with_number :
    (i n : ℕ) (dels : List PositionalDeleteInfo)
    → deletes_from i (with_number n dels) ≡ (if ltb n i then [] else dels)
unfolding deletes_from with_number
deletes_from-with_number i n [] = ground arith
deletes_from-with_number i n (del ∷ dels) = ground (arith, deletes_from-with_number i n dels)

pub deletes_from-numbered :
    (referenced : ReferencedPaths) (path : Bytes) (i k : ℕ) (layers : List Layer)
    → deletes_from i (numbered referenced path k layers)
      ≡ select (refers referenced path) (deletes_behind (i - k) layers)
unfolding numbered
deletes_from-numbered referenced path i k [] =
    unfold deletes_behind in unfold deletes_from in unfold select in refl
deletes_from-numbered referenced path i k (l ∷ layers) =
    let test = refers referenced path in
    let here = select test l.positional_delete_entries in
    deletes_from-append i (with_number k here) (numbered referenced path (suc k) layers)
    ∙ rw (deletes_from-with_number i k here, deletes_from-numbered referenced path i (suc k) layers)
        (elim (Bool-cases (ltb k i)) [
          | inl below ↦
              let step : i - k ≡ suc (i - suc k) = ground arith in
              rw (below, step) (unfold deletes_behind in refl)
          | inr not_below ↦
              let now : i - k ≡ 0 = ground arith in
              let later : i - suc k ≡ 0 = ground arith in
              rw (not_below, now, later)
                (unfold deletes_behind in
                  sym (select-append test l.positional_delete_entries (deletes_behind 0 layers)))
        ])

pub Among-delete_read :
    (info : PositionalDeleteInfo) (dels : List PositionalDeleteInfo)
    → Among (delete_read info) (map delete_read dels)
    → Among info dels
Among-delete_read info [] h = h
Among-delete_read info (del ∷ dels) (inl same) = inl cc
Among-delete_read info (del ∷ dels) (inr later) = inr (Among-delete_read info dels later)

not-Before-deletes :
    (entry : DataEntry) (info : PositionalDeleteInfo) (dels : List PositionalDeleteInfo)
    → Before (data_read entry) (delete_read info) (map delete_read dels)
    → ⊥
not-Before-deletes entry info [] h = h
not-Before-deletes entry info (del ∷ dels) (inl (same, later)) = cc
not-Before-deletes entry info (del ∷ dels) (inr h) = not-Before-deletes entry info dels h

-- A new partition reads its data file, and the deletes for it.
pub new_partition-Reads :
    (e entry : DataEntry) (info : PositionalDeleteInfo) (dels : List PositionalDeleteInfo)
    → Reads entry info (new_partition e dels) ↔ ((e ≡ entry) × Among info dels)
unfolding new_partition scan_timeline
new_partition-Reads e entry info dels = rw (append-nil (map delete_read dels)) (
  λ h. elim h [
    | inl (same, later) ↦ (cc, Among-delete_read info dels later)
    | inr wrong ↦ absurd (not-Before-deletes entry info dels wrong)
  ],
  λ h. let (same, among) = h in inl (cc, Sequences.Among-map delete_read info dels among),
)

module _ (deletes : DeletesByPath) where
  -- The deletes for a data file of a layer.
  abbrev pub deletes_of : Bytes → ℕ → List PositionalDeleteInfo
  deletes_of path n = deletes_from n (find key_order [] path deletes)

  pub if_contains :
      (path : Bytes) (n : ℕ)
      → (if contains key_order path deletes
          then deletes_from n (find key_order [] path deletes)
          else [])
        ≡ deletes_of path n
  if_contains path n = elim (Bool-cases (contains key_order path deletes)) [
    | inl present ↦ rw present refl
    | inr absent ↦
        rw (absent, find-absent key_order [] path deletes absent) (unfold deletes_from in refl)
  ]

  -- The scan reads the data file and the delete for it, in some partition with deletes.
  pub place_data-Reads :
      (entry : DataEntry) (info : PositionalDeleteInfo) (by_path : DataByPath) (result : Regrouped)
      → Some (Reads entry info) (place_data deletes by_path result).with_deletes ↔ (
          Some (Reads entry info) result.with_deletes
          ⊎ ((path : Bytes) × (n : ℕ) × Among (path, (entry, n)) by_path
              × Among info (deletes_of path n)))
  unfolding place_data
  place_data-Reads entry info [] result =
      (λ h. inl h, λ h. elim h [ inl old ↦ old | inr (path, n, wrong, among) ↦ absurd wrong ])
  place_data-Reads entry info ((path, (e, n)) ∷ by_path) result =
      elim (Bool-cases (not (contains key_order path deletes) && not (has_value e.dv))) [
        | inl alone ↦
            let absent : contains key_order path deletes ≡ false = ground arith in
            let none_for : deletes_of path n ≡ [] =
              rw (find-absent key_order [] path deletes absent) (unfold deletes_from in refl) in
            let (there, back) =
              place_data-Reads entry info by_path
                (record result { without_deletes = result.without_deletes ++ e ∷ [] }) in
            rw (Some, alone)
              (
                λ h. elim (there h) [
                  | inl old ↦ inl old
                  | inr (p, i, later, among) ↦ inr (p, i, inr later, among)
                ],
                λ h. elim h [
                  | inl old ↦ back (inl old)
                  | inr (p, i, inr later, among) ↦ back (inr (p, i, later, among))
                  | inr (p, i, inl same, among) ↦
                      let at_path : p ≡ path = cc in
                      let number : i ≡ n = cc in absurd (rw (at_path, number, none_for) at among)
                ],
              )
        | inr own ↦
            let added = new_partition e (deletes_of path n) in
            let (there, back) =
              place_data-Reads entry info by_path
                (record result { with_deletes = result.with_deletes ++ added ∷ [] }) in
            let (split, join) = new_partition-Reads e entry info (deletes_of path n) in
            rw (Some, own, if_contains path n)
              (
                λ h. elim (there h) [
                  | inr (p, i, later, among) ↦ inr (p, i, inr later, among)
                  | inl sooner ↦
                      elim (Some-append (Reads entry info) result.with_deletes (added ∷ [])
                        sooner) [
                          | inl old ↦ inl old
                          | inr (inr wrong) ↦ absurd wrong
                          | inr (inl new) ↦
                              let (same, among) = split new in inr (path, n, inl cc, among)
                        ]
                ],
                λ h. elim h [
                  | inl old ↦ back (
                      inl (
                        Sequences.Some-append_left (Reads entry info) result.with_deletes
                          (added ∷ []) old))
                  | inr (p, i, inr later, among) ↦ back (inr (p, i, later, among))
                  | inr (p, i, inl same, among) ↦
                      let at_path : p ≡ path = cc in
                      let number : i ≡ n = cc in
                      let e_same : e ≡ entry = cc in
                      back (
                        inl (
                          Sequences.Some-append_right (Reads entry info) result.with_deletes
                            (added ∷ []) (inl (join (e_same, rw (at_path, number) at among)))))
                ],
              )
      ]
