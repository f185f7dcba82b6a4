-- ===== src/Scan/Planner/Annotated.antt =====
-- What `GetResult` of the planner in iceberg/tea_scan.cpp answers where every positional delete is
-- annotated: the same data files, each read with the deletes that refer to it.
use iceberg_cxx.Common.{
  ℕ, zero, suc, ◌≡◌, refl, ◌↔◌, ◌⊎◌, inl, inr, List, [], ◌∷◌, All, ok, >>=-eq-ok, eq_of_ok-eq-ok,
}
use iceberg_cxx.Common.Sequences.{Among, Some}
use iceberg_cxx.Scan.{DataEntry, PositionalDeleteInfo, Layer}
use iceberg_cxx.Scan.Dangling.Plan.{Reads}
use iceberg_cxx.Scan.Planner.{
  ReferencedPaths, Regrouped, handle_partitions, plain_partition, all_partitions, regroup,
}
use iceberg_cxx.Scan.Planner.Collected.{DataAt}
use iceberg_cxx.Scan.Planner.Placed.{deletes_behind}
use iceberg_cxx.Scan.Planner.Layered.{ReadsData, ReadsData-DataAt, Reads-DataAt}
use iceberg_cxx.Scan.Planner.Shapes.{IsOwn, NoVector}
use iceberg_cxx.Scan.Planner.Plan.{
  ReadsReferred, handle_partitions-Reads, handle_partitions-HasEntry, handle_partitions-HasShape,
}

plain_partition-DataAt :
    (entry : DataEntry) (entries : List DataEntry) (n : ℕ)
    → DataAt entry n (plain_partition entries)
    → Among entry entries
unfolding plain_partition
plain_partition-DataAt entry entries zero at = at
plain_partition-DataAt entry entries (suc n) at = absurd at

plain_partition-ReadsData :
    (entry : DataEntry) (entries : List DataEntry)
    → ReadsData entry (plain_partition entries) ↔ Among entry entries
plain_partition-ReadsData entry entries =
    let (there, back) = ReadsData-DataAt entry (plain_partition entries) in
    (
      λ h. let (n, at) = there h in plain_partition-DataAt entry entries n at,
      λ among. back (0, unfold plain_partition in among),
    )

plain_partition_no_delete :
    (info : PositionalDeleteInfo) (entries : List DataEntry) (n : ℕ)
    → Among info (deletes_behind n (plain_partition entries))
    → ⊥
unfolding plain_partition deletes_behind
plain_partition_no_delete info entries zero among = among
plain_partition_no_delete info entries (suc n) among = among

plain_partition-Reads :
    (entry : DataEntry) (info : PositionalDeleteInfo) (entries : List DataEntry)
    → Reads entry info (plain_partition entries)
    → ⊥
plain_partition-Reads entry info entries h =
    let (n, at, among) = (Reads-DataAt entry info (plain_partition entries)).0 h in
    plain_partition_no_delete info entries n among

all_partitions-ReadsData :
    (entry : DataEntry) (plain : List DataEntry) (own : List (List Layer))
    → Some (ReadsData entry) (all_partitions record { without_deletes = plain; with_deletes = own })
      ↔ (Among entry plain ⊎ Some (ReadsData entry) own)
unfolding all_partitions
all_partitions-ReadsData entry [] own =
    (λ h. inr h, λ h. elim h [ inl wrong ↦ absurd wrong | inr h ↦ h ])
all_partitions-ReadsData entry (e ∷ plain) own =
    let (there, back) = plain_partition-ReadsData entry (e ∷ plain) in
    (
      λ h. elim h [ inl here ↦ inl (there here) | inr later ↦ inr later ],
      λ h. elim h [ inl here ↦ inl (back here) | inr later ↦ inr later ],
    )

all_partitions-Reads :
    (entry : DataEntry) (info : PositionalDeleteInfo) (plain : List DataEntry)
    (own : List (List Layer))
    → Some
        (Reads entry info)
        (all_partitions record { without_deletes = plain; with_deletes = own })
      ↔ Some (Reads entry info) own
unfolding all_partitions
all_partitions-Reads entry info [] own = (λ h. h, λ h. h)
all_partitions-Reads entry info (e ∷ plain) own = (
  λ h. elim h [
    | inl wrong ↦ absurd (plain_partition-Reads entry info (e ∷ plain) wrong)
    | inr later ↦ later
  ],
  λ h. inr h,
)

-- The partition has one layer, with no deletes and no data file with a vector, or with one data file.
abbrev pub IsRegrouped : List Layer → Type 0
IsRegrouped layers =
    ((entries : List DataEntry) × (layers ≡ plain_partition entries) × All NoVector entries)
    ⊎ IsOwn layers

IsOwn-IsRegrouped : (own : List (List Layer)) → All IsOwn own → All IsRegrouped own
IsOwn-IsRegrouped [] all = tt
IsOwn-IsRegrouped (layers ∷ own) (first, rest) = (inr first, IsOwn-IsRegrouped own rest)

all_partitions-IsRegrouped :
    (plain : List DataEntry) (own : List (List Layer))
    → All NoVector plain
    → All IsOwn own
    → All IsRegrouped (all_partitions record { without_deletes = plain; with_deletes = own })
unfolding all_partitions
all_partitions-IsRegrouped [] own all_plain all_own = IsOwn-IsRegrouped own all_own
all_partitions-IsRegrouped (e ∷ plain) own all_plain all_own =
    (inl (e ∷ plain, refl, all_plain), IsOwn-IsRegrouped own all_own)

-- The same data files are read, a delete is read for a data file exactly when it was before and
-- refers to it, and every partition is regrouped.
abbrev pub IsRegrouping : ReferencedPaths → List (List Layer) → List (List Layer) → Type 0
IsRegrouping referenced planned plan =
    ((entry : DataEntry) → Some (ReadsData entry) plan ↔ Some (ReadsData entry) planned)
    × ((entry : DataEntry) (info : PositionalDeleteInfo)
        → Some (Reads entry info) plan ↔ Some (ReadsReferred referenced entry info) planned)
    × All IsRegrouped plan

-- Where the partitions are regrouped without an error, the scan reads the same data files as before; it
-- reads a positional delete for a data file exactly when the delete was read for it before, so that it
-- is of the layer of the file or of a later one, and refers to the file; and each partition has one
-- layer, of one data file, or of data files without deletes and without deletion vectors.
pub regroup-IsRegrouping :
    (referenced : ReferencedPaths) (planned : List (List Layer)) {plan : List (List Layer)}
    → regroup referenced planned ≡ ok plan
    → IsRegrouping referenced planned plan
unfolding regroup
regroup-IsRegrouping referenced planned run =
    let start : Regrouped = record { without_deletes = []; with_deletes = [] } in
    let (out, loop, last) = >>=-eq-ok (handle_partitions referenced planned start) _ run in
    let (plain, own) = handle_partitions-HasShape referenced planned start loop (tt, tt) in
    rw (← eq_of_ok-eq-ok last) (
      λ entry.
          let (there, back) = handle_partitions-HasEntry referenced planned start loop entry in
          let (split, join) = all_partitions-ReadsData entry out.without_deletes out.with_deletes in
          (
            λ h. elim (there (split h)) [
              | inl (inl wrong) ↦ absurd wrong
              | inl (inr wrong) ↦ absurd wrong
              | inr read ↦ read
            ],
            λ h. join (back (inr h)),
          ),
      λ entry info.
          let (there, back) = handle_partitions-Reads referenced planned start loop entry info in
          let (split, join) =
            all_partitions-Reads entry info out.without_deletes out.with_deletes in
          (
            λ h. elim (there (split h)) [ inl wrong ↦ absurd wrong | inr read ↦ read ],
            λ h. join (back (inr h)),
          ),
      all_partitions-IsRegrouped out.without_deletes out.with_deletes plain own,
    )
