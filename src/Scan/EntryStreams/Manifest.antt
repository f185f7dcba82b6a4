-- ===== src/Scan/EntryStreams/Manifest.antt =====
-- What `EntryStream::ReadNext` of iceberg/tea_scan.cpp gives of one manifest.
use iceberg_cxx.Common.{
  suc, ◌<◌, ◌≡◌, refl, ap, inl, inr, Bool, true, false, ◌&&◌, ◌||◌, not, Option, none, some, List,
  [], ◌∷◌, ◌++◌, arith, if◌then◌else◌, Bool-cases, Result, err, ok, length,
}
use iceberg_cxx.Scan.{has_value, ScanError, no_sequence_number}
use iceberg_cxx.Scan.Builder.{ManifestEntry, is_deleted}
use iceberg_cxx.Scan.EntryStreams.{
  ManifestFile, is_added, add_sequence_number_or_fail, entry_read_next,
}

-- An entry with the manifest that it is in.
abbrev pub Listed : Type 0
Listed = ManifestFile × ManifestEntry

-- The entry has no sequence number, and cannot inherit that of the manifest.
abbrev pub is_unnumbered : Listed → Bool
is_unnumbered (manifest, entry) =
    not (has_value entry.sequence_number) && not (is_added entry.status)

abbrev pub some_unnumbered : List Listed → Bool
some_unnumbered [] = false
some_unnumbered (item ∷ items) = is_unnumbered item || some_unnumbered items

-- The entry with its own sequence number, or else with that of the manifest.
abbrev pub inherited : Listed → ManifestEntry
inherited (manifest, entry) =
    if has_value entry.sequence_number
    then entry
    else record entry { sequence_number = some manifest.sequence_number }

unfoldable pub live_entries : List Listed → List ManifestEntry
live_entries [] = []
live_entries (item ∷ items) =
    if is_deleted item.1.status then live_entries items else inherited item ∷ live_entries items

unfoldable pub listed : ManifestFile → List ManifestEntry → List Listed
listed manifest [] = []
listed manifest (entry ∷ entries) = (manifest, entry) ∷ listed manifest entries

add_sequence_number_or_fail_lem :
    (manifest : ManifestFile) (entry : ManifestEntry)
    → add_sequence_number_or_fail manifest entry ≡ (
        if is_unnumbered (manifest, entry)
        then err no_sequence_number
        else ok (inherited (manifest, entry)))
unfolding add_sequence_number_or_fail
add_sequence_number_or_fail_lem manifest entry = ground arith

inherited-status :
    (manifest : ManifestFile) (entry : ManifestEntry)
    → (inherited (manifest, entry)).status ≡ entry.status
inherited-status manifest entry = ground arith

-- What reading an entry of one manifest comes to.
abbrev pub EntryRead :
    ManifestFile
    → List ManifestEntry
    → Result ScanError (Option ManifestEntry × List ManifestEntry)
    → Type 0
EntryRead manifest entries (err e) =
    (e ≡ no_sequence_number) × (some_unnumbered (listed manifest entries) ≡ true)
EntryRead manifest entries (ok (none, left)) =
    (some_unnumbered (listed manifest entries) ≡ false)
    × (live_entries (listed manifest entries) ≡ [])
EntryRead manifest entries (ok (some entry, left)) =
    (some_unnumbered (listed manifest entries) ≡ some_unnumbered (listed manifest left))
    × (live_entries (listed manifest entries) ≡ entry ∷ live_entries (listed manifest left))
    × (length left < length entries)

-- A deleted entry is passed over.
EntryRead-deleted :
    (manifest : ManifestFile) (entry : ManifestEntry) (entries : List ManifestEntry)
    (result : Result ScanError (Option ManifestEntry × List ManifestEntry))
    → is_unnumbered (manifest, entry) ≡ false
    → is_deleted entry.status ≡ true
    → EntryRead manifest entries result
    → EntryRead manifest (entry ∷ entries) result
unfolding live_entries listed
EntryRead-deleted manifest entry entries (err e) numbered gone (same, lacking) =
    (same, ground arith)
EntryRead-deleted manifest entry entries (ok (none, left)) numbered gone (full, none_live) =
    (ground arith, rw gone none_live)
EntryRead-deleted manifest entry entries (ok (some e, left)) numbered gone (full, live, fewer) =
    (ground arith, rw gone live, omega arith)

pub entry_read_next-EntryRead :
    (manifest : ManifestFile) (entries : List ManifestEntry)
    → EntryRead manifest entries (entry_read_next manifest entries)
unfolding entry_read_next
entry_read_next-EntryRead manifest [] = unfold listed in unfold live_entries in (refl, refl)
entry_read_next-EntryRead manifest (entry ∷ entries) =
    let rest = entry_read_next-EntryRead manifest entries in
    let numbering = add_sequence_number_or_fail_lem manifest entry in
    elim (Bool-cases (is_unnumbered (manifest, entry))) [
      | inl unnumbered ↦ rw (numbering, unnumbered) (refl, unfold listed in ground arith)
      | inr numbered ↦ elim (Bool-cases (is_deleted entry.status)) [
        | inl gone ↦
            rw (numbering, numbered, inherited-status manifest entry, gone)
              (EntryRead-deleted manifest entry entries (entry_read_next manifest entries) numbered
                gone rest)
        | inr live ↦
            rw (numbering, numbered, inherited-status manifest entry, live)
              (
                unfold listed in ground arith,
                unfold listed in unfold live_entries in rw live refl,
                omega arith,
              )
      ]
    ]

pub some_unnumbered-append :
    (xs ys : List Listed) → some_unnumbered (xs ++ ys) ≡ (some_unnumbered xs || some_unnumbered ys)
some_unnumbered-append [] ys = refl
some_unnumbered-append (x ∷ xs) ys = ground (arith, some_unnumbered-append xs ys)

pub live_entries-append :
    (xs ys : List Listed) → live_entries (xs ++ ys) ≡ live_entries xs ++ live_entries ys
unfolding live_entries
live_entries-append [] ys = refl
live_entries-append (x ∷ xs) ys = ground (arith, live_entries-append xs ys)

pub length-listed :
    (manifest : ManifestFile) (entries : List ManifestEntry)
    → length (listed manifest entries) ≡ length entries
unfolding listed
length-listed manifest [] = refl
length-listed manifest (entry ∷ entries) = ap (λ n. suc n) (length-listed manifest entries)
