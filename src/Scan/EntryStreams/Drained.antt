-- ===== src/Scan/EntryStreams/Drained.antt =====
-- What the streams of iceberg/tea_scan.cpp give until they end.
use iceberg_cxx.Common.{
  ℕ, zero, suc, ◌<◌, ◌>>=◌, ◌≡◌, refl, ◌∙◌, inl, inr, true, false, Option, none, some, List, [],
  ◌∷◌, ◌++◌, arith, if◌then◌else◌, Bool-cases, Result, err, ok, length, length-append,
}
use iceberg_cxx.Scan.{ScanError, no_sequence_number}
use iceberg_cxx.Scan.Builder.{ManifestEntry}
use iceberg_cxx.Scan.EntryStreams.{
  ManifestFile, entry_read_next, AllEntriesStream, read_from_queue, all_read_next, read_entries,
}
use iceberg_cxx.Scan.EntryStreams.Manifest.{
  Listed, some_unnumbered, live_entries, listed, EntryRead, entry_read_next-EntryRead,
  some_unnumbered-append, live_entries-append, length-listed,
}

module _ (entries_in : ManifestFile → List ManifestEntry) where
  -- The entries of the manifests in the queue.
  unfoldable pub queued : List ManifestFile → List Listed
  queued [] = []
  queued (manifest ∷ manifests) = listed manifest (entries_in manifest) ++ queued manifests

  unfoldable pub current_entries : Option (ManifestFile × List ManifestEntry) → List Listed
  current_entries none = []
  current_entries (some (manifest, left)) = listed manifest left

  -- The entries that the stream has not read.
  abbrev pub pending : AllEntriesStream → List Listed
  pending s = current_entries s.current_manifest_stream ++ queued s.manifest_files

  -- What reading an entry comes to, where there are these entries.
  abbrev StreamRead :
      List Listed → Result ScanError (Option ManifestEntry × AllEntriesStream) → Type 0
  StreamRead items (err e) = (e ≡ no_sequence_number) × (some_unnumbered items ≡ true)
  StreamRead items (ok (none, next)) = (some_unnumbered items ≡ false) × (live_entries items ≡ [])
  StreamRead items (ok (some entry, next)) =
      (some_unnumbered items ≡ some_unnumbered (pending next))
      × (live_entries items ≡ entry ∷ live_entries (pending next))
      × (length (pending next) < length items)

  -- A manifest of which nothing more is to be read is passed over.
  StreamRead-exhausted :
      (xs ys : List Listed) (result : Result ScanError (Option ManifestEntry × AllEntriesStream))
      → some_unnumbered xs ≡ false
      → live_entries xs ≡ []
      → StreamRead ys result
      → StreamRead (xs ++ ys) result
  StreamRead-exhausted xs ys (err e) full none_live (same, lacking) =
      (same, ground (arith, some_unnumbered-append xs ys))
  StreamRead-exhausted xs ys (ok (none, next)) full none_live (rest_full, rest_live) = (
    ground (arith, some_unnumbered-append xs ys),
    live_entries-append xs ys ∙ rw none_live rest_live,
  )
  StreamRead-exhausted xs ys (ok (some e, next)) full none_live (rest_full, rest_live, fewer) = (
    ground (arith, some_unnumbered-append xs ys),
    live_entries-append xs ys ∙ rw none_live rest_live,
    omega (arith, length-append xs ys),
  )

  -- What a read of a manifest gives, and what follows if it gives nothing.
  abbrev or_next :
      ManifestFile
      → List ManifestFile
      → Result ScanError (Option ManifestEntry × AllEntriesStream)
      → Result ScanError (Option ManifestEntry × List ManifestEntry)
      → Result ScanError (Option ManifestEntry × AllEntriesStream)
  or_next manifest manifests next result = do
    (maybe_result, left) ← result
    elim maybe_result [
      | none ↦ next
      | some entry ↦ ok (
        some entry,
        record { manifest_files = manifests; current_manifest_stream = some (manifest, left) },
      )
    ]

  -- An entry of a manifest, with the queue behind it.
  or_next-StreamRead :
      (manifest : ManifestFile) (entries : List ManifestEntry) (manifests : List ManifestFile)
      (next : Result ScanError (Option ManifestEntry × AllEntriesStream))
      (result : Result ScanError (Option ManifestEntry × List ManifestEntry))
      → StreamRead (queued manifests) next
      → EntryRead manifest entries result
      → StreamRead
          (listed manifest entries ++ queued manifests)
          (or_next manifest manifests next result)
  or_next-StreamRead manifest entries manifests next (err e) later (same, lacking) =
      (same, ground (arith, some_unnumbered-append (listed manifest entries) (queued manifests)))
  or_next-StreamRead manifest entries manifests next (ok (none, left)) later (full, none_live) =
      StreamRead-exhausted (listed manifest entries) (queued manifests) next full none_live later
  or_next-StreamRead manifest entries manifests next (ok (some e, left)) later (full, live, fewer) =
      let here = listed manifest entries in
      let behind = queued manifests in
      unfold current_entries in
      (
        ground (
          arith,
          some_unnumbered-append here behind,
          some_unnumbered-append (listed manifest left) behind,
        ),
        live_entries-append here behind
            ∙ rw (live, live_entries-append (listed manifest left) behind) refl,
        omega (
          arith,
          length-append here behind,
          length-append (listed manifest left) behind,
          length-listed manifest entries,
          length-listed manifest left,
        ),
      )

  read_from_queue-StreamRead :
      (manifests : List ManifestFile)
      → StreamRead (queued manifests) (read_from_queue entries_in manifests)
  unfolding queued read_from_queue
  read_from_queue-StreamRead [] = unfold live_entries in (refl, refl)
  read_from_queue-StreamRead (manifest ∷ manifests) =
      or_next-StreamRead manifest (entries_in manifest) manifests
        (read_from_queue entries_in manifests) (entry_read_next manifest (entries_in manifest))
        (read_from_queue-StreamRead manifests)
        (entry_read_next-EntryRead manifest (entries_in manifest))

  all_read_next-StreamRead :
      (manifests : List ManifestFile) (current : Option (ManifestFile × List ManifestEntry))
      → StreamRead (current_entries current ++ queued manifests) (
          all_read_next entries_in
            record { manifest_files = manifests; current_manifest_stream = current })
  unfolding all_read_next current_entries
  all_read_next-StreamRead manifests none = read_from_queue-StreamRead manifests
  all_read_next-StreamRead manifests (some (manifest, left)) =
      or_next-StreamRead manifest left manifests (read_from_queue entries_in manifests)
        (entry_read_next manifest left) (read_from_queue-StreamRead manifests)
        (entry_read_next-EntryRead manifest left)

  -- What reading entries to the end gives.
  abbrev all_live : List Listed → Result ScanError (List ManifestEntry)
  all_live items = if some_unnumbered items then err no_sequence_number else ok (live_entries items)

  -- A round, and the rest of the rounds.
  first_read :
      (fuel : ℕ) (items : List Listed)
      (result : Result ScanError (Option ManifestEntry × AllEntriesStream))
      → length items < suc fuel
      → ((next : AllEntriesStream)
          → length (pending next) < fuel
          → read_entries entries_in fuel next ≡ all_live (pending next))
      → StreamRead items result
      → (do
        (maybe_entry, next) ← result
        elim maybe_entry [
          | none ↦ ok []
          | some entry ↦ do entries ← read_entries entries_in fuel next; ok (entry ∷ entries)
        ])
        ≡ all_live items
  first_read fuel items (err e) enough rest (same, lacking) = rw (same, lacking) refl
  first_read fuel items (ok (none, next)) enough rest (full, none_live) = rw (full, none_live) refl
  first_read fuel items (ok (some entry, next)) enough rest (full, live, fewer) =
      let last = rest next (omega arith) in
      elim (Bool-cases (some_unnumbered (pending next))) [
        | inl lacking ↦ rw (last, full, lacking) refl
        | inr complete ↦ rw (last, full, complete, live) refl
      ]

  -- Reading to the end, with a round for each entry that was not read and one: if some entry has no
  -- sequence number and is not one that was added, the error; otherwise the entries that are not
  -- deleted, in the order of the manifests, each with its own sequence number or that of its manifest.
  pub read_entries-live_entries :
      (fuel : ℕ) (s : AllEntriesStream)
      → length (pending s) < fuel
      → read_entries entries_in fuel s ≡ (
          if some_unnumbered (pending s)
          then err no_sequence_number
          else ok (live_entries (pending s)))
  unfolding read_entries
  read_entries-live_entries zero s enough = absurd (omega arith)
  read_entries-live_entries (suc fuel) s enough =
      first_read fuel (pending s) (all_read_next entries_in s) enough
        (read_entries-live_entries fuel)
        (all_read_next-StreamRead s.manifest_files s.current_manifest_stream)
