-- ===== src/Scan/EntryStreams.antt =====
-- `AddSequenceNumberOrFail`, `EntryStream` and `AllEntriesStream` of iceberg/tea_scan.cpp. The entries
-- that the Avro library reads from a manifest are an argument.
pub mod Manifest
pub mod Drained
mod Examples
use iceberg_cxx.Common.{
  ℕ, zero, suc, Bool, true, false, ◌&&◌, not, Option, none, some, List, [], ◌∷◌, if◌then◌else◌,
  Result, err, ok, ◌>>=◌,
}
use iceberg_cxx.Common.Int.{ℤ}
use iceberg_cxx.Filter.Value.{Bytes}
use iceberg_cxx.Scan.{has_value, ScanError, no_sequence_number}
use iceberg_cxx.Scan.Builder.{EntryStatus, existing, added, deleted, ManifestEntry, is_deleted}

-- The fields of `ManifestFile` that the streams read.
pub record ManifestFile : Type 0 where
  pub path : Bytes
  pub sequence_number : ℤ

abbrev pub is_added : EntryStatus → Bool
is_added existing = false
is_added added = true
is_added deleted = false

unfoldable pub add_sequence_number_or_fail :
    ManifestFile → ManifestEntry → Result ScanError ManifestEntry
add_sequence_number_or_fail manifest entry =
    let numbered : ManifestEntry =
      if not (has_value entry.sequence_number) && is_added entry.status
      then record entry { sequence_number = some manifest.sequence_number }
      else entry in
    if has_value numbered.sequence_number then ok numbered else err no_sequence_number

-- `EntryStream::ReadNext` on the entries that its stream has left: what it answers, and what is left
-- then.
unfoldable pub entry_read_next :
    ManifestFile → List ManifestEntry → Result ScanError (Option ManifestEntry × List ManifestEntry)
entry_read_next manifest [] = ok (none, [])
entry_read_next manifest (entry ∷ entries) =
    let rest = entry_read_next manifest entries in
    (do
      result ← add_sequence_number_or_fail manifest entry
      if is_deleted result.status then rest else ok (some result, entries))

-- The state of `AllEntriesStream`: the manifests in the queue, and the one that is read with the
-- entries that its stream has left.
pub record AllEntriesStream : Type 0 where
  pub manifest_files : List ManifestFile
  pub current_manifest_stream : Option (ManifestFile × List ManifestEntry)

module _ (entries_in : ManifestFile → List ManifestEntry) where
  -- The rounds of `AllEntriesStream::ReadNext` that start without a current stream.
  unfoldable pub read_from_queue :
      List ManifestFile → Result ScanError (Option ManifestEntry × AllEntriesStream)
  read_from_queue [] = ok (none, record { manifest_files = []; current_manifest_stream = none })
  read_from_queue (manifest ∷ manifests) =
      let rest = read_from_queue manifests in
      (do
        (maybe_result, left) ← entry_read_next manifest (entries_in manifest)
        elim maybe_result [
          | none ↦ rest
          | some entry ↦ ok (
            some entry,
            record { manifest_files = manifests; current_manifest_stream = some (manifest, left) },
          )
        ])

  unfoldable pub all_read_next :
      AllEntriesStream → Result ScanError (Option ManifestEntry × AllEntriesStream)
  all_read_next s = elim s.current_manifest_stream [
    | none ↦ read_from_queue s.manifest_files
    | some current ↦ do
      (maybe_result, left) ← entry_read_next current.0 current.1
      elim maybe_result [
        | none ↦ read_from_queue s.manifest_files
        | some entry ↦
            ok (some entry, record s { current_manifest_stream = some (current.0, left) })
      ]
  ]

  -- The loop of `GetScanMetadata`: the entries until there are no more.
  unfoldable pub read_entries : ℕ → AllEntriesStream → Result ScanError (List ManifestEntry)
  read_entries zero s = ok []
  read_entries (suc fuel) s = do
    (maybe_entry, next) ← all_read_next s
    elim maybe_entry [
      | none ↦ ok []
      | some entry ↦ do entries ← read_entries fuel next; ok (entry ∷ entries)
    ]
