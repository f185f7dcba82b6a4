-- ===== src/Scan/EntryStreams/Examples.antt =====
-- The theorem on the streams of iceberg/tea_scan.cpp at two manifests, and tests.
use iceberg_cxx.Common.{
  ℕ, ◌<◌, length, ◌≡◌, refl, arith, List, [], ◌∷◌, none, some, ok, err, if◌then◌else◌,
}
use iceberg_cxx.Common.Int.{pos}
use iceberg_cxx.Scan.{no_sequence_number}
use iceberg_cxx.Scan.Samples.{path_at, plain_file}
use iceberg_cxx.Scan.Builder.{EntryStatus, existing, added, deleted, data_content, ManifestEntry}
use iceberg_cxx.Scan.EntryStreams.{
  ManifestFile, AllEntriesStream, add_sequence_number_or_fail, entry_read_next, read_from_queue,
  all_read_next, read_entries,
}
use iceberg_cxx.Scan.EntryStreams.Manifest.{some_unnumbered, live_entries, listed}
use iceberg_cxx.Scan.EntryStreams.Drained.{
  queued, current_entries, pending, read_entries-live_entries,
}

-- A new entry, an old one and a deleted one.
abbrev entries_in : ManifestFile → List ManifestEntry
entries_in manifest =
    record {
      status = added;
      sequence_number = none;
      data_file = plain_file data_content (path_at b'a');
    }
    ∷ record {
      status = deleted;
      sequence_number = some (pos 1);
      data_file = plain_file data_content (path_at b'b');
    }
    ∷ record {
      status = existing;
      sequence_number = some (pos 2);
      data_file = plain_file data_content (path_at b'c');
    }
    ∷ []

abbrev two_manifests : AllEntriesStream
two_manifests = record {
  manifest_files =
      record { path = path_at 1; sequence_number = pos 5 }
      ∷ record { path = path_at 2; sequence_number = pos 6 }
      ∷ [];
  current_manifest_stream = none;
}

abbrev data_entry : ℕ → ℕ → EntryStatus → ManifestEntry
data_entry name number status = record {
  status = status;
  sequence_number = some (pos number);
  data_file = plain_file data_content (path_at name);
}

six_pending : length (pending entries_in two_manifests) < 7
unfolding queued current_entries listed
six_pending = omega arith

read_entries-live_entries_example : read_entries entries_in 7 two_manifests ≡ (
    if some_unnumbered (pending entries_in two_manifests)
    then err no_sequence_number
    else ok (live_entries (pending entries_in two_manifests)))
read_entries-live_entries_example = read_entries-live_entries entries_in 7 two_manifests six_pending

two_manifests-entries :
    read_entries entries_in 7 two_manifests
    ≡ ok (
        data_entry b'a' 5 added
        ∷ data_entry b'c' 2 existing
        ∷ data_entry b'a' 6 added
        ∷ data_entry b'c' 2 existing
        ∷ [])
unfolding read_entries all_read_next read_from_queue entry_read_next add_sequence_number_or_fail
two_manifests-entries = refl
