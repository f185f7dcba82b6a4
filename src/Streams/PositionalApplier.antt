-- ===== src/Streams/PositionalApplier.antt =====
-- PositionalDeleteApplier of iceberg/streams/iceberg/positional_delete_applier.h, and the batches of
-- iceberg_batch.h and plan.h. The files are opened by a parameter, `none` is an exception.
use iceberg_cxx.Common.{
  ℕ, ◌+◌, ◌-◌, Bool, false, ◌&&◌, ◌||◌, Option, none, some, List, [], ◌∷◌, ◌++◌, map, leb,
  if◌then◌else◌, Result, ok, err,
}
use iceberg_cxx.Common.Int.{ℤ, eqb_ℤ}
use iceberg_cxx.Common.Options.{◌>>=◌}
use iceberg_cxx.Filter.Value.{Bytes}
use iceberg_cxx.Filter.Order.{ltb_bytes, eqb_bytes}
use iceberg_cxx.Selection.{SelectionVector, delete_if_equal}
use iceberg_cxx.PositionalDelete.Reader.{DeleteFile, Query, Reader, ReaderError}
use iceberg_cxx.PositionalDelete.Queue.{DeleteStream, open_files, get_deleted}

pub record Batch : Type 0 where
  pub partition : ℤ
  pub layer : ℤ
  pub path : Bytes
  pub row_position : ℕ
  pub num_rows : ℕ
  pub selection_vector : SelectionVector

-- `PositionalDeletes`: the paths of the delete files by partition and layer.
abbrev pub PositionalDeletes : Type 0
PositionalDeletes = List (ℤ × List (ℤ × List Bytes))

-- `contains` and `at` of the map of partitions.
unfoldable pub entries_at : PositionalDeletes → ℤ → Option (List (ℤ × List Bytes))
entries_at [] partition = none
entries_at ((p, entries) ∷ rest) partition =
    if eqb_ℤ p partition then some entries else entries_at rest partition

-- `GetDeleteUrls`: a layer without entries gets no element.
unfoldable pub get_delete_urls : List (ℤ × List Bytes) → List (ℤ × List Bytes)
get_delete_urls [] = []
get_delete_urls ((layer, []) ∷ rest) = get_delete_urls rest
get_delete_urls ((layer, url ∷ urls) ∷ rest) = (layer, url ∷ urls) ∷ get_delete_urls rest

-- The state: where the last batch ends, with its partition and path, and the stream of deletes.
pub record CurrentState : Type 0 where
  pub partition : ℤ
  pub path : Bytes
  pub row_position : ℕ

pub record Applier : Type 0 where
  pub current_state : Option CurrentState
  pub positional_delete : Option DeleteStream

unfoldable pub paths_are_increasing : Batch → CurrentState → Bool
paths_are_increasing b s =
    ltb_bytes s.path b.path || (eqb_bytes b.path s.path && leb s.row_position b.row_position)

unfoldable pub can_reuse_state : Option CurrentState → Batch → Bool
unfolding paths_are_increasing
can_reuse_state none b = false
can_reuse_state (some s) b = eqb_ℤ s.partition b.partition && paths_are_increasing b s

-- The rows of the batch that are deleted, counted from its first row.
abbrev pub relative_rows : ℕ → List ℕ → List ℕ
relative_rows first rows = map (λ row. row - first) rows

-- The range of the batch.
abbrev pub query_of : Batch → Query
query_of b = record { url = b.path; begin = b.row_position; end = b.row_position + b.num_rows }

-- The state behind the batch.
abbrev pub state_behind : Batch → CurrentState
state_behind b = record {
  partition = b.partition;
  path = b.path;
  row_position = b.row_position + b.num_rows;
}

abbrev pub with_deleted : Batch → List ℕ → Batch
with_deleted b rows = record b {
  selection_vector = (delete_if_equal b.selection_vector (relative_rows b.row_position rows)).0;
}

-- `if (positional_delete_)`: the deletes of the batch are applied.
unfoldable pub apply_deletes : Batch → Applier → Option DeleteStream → Option (Applier × Batch)
unfolding get_deleted delete_if_equal
apply_deletes b a none = some (a, b)
apply_deletes b a (some stream) = do
  (stream', rows) ← get_deleted (query_of b) b.layer stream
  some (
    record { current_state = some (state_behind b); positional_delete = some stream' },
    with_deleted b rows,
  )

abbrev pub stream_of : Result ReaderError (List Reader) → Option DeleteStream
stream_of (err e) = none
stream_of (ok queue) = some (record { queue = queue; last_query = none })

module _ (open_parquet : Bytes → Option DeleteFile) where
  -- The loops of the constructor of PositionalDeleteStream over layers and paths.
  unfoldable pub open_urls : ℤ → List Bytes → Option (List (ℤ × DeleteFile))
  open_urls layer [] = some []
  open_urls layer (url ∷ urls) = do
    f ← open_parquet url
    fs ← open_urls layer urls
    some ((layer, f) ∷ fs)

  unfoldable pub open_layers : List (ℤ × List Bytes) → Option (List (ℤ × DeleteFile))
  unfolding open_urls
  open_layers [] = some []
  open_layers ((layer, urls) ∷ rest) = do
    fs ← open_urls layer urls
    others ← open_layers rest
    some (fs ++ others)

  unfoldable pub open_stream : List (ℤ × List Bytes) → Option DeleteStream
  unfolding open_layers open_files
  open_stream urls = do files ← open_layers urls; stream_of (open_files files)

  -- `ReadNext` on a batch of the input.
  unfoldable pub read_next : Batch → Applier → PositionalDeletes → Option (Applier × Batch)
  unfolding can_reuse_state entries_at get_delete_urls open_stream apply_deletes
  read_next b a infos =
      if can_reuse_state a.current_state b
      then apply_deletes b a a.positional_delete
      else elim (entries_at infos b.partition) [
        | none ↦ some (record { current_state = none; positional_delete = none }, b)
        | some entries ↦ do
          stream ← open_stream (get_delete_urls entries)
          apply_deletes b (record { current_state = none; positional_delete = some stream })
              (some stream)
      ]
