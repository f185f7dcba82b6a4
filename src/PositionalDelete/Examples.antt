-- ===== src/PositionalDelete/Examples.antt =====
-- Runs of iceberg/positional_delete/positional_delete.cpp on two small delete files.
use iceberg_cxx.Common.{ℕ, ◌≡◌, refl, some, List, [], ◌∷◌, arith, err}
use iceberg_cxx.Common.Int.{pos}
use iceberg_cxx.Filter.Order.{ltb_bytes, eqb_bytes}
use iceberg_cxx.PositionalDelete.Reader.{other, Query, unexpected_column_1_type, state, less}
use iceberg_cxx.PositionalDelete.Queue.{in_order, queue_size, open_files, get_deleted, merge_loop}
use iceberg_cxx.PositionalDelete.Loop.{Halts, merge_loop-Halts}
use iceberg_cxx.PositionalDelete.Stream.{StreamIsValid, AllAnswers, run}
use iceberg_cxx.PositionalDelete.Files.{open_files-opens, deleted_by, opened, run-deleted_by}
use iceberg_cxx.PositionalDelete.Samples.{
  first_group, two_groups, files, readers, files_open, two_groups_valid, one_group_valid,
}

wrong_type :
    open_files ((pos 1, record two_groups { column_1_type = other }) ∷ [])
    ≡ err unexpected_column_1_type
unfolding open_files
wrong_type = refl

abbrev batch_query : ℕ → ℕ → Query
batch_query from to = record { url = 97 ∷ []; begin = from; end = to }

-- The rows of layer 2 and above in the first rows, then those of layer 1 and above in the next ones.
runs :
    run (pos 1) (batch_query 0 5 ∷ batch_query 5 9 ∷ []) (opened readers)
    ≡ some ((1 ∷ 4 ∷ []) ∷ (5 ∷ 7 ∷ []) ∷ [])
unfolding run get_deleted eqb_bytes ltb_bytes
runs = refl

skips : state first_group.metadata (batch_query 5 9) ≡ less
unfolding state ltb_bytes eqb_bytes
skips = refl

readers_valid : StreamIsValid (opened readers)
unfolding StreamIsValid
readers_valid =
    (open_files-opens files readers (two_groups_valid, (one_group_valid, tt)) files_open).0

merge_loop-Halts_example : Halts (merge_loop 20 (batch_query 0 5) (pos 1) readers [])
unfolding queue_size
merge_loop-Halts_example = merge_loop-Halts 20 (batch_query 0 5) (pos 1) readers [] (omega arith)

run-deleted_by_example :
    (answers : List (List ℕ)) × (run
        (pos 1)
        (batch_query 0 5 ∷ batch_query 5 9 ∷ [])
        (opened readers)
      ≡ some answers)
    × AllAnswers (deleted_by (pos 1) files) (batch_query 0 5 ∷ batch_query 5 9 ∷ []) answers
unfolding in_order ltb_bytes
run-deleted_by_example =
    run-deleted_by (pos 1) files readers (batch_query 0 5 ∷ batch_query 5 9 ∷ [])
      (two_groups_valid, (one_group_valid, tt)) files_open
      (omega arith, refl, (omega arith, refl, tt))
