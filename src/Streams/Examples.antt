-- ===== src/Streams/Examples.antt =====
-- Batches that go through PositionalDeleteApplier of
-- iceberg/streams/iceberg/positional_delete_applier.h.
use iceberg_cxx.Common.{◌≡◌, refl, Option, none, some, [], ◌∷◌, arith, if◌then◌else◌, ◌==◌}
use iceberg_cxx.Common.Int.{pos}
use iceberg_cxx.Filter.Order.{eqb_bytes}
use iceberg_cxx.Filter.Value.{Bytes}
use iceberg_cxx.Selection.{select}
use iceberg_cxx.PositionalDelete.Valid.{has_row}
use iceberg_cxx.PositionalDelete.Reader.{DeleteFile}
use iceberg_cxx.PositionalDelete.Files.{deleted_by}
use iceberg_cxx.PositionalDelete.Samples.{
  two_groups, one_group, files, readers, files_open, two_groups_valid, one_group_valid,
}
use iceberg_cxx.Streams.PositionalApplier.{
  Batch, PositionalDeletes, Applier, read_next, entries_at, get_delete_urls, open_layers,
}
use iceberg_cxx.Streams.PositionalApplied.{deleting, files_of, ApplierIsValid}
use iceberg_cxx.DeletionVector.Samples.{elements, library, library-BitmapLaws}
use iceberg_cxx.Streams.VectorApplier.{
  apply_deletion_vector, apply_deletion_vector-deleting, apply_deletion_vector-no_rows,
}
use iceberg_cxx.Streams.PositionalReads.{read_next-deleting}

-- The paths "1" and "2" are files.
abbrev open_parquet : Bytes → Option DeleteFile
open_parquet [] = none
open_parquet (c ∷ cs) =
    if c == 49 then some two_groups else if c == 50 then some one_group else none

abbrev infos : PositionalDeletes
infos = (pos 0, (pos 1, (49 ∷ []) ∷ []) ∷ (pos 2, (50 ∷ []) ∷ []) ∷ []) ∷ []

abbrev four_rows : Batch
four_rows = record {
  partition = pos 0;
  layer = pos 1;
  path = 97 ∷ [];
  row_position = 3;
  num_rows = 4;
  selection_vector = record { indices = 0 ∷ 1 ∷ 2 ∷ 3 ∷ [] };
}

abbrev fresh : Applier
fresh = record { current_state = none; positional_delete = none }

-- The rows 4 and 5 of the file are deleted.
left :
    (deleting (deleted_by (pos 1) files (97 ∷ [])) four_rows).selection_vector.indices ≡ 0 ∷ 3 ∷ []
unfolding deleted_by eqb_bytes select has_row
left = refl

read_next-deleting_example :
    (a' : Applier) × (read_next open_parquet four_rows fresh infos
      ≡ some (a', deleting (deleted_by (pos 1) files (97 ∷ [])) four_rows))
    × ApplierIsValid open_parquet infos a'
unfolding files_of ApplierIsValid entries_at open_layers get_delete_urls
read_next-deleting_example =
    read_next-deleting open_parquet infos files readers four_rows fresh
      ((ground arith), (ground arith)) (two_groups_valid, (one_group_valid, tt)) refl files_open tt

-- Row 5 of the file is deleted by the deletion vector.
apply_deletion_vector-deleting_example :
    apply_deletion_vector library tt four_rows ≡ some (deleting (library.contains_in tt) four_rows)
apply_deletion_vector-deleting_example =
    apply_deletion_vector-deleting library elements library-BitmapLaws tt four_rows
      (ground arith, ground arith) (omega arith) (omega arith) (omega arith)

abbrev no_rows : Batch
no_rows = record four_rows { num_rows = 0; selection_vector = record { indices = [] } }

apply_deletion_vector-no_rows_example : apply_deletion_vector library tt no_rows ≡ none
apply_deletion_vector-no_rows_example =
    apply_deletion_vector-no_rows library tt no_rows refl (omega arith)
