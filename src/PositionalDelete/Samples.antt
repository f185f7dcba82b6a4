-- ===== src/PositionalDelete/Samples.antt =====
-- Two small delete files, as iceberg/positional_delete/positional_delete.cpp reads them.
use iceberg_cxx.Common.{ℕ, ◌≡◌, refl, true, false, none, some, List, [], ◌∷◌, arith, ok}
use iceberg_cxx.Common.Int.{ℤ, pos}
use iceberg_cxx.Filter.Order.{ltb_bytes, eqb_bytes}
use iceberg_cxx.PositionalDelete.Position.{Row, before}
use iceberg_cxx.PositionalDelete.Reader.{
  RowGroup, DeleteFile, byte_array, int64, Reader, start, metadata_position,
}
use iceberg_cxx.PositionalDelete.Queue.{open_files}
use iceberg_cxx.PositionalDelete.Files.{FileIsValid}

abbrev pub row : ℕ → ℕ → Row
row letter i = record { file_path = letter ∷ []; pos = i }

-- Two row groups with statistics: rows of the file "a", then one of "a" and one of "b".
abbrev pub first_group : RowGroup
first_group = record {
  metadata = record {
    path_stats_set = true;
    path_min_max = some (97 ∷ [], 97 ∷ []);
    pos_stats_set = true;
    pos_min_max = some (1, 4);
  };
  rows = row 97 1 ∷ row 97 4 ∷ [];
}

abbrev second_group : RowGroup
second_group = record {
  metadata = record {
    path_stats_set = true;
    path_min_max = some (97 ∷ [], 98 ∷ []);
    pos_stats_set = true;
    pos_min_max = some (0, 7);
  };
  rows = row 97 7 ∷ row 98 0 ∷ [];
}

abbrev pub two_groups : DeleteFile
two_groups = record {
  num_columns = 2;
  column_0_type = byte_array;
  column_1_type = int64;
  row_groups = first_group ∷ second_group ∷ [];
}

-- One row group without statistics.
abbrev pub one_group : DeleteFile
one_group = record {
  num_columns = 3;
  column_0_type = byte_array;
  column_1_type = int64;
  row_groups =
      record {
        metadata = record {
          path_stats_set = false;
          path_min_max = none;
          pos_stats_set = false;
          pos_min_max = none;
        };
        rows = row 97 4 ∷ row 97 5 ∷ [];
      }
      ∷ [];
}

abbrev pub files : List (ℤ × DeleteFile)
files = (pos 1, two_groups) ∷ (pos 2, one_group) ∷ []

abbrev pub readers : List Reader
readers =
    start (pos 1) first_group (second_group ∷ [])
    ∷ start (pos 2)
        (record {
          metadata = record {
            path_stats_set = false;
            path_min_max = none;
            pos_stats_set = false;
            pos_min_max = none;
          };
          rows = row 97 4 ∷ row 97 5 ∷ [];
        })
        []
    ∷ []

pub files_open : open_files files ≡ ok readers
unfolding open_files
files_open = refl

pub two_groups_valid : FileIsValid two_groups
unfolding before metadata_position ltb_bytes eqb_bytes
two_groups_valid = ground arith

pub one_group_valid : FileIsValid one_group
unfolding before metadata_position ltb_bytes eqb_bytes
one_group_valid = ground arith
