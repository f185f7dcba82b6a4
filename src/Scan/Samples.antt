-- ===== src/Scan/Samples.antt =====
-- The partition of the comment on `FindBucketLowerBounds` in iceberg/tea_scan.cpp, with a second layer
-- whose delete is for no data file.
use iceberg_cxx.Common.{ℕ, true, false, none, some, List, [], ◌∷◌, zero, suc}
use iceberg_cxx.Common.Int.{ℤ, pos}
use iceberg_cxx.Filter.Value.{Bytes}
use iceberg_cxx.Scan.{
  DataEntry, PositionalDeleteWithExtraInfo, LayerWithExtraInfo, empty_layer, DeletionVectorInfo,
  EqualityDeleteInfo, Layer,
}
use iceberg_cxx.Scan.Dangling.{Partitions, Layers}
use iceberg_cxx.Scan.Planner.{Planner}
use iceberg_cxx.Scan.Builder.{
  added, FileContent, data_content, position_deletes, equality_deletes, DataFile, Arrival, Builder,
}

abbrev pub path_at : ℕ → Bytes
path_at c = c ∷ []

abbrev pub data_at : ℕ → DataEntry
data_at c = record { path = path_at c; parts = []; dv = none }

abbrev pub delete_for : ℕ → ℕ → ℕ → PositionalDeleteWithExtraInfo
delete_for name low high = record {
  positional_delete = record { path = path_at name };
  min_max_referenced_path = some (path_at low, path_at high);
}

abbrev pub first_layer : LayerWithExtraInfo
first_layer = record empty_layer {
  data_entries = data_at b'B' ∷ data_at b'D' ∷ data_at b'F' ∷ [];
  positional_delete_entries = delete_for 1 b'A' b'C' ∷ delete_for 2 b'E' b'G' ∷ [];
}

abbrev pub second_layer : LayerWithExtraInfo
second_layer = record empty_layer {
  data_entries = data_at b'C' ∷ [];
  positional_delete_entries = delete_for 3 b'X' b'Z' ∷ delete_for 4 b'B' b'C' ∷ [];
}

abbrev pub two_layers : List LayerWithExtraInfo
two_layers = first_layer ∷ second_layer ∷ []

abbrev pub one_partition : Partitions
one_partition = ([], (pos 1, first_layer) ∷ (pos 2, second_layer) ∷ []) ∷ []

abbrev pub plain_file : FileContent → Bytes → DataFile
plain_file content path = record {
  content = content;
  file_path = path;
  file_format = [];
  split_offsets = [];
  lower_bounds = [];
  upper_bounds = [];
  equality_ids = [];
  referenced_data_file = none;
  content_offset = none;
  content_size_in_bytes = none;
}

abbrev pub arrival : ℕ → DataFile → Arrival
arrival number file = record {
  specs = false ∷ true ∷ [];
  key = path_at b'k';
  entry = record { status = added; sequence_number = some (pos number); data_file = file };
}

-- A positional delete and an equality delete of the second sequence number, and a data file of the
-- first.
abbrev pub three_arrivals : List Arrival
three_arrivals =
    arrival 2 (plain_file position_deletes (path_at b'p'))
    ∷ arrival 1 (plain_file data_content (path_at b'd'))
    ∷ arrival 2 (plain_file equality_deletes (path_at b'e'))
    ∷ []

abbrev pub layer_one : LayerWithExtraInfo
layer_one = record empty_layer {
  data_entries =
      record { path = path_at b'd'; parts = record { offset = 4; length = 0 } ∷ []; dv = none }
      ∷ [];
  equality_delete_entries = record { path = path_at b'e'; field_ids = [] } ∷ [];
}

abbrev pub layer_two : LayerWithExtraInfo
layer_two = record empty_layer {
  positional_delete_entries =
      record { positional_delete = record { path = path_at b'p' }; min_max_referenced_path = none }
      ∷ [];
}

abbrev pub three_stored : Builder
three_stored = record {
  partitions = (path_at b'k', (pos 1, layer_one) ∷ (pos 2, layer_two) ∷ []) ∷ [];
  global_equality_deletes = [];
}

abbrev pub stored_entry : DataEntry
stored_entry = record {
  path = path_at b'd';
  parts = record { offset = 4; length = 0 } ∷ [];
  dv = none;
}

abbrev pub stored_delete : PositionalDeleteWithExtraInfo
stored_delete = record {
  positional_delete = record { path = path_at b'p' };
  min_max_referenced_path = none;
}

abbrev pub vector_for_d : DeletionVectorInfo
vector_for_d = record {
  path = path_at b'v';
  offset = pos 4;
  length = pos 40;
  referenced_data_file = path_at b'd';
}

-- The data file of the first layer has a vector in the second.
abbrev pub vector_layers : Layers
vector_layers =
    (pos 1, record empty_layer { data_entries = data_at b'd' ∷ [] })
    ∷ (pos 2, record empty_layer { dv_entries = (path_at b'd', vector_for_d) ∷ [] })
    ∷ []

abbrev pub global_deletes : List (ℤ × List EqualityDeleteInfo)
global_deletes = (pos 2, record { path = path_at b'e'; field_ids = pos 1 ∷ [] } ∷ []) ∷ []

abbrev pub repeated : ℕ → Bytes
repeated zero = []
repeated (suc n) = b'x' ∷ repeated n

abbrev pub ninety_bytes : Bytes
ninety_bytes = repeated 90

-- A delete file that refers to a data file, and two data files.
abbrev pub annotated_arrivals : List Arrival
annotated_arrivals =
    arrival 2 (record (plain_file position_deletes (path_at b'p')) {
      referenced_data_file = some (path_at b'd');
    })
    ∷ arrival 1 (plain_file data_content (path_at b'd'))
    ∷ arrival 1 (plain_file data_content (path_at b'e'))
    ∷ []

abbrev pub four_byte_file : ℕ → DataEntry
four_byte_file c = record {
  path = path_at c;
  parts = record { offset = 4; length = 0 } ∷ [];
  dv = none;
}

abbrev pub annotated_planner : Planner
annotated_planner = record {
  builder = record {
    partitions =
        (
          path_at b'k',
          (
            pos 1,
            record empty_layer { data_entries = four_byte_file b'd' ∷ four_byte_file b'e' ∷ [] },
          )
              ∷ (
                pos 2,
                record empty_layer {
                  positional_delete_entries =
                      record {
                        positional_delete = record { path = path_at b'p' };
                        min_max_referenced_path = none;
                      }
                      ∷ [];
                },
              )
              ∷ [],
        )
        ∷ [];
    global_equality_deletes = [];
  };
  referenced_paths = (path_at b'p', path_at b'd') ∷ [];
  all_annotated = true;
  has_equality_delete = false;
  has_referenced_data_file = true;
}

abbrev pub annotated_plan : List (List Layer)
annotated_plan =
    (record {
      data_entries = four_byte_file b'd' ∷ four_byte_file b'e' ∷ [];
      positional_delete_entries = [];
      equality_delete_entries = [];
    }
      ∷ record {
        data_entries = [];
        positional_delete_entries = record { path = path_at b'p' } ∷ [];
        equality_delete_entries = [];
      }
      ∷ [])
    ∷ []

-- The second data file, then the first with its delete.
abbrev pub regrouped_plan : List (List Layer)
regrouped_plan =
    (record {
      data_entries = four_byte_file b'e' ∷ [];
      positional_delete_entries = [];
      equality_delete_entries = [];
    }
      ∷ [])
    ∷ (record {
      data_entries = four_byte_file b'd' ∷ [];
      positional_delete_entries = record { path = path_at b'p' } ∷ [];
      equality_delete_entries = [];
    }
        ∷ [])
    ∷ []
