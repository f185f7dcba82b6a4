-- ===== src/DeletionVector/Examples.antt =====
-- Runs of iceberg/deletion_vector.cpp with a small bitmap library.
use iceberg_cxx.Common.{◌≡◌, refl, none, some, [], ◌∷◌, arith, length, ok}
use iceberg_cxx.Filter.Value.{Bytes}
use iceberg_cxx.Filter.Order.{eqb_bytes}
use iceberg_cxx.Selection.Filtered.{contains}
use iceberg_cxx.DeletionVector.{cardinality_in, get_elems}
use iceberg_cxx.DeletionVector.Blob.{
  BlobMetadata, blob_type, referenced_data_file, cardinality_name, get_blob, make_deletion_vector,
  find_property, stoull,
}
use iceberg_cxx.DeletionVector.RoundTrip.{BlobLaws, Describes, make_deletion_vector-get_blob}
use iceberg_cxx.DeletionVector.Elements.{cardinality_in-get_elems}
use iceberg_cxx.DeletionVector.Samples.{elements, library, library-BitmapLaws}

library-BlobLaws : BlobLaws library
library-BlobLaws = record {
  read_written = λ b. refl;
  written_size = λ b. refl;
  crc32_small = λ s. omega arith;
}

abbrev metadata : BlobMetadata
metadata = record {
  type = blob_type;
  properties = (referenced_data_file, 102 ∷ []) ∷ (cardinality_name, 51 ∷ []) ∷ [];
  compression_codec = none;
  length = 13;
}

abbrev blob : Bytes
blob = 0 ∷ 0 ∷ 0 ∷ 5 ∷ 209 ∷ 211 ∷ 57 ∷ 100 ∷ 1 ∷ 0 ∷ 0 ∷ 0 ∷ 77 ∷ []

written : get_blob library tt ≡ some (tt, blob)
unfolding get_blob
written = refl

metadata-Describes : Describes library metadata blob tt
unfolding find_property stoull cardinality_in eqb_bytes contains
metadata-Describes = record {
  is_deletion_vector = refl;
  refers = refl;
  no_codec = refl;
  no_metadata_codec = refl;
  has_length = refl;
  text = 51 ∷ [];
  counts = refl;
  count = refl;
}

make_deletion_vector-get_blob_example : make_deletion_vector library metadata blob ≡ ok tt
make_deletion_vector-get_blob_example =
    make_deletion_vector-get_blob library library-BlobLaws metadata tt tt blob written
      metadata-Describes

cardinality_in-get_elems_example : cardinality_in library tt 4 8 ≡ length (get_elems library tt 4 8)
cardinality_in-get_elems_example =
    cardinality_in-get_elems library elements library-BitmapLaws tt 4 8 (omega arith) (omega arith)
