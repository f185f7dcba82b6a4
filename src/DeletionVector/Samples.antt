-- ===== src/DeletionVector/Samples.antt =====
-- A bitmap library with one bitmap, that of 3, 5 and 8, in the place of the one that
-- iceberg/deletion_vector.cpp calls.
use iceberg_cxx.Common.{ℕ, refl, some, List, [], ◌∷◌, arith}
use iceberg_cxx.Selection.Filtered.{contains}
use iceberg_cxx.DeletionVector.{BitmapLibrary}
use iceberg_cxx.DeletionVector.Elements.{BitmapLaws, from, count_up_to}

abbrev pub elements : Unit {0} → List ℕ
elements b = 3 ∷ 5 ∷ 8 ∷ []

abbrev pub library : BitmapLibrary
library = record {
  Bitmap = Unit {0};
  contains_in = λ b. contains (elements b);
  rank = λ b x. count_up_to x (elements b);
  iterate = λ b l. from l (elements b);
  size_in_bytes = λ b. 1;
  shrink_to_fit = λ b. b;
  write = λ b. 1 ∷ [];
  read_safe = λ s. some tt;
  crc32 = λ s. 77;
}

pub library-BitmapLaws : BitmapLaws library elements
library-BitmapLaws = record {
  rising = λ b. ground arith;
  contains_law = λ b x. refl;
  rank_law = λ b x. refl;
  iterate_law = λ b l. refl;
}
