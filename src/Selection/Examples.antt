-- ===== src/Selection/Examples.antt =====
-- Tests of the selection vector (iceberg/common/selection_vector.h), and its theorems at concrete
-- inputs.
use iceberg_cxx.Common.{◌≡◌, refl, [], ◌∷◌, arith, not}
use iceberg_cxx.Selection.{SelectionVector, keep_if_equal, delete_if_equal, select}
use iceberg_cxx.Selection.InPlace.{outcome}
use iceberg_cxx.Selection.Filtered.{
  contains, Ascending, keep_if_equal-select, delete_if_equal-select, IsSelection,
}

abbrev rows : SelectionVector
rows = record { indices = 1 ∷ 3 ∷ 4 ∷ 8 ∷ [] }

rows_deleted : delete_if_equal rows (0 ∷ 3 ∷ 3 ∷ 5 ∷ []) ≡ (record { indices = 1 ∷ 4 ∷ 8 ∷ [] }, 1)
unfolding delete_if_equal
rows_deleted = refl

rows_kept : keep_if_equal rows (0 ∷ 3 ∷ 4 ∷ 9 ∷ []) ≡ (record { indices = 3 ∷ 4 ∷ [] }, 2)
unfolding keep_if_equal
rows_kept = refl

rows-Ascending : Ascending (1 ∷ 3 ∷ 4 ∷ 8 ∷ [])
rows-Ascending = (
  (omega arith, (omega arith, (omega arith, tt))),
  ((omega arith, (omega arith, tt)), ((omega arith, tt), (tt, tt))),
)

values-Ascending : Ascending (3 ∷ 5 ∷ [])
values-Ascending = ((omega arith, tt), (tt, tt))

rows-IsSelection : IsSelection rows
unfolding IsSelection
rows-IsSelection = rows-Ascending

keep_if_equal-select_example :
    keep_if_equal rows (3 ∷ 5 ∷ [])
    ≡ outcome rows (select (contains (3 ∷ 5 ∷ [])) (1 ∷ 3 ∷ 4 ∷ 8 ∷ []))
keep_if_equal-select_example =
    keep_if_equal-select rows (3 ∷ 5 ∷ []) rows-Ascending values-Ascending

delete_if_equal-select_example :
    delete_if_equal rows (3 ∷ 5 ∷ [])
    ≡ outcome rows (select (λ x. not (contains (3 ∷ 5 ∷ []) x)) (1 ∷ 3 ∷ 4 ∷ 8 ∷ []))
delete_if_equal-select_example =
    delete_if_equal-select rows (3 ∷ 5 ∷ []) rows-Ascending values-Ascending
