-- ===== src/Streams/VectorApplier.antt =====
-- DeletionVectorApplier of iceberg/streams/iceberg/deletion_vector_applier.h. `none` is an exception.
use iceberg_cxx.Common.{
  ℕ, ◌+◌, ◌-◌, ◌%◌, ◌≤◌, ◌<◌, ◌≡◌, refl, sym, ap, ◌∙◌, Bool, false, ◌&&◌, Option, none, some, List,
  [], ◌∷◌, arith, ltb, leb, if◌then◌else◌,
}
use iceberg_cxx.Common.Options.{◌>>=◌}
use iceberg_cxx.Selection.{delete_if_equal}
use iceberg_cxx.Selection.Filtered.{contains, Ascending, delete_if_equal-select}
use iceberg_cxx.PositionalDelete.States.{in_range}
use iceberg_cxx.DeletionVector.{BitmapLibrary, sub_u64, get_elems}
use iceberg_cxx.DeletionVector.Elements.{BitmapLaws, get_elems-contains, get_elems-Rising}
use iceberg_cxx.Streams.PositionalApplier.{Batch, relative_rows, with_deleted}
use iceberg_cxx.Streams.PositionalApplied.{BatchIsValid, deleting, with_deleted-deleting}
use iceberg_cxx.Streams.PositionalReads.{select-everything}

abbrev int32_max : ℕ
int32_max = 2147483647

allowed :
    (s n : ℕ) (rows : List ℕ)
    → 0 < n
    → n ≤ 2147483648
    → s + n < 18446744073709551616
    → (if leb (sub_u64 (s + n - 1) s) int32_max then some rows else none) ≡ some rows
allowed s n rows h k f = ground arith

until_last :
    (s n i : ℕ) (c : Bool)
    → 0 < n
    → (leb s i && leb i (s + n - 1) && c) ≡ ((leb s i && ltb i (s + n)) && c)
until_last s n i c h = ground arith

too_large :
    (s n : ℕ)
    → n ≡ 0
    → s < 18446744073709551616
    → leb (sub_u64 (sub_u64 ((s + n) % 18446744073709551616) 1) s) int32_max ≡ false
too_large s n h k = ground arith

module _ (lib : BitmapLibrary) where
  -- `GetRelativeElems`; the difference of two unsigned numbers wraps around.
  unfoldable pub get_relative_elems : lib.Bitmap → ℕ → ℕ → Option (List ℕ)
  unfolding get_elems
  get_relative_elems dv start end =
      if leb (sub_u64 end start) int32_max
      then some (relative_rows start (get_elems lib dv start end))
      else none

  abbrev remove : Batch → List ℕ → Batch
  remove b [] = b
  remove b (row ∷ rows) = record b {
    selection_vector = (delete_if_equal b.selection_vector (row ∷ rows)).0;
  }

  -- `ApplyDeletionVector`: the last row of the batch is an unsigned number, too.
  unfoldable pub apply_deletion_vector : lib.Bitmap → Batch → Option Batch
  unfolding get_relative_elems delete_if_equal
  apply_deletion_vector dv b = do
    rows ←
        get_relative_elems dv b.row_position
          (sub_u64 ((b.row_position + b.num_rows) % 18446744073709551616) 1)
    some (remove b rows)

  remove-with_deleted :
      (b : Batch) (rows : List ℕ)
      → Ascending b.selection_vector.indices
      → remove b (relative_rows b.row_position rows) ≡ with_deleted b rows
  unfolding contains
  remove-with_deleted b [] a = sym (
      ap (λ v. record b { selection_vector = v.0 })
        (delete_if_equal-select b.selection_vector [] a tt)
      ∙ ap (λ v. record b { selection_vector = record { indices = v } })
          (select-everything b.selection_vector.indices))
  remove-with_deleted b (row ∷ rows) a = refl

  module _ (elements : lib.Bitmap → List ℕ) (laws : BitmapLaws lib elements) where
    -- From a batch with rows, at most 2 ^ 31 of them, and whose positions fit in 64 bits, the applier
    -- deletes the rows whose positions the deletion vector contains, and no others, if the selected
    -- rows are ascending rows of the batch and the bitmaps keep their laws.
    pub apply_deletion_vector-deleting :
        (dv : lib.Bitmap) (b : Batch)
        → BatchIsValid b
        → 0 < b.num_rows
        → b.num_rows ≤ 2147483648
        → b.row_position + b.num_rows < 18446744073709551616
        → apply_deletion_vector dv b ≡ some (deleting (lib.contains_in dv) b)
    unfolding apply_deletion_vector get_relative_elems in_range
    apply_deletion_vector-deleting dv b valid some_row few fits =
        let last = b.row_position + b.num_rows - 1 in
        let rows = get_elems lib dv b.row_position last in
        let at_last : sub_u64 ((b.row_position + b.num_rows) % 18446744073709551616) 1 ≡ last =
          omega arith in
        let found : get_relative_elems dv b.row_position last
            ≡ some (relative_rows b.row_position rows) =
          allowed b.row_position b.num_rows (relative_rows b.row_position rows) some_row few fits in
        ap (λ v. get_relative_elems dv b.row_position v >>= (λ r. some (remove b r))) at_last
        ∙ ap (λ o. o >>= (λ r. some (remove b r))) found
        ∙ ap some (
            remove-with_deleted b rows valid.0
            ∙ with_deleted-deleting b (lib.contains_in dv) rows valid (
              get_elems-Rising lib elements laws dv b.row_position last,
              λ i.
                  get_elems-contains lib elements laws dv b.row_position last i
                  ∙ until_last b.row_position b.num_rows i (lib.contains_in dv i) some_row,
            ))

  -- A batch without rows is refused, whatever the deletion vector holds: the position of its last row
  -- is before its first, and the unsigned difference of them is too large.
  pub apply_deletion_vector-no_rows :
      (dv : lib.Bitmap) (b : Batch)
      → b.num_rows ≡ 0
      → b.row_position < 18446744073709551616
      → apply_deletion_vector dv b ≡ none
  unfolding apply_deletion_vector get_relative_elems
  apply_deletion_vector-no_rows dv b h k =
      ap
        (λ c.
          (if c
            then some (
                relative_rows b.row_position (
                  get_elems lib dv b.row_position
                    (sub_u64 ((b.row_position + b.num_rows) % 18446744073709551616) 1)))
            else none)
          >>= (λ r. some (remove b r)))
        (too_large b.row_position b.num_rows h k)
