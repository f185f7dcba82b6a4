-- ===== src/Selection.antt =====
-- The rows of a batch that are still selected: iceberg/common/selection_vector.h. A pair of
-- iterators is the list of the values between them.
pub mod InPlace
pub mod Filtered
mod Examples
use iceberg_cxx.Common.{
  ℕ, zero, suc, ◌-◌, Bool, true, false, List, [], ◌∷◌, ltb, ◌==◌, if◌then◌else◌, length, get_or,
  set, take,
}

pub record SelectionVector : Type 0 where
  pub indices : List ℕ

-- `while (current_iter != end && *current_iter < row_to_check) ++current_iter`.
unfoldable pub advance : ℕ → List ℕ → List ℕ
advance row [] = []
advance row (d ∷ ds) = if ltb d row then advance row ds else d ∷ ds

-- The vector and `result_index` after a loop.
abbrev pub Compacted : Type 0
Compacted = List ℕ × ℕ

-- The loop of `KeepIfEqual` with the rounds left, `result_index` and `index_to_check`.
unfoldable pub keep_loop : ℕ → List ℕ → ℕ → ℕ → List ℕ → Compacted
unfolding advance
keep_loop zero v result_index index current = (v, result_index)
keep_loop (suc n) v result_index index current =
    let row = get_or v index 0 in
    elim (advance row current) [
      | [] ↦ (v, result_index)
      | d ∷ ds ↦
          let kept = keep_loop n (set v result_index row) (suc result_index) (suc index) (d ∷ ds) in
          let skipped = keep_loop n v result_index (suc index) (d ∷ ds) in
          if d == row then kept else skipped
    ]

-- The inner loop of `DeleteIfEqual`, which keeps the rest.
unfoldable pub copy_loop : ℕ → List ℕ → ℕ → ℕ → Compacted
copy_loop zero v result_index index = (v, result_index)
copy_loop (suc n) v result_index index =
    copy_loop n (set v result_index (get_or v index 0)) (suc result_index) (suc index)

unfoldable pub delete_loop : ℕ → List ℕ → ℕ → ℕ → List ℕ → Compacted
unfolding advance copy_loop
delete_loop zero v result_index index current = (v, result_index)
delete_loop (suc n) v result_index index current =
    let row = get_or v index 0 in
    elim (advance row current) [
      | [] ↦ copy_loop (suc n) v result_index index
      | d ∷ ds ↦
          let kept =
            delete_loop n (set v result_index row) (suc result_index) (suc index) (d ∷ ds) in
          let skipped = delete_loop n v result_index (suc index) (d ∷ ds) in
          if d == row then skipped else kept
    ]

-- `indices_.resize(result_index)`, with the number of elements removed.
abbrev pub resized : List ℕ → Compacted → SelectionVector × ℕ
resized v (w, result_index) = (record { indices = take result_index w }, length v - result_index)

unfoldable pub keep_if_equal : SelectionVector → List ℕ → SelectionVector × ℕ
unfolding keep_loop
keep_if_equal s values = resized s.indices (keep_loop (length s.indices) s.indices 0 0 values)

unfoldable pub delete_if_equal : SelectionVector → List ℕ → SelectionVector × ℕ
unfolding delete_loop
delete_if_equal s values = resized s.indices (delete_loop (length s.indices) s.indices 0 0 values)

-- The elements for which a test holds, in order: `std::erase_if` keeps those for which it does not.
unfoldable pub select : (ℕ → Bool) → List ℕ → List ℕ
select p [] = []
select p (x ∷ xs) = let rest = select p xs in if p x then x ∷ rest else rest

unfoldable pub erase_if : (ℕ → Bool) → SelectionVector → SelectionVector × ℕ
unfolding select
erase_if p s =
    let kept = select (λ x. if p x then false else true) s.indices in
    (record { indices = kept }, length s.indices - length kept)

-- `std::iota` from 0.
unfoldable pub iota : ℕ → ℕ → List ℕ
iota first zero = []
iota first (suc n) = first ∷ iota (suc first) n

unfoldable pub set_size : ℕ → SelectionVector
unfolding iota
set_size size = record { indices = iota 0 size }

abbrev pub size : SelectionVector → ℕ
size s = length s.indices

abbrev pub index : SelectionVector → ℕ → ℕ
index s pos = get_or s.indices pos 0
