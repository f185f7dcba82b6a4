-- ===== src/Scan/Optimizer/Buckets.antt =====
-- The rest of `PositonalDeleteOptimizer`: files are put into their buckets, and the partitions that
-- can be optimized are replaced by their buckets.
use iceberg_cxx.Common.{
  ℕ, zero, suc, Bool, false, ◌&&◌, ◌||◌, not, List, [], ◌∷◌, ◌++◌, ◌==◌, if◌then◌else◌, Result, err,
  ok, ◌>>=◌, or_err,
}
use iceberg_cxx.Filter.Value.{Bytes}
use iceberg_cxx.Scan.{
  DataEntry, PositionalDeleteWithExtraInfo, LayerWithExtraInfo, is_empty, has_value, ScanError,
  internal_error, bad_optional_access,
}
use iceberg_cxx.Scan.Optimizer.{
  find_bucket_lower_bounds, calculate_bucket_by_path, append_data_file_to_bucket,
  append_delete_file_to_bucket,
}

abbrev pub Buckets : Type 0
Buckets = List (List LayerWithExtraInfo)

-- `new_partitions[group]` is replaced by what a call makes of it.
abbrev pub modify {ℓ} : {A : Type ℓ} → List A → ℕ → (A → A) → List A
modify [] i f = []
modify (x ∷ xs) zero f = f x ∷ xs
modify (x ∷ xs) (suc i) f = x ∷ modify xs i f

abbrev pub empty_buckets : List Bytes → Buckets
empty_buckets [] = []
empty_buckets (bound ∷ bounds) = [] ∷ empty_buckets bounds

unfoldable pub put_data : List Bytes → List DataEntry → Buckets → Result ScanError Buckets
put_data bounds [] buckets = ok buckets
put_data bounds (entry ∷ entries) buckets = do
  group ← calculate_bucket_by_path bounds entry.path
  put_data bounds entries (modify buckets group (λ b. append_data_file_to_bucket b entry))

unfoldable pub bucket_of_delete : List Bytes → PositionalDeleteWithExtraInfo → Result ScanError ℕ
bucket_of_delete bounds del = do
  range ← or_err del.min_max_referenced_path bad_optional_access
  bucket_1 ← calculate_bucket_by_path bounds range.0
  bucket_2 ← calculate_bucket_by_path bounds range.1
  if bucket_1 == bucket_2 then ok bucket_1 else err internal_error

unfoldable pub put_deletes :
    List Bytes → List PositionalDeleteWithExtraInfo → Buckets → Result ScanError Buckets
put_deletes bounds [] buckets = ok buckets
put_deletes bounds (del ∷ deletes) buckets = do
  group ← bucket_of_delete bounds del
  put_deletes bounds deletes (modify buckets group (λ b. append_delete_file_to_bucket b del))

unfoldable pub put_layers :
    List Bytes → List LayerWithExtraInfo → Buckets → Result ScanError Buckets
put_layers bounds [] buckets = ok buckets
put_layers bounds (layer ∷ layers) buckets = do
  with_data ← put_data bounds layer.data_entries buckets
  with_deletes ← put_deletes bounds layer.positional_delete_entries with_data
  put_layers bounds layers with_deletes

unfoldable pub redistribute_data_into_buckets :
    List Bytes → List LayerWithExtraInfo → Result ScanError Buckets
redistribute_data_into_buckets bounds partition = put_layers bounds partition (empty_buckets bounds)

abbrev pub any {ℓ} : {A : Type ℓ} → (A → Bool) → List A → Bool
any test [] = false
any test (x ∷ xs) = test x || any test xs

-- The three flags that the loop raises.
unfoldable pub can_optimize_partition : List LayerWithExtraInfo → Bool
can_optimize_partition partition =
    let has_equality_delete =
      any (λ layer. not (is_empty layer.equality_delete_entries)) partition in
    let has_positional_delete =
      any (λ layer. not (is_empty layer.positional_delete_entries)) partition in
    let has_positional_delete_without_stats =
      any
        (λ layer.
          any (λ entry. not (has_value entry.min_max_referenced_path))
            layer.positional_delete_entries)
        partition in
    has_positional_delete && not has_positional_delete_without_stats && not has_equality_delete

unfoldable pub optimize_partition : List LayerWithExtraInfo → Result ScanError Buckets
optimize_partition partition = do
  bounds ← find_bucket_lower_bounds partition
  redistribute_data_into_buckets bounds partition

unfoldable pub can_optimize : List (List LayerWithExtraInfo) → Bool
can_optimize partitions = any can_optimize_partition partitions

unfoldable pub optimize :
    List (List LayerWithExtraInfo) → Result ScanError (List (List LayerWithExtraInfo))
optimize [] = ok []
optimize (partition ∷ partitions) = do
  groups ←
      if can_optimize_partition partition then optimize_partition partition else ok (partition ∷ [])
  rest ← optimize partitions
  ok (groups ++ rest)
