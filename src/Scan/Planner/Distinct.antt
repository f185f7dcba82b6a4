-- ===== src/Scan/Planner/Distinct.antt =====
-- When `HandlePartition` of iceberg/tea_scan.cpp refuses a data file: its path was collected before.
use iceberg_cxx.Common.{
  ℕ, ◌≡◌, refl, sym, ◌∙◌, ap, Bool, true, false, not, ◌&&◌, ◌||◌, List, [], ◌∷◌, ◌++◌, arith,
  Result, err, ok, Bool-cases, eq_of_ok-eq-ok, inl, inr,
}
use iceberg_cxx.Common.OrderedMap.{update}
use iceberg_cxx.Common.OrderedMap.Keys.{contains, contains-update}
use iceberg_cxx.Filter.Value.{Bytes}
use iceberg_cxx.Filter.Order.{eqb_bytes}
use iceberg_cxx.Scan.{DataEntry, ScanError, execution_error}
use iceberg_cxx.Scan.MapKeys.{key_order}
use iceberg_cxx.Scan.Planner.{no_data, DataByPath, collect_data}

-- The call answers a value if the test is true, and otherwise the error of the planner.
abbrev pub Succeeds : {A : Type 0} → Bool → Result ScanError A → Type 0
Succeeds {A = A} true result = (a : A) × (result ≡ ok a)
Succeeds {A = A} false result = result ≡ err execution_error

unfoldable pub has_path : Bytes → List DataEntry → Bool
has_path path [] = false
has_path path (e ∷ entries) = eqb_bytes path e.path || has_path path entries

-- No two data files have the same path.
unfoldable pub distinct_paths : List DataEntry → Bool
distinct_paths [] = true
distinct_paths (e ∷ entries) = not (has_path e.path entries) && distinct_paths entries

unfoldable pub avoids : DataByPath → List DataEntry → Bool
avoids by_path [] = true
avoids by_path (e ∷ entries) = not (contains key_order e.path by_path) && avoids by_path entries

unfoldable pub fits : DataByPath → List DataEntry → Bool
fits by_path entries = avoids by_path entries && distinct_paths entries

avoids-update :
    (path : Bytes) (value : DataEntry × ℕ) (by_path : DataByPath) (entries : List DataEntry)
    → avoids (update key_order no_data path (λ old. value) by_path) entries
      ≡ (not (has_path path entries) && avoids by_path entries)
unfolding avoids has_path
avoids-update path value by_path [] = refl
avoids-update path value by_path (e ∷ entries) = ground (
  arith,
  avoids-update path value by_path entries,
  contains-update key_order no_data e.path path (λ old. value) by_path,
)

fits-update :
    (e : DataEntry) (n : ℕ) (by_path : DataByPath) (entries : List DataEntry)
    → contains key_order e.path by_path ≡ false
    → fits by_path (e ∷ entries)
      ≡ fits (update key_order no_data e.path (λ old. (e, n)) by_path) entries
unfolding fits avoids distinct_paths
fits-update e n by_path entries absent = ground (arith, avoids-update e.path (e, n) by_path entries)

fits-present :
    (e : DataEntry) (by_path : DataByPath) (entries : List DataEntry)
    → contains key_order e.path by_path ≡ true
    → fits by_path (e ∷ entries) ≡ false
unfolding fits avoids
fits-present e by_path entries present = ground arith

pub collect_data-Succeeds :
    (n : ℕ) (entries : List DataEntry) (by_path : DataByPath)
    → Succeeds (fits by_path entries) (collect_data n entries by_path)
unfolding collect_data
collect_data-Succeeds n [] by_path =
    unfold fits in unfold avoids in unfold distinct_paths in (by_path, refl)
collect_data-Succeeds n (e ∷ entries) by_path =
    elim (Bool-cases (contains key_order e.path by_path)) [
      | inl present ↦ rw (present, fits-present e by_path entries present) refl
      | inr absent ↦
          rw (absent, fits-update e n by_path entries absent)
            (collect_data-Succeeds n entries
              (update key_order no_data e.path (λ old. (e, n)) by_path))
    ]

-- What more data files fit, after some were collected.
pub fits-collect_data :
    (n : ℕ) (xs ys : List DataEntry) (by_path : DataByPath) {out : DataByPath}
    → collect_data n xs by_path ≡ ok out
    → fits by_path (xs ++ ys) ≡ fits out ys
unfolding collect_data
fits-collect_data n [] ys by_path run = ap (λ m. fits m ys) (eq_of_ok-eq-ok run)
fits-collect_data n (e ∷ xs) ys by_path run =
    elim (Bool-cases (contains key_order e.path by_path)) [
      | inl present ↦ let wrong = rw present at run in cc
      | inr absent ↦
          fits-update e n by_path (xs ++ ys) absent
          ∙ fits-collect_data n xs ys (update key_order no_data e.path (λ old. (e, n)) by_path)
              (rw absent at run)
    ]

pub fits-append :
    (n : ℕ) (xs ys : List DataEntry) (by_path : DataByPath)
    → fits by_path xs ≡ false
    → fits by_path (xs ++ ys) ≡ false
fits-append n [] ys by_path h = unfold fits in unfold avoids in unfold distinct_paths in cc
fits-append n (e ∷ xs) ys by_path h = elim (Bool-cases (contains key_order e.path by_path)) [
  | inl present ↦ fits-present e by_path (xs ++ ys) present
  | inr absent ↦
      fits-update e n by_path (xs ++ ys) absent
      ∙ fits-append n xs ys (update key_order no_data e.path (λ old. (e, n)) by_path)
          (sym (fits-update e n by_path xs absent) ∙ h)
]
