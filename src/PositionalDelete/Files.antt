-- ===== src/PositionalDelete/Files.antt =====
-- The files that the constructor of PositionalDeleteStream of
-- iceberg/positional_delete/positional_delete.cpp opens, and what the stream tells of them.
use iceberg_cxx.Common.{
  ℕ, ◌≡◌, sym, ap, ◌∙◌, Bool, true, false, not, ◌&&◌, ◌||◌, Option, none, some, List, [], ◌∷◌, All,
  Result, ok, err, >>=-eq-ok, eq_of_ok-eq-ok, if◌then◌else◌, ◌==◌,
}
use mathlib.Core.Path.{subst}
use iceberg_cxx.Common.Int.{ℤ, leb_ℤ}
use iceberg_cxx.Filter.Value.{Bytes}
use iceberg_cxx.PositionalDelete.Position.{Row}
use iceberg_cxx.PositionalDelete.Reader.{
  Reader, Query, DeleteFile, RowGroup, ReaderError, open_reader, next_row_group, is_int64,
  is_byte_array, unexpected_column_1_type, unexpected_column_0_type, unexpected_number_of_columns,
}
use iceberg_cxx.PositionalDelete.Queue.{DeleteStream, DeleteRows, open_files, enqueue}
use iceberg_cxx.PositionalDelete.Valid.{
  IsValid, Sorted, AreDescribed, rows_of, has_row, pending_after, next_row_group-pending,
  next_row_group-IsValid,
}
use iceberg_cxx.PositionalDelete.Steps.{layer_after, next_row_group-layer}
use iceberg_cxx.PositionalDelete.Rows.{removes}
use iceberg_cxx.PositionalDelete.Merge.{removes-enqueue, All-enqueue}
use iceberg_cxx.PositionalDelete.Stream.{StreamIsValid, Ascends, AllAnswers, run, run-Agrees}

-- A file as Iceberg asks of one: its records are sorted, its statistics hold.
abbrev pub FileIsValid : DeleteFile → Type 0
FileIsValid f = Sorted (rows_of f.row_groups) × AreDescribed f.row_groups

-- Some file of a layer that counts has the row among its records.
unfoldable pub deleted_by : ℤ → List (ℤ × DeleteFile) → Bytes → ℕ → Bool
deleted_by data_layer [] p i = false
deleted_by data_layer ((layer, f) ∷ fs) p i =
    (leb_ℤ data_layer layer && has_row p i (rows_of f.row_groups)) || deleted_by data_layer fs p i

abbrev pub opened : List Reader → DeleteStream
opened queue = record { queue = queue; last_query = none }

passes-check :
    (failed : Bool) (e : ReaderError) (rest : Result ReaderError (List RowGroup))
    {gs : List RowGroup}
    → (if failed then err e else rest) ≡ ok gs
    → rest ≡ ok gs
passes-check true e rest h = cc
passes-check false e rest h = h

open_reader-row_groups :
    (f : DeleteFile) (gs : List RowGroup) → open_reader f ≡ ok gs → f.row_groups ≡ gs
unfolding open_reader
open_reader-row_groups f gs e = eq_of_ok-eq-ok (
    passes-check (not (is_int64 f.column_1_type)) unexpected_column_1_type (ok f.row_groups) (
      passes-check (not (is_byte_array f.column_0_type)) unexpected_column_0_type _ (
        passes-check (not (f.num_columns == 2 || f.num_columns == 3)) unexpected_number_of_columns _
          e)))

file_removes :
    (data_layer layer : ℤ) (p : Bytes) (i : ℕ) (first : Option Reader) (rows : List Row)
    {b c : Bool}
    → layer_after layer first ≡ layer
    → pending_after first ≡ rows
    → b ≡ c
    → ((leb_ℤ data_layer (layer_after layer first) && has_row p i (pending_after first)) || b)
      ≡ ((leb_ℤ data_layer layer && has_row p i rows) || c)
file_removes data_layer layer p i first rows {b = b} e k h =
    ap (λ l. (leb_ℤ data_layer l && has_row p i (pending_after first)) || b) e
    ∙ ap (λ rs. (leb_ℤ data_layer layer && has_row p i rs) || b) k
    ∙ ap (λ d. (leb_ℤ data_layer layer && has_row p i rows) || d) h

pub open_files-opens :
    (files : List (ℤ × DeleteFile)) (queue : List Reader)
    → All (λ f. FileIsValid f.1) files
    → open_files files ≡ ok queue
    → All IsValid queue
      × ((data_layer : ℤ) (p : Bytes) (i : ℕ)
          → removes data_layer p i queue ≡ deleted_by data_layer files p i)
unfolding open_files deleted_by
open_files-opens [] queue v e =
    let same : [] ≡ queue = eq_of_ok-eq-ok e in
    (subst (All IsValid) same tt, λ layer p i. ap (removes layer p i) (sym same))
open_files-opens ((layer, f) ∷ fs) queue ((sorted, described), vs) e =
    let (groups, e1, k) = >>=-eq-ok (open_reader f) _ e in
    let (rest, e2, k2) = >>=-eq-ok (open_files fs) _ k in
    let gs : f.row_groups ≡ groups = open_reader-row_groups f groups e1 in
    let first : Option Reader = next_row_group layer groups in
    let same : enqueue first rest ≡ queue = eq_of_ok-eq-ok k2 in
    let (valid, all) = open_files-opens fs rest vs e2 in
    (
      subst (All IsValid) same (
          All-enqueue IsValid first rest
            (next_row_group-IsValid layer groups (subst (λ g. Sorted (rows_of g)) gs sorted)
              (subst AreDescribed gs described))
            valid),
      λ data_layer p i.
          ap (removes data_layer p i) (sym same)
          ∙ removes-enqueue data_layer p i layer first rest
          ∙ file_removes data_layer layer p i first (rows_of f.row_groups)
              (next_row_group-layer layer groups)
              (next_row_group-pending layer groups ∙ ap rows_of (sym gs)) (all data_layer p i),
    )

-- A stream over valid files answers any sequence of queries that ascends, and answers each with the
-- rows of its range that a file of a layer that counts deletes, each once and in order.
pub run-deleted_by :
    (data_layer : ℤ) (files : List (ℤ × DeleteFile)) (queue : List Reader) (qs : List Query)
    → All (λ f. FileIsValid f.1) files
    → open_files files ≡ ok queue
    → Ascends none qs
    → (answers : List DeleteRows) × (run data_layer qs (opened queue) ≡ some answers)
      × AllAnswers (deleted_by data_layer files) qs answers
unfolding StreamIsValid
run-deleted_by data_layer files queue qs v e o =
    let (valid, all) = open_files-opens files queue v e in
    run-Agrees (deleted_by data_layer files) data_layer qs (opened queue) valid
      (λ p i k. all data_layer p i) o
