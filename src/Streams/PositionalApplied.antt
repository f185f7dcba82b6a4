-- ===== src/Streams/PositionalApplied.antt =====
-- What ReadNext of iceberg/streams/iceberg/positional_delete_applier.h leaves of a batch.
use iceberg_cxx.Common.{
  ℕ, suc, ◌+◌, ◌-◌, ◌≤◌, ◌<◌, ◌≡◌, refl, sym, ap, ◌∙◌, Bool, true, not, ◌&&◌, Option, none, some,
  List, [], ◌∷◌, arith, ltb, leb, All,
}
use mathlib.Core.Path.{subst}
use iceberg_cxx.Common.Int.{ℤ}
use iceberg_cxx.Filter.Value.{Bytes}
use iceberg_cxx.Selection.{select}
use iceberg_cxx.Selection.Filtered.{contains, AtLeast, Ascending, delete_if_equal-select}
use iceberg_cxx.PositionalDelete.Reader.{DeleteFile, Query}
use iceberg_cxx.PositionalDelete.Queue.{DeleteStream, in_order}
use iceberg_cxx.PositionalDelete.Rows.{Rising, removes}
use iceberg_cxx.PositionalDelete.States.{in_range}
use iceberg_cxx.PositionalDelete.Stream.{
  StreamIsValid, Answers, get_deleted-keeps, Agrees, Ahead, in_order-Ahead, Ahead-later,
  in_range-Answers,
}
use iceberg_cxx.PositionalDelete.Files.{deleted_by}
use iceberg_cxx.Streams.PositionalApplier.{
  Batch, PositionalDeletes, entries_at, get_delete_urls, CurrentState, Applier, relative_rows,
  query_of, state_behind, with_deleted, apply_deletes, open_layers,
}

-- Every row is found at or behind the first one.
abbrev StartsAt : ℕ → List ℕ → Type 0
StartsAt first rows = All (λ row. first ≤ row) rows

found-All :
    (first : ℕ) (rows all : List ℕ)
    → ((x : ℕ) → contains rows x ≡ true → contains all x ≡ true)
    → ((x : ℕ) → contains all x ≡ true → first ≤ x)
    → StartsAt first rows
unfolding contains
found-All first [] all h k = tt
found-All first (row ∷ rows) all h k =
    (k row (h row (ground arith)), found-All first rows all (λ x e. h x (ground arith)) k)

relative-AtLeast :
    (first x : ℕ) (rows : List ℕ)
    → first ≤ x
    → AtLeast (suc x) rows
    → AtLeast (x - first) (relative_rows first rows)
relative-AtLeast first x [] h a = tt
relative-AtLeast first x (row ∷ rows) h (a, b) = (omega arith, relative-AtLeast first x rows h b)

relative-Ascending :
    (first : ℕ) (rows : List ℕ)
    → Rising rows
    → StartsAt first rows
    → Ascending (relative_rows first rows)
relative-Ascending first [] r s = tt
relative-Ascending first (row ∷ rows) (a, r) (h, s) =
    (relative-AtLeast first row rows h a, relative-Ascending first rows r s)

relative-contains :
    (first : ℕ) (rows : List ℕ) (i : ℕ)
    → StartsAt first rows
    → contains (relative_rows first rows) i ≡ contains rows (first + i)
unfolding contains
relative-contains first [] i s = refl
relative-contains first (row ∷ rows) i (h, s) = ground (arith, relative-contains first rows i s)

select-All : (p q : ℕ → Bool) (xs : List ℕ) → All (λ i. p i ≡ q i) xs → select p xs ≡ select q xs
unfolding select
select-All p q [] a = refl
select-All p q (x ∷ xs) (h, a) = rw (h, select-All p q xs a) refl

-- The rows of a batch that are left when those that the test finds are deleted.
abbrev pub deleting : (ℕ → Bool) → Batch → Batch
deleting deleted b = record b {
  selection_vector = record {
    indices = select (λ i. not (deleted (b.row_position + i))) b.selection_vector.indices;
  };
}

-- The rows that are selected are ascending rows of the batch.
abbrev pub BatchIsValid : Batch → Type 0
BatchIsValid b =
    Ascending b.selection_vector.indices × All (λ i. i < b.num_rows) b.selection_vector.indices

begins : (first end x : ℕ) (d : Bool) → true ≡ ((leb first x && ltb x end) && d) → first ≤ x
begins first end x d h = ground arith

inside :
    (first n i : ℕ) (d : Bool)
    → i < n
    → ((leb first (first + i) && ltb (first + i) (first + n)) && d) ≡ d
inside first n i d h = ground arith

All-map : {P Q : ℕ → Type 0} (xs : List ℕ) → ((x : ℕ) → P x → Q x) → All P xs → All Q xs
All-map [] h a = tt
All-map (x ∷ xs) h (a, b) = (h x a, All-map xs h b)

pub with_deleted-deleting :
    (b : Batch) (deleted : ℕ → Bool) (rows : List ℕ)
    → BatchIsValid b
    → Answers (query_of b) deleted rows
    → with_deleted b rows ≡ deleting deleted b
unfolding in_range
with_deleted-deleting b deleted rows (ascending, small) (rising, all) =
    let starts : StartsAt b.row_position rows =
      found-All b.row_position rows rows (λ x e. e)
        (λ x e.
          begins b.row_position (b.row_position + b.num_rows) x (deleted x) (sym e ∙ all x)) in
    ap (λ v. record b { selection_vector = v.0 })
      (delete_if_equal-select b.selection_vector (relative_rows b.row_position rows) ascending
        (relative-Ascending b.row_position rows rising starts))
    ∙ ap (λ v. record b { selection_vector = record { indices = v } })
        (select-All (λ i. not (contains (relative_rows b.row_position rows) i))
          (λ i. not (deleted (b.row_position + i))) b.selection_vector.indices
          (All-map b.selection_vector.indices
            (λ i small. ap not (
              relative-contains b.row_position rows i starts
              ∙ all (b.row_position + i)
              ∙ inside b.row_position b.num_rows i (deleted (b.row_position + i)) small))
            small))

-- The files of a partition; a partition without an entry has none.
unfoldable pub files_of :
    (Bytes → Option DeleteFile) → PositionalDeletes → ℤ → Option (List (ℤ × DeleteFile))
files_of open_parquet infos partition = elim (entries_at infos partition) [
  | none ↦ some []
  | some entries ↦ open_layers open_parquet (get_delete_urls entries)
]

-- What the state of an applier says of the stream: it was opened for the files of the partition, its
-- last query ends where the last batch ends, and it still tells the deletes behind that.
abbrev pub Follows :
    (Bytes → Option DeleteFile) → PositionalDeletes → CurrentState → DeleteStream → Type 0
Follows open_parquet infos c s =
    (files : List (ℤ × DeleteFile)) × (files_of open_parquet infos c.partition ≡ some files)
    × StreamIsValid s
    × (l : Query) × (s.last_query ≡ some l)
    × (l.url ≡ c.path)
    × (l.end ≡ c.row_position)
    × ((layer : ℤ) → Agrees (deleted_by layer files) layer s)

abbrev pub ApplierFollows :
    (Bytes → Option DeleteFile)
    → PositionalDeletes
    → Option CurrentState
    → Option DeleteStream
    → Type 0
ApplierFollows open_parquet infos none s = Unit
ApplierFollows open_parquet infos (some c) none = ⊥
ApplierFollows open_parquet infos (some c) (some s) = Follows open_parquet infos c s

unfoldable pub ApplierIsValid : (Bytes → Option DeleteFile) → PositionalDeletes → Applier → Type 0
ApplierIsValid open_parquet infos a =
    ApplierFollows open_parquet infos a.current_state a.positional_delete

-- What a call that deletes rows gives.
abbrev pub Applied :
    (Bytes → Option DeleteFile)
    → PositionalDeletes
    → List (ℤ × DeleteFile)
    → Batch
    → Option (Applier × Batch)
    → Type 0
Applied open_parquet infos files b out =
    (a' : Applier) × (out ≡ some (a', deleting (deleted_by b.layer files b.path) b))
    × ApplierIsValid open_parquet infos a'

module _ (open_parquet : Bytes → Option DeleteFile) (infos : PositionalDeletes)
    (files : List (ℤ × DeleteFile)) (b : Batch) (batch_valid : BatchIsValid b)
    (loads : files_of open_parquet infos b.partition ≡ some files) where
  -- A stream that is not behind the batch deletes the rows of it that the files delete.
  pub apply_deletes-Applied :
      (a : Applier) (s : DeleteStream)
      → StreamIsValid s
      → in_order s.last_query (query_of b) ≡ true
      → ((layer : ℤ) → Agrees (deleted_by layer files) layer s)
      → Applied open_parquet infos files b (apply_deletes b a (some s))
  unfolding apply_deletes ApplierIsValid
  apply_deletes-Applied a s v e agrees =
      let q = query_of b in
      let (s', rows, f, all, v', last, keep) = get_deleted-keeps q b.layer s v (omega arith) e in
      let answers =
        in_range-Answers q (λ i. removes b.layer b.path i s.queue) (deleted_by b.layer files b.path)
          rows (λ i k. agrees b.layer b.path i (in_order-Ahead s.last_query q i e k)) all in
      (
        record { current_state = some (state_behind b); positional_delete = some s' },
        rw (apply_deletes, f)
            (ap
              (λ v.
                some (
                  record { current_state = some (state_behind b); positional_delete = some s' },
                  v,
                ))
              (with_deleted-deleting b (deleted_by b.layer files b.path) rows batch_valid answers)),
        (
          files,
          loads,
          v',
          q,
          last,
          refl,
          refl,
          λ layer p i k.
              let ahead = subst (λ l. Ahead l p i) last k in
              keep layer p i ahead
              ∙ agrees layer p i (Ahead-later s.last_query q p i (omega arith) e ahead),
        ),
      )
