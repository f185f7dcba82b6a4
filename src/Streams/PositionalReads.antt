-- ===== src/Streams/PositionalReads.antt =====
-- ReadNext of iceberg/streams/iceberg/positional_delete_applier.h on any sequence of batches.
use iceberg_cxx.Common.{
  ℕ, ◌≡◌, refl, sym, ap, ◌∙◌, eq_of_some-eq-some, inl, inr, Bool, true, false, not, ◌&&◌, Option,
  none, some, List, [], ◌∷◌, arith, Bool-cases, Option-cases, All, ok,
}
use mathlib.Core.Path.{subst}
use iceberg_cxx.Common.Int.{ℤ, eqb_ℤ, eq_of_parts}
use iceberg_cxx.Common.Options.{◌>>=◌}
use iceberg_cxx.Filter.Value.{Bytes}
use iceberg_cxx.Selection.{select}
use iceberg_cxx.PositionalDelete.Position.{eqb_bytes-eq, bytes_lt_asym, bytes_lt_irrefl}
use iceberg_cxx.PositionalDelete.Reader.{DeleteFile, Query, Reader}
use iceberg_cxx.PositionalDelete.Queue.{DeleteStream, open_files, in_order}
use iceberg_cxx.PositionalDelete.Stream.{StreamIsValid, Agrees}
use iceberg_cxx.PositionalDelete.Files.{FileIsValid, deleted_by, open_files-opens, opened}
use iceberg_cxx.Streams.PositionalApplier.{
  Batch, PositionalDeletes, entries_at, get_delete_urls, CurrentState, Applier, can_reuse_state,
  paths_are_increasing, query_of, apply_deletes, open_layers, open_stream, read_next, stream_of,
}
use iceberg_cxx.Streams.PositionalApplied.{
  BatchIsValid, deleting, files_of, ApplierFollows, ApplierIsValid, Applied, apply_deletes-Applied,
}

ordered :
    (l : Query) (c : CurrentState) (b : Batch)
    → l.url ≡ c.path
    → l.end ≡ c.row_position
    → paths_are_increasing b c ≡ true
    → in_order (some l) (query_of b) ≡ true
unfolding paths_are_increasing in_order
ordered l c b url end e =
    rw (url, end)
      (ground
        (arith, bytes_lt_irrefl c.path, eqb_bytes-eq b.path c.path, bytes_lt_asym c.path b.path))

increasing : (c : Bool) {d : Bool} → (c && d) ≡ true → d ≡ true
increasing true h = h
increasing false h = cc

open_stream-opened :
    (open_parquet : Bytes → Option DeleteFile) (urls : List (ℤ × List Bytes))
    (files : List (ℤ × DeleteFile)) (queue : List Reader)
    → open_layers open_parquet urls ≡ some files
    → open_files files ≡ ok queue
    → open_stream open_parquet urls ≡ some (opened queue)
unfolding open_stream
open_stream-opened open_parquet urls files queue e k =
    ap (λ o. o >>= (λ fs. stream_of (open_files fs))) e ∙ ap stream_of k

entries_of :
    (open_parquet : Bytes → Option DeleteFile) (infos : PositionalDeletes) (partition : ℤ)
    (entries : List (ℤ × List Bytes))
    → entries_at infos partition ≡ some entries
    → open_layers open_parquet (get_delete_urls entries) ≡ files_of open_parquet infos partition
unfolding files_of
entries_of open_parquet infos partition entries e = rw (files_of, e) refl

pub select-everything : (xs : List ℕ) → select (λ i. not false) xs ≡ xs
unfolding select
select-everything [] = refl
select-everything (x ∷ xs) = ap (λ v. x ∷ v) (select-everything xs)

module _ (open_parquet : Bytes → Option DeleteFile) (infos : PositionalDeletes)
    (files : List (ℤ × DeleteFile)) (queue : List Reader) (b : Batch) (a : Applier)
    (batch_valid : BatchIsValid b) (files_valid : All (λ f. FileIsValid f.1) files)
    (loads : files_of open_parquet infos b.partition ≡ some files)
    (opens : open_files files ≡ ok queue) where
  -- The stream is kept for a batch of the same partition that comes later.
  reused :
      (c : Option CurrentState) (d : Option DeleteStream)
      → ApplierFollows open_parquet infos c d
      → can_reuse_state c b ≡ true
      → Applied open_parquet infos files b (apply_deletes b a d)
  unfolding can_reuse_state paths_are_increasing in_order
  reused none d f e = cc
  reused (some c) none f e = absurd f
  reused (some c) (some s) (own, loads', v, l, last, url, end, agrees) e =
      let same : c.partition ≡ b.partition = eq_of_parts c.partition b.partition (ground arith) in
      let own_files : own ≡ files =
        eq_of_some-eq-some (sym loads' ∙ ap (files_of open_parquet infos) same ∙ loads) in
      apply_deletes-Applied open_parquet infos files b batch_valid loads a s v
        (ap (λ o. in_order o (query_of b)) last
          ∙ ordered l c b url end (increasing (eqb_ℤ c.partition b.partition) e))
        (λ layer. subst (λ fs. Agrees (deleted_by layer fs) layer s) own_files (agrees layer))

  -- The stream is opened anew.
  reopened :
      (a' : Applier) → Applied open_parquet infos files b (apply_deletes b a' (some (opened queue)))
  unfolding StreamIsValid in_order
  reopened a' =
      let (valid, all) = open_files-opens files queue files_valid opens in
      apply_deletes-Applied open_parquet infos files b batch_valid loads a' (opened queue) valid
        refl (λ layer p i k. all layer p i)

  -- A partition without deletes leaves the batch alone.
  unopened :
      entries_at infos b.partition ≡ none
      → Applied open_parquet infos files b
          (some (record { current_state = none; positional_delete = none }, b))
  unfolding files_of ApplierIsValid deleted_by
  unopened n =
      let same : [] ≡ files = eq_of_some-eq-some (sym (rw (files_of, n) refl) ∙ loads) in
      (
        record { current_state = none; positional_delete = none },
        ap (λ v. some (record { current_state = none; positional_delete = none }, v))
            (ap (λ v. record b { selection_vector = record { indices = v } })
                (sym (select-everything b.selection_vector.indices))
              ∙ ap (λ fs. deleting (deleted_by b.layer fs b.path) b) same),
        tt,
      )

  -- From a batch ReadNext deletes the rows that the files of its partition, of layers that count for
  -- it, have a record of, and no others, and it leaves a valid state. The state before is valid, the
  -- selected rows are ascending rows of the batch, and the files are valid and can be opened.
  pub read_next-deleting :
      ApplierIsValid open_parquet infos a
      → (a' : Applier) × (read_next open_parquet b a infos
          ≡ some (a', deleting (deleted_by b.layer files b.path) b))
        × ApplierIsValid open_parquet infos a'
  unfolding read_next ApplierIsValid
  read_next-deleting v = elim (Bool-cases (can_reuse_state a.current_state b)) [
    | inl e ↦ rw (read_next, e) (reused a.current_state a.positional_delete v e)
    | inr e ↦ elim (Option-cases (entries_at infos b.partition)) [
      | inl n ↦ rw (read_next, e, n) (unopened n)
      | inr t ↦
          let (entries, k) = t in
          let stream =
            open_stream-opened open_parquet (get_delete_urls entries) files queue
              (entries_of open_parquet infos b.partition entries k ∙ loads) opens in
          rw (read_next, e, k, stream)
            (reopened (record { current_state = none; positional_delete = some (opened queue) }))
    ]
  ]
