-- ===== src/PositionalDelete/Rounds.antt =====
-- Every round of the loop of GetDeleted of iceberg/positional_delete/positional_delete.cpp keeps what
-- the loop needs.
use iceberg_cxx.Common.{
  ℕ, ◌≤◌, ◌<◌, ◌≡◌, sym, ap, ◌∙◌, eq_of_some-eq-some, inl, inr, true, false, ◌&&◌, ◌||◌, Option,
  none, some, List, [], ◌∷◌, arith, ltb, leb, Bool-cases, Option-cases, All,
}
use mathlib.Core.Path.{subst}
use iceberg_cxx.Common.Int.{ℤ, leb_ℤ}
use iceberg_cxx.Filter.Value.{Bytes}
use iceberg_cxx.Filter.Order.{ltb_bytes, eqb_bytes}
use iceberg_cxx.Selection.Filtered.{contains}
use iceberg_cxx.PositionalDelete.Position.{
  Row, before, place, before_irrefl, eqb_bytes-eq, eqb_bytes_self,
}
use iceberg_cxx.PositionalDelete.Reader.{Reader, Query, state, get_position, next}
use iceberg_cxx.PositionalDelete.Queue.{
  back, add_row, enqueue, queue_size, DeleteRows, Round, stop, continue_with, undefined_behaviour,
  skim, take_record, round_at,
}
use iceberg_cxx.PositionalDelete.Valid.{
  pending, Above, IsValid, has_row, started-pending, started_path, unstarted-Fits,
  unstarted-position, started-position,
}
use iceberg_cxx.PositionalDelete.Steps.{Drops, skip-Drops, begin-Drops, next-Drops}
use iceberg_cxx.PositionalDelete.Rows.{Rising, Rising-snoc, back-snoc, contains-snoc, contains-back}
use iceberg_cxx.PositionalDelete.Top.{Pops, Pops-All}
use iceberg_cxx.PositionalDelete.States.{
  in_range, upper, lower, Below, Below-has_row, in_range-before, upper-not_before-lower,
  state_less-Below, state_greater-bound,
}
use iceberg_cxx.PositionalDelete.Merge.{
  Merges, Behind, continue-Merges, stop-Merges, top-Above, drop-removes, drop-IsValid, drop-Above,
  drop_top-Above, drop-queue_size,
}
use iceberg_cxx.PositionalDelete.Placed.{
  state-cases, not_before-le, add_row-cases, not_new, new-lt, absorb, found_at, and_both, range-in,
  path_behind, row_behind, record_early,
}

-- What a loop can rely on.
pub record Ready (q : Query) (queue : List Reader) (rows : DeleteRows) : Type 0 where
  pub valid : All IsValid queue
  pub rising : Rising rows
  pub behind : Behind q rows queue

-- What a round does: it ends the loop, or what the rest of the loop does is what the loop does.
abbrev pub RoundMerges : Query → ℤ → List Reader → DeleteRows → Round → Type 0
RoundMerges q data_layer queue rows (stop left) = Merges q data_layer queue rows left rows
RoundMerges q data_layer queue rows (continue_with left rows') =
    (queue_size left < queue_size queue)
    × Ready q left rows'
    × ((queue' : List Reader) (rows'' : DeleteRows)
        → Merges q data_layer left rows' queue' rows''
        → Merges q data_layer queue rows queue' rows'')
RoundMerges q data_layer queue rows undefined_behaviour = ⊥

module _ {q : Query} (data_layer : ℤ) {queue rest : List Reader} {r : Reader} {rows : DeleteRows}
    (ordered : q.begin ≤ q.end) (p : Pops queue r rest) (ready : Ready q queue rows) where
  -- Records before the range are passed over.
  pass :
      {dropped : List Row} {after : Option Reader}
      → Drops r dropped after
      → Below (lower q) dropped
      → RoundMerges q data_layer queue rows (continue_with (enqueue after rest) rows)
  pass {dropped} {after} d b = (
    drop-queue_size p d,
    record {
      valid = drop-IsValid p d ready.valid;
      rising = ready.rising;
      behind = λ x e. drop-Above p d (place q.url x) (ready.behind x e);
    },
    λ queue' rows''.
        continue-Merges r dropped (drop-removes p d)
          (λ i. elim (Bool-cases (in_range q i)) [
            | inl e ↦
                ground (arith, Below-has_row q.url i (lower q) dropped b (in_range-before q i e).1)
            | inr e ↦ ground arith
          ])
          (λ path i h.
            Below-has_row path i (lower q) dropped b (upper-not_before-lower q path i ordered h)),
  )

  -- A top at or behind the end of the range.
  halt :
      before (get_position r) (upper q) ≡ false
      → RoundMerges q data_layer queue rows (stop (r ∷ rest))
  halt h = stop-Merges p ready.valid ready.rising h

  top-IsValid : IsValid r
  top-IsValid = (Pops-All IsValid p ready.valid).0

  skim-Merges : r.current_pos ≡ none → RoundMerges q data_layer queue rows (skim q r rest rows)
  unfolding skim
  skim-Merges e = elim (state-cases (state r.metadata q)) [
    | inl h ↦
        rw (RoundMerges, h)
          (pass (skip-Drops r top-IsValid e)
            (state_less-Below r.metadata q r.unread (unstarted-Fits r top-IsValid e) h))
    | inr (inl h) ↦ rw (RoundMerges, h) (pass (begin-Drops r top-IsValid e) tt)
    | inr (inr h) ↦
        rw (RoundMerges, h)
          (halt (
            ap (λ a. before a (upper q)) (unstarted-position r e)
            ∙ state_greater-bound r.metadata q h))
  ]

  -- The record of the query that is on top.
  module _ (i : ℕ) (at_path : r.current_file_path ≡ some q.url)
      (at_pos : r.current_pos ≡ some i) where
    row-Drops : Drops r (record { file_path = q.url; pos = i } ∷ []) (next r)
    row-Drops = next-Drops r q.url i top-IsValid at_path at_pos

    -- The rows collected so far are not behind the record.
    last_row : (b : ℕ) → back rows ≡ some b → b ≤ i
    last_row b e =
        not_before-le q.url b i
          (subst (Above (place q.url b)) (started-pending r q.url i at_path at_pos)
            (Pops-All (λ s. Above (place q.url b) (pending s)) p (ready.behind b e)).0).0

    add_row-Rising : Rising (add_row data_layer r i rows)
    add_row-Rising = elim (add_row-cases data_layer r i rows) [
      | inl added ↦
          let (e, n, k) = added in
          rw e (Rising-snoc rows i ready.rising (λ b h. new-lt (back rows) i b n h (last_row b h)))
      | inr same ↦ rw same.0 ready.rising
    ]

    add_row-Behind : Behind q (add_row data_layer r i rows) (enqueue (next r) rest)
    add_row-Behind b h = elim (add_row-cases data_layer r i rows) [
      | inl added ↦
          let here : i ≡ b =
            eq_of_some-eq-some (sym (back-snoc rows i) ∙ ap back (sym added.0) ∙ h) in
          drop_top-Above p row-Drops (place q.url b) (
            top-Above (place q.url b) p ready.valid (
              ap (λ a. before a (place q.url b)) (started-position r q.url i at_path at_pos)
              ∙ ap (λ x. before (place q.url x) (place q.url b)) here
              ∙ before_irrefl (place q.url b)))
      | inr same ↦
          drop-Above p row-Drops (place q.url b) (ready.behind b (ap back (sym same.0) ∙ h))
    ]

    add_row-contains :
        (x : ℕ)
        → in_range q i ≡ true
        → contains (add_row data_layer r i rows) x ≡ (
            contains rows x
            || (in_range q x
                && (leb_ℤ data_layer r.layer
                    && has_row q.url x (record { file_path = q.url; pos = i } ∷ []))))
    unfolding has_row in_range
    add_row-contains x h = elim (add_row-cases data_layer r i rows) [
      | inl added ↦
          rw added.0 (ground (arith, added.2, contains-snoc rows i x, eqb_bytes_self q.url))
      | inr (same, inl old) ↦
          let found : contains rows i ≡ true = contains-back rows i (not_new (back rows) i old) in
          rw same (
            absorb (contains rows x) (in_range q x) (leb_ℤ data_layer r.layer)
              (eqb_bytes q.url q.url) x i (found_at rows x i found))
      | inr (same, inr k) ↦ rw (same, k) (ground arith)
    ]

    record-Merges :
        in_range q i ≡ true
        → RoundMerges q data_layer queue rows
            (continue_with (enqueue (next r) rest) (add_row data_layer r i rows))
    record-Merges h = (
      drop-queue_size p row-Drops,
      record {
        valid = drop-IsValid p row-Drops ready.valid;
        rising = add_row-Rising;
        behind = add_row-Behind;
      },
      λ queue' rows''.
          continue-Merges r _ (drop-removes p row-Drops) (λ x. add_row-contains x h)
            (λ path x k.
              Below-has_row path x (upper q) (record { file_path = q.url; pos = i } ∷ [])
                ((in_range-before q i h).0, tt) k),
    )

  -- The record on top is before the range.
  early :
      (path : Bytes) (i : ℕ)
      → r.current_file_path ≡ some path
      → r.current_pos ≡ some i
      → before (place path i) (lower q) ≡ true
      → RoundMerges q data_layer queue rows (continue_with (enqueue (next r) rest) rows)
  early path i e k h = pass (next-Drops r path i top-IsValid e k) (h, tt)

  -- The record on top is behind the range.
  late :
      (path : Bytes) (i : ℕ)
      → r.current_file_path ≡ some path
      → r.current_pos ≡ some i
      → before (place path i) (upper q) ≡ false
      → RoundMerges q data_layer queue rows (stop (r ∷ rest))
  late path i e k h = halt (ap (λ a. before a (upper q)) (started-position r path i e k) ∙ h)

  take_record-Merges :
      (path : Bytes) (i : ℕ)
      → r.current_file_path ≡ some path
      → r.current_pos ≡ some i
      → RoundMerges q data_layer queue rows (take_record q data_layer r (some path) i rest rows)
  unfolding take_record
  take_record-Merges path i e k = elim (Bool-cases (ltb_bytes q.url path)) [
    | inl h ↦ rw (RoundMerges, h) (late path i e k (path_behind q path i h))
    | inr h ↦ elim (Bool-cases (eqb_bytes q.url path && leb q.begin i)) [
      | inl m ↦
          let (equal, begun) = and_both (eqb_bytes q.url path) (leb q.begin i) m in
          let same : q.url ≡ path = eqb_bytes-eq q.url path equal in
          let at_url : r.current_file_path ≡ some q.url = e ∙ ap some (sym same) in
          elim (Bool-cases (ltb i q.end)) [
            | inl u ↦ rw (RoundMerges, h, m, u) (record-Merges i at_url k (range-in q i begun u))
            | inr u ↦ rw (RoundMerges, h, m, u) (late q.url i at_url k (row_behind q i u))
          ]
      | inr m ↦ rw (RoundMerges, h, m) (early path i e k (record_early q path i h m))
    ]
  ]

  pub round_at-Merges :
      RoundMerges q data_layer queue rows (round_at q data_layer r r.current_pos rest rows)
  unfolding round_at
  round_at-Merges = elim (Option-cases r.current_pos) [
    | inl e ↦ rw (RoundMerges, e) (skim-Merges e)
    | inr t ↦
        let (i, e) = t in
        let (path, k) = started_path r i top-IsValid e in
        rw (RoundMerges, e, k) (take_record-Merges path i k e)
  ]
