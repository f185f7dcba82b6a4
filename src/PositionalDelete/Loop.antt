-- ===== src/PositionalDelete/Loop.antt =====
-- The loop of GetDeleted of iceberg/positional_delete/positional_delete.cpp ends with enough fuel.
use iceberg_cxx.Common.{
  ℕ, zero, suc, ◌≤◌, ◌<◌, ◌≡◌, refl, ◌⊎◌, inl, inr, Option, none, some, Result, ok, err, List, [],
  ◌∷◌, arith, Bool-cases, leb, ltb, ◌&&◌,
}
use mathlib.Core.Path.{subst}
use iceberg_cxx.Common.Int.{ℤ}
use iceberg_cxx.Filter.Value.{Bytes}
use iceberg_cxx.Filter.Order.{ltb_bytes, eqb_bytes}
use iceberg_cxx.PositionalDelete.Reader.{Reader, Query, next, next_row_group, state}
use iceberg_cxx.PositionalDelete.Queue.{
  Round, stop, continue_with, undefined_behaviour, LoopFault, undefined_run, out_of_fuel, round_at,
  skim, take_record, merge_loop, queue_size, enqueue, reader_size, DeleteRows,
}
use iceberg_cxx.PositionalDelete.Steps.{size_after, next_row_group-size, next_value-size}
use iceberg_cxx.PositionalDelete.Merge.{Merges, empty-Merges, enqueue-queue_size}
use iceberg_cxx.PositionalDelete.Top.{Pops, pop_top-cons, Pops-queue_size}
use iceberg_cxx.PositionalDelete.Placed.{state-cases}
use iceberg_cxx.PositionalDelete.Rounds.{Ready, RoundMerges, round_at-Merges}

Round-cases :
    (a : Round)
    → ((left : List Reader) × (a ≡ stop left))
      ⊎ ((left : List Reader) × (rows : DeleteRows) × (a ≡ continue_with left rows))
      ⊎ (a ≡ undefined_behaviour)
Round-cases (stop left) = inl (left, refl)
Round-cases (continue_with left rows) = inr (inl (left, rows, refl))
Round-cases undefined_behaviour = inr (inr refl)

-- What the loop does when it answers.
abbrev pub LoopMerges : ℕ → Query → ℤ → List Reader → DeleteRows → Type 0
LoopMerges fuel q data_layer queue rows =
    (queue' : List Reader) × (rows' : DeleteRows) × (merge_loop fuel q data_layer queue rows
      ≡ ok (queue', rows'))
    × Merges q data_layer queue rows queue' rows'

pub merge_loop-Merges :
    (fuel : ℕ) (q : Query) (data_layer : ℤ) (queue : List Reader) (rows : DeleteRows)
    → q.begin ≤ q.end
    → queue_size queue < fuel
    → Ready q queue rows
    → LoopMerges fuel q data_layer queue rows
unfolding merge_loop
merge_loop-Merges zero q data_layer queue rows h k ready = absurd (omega arith)
merge_loop-Merges (suc fuel) q data_layer [] rows h k ready =
    ([], rows, refl, empty-Merges ready.rising)
merge_loop-Merges (suc fuel) q data_layer (s ∷ ss) rows h k ready =
    let (r, rest, e, p) = pop_top-cons s ss in
    let round = round_at-Merges data_layer h p ready in
    elim (Round-cases (round_at q data_layer r r.current_pos rest rows)) [
      | inl t ↦
          let (left, m) = t in
          (
            left,
            rows,
            rw (merge_loop, e, m) refl,
            subst (RoundMerges q data_layer (s ∷ ss) rows) m round,
          )
      | inr (inl t) ↦
          let (left, rows', m) = t in
          let (small, ready', lift) = subst (RoundMerges q data_layer (s ∷ ss) rows) m round in
          let (queue', rows'', f, merges) =
            merge_loop-Merges fuel q data_layer left rows' h (omega arith) ready' in
          (queue', rows'', rw (merge_loop, e, m) f, lift queue' rows'' merges)
      | inr (inr m) ↦ absurd (subst (RoundMerges q data_layer (s ∷ ss) rows) m round)
    ]

-- A round that goes on leaves less to read, whatever the files hold.
abbrev Shrinks : List Reader → Round → Type 0
Shrinks queue (continue_with left rows) = queue_size left < queue_size queue
Shrinks queue _ = Unit

module _ {queue rest : List Reader} {r : Reader} (p : Pops queue r rest) where
  smaller :
      (after : Option Reader)
      → size_after after < reader_size r
      → queue_size (enqueue after rest) < queue_size queue
  smaller after h = omega (arith, h, enqueue-queue_size after rest, Pops-queue_size p)

  next-smaller : queue_size (enqueue (next r) rest) < queue_size queue
  unfolding next reader_size
  next-smaller = smaller (next r) (next_value-size r r.unread)

  group-smaller : queue_size (enqueue (next_row_group r.layer r.row_groups) rest) < queue_size queue
  unfolding reader_size
  group-smaller =
      smaller (next_row_group r.layer r.row_groups)
        (omega (arith, next_row_group-size r.layer r.row_groups))

  skim-Shrinks : (q : Query) (rows : DeleteRows) → Shrinks queue (skim q r rest rows)
  unfolding skim
  skim-Shrinks q rows = elim (state-cases (state r.metadata q)) [
    | inl h ↦ rw (Shrinks, h) group-smaller
    | inr (inl h) ↦ rw (Shrinks, h) next-smaller
    | inr (inr h) ↦ rw (Shrinks, h) tt
  ]

  take_record-Shrinks :
      (q : Query) (data_layer : ℤ) (path : Option Bytes) (i : ℕ) (rows : DeleteRows)
      → Shrinks queue (take_record q data_layer r path i rest rows)
  unfolding take_record
  take_record-Shrinks q data_layer none i rows = tt
  take_record-Shrinks q data_layer (some path) i rows = elim (Bool-cases (ltb_bytes q.url path)) [
    | inl h ↦ rw (Shrinks, h) tt
    | inr h ↦ elim (Bool-cases (eqb_bytes q.url path && leb q.begin i)) [
      | inl m ↦ elim (Bool-cases (ltb i q.end)) [
        | inl u ↦ rw (Shrinks, h, m, u) next-smaller
        | inr u ↦ rw (Shrinks, h, m, u) tt
      ]
      | inr m ↦ rw (Shrinks, h, m) next-smaller
    ]
  ]

  round_at-Shrinks :
      (q : Query) (data_layer : ℤ) (pos : Option ℕ) (rows : DeleteRows)
      → Shrinks queue (round_at q data_layer r pos rest rows)
  unfolding round_at
  round_at-Shrinks q data_layer none rows = skim-Shrinks q rows
  round_at-Shrinks q data_layer (some i) rows =
      take_record-Shrinks q data_layer r.current_file_path i rows

-- The loop stops with an answer, or in undefined behaviour, and not for want of fuel.
abbrev pub Halts : Result LoopFault (List Reader × DeleteRows) → Type 0
Halts (err undefined_run) = Unit
Halts (err out_of_fuel) = ⊥
Halts (ok _) = Unit

-- Whatever the delete files hold, the loop of `GetDeleted` ends, with an answer or at the undefined
-- read of a path that is missing: with more rounds than there are records and row groups left in the
-- readers it does not run out of them.
pub merge_loop-Halts :
    (fuel : ℕ) (q : Query) (data_layer : ℤ) (queue : List Reader) (rows : DeleteRows)
    → queue_size queue < fuel
    → Halts (merge_loop fuel q data_layer queue rows)
unfolding merge_loop
merge_loop-Halts zero q data_layer queue rows h = absurd (omega arith)
merge_loop-Halts (suc n) q data_layer [] rows h = tt
merge_loop-Halts (suc n) q data_layer (s ∷ ss) rows h =
    let (r, rest, e, p) = pop_top-cons s ss in
    elim (Round-cases (round_at q data_layer r r.current_pos rest rows)) [
      | inl t ↦ rw (merge_loop, e, t.1) tt
      | inr (inl t) ↦
          let (left, rows', f) = t in
          let small : queue_size left < queue_size (s ∷ ss) =
            subst (Shrinks (s ∷ ss)) f (round_at-Shrinks p q data_layer r.current_pos rows) in
          rw (merge_loop, e, f) (merge_loop-Halts n q data_layer left rows' (omega arith))
      | inr (inr f) ↦ rw (merge_loop, e, f) tt
    ]
