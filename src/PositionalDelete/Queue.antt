-- ===== src/PositionalDelete/Queue.antt =====
-- The queue of readers and PositionalDeleteStream::GetDeleted of
-- iceberg/positional_delete/positional_delete.cpp. A std::priority_queue is a list of which a least
-- element is taken; among equal ones, the first.
use iceberg_cxx.Common.{
  ℕ, zero, suc, ◌+◌, Bool, true, not, ◌&&◌, ◌||◌, Option, none, some, List, [], ◌∷◌, ◌++◌, ltb, leb,
  ◌==◌, if◌then◌else◌, length, Result, ok, err, ◌>>=◌,
}
use iceberg_cxx.Common.Int.{ℤ, leb_ℤ}
use iceberg_cxx.Filter.Value.{Bytes}
use iceberg_cxx.Filter.Order.{ltb_bytes, eqb_bytes}
use iceberg_cxx.PositionalDelete.Position.{before}
use iceberg_cxx.PositionalDelete.Reader.{
  RowGroup, DeleteFile, Reader, ReaderError, open_reader, next_row_group, next, get_position, Query,
  less, inter, greater, state,
}

-- `queue_.top()` and `queue_.pop()` with the comparator ReaderHolderGreater.
unfoldable pub pop_top : List Reader → Option (Reader × List Reader)
unfolding get_position before
pop_top [] = none
pop_top (r ∷ rs) = elim (pop_top rs) [
  | none ↦ some (r, [])
  | some (m, rest) ↦
      if before (get_position m) (get_position r) then some (m, r ∷ rest) else some (r, m ∷ rest)
]

-- `EnqueueIf`, for a reader that moved on if it could.
abbrev pub enqueue : Option Reader → List Reader → List Reader
enqueue none rest = rest
enqueue (some r) rest = r ∷ rest

abbrev pub DeleteRows : Type 0
DeleteRows = List ℕ

-- `rows.back()`.
unfoldable pub back : DeleteRows → Option ℕ
back [] = none
back (x ∷ []) = some x
back (x ∷ y ∷ ys) = back (y ∷ ys)

-- `rows.empty() || rows.back() != pos`.
abbrev pub is_new : Option ℕ → ℕ → Bool
is_new none i = true
is_new (some b) i = not (b == i)

unfoldable pub add_row : ℤ → Reader → ℕ → DeleteRows → DeleteRows
unfolding back
add_row data_layer r i rows =
    if is_new (back rows) i && leb_ℤ data_layer r.layer then rows ++ i ∷ [] else rows

-- One round of the loop: `break` with the queue, or the next queue and rows.
pub data Round : Type 0 where
  stop : List Reader → Round
  continue_with : List Reader → DeleteRows → Round
  undefined_behaviour : Round

-- The top of the queue is not started.
unfoldable pub skim : Query → Reader → List Reader → DeleteRows → Round
unfolding state next next_row_group
skim q r rest rows = elim (state r.metadata q) [
  | less ↦ continue_with (enqueue (next_row_group r.layer r.row_groups) rest) rows
  | greater ↦ stop (r ∷ rest)
  | inter ↦ continue_with (enqueue (next r) rest) rows
]

-- The top of the queue is at a record. `*current_file_path()` is undefined without a value.
unfoldable pub take_record :
    Query → ℤ → Reader → Option Bytes → ℕ → List Reader → DeleteRows → Round
unfolding next add_row
take_record q data_layer r none i rest rows = undefined_behaviour
take_record q data_layer r (some path) i rest rows =
    if ltb_bytes q.url path
    then stop (r ∷ rest)
    else if eqb_bytes q.url path && leb q.begin i
    then (if ltb i q.end
        then continue_with (enqueue (next r) rest) (add_row data_layer r i rows)
        else stop (r ∷ rest))
    else continue_with (enqueue (next r) rest) rows

unfoldable pub round_at : Query → ℤ → Reader → Option ℕ → List Reader → DeleteRows → Round
unfolding skim take_record
round_at q data_layer r none rest rows = skim q r rest rows
round_at q data_layer r (some i) rest rows =
    take_record q data_layer r r.current_file_path i rest rows

-- What the loop ends with when it has no answer.
pub data LoopFault : Type 0 where
  undefined_run : LoopFault
  out_of_fuel : LoopFault

-- `while (!queue_.empty())` with fuel, which a loop that goes on runs out of.
unfoldable pub merge_loop :
    ℕ → Query → ℤ → List Reader → DeleteRows → Result LoopFault (List Reader × DeleteRows)
unfolding pop_top round_at
merge_loop zero q data_layer queue rows = err out_of_fuel
merge_loop (suc fuel) q data_layer queue rows = elim (pop_top queue) [
  | none ↦ ok ([], rows)
  | some (r, rest) ↦ elim (round_at q data_layer r r.current_pos rest rows) [
    | stop left ↦ ok (left, rows)
    | continue_with left rows' ↦ merge_loop fuel q data_layer left rows'
    | undefined_behaviour ↦ err undefined_run
  ]
]

-- What is left to read: each record and each row group takes one round.
unfoldable pub groups_size : List RowGroup → ℕ
groups_size [] = 1
groups_size (g ∷ gs) = suc (length g.rows) + groups_size gs

unfoldable pub reader_size : Reader → ℕ
unfolding groups_size
reader_size r = length r.unread + groups_size r.row_groups

unfoldable pub queue_size : List Reader → ℕ
unfolding reader_size
queue_size [] = 0
queue_size (r ∷ rs) = reader_size r + queue_size rs

-- `PositionalDeleteStream`: the queue and the last query.
pub record DeleteStream : Type 0 where
  pub queue : List Reader
  pub last_query : Option Query

-- `std::tie(last.url, last.end) <= std::tie(url, begin)`.
unfoldable pub in_order : Option Query → Query → Bool
in_order none q = true
in_order (some l) q = ltb_bytes l.url q.url || (not (ltb_bytes q.url l.url) && leb l.end q.begin)

-- `GetDeleted`. `none` is the exception of `Ensure`, or a fault of the loop.
unfoldable pub get_deleted : Query → ℤ → DeleteStream → Option (DeleteStream × DeleteRows)
unfolding in_order merge_loop queue_size
get_deleted q data_layer s =
    if in_order s.last_query q
    then elim (merge_loop (suc (queue_size s.queue)) q data_layer s.queue []) [
      | err _ ↦ none
      | ok (queue, rows) ↦ some (record { queue = queue; last_query = some q }, rows)
    ]
    else none

-- The constructor's loops over the files of the layers.
unfoldable pub open_files : List (ℤ × DeleteFile) → Result ReaderError (List Reader)
unfolding open_reader next_row_group
open_files [] = ok []
open_files ((layer, f) ∷ fs) = do
  groups ← open_reader f
  rest ← open_files fs
  ok (enqueue (next_row_group layer groups) rest)
