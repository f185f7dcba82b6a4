-- ===== src/PositionalDelete/Merge.antt =====
-- One round of the loop of GetDeleted of iceberg/positional_delete/positional_delete.cpp: what it
-- collects, and what it leaves in the queue.
use iceberg_cxx.Common.{
  ℕ, ◌+◌, ◌<◌, ◌≡◌, refl, sym, ap, ◌∙◌, inl, inr, Bool, false, ◌&&◌, ◌||◌, Option, none, some, List,
  [], ◌∷◌, arith, Bool-cases, All,
}
use mathlib.Core.Path.{subst}
use iceberg_cxx.Common.Int.{ℤ, leb_ℤ}
use iceberg_cxx.Filter.Value.{Bytes}
use iceberg_cxx.Selection.Filtered.{contains}
use iceberg_cxx.PositionalDelete.Position.{Row, Position, before, place, at, not_before_trans}
use iceberg_cxx.PositionalDelete.Reader.{Reader, Query, get_position}
use iceberg_cxx.PositionalDelete.Queue.{back, enqueue, queue_size, DeleteRows}
use iceberg_cxx.PositionalDelete.Valid.{
  pending, Above, Above-trans, All-append, IsValid, OptionAll, has_row, has_row-append,
  pending_after, get_position-Above,
}
use iceberg_cxx.PositionalDelete.States.{in_range, upper, in_range-before}
use iceberg_cxx.PositionalDelete.Steps.{Drops, layer_after, size_after}
use iceberg_cxx.PositionalDelete.Rows.{Rising, deletes, removes, AllAbove, AllAbove-removes}
use iceberg_cxx.PositionalDelete.Top.{
  Pops, Pops-All, Pops-any_reader, Pops-NotBefore, NotBefore, Pops-queue_size,
}

-- What a loop that starts with a queue and rows does: it adds the rows of the range that the queue
-- removes, and of the queue it keeps what is not before the end of the range.
pub record Merges (q : Query) (data_layer : ℤ) (queue : List Reader) (rows : DeleteRows)
    (queue' : List Reader) (rows' : DeleteRows) : Type 0 where
  pub collects :
      (i : ℕ)
      → contains rows' i ≡ (contains rows i || (in_range q i && removes data_layer q.url i queue))
  pub rises : Rising rows'
  pub stays_valid : All IsValid queue'
  pub keeps :
      (layer : ℤ) (p : Bytes) (i : ℕ)
      → before (place p i) (upper q) ≡ false
      → removes layer p i queue' ≡ removes layer p i queue

-- The rows collected so far are not behind the queue.
abbrev pub Behind : Query → DeleteRows → List Reader → Type 0
Behind q rows queue = (b : ℕ) → back rows ≡ some b → AllAbove (place q.url b) queue

-- What a round that goes on with other readers and rows has to keep.
pub continue-Merges :
    {q : Query} {data_layer : ℤ} {queue left queue' : List Reader} {rows rows' rows'' : DeleteRows}
    (r : Reader) (dropped : List Row)
    → ((layer : ℤ) (p : Bytes) (i : ℕ)
        → removes layer p i queue
          ≡ ((leb_ℤ layer r.layer && has_row p i dropped) || removes layer p i left))
    → ((i : ℕ)
        → contains rows' i ≡ (
            contains rows i
            || (in_range q i && (leb_ℤ data_layer r.layer && has_row q.url i dropped))))
    → ((p : Bytes) (i : ℕ) → before (place p i) (upper q) ≡ false → has_row p i dropped ≡ false)
    → Merges q data_layer left rows' queue' rows''
    → Merges q data_layer queue rows queue' rows''
continue-Merges {q} {data_layer} r dropped split added gone m = record {
  collects = λ i. ground (arith, m.collects i, split data_layer q.url i, added i);
  rises = m.rises;
  stays_valid = m.stays_valid;
  keeps = λ layer p i h. ground (arith, m.keeps layer p i h, split layer p i, gone p i h);
}

All-IsValid-Above :
    (a : Position) (r : Reader) (rest : List Reader)
    → before (get_position r) a ≡ false
    → All (NotBefore r) rest
    → All IsValid rest
    → AllAbove a rest
All-IsValid-Above a r [] h n v = tt
All-IsValid-Above a r (s ∷ rest) h (n, ns) (v, vs) = (
  Above-trans a (get_position s) (pending s)
      (not_before_trans a (get_position r) (get_position s) h n) (get_position-Above s v),
  All-IsValid-Above a r rest h ns vs,
)

-- Where the top of the queue is, everything is.
pub top-Above :
    {queue rest : List Reader} {r : Reader} (a : Position)
    → Pops queue r rest
    → All IsValid queue
    → before (get_position r) a ≡ false
    → AllAbove a (r ∷ rest)
top-Above {r = r} a p v h =
    let (w, ws) = Pops-All IsValid p v in
    (
      Above-trans a (get_position r) (pending r) h (get_position-Above r w),
      All-IsValid-Above a r _ h (Pops-NotBefore p) ws,
    )

-- A top of the queue at or behind the end of the range ends the loop.
pub stop-Merges :
    {q : Query} {data_layer : ℤ} {queue rest : List Reader} {rows : DeleteRows} {r : Reader}
    → Pops queue r rest
    → All IsValid queue
    → Rising rows
    → before (get_position r) (upper q) ≡ false
    → Merges q data_layer queue rows (r ∷ rest) rows
stop-Merges {q = q} {data_layer = data_layer} {queue = queue} {rest = rest} {r = r} p v rise h =
    record {
      collects = λ i. elim (Bool-cases (in_range q i)) [
        | inl e ↦ ground (
          arith,
          Pops-any_reader (deletes data_layer q.url i) p,
          AllAbove-removes data_layer q.url i (upper q) (r ∷ rest) (top-Above (upper q) p v h)
              (in_range-before q i e).0,
        )
        | inr e ↦ ground arith
      ];
      rises = rise;
      stays_valid = Pops-All IsValid p v;
      keeps = λ layer path i k. sym (Pops-any_reader (deletes layer path i) p);
    }

pub empty-Merges :
    {q : Query} {data_layer : ℤ} {rows : DeleteRows}
    → Rising rows
    → Merges q data_layer [] rows [] rows
empty-Merges rise = record {
  collects = λ i. ground arith;
  rises = rise;
  stays_valid = tt;
  keeps = λ layer p i k. refl;
}

distribute : (a b c d : Bool) → ((a && (b || c)) || d) ≡ ((a && b) || ((a && c) || d))
distribute a b c d = ground arith

and_false : (a d : Bool) → d ≡ ((a && false) || d)
and_false a d = ground arith

pub removes-enqueue :
    (layer : ℤ) (path : Bytes) (i : ℕ) (own : ℤ) (after : Option Reader) (rest : List Reader)
    → removes layer path i (enqueue after rest) ≡ (
        (leb_ℤ layer (layer_after own after) && has_row path i (pending_after after))
        || removes layer path i rest)
unfolding has_row
removes-enqueue layer path i own none rest = and_false (leb_ℤ layer own) (removes layer path i rest)
removes-enqueue layer path i own (some r) rest = refl

pub All-enqueue :
    (P : Reader → Type 0) (after : Option Reader) (rest : List Reader)
    → OptionAll P after
    → All P rest
    → All P (enqueue after rest)
All-enqueue P none rest h hs = hs
All-enqueue P (some r) rest h hs = (h, hs)

Above-after :
    (a : Position) (after : Option Reader)
    → Above a (pending_after after)
    → OptionAll (λ r. Above a (pending r)) after
Above-after a none h = tt
Above-after a (some r) h = h

pub enqueue-queue_size :
    (after : Option Reader) (rest : List Reader)
    → queue_size (enqueue after rest) ≡ size_after after + queue_size rest
unfolding queue_size
enqueue-queue_size none rest = omega arith
enqueue-queue_size (some r) rest = refl

-- A round that drops records of the top of the queue.
module _ {queue rest : List Reader} {r : Reader} {dropped : List Row} {after : Option Reader}
    (p : Pops queue r rest) (d : Drops r dropped after) where
  pub drop-removes :
      (layer : ℤ) (path : Bytes) (i : ℕ)
      → removes layer path i queue ≡ (
          (leb_ℤ layer r.layer && has_row path i dropped)
          || removes layer path i (enqueue after rest))
  drop-removes layer path i =
      Pops-any_reader (deletes layer path i) p
      ∙ ap (λ rows. (leb_ℤ layer r.layer && has_row path i rows) || removes layer path i rest)
          d.splits
      ∙ ap (λ b. (leb_ℤ layer r.layer && b) || removes layer path i rest)
          (has_row-append path i dropped (pending_after after))
      ∙ distribute (leb_ℤ layer r.layer) (has_row path i dropped)
          (has_row path i (pending_after after)) (removes layer path i rest)
      ∙ ap
          (λ l.
            (leb_ℤ layer r.layer && has_row path i dropped)
            || ((leb_ℤ layer l && has_row path i (pending_after after))
                || removes layer path i rest))
          (sym d.same_layer)
      ∙ ap (λ b. (leb_ℤ layer r.layer && has_row path i dropped) || b)
          (sym (removes-enqueue layer path i r.layer after rest))

  pub drop-IsValid : All IsValid queue → All IsValid (enqueue after rest)
  drop-IsValid v = All-enqueue IsValid after rest d.is_valid (Pops-All IsValid p v).1

  pub drop_top-Above : (a : Position) → AllAbove a (r ∷ rest) → AllAbove a (enqueue after rest)
  drop_top-Above a (top, others) =
      All-enqueue (λ s. Above a (pending s)) after rest
        (Above-after a after (
          All-append (λ row. before (at row) a ≡ false) dropped (pending_after after)
            (subst (Above a) d.splits top)))
        others

  pub drop-Above : (a : Position) → AllAbove a queue → AllAbove a (enqueue after rest)
  drop-Above a h = drop_top-Above a (Pops-All (λ s. Above a (pending s)) p h)

  pub drop-queue_size : queue_size (enqueue after rest) < queue_size queue
  drop-queue_size = omega (arith, d.shrinks, enqueue-queue_size after rest, Pops-queue_size p)
