-- ===== src/PositionalDelete/Stream.antt =====
-- What a PositionalDeleteStream of iceberg/positional_delete/positional_delete.cpp promises to the
-- scan of a data file that asks it range after range.
use iceberg_cxx.Common.{
  ℕ, suc, ◌≤◌, ◌≡◌, refl, sym, ap, ◌∙◌, inl, inr, Bool, true, false, ◌&&◌, Option, none, some, List,
  [], ◌∷◌, arith, All, Bool-cases,
}
use mathlib.Core.Path.{subst}
use iceberg_cxx.Common.Int.{ℤ}
use iceberg_cxx.Filter.Value.{Bytes}
use iceberg_cxx.Selection.Filtered.{contains}
use iceberg_cxx.PositionalDelete.Position.{before, place, bytes_lt_asym, not_before_trans}
use iceberg_cxx.PositionalDelete.Reader.{Query}
use iceberg_cxx.PositionalDelete.Queue.{
  DeleteStream, DeleteRows, get_deleted, in_order, queue_size, back,
}
use iceberg_cxx.PositionalDelete.Valid.{IsValid}
use iceberg_cxx.PositionalDelete.Rows.{Rising, removes}
use iceberg_cxx.PositionalDelete.States.{in_range, upper}
use iceberg_cxx.PositionalDelete.Loop.{merge_loop-Merges}

-- Every file that the stream reads is sorted, and its statistics hold.
unfoldable pub StreamIsValid : DeleteStream → Type 0
StreamIsValid s = All IsValid s.queue

-- The rows of an answer are the rows of the range that the readers of the layers remove, each once
-- and in order.
abbrev pub Answers : Query → (ℕ → Bool) → DeleteRows → Type 0
Answers q deleted rows = Rising rows × ((i : ℕ) → contains rows i ≡ (in_range q i && deleted i))

-- The answer to a query that is in order, and what stays in the readers.
pub get_deleted-keeps :
    (q : Query) (data_layer : ℤ) (s : DeleteStream)
    → StreamIsValid s
    → q.begin ≤ q.end
    → in_order s.last_query q ≡ true
    → (s' : DeleteStream) × (rows : DeleteRows) × (get_deleted q data_layer s ≡ some (s', rows))
      × Answers q (λ i. removes data_layer q.url i s.queue) rows
      × StreamIsValid s'
      × (s'.last_query ≡ some q)
      × ((layer : ℤ) (p : Bytes) (i : ℕ)
          → before (place p i) (upper q) ≡ false
          → removes layer p i s'.queue ≡ removes layer p i s.queue)
unfolding get_deleted StreamIsValid contains back
get_deleted-keeps q data_layer s v h e =
    let (queue, rows, f, m) =
      merge_loop-Merges (suc (queue_size s.queue)) q data_layer s.queue [] h (omega arith)
        (record { valid = v; rising = tt; behind = λ b k. cc }) in
    (
      record { queue = queue; last_query = some q },
      rows,
      rw (e, f) refl,
      (m.rises, m.collects),
      m.stays_valid,
      refl,
      m.keeps,
    )

-- A query that is in order is answered with the rows of its range that the readers remove, each once
-- and in order, if the files are valid and the range is not reversed. The stream stays valid and
-- remembers the query.
pub get_deleted-Answers :
    (q : Query) (data_layer : ℤ) (s : DeleteStream)
    → StreamIsValid s
    → q.begin ≤ q.end
    → in_order s.last_query q ≡ true
    → (s' : DeleteStream) × (rows : DeleteRows) × (get_deleted q data_layer s ≡ some (s', rows))
      × Answers q (λ i. removes data_layer q.url i s.queue) rows
      × StreamIsValid s'
      × (s'.last_query ≡ some q)
get_deleted-Answers q data_layer s v h e =
    let (s', rows, f, answers, v', last, keep) = get_deleted-keeps q data_layer s v h e in
    (s', rows, f, answers, v', last)

-- A query that goes back is refused.
pub get_deleted-refuses :
    (q : Query) (data_layer : ℤ) (s : DeleteStream)
    → in_order s.last_query q ≡ false
    → get_deleted q data_layer s ≡ none
unfolding get_deleted
get_deleted-refuses q data_layer s e = rw e refl

-- The answers to a sequence of queries.
unfoldable pub run : ℤ → List Query → DeleteStream → Option (List DeleteRows)
run data_layer [] s = some []
run data_layer (q ∷ qs) s = elim (get_deleted q data_layer s) [
  | none ↦ none
  | some (s', rows) ↦ elim (run data_layer qs s') [
    | none ↦ none
    | some answers ↦ some (rows ∷ answers)
  ]
]

-- Every query starts where or after the one before it ends.
abbrev pub Ascends : Option Query → List Query → Type 0
Ascends last [] = Unit
Ascends last (q ∷ qs) = (q.begin ≤ q.end) × (in_order last q ≡ true) × Ascends (some q) qs

abbrev pub AllAnswers : (Bytes → ℕ → Bool) → List Query → List DeleteRows → Type 0
AllAnswers deleted [] [] = Unit
AllAnswers deleted (q ∷ qs) (rows ∷ answers) =
    Answers q (deleted q.url) rows × AllAnswers deleted qs answers
AllAnswers deleted _ _ = ⊥

abbrev pub Ahead : Option Query → Bytes → ℕ → Type 0
Ahead none p i = Unit
Ahead (some l) p i = before (place p i) (upper l) ≡ false

-- The readers still tell what is deleted from the end of the last query on.
abbrev pub Agrees : (Bytes → ℕ → Bool) → ℤ → DeleteStream → Type 0
Agrees deleted data_layer s =
    (p : Bytes) (i : ℕ) → Ahead s.last_query p i → removes data_layer p i s.queue ≡ deleted p i

pub in_order-Ahead :
    (last : Option Query) (q : Query) (i : ℕ)
    → in_order last q ≡ true
    → in_range q i ≡ true
    → Ahead last q.url i
unfolding in_order in_range before
in_order-Ahead none q i h k = tt
in_order-Ahead (some l) q i h k = ground (arith, bytes_lt_asym l.url q.url)

pub in_range-Answers :
    (q : Query) (deleted deleted' : ℕ → Bool) (rows : DeleteRows)
    → ((i : ℕ) → in_range q i ≡ true → deleted i ≡ deleted' i)
    → Answers q deleted rows
    → Answers q deleted' rows
in_range-Answers q deleted deleted' rows same (rising, all) = (
  rising,
  λ i. elim (Bool-cases (in_range q i)) [
    | inl e ↦ all i ∙ ap (λ b. in_range q i && b) (same i e)
    | inr e ↦ ground (arith, all i)
  ],
)

pub Ahead-later :
    (last : Option Query) (q : Query) (p : Bytes) (i : ℕ)
    → q.begin ≤ q.end
    → in_order last q ≡ true
    → Ahead (some q) p i
    → Ahead last p i
unfolding in_order before
Ahead-later none q p i h e k = tt
Ahead-later (some l) q p i h e k =
    not_before_trans (upper l) (upper q) (place p i) (ground (arith, bytes_lt_asym l.url q.url)) k

pub run-Agrees :
    (deleted : Bytes → ℕ → Bool) (data_layer : ℤ) (qs : List Query) (s : DeleteStream)
    → StreamIsValid s
    → Agrees deleted data_layer s
    → Ascends s.last_query qs
    → (answers : List DeleteRows) × (run data_layer qs s ≡ some answers)
      × AllAnswers deleted qs answers
unfolding run
run-Agrees deleted data_layer [] s v a o = ([], refl, tt)
run-Agrees deleted data_layer (q ∷ qs) s v a (h, e, o) =
    let (s', rows, f, all, v', last, keep) = get_deleted-keeps q data_layer s v h e in
    let (answers, g, rest) =
      run-Agrees deleted data_layer qs s' v'
        (λ p i k.
          let ahead = subst (λ l. Ahead l p i) last k in
          keep data_layer p i ahead ∙ a p i (Ahead-later s.last_query q p i h e ahead))
        (subst (λ l. Ascends l qs) (sym last) o) in
    (
      rows ∷ answers,
      rw (run, f, g) refl,
      (
        in_range-Answers q (λ i. removes data_layer q.url i s.queue) (deleted q.url) rows
            (λ i k. a q.url i (in_order-Ahead s.last_query q i e k)) all,
        rest,
      ),
    )
