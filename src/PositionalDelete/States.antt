-- ===== src/PositionalDelete/States.antt =====
-- What RowGroupFilter::State of iceberg/positional_delete/positional_delete.cpp says of the records
-- of a row group.
use iceberg_cxx.Common.{
  ℕ, ◌≤◌, ◌≡◌, refl, inl, inr, Bool, true, false, ◌&&◌, Option, none, some, List, [], ◌∷◌, arith,
  ltb, leb, ◌==◌, Bool-cases, All,
}
use iceberg_cxx.Filter.Value.{Bytes}
use iceberg_cxx.Filter.Order.{eqb_bytes}
use iceberg_cxx.PositionalDelete.Position.{
  Row, Position, before, place, at, eqb_bytes-eq, bytes_lt_asym, bytes_lt_irrefl, not_before_trans,
  bytes_not_lt_trans,
}
use iceberg_cxx.PositionalDelete.Reader.{
  RowGroupMetadata, Query, less, greater, state, metadata_position,
}
use iceberg_cxx.PositionalDelete.Valid.{Fits, WithinPaths, WithinPositions, has_row}

abbrev pub lower : Query → Position
lower q = place q.url q.begin

abbrev pub upper : Query → Position
upper q = place q.url q.end

-- The row is in the range of the query.
unfoldable pub in_range : Query → ℕ → Bool
in_range q i = leb q.begin i && ltb i q.end

-- All records are before the position.
abbrev pub Below : Position → List Row → Type 0
Below a rows = All (λ r. before (at r) a ≡ true) rows

-- A record that is not before a bound is not among records that are.
pub Below-has_row :
    (p : Bytes) (i : ℕ) (a : Position) (rows : List Row)
    → Below a rows
    → before (place p i) a ≡ false
    → has_row p i rows ≡ false
unfolding has_row
Below-has_row p i a [] h k = refl
Below-has_row p i a (r ∷ rs) (h, hs) k = elim (Bool-cases (eqb_bytes p r.file_path && i == r.pos)) [
  | inl e ↦
      let same : p ≡ r.file_path = eqb_bytes-eq p r.file_path (ground arith) in
      let row : i ≡ r.pos = ground arith in cc
  | inr e ↦ ground (arith, Below-has_row p i a rs hs k)
]

-- A row of the range is before the end of it, and not before its begin.
pub in_range-before :
    (q : Query) (i : ℕ)
    → in_range q i ≡ true
    → (before (place q.url i) (upper q) ≡ true) × (before (place q.url i) (lower q) ≡ false)
unfolding in_range before
in_range-before q i h =
    (ground (arith, bytes_lt_irrefl q.url), ground (arith, bytes_lt_irrefl q.url))

pub upper-not_before-lower :
    (q : Query) (p : Bytes) (i : ℕ)
    → q.begin ≤ q.end
    → before (place p i) (upper q) ≡ false
    → before (place p i) (lower q) ≡ false
unfolding before
upper-not_before-lower q p i h k =
    not_before_trans (lower q) (upper q) (place p i) (ground (arith, bytes_lt_irrefl q.url)) k

Fits-less :
    (paths : Option (Bytes × Bytes)) (positions : Option (ℕ × ℕ)) (u v : Bool) (q : Query)
    (p : Bytes) (i : ℕ)
    → WithinPaths paths p
    → WithinPositions positions i
    → state
        (record {
          path_stats_set = u;
          path_min_max = paths;
          pos_stats_set = v;
          pos_min_max = positions;
        })
        q
      ≡ less
    → before (place p i) (lower q) ≡ true
unfolding state before
Fits-less none positions u v q p i w w' e = ground arith
Fits-less (some (a, b)) none u v q p i w w' e =
    ground (arith, bytes_not_lt_trans q.url p b, bytes_lt_asym p q.url)
Fits-less (some (a, b)) (some (c, d)) u v q p i w w' e = ground (
  arith,
  bytes_not_lt_trans q.url p b,
  bytes_not_lt_trans p b q.url,
  bytes_lt_asym p q.url,
  eqb_bytes-eq a b,
)

-- A row group that is behind the query has only records before the range.
pub state_less-Below :
    (m : RowGroupMetadata) (q : Query) (rows : List Row)
    → All (Fits m) rows
    → state m q ≡ less
    → Below (lower q) rows
state_less-Below m q [] f e = tt
state_less-Below m q (r ∷ rs) ((f, g), fs) e = (
  Fits-less m.path_min_max m.pos_min_max m.path_stats_set m.pos_stats_set q r.file_path r.pos f g e,
  state_less-Below m q rs fs e,
)

greater-bound :
    (paths : Option (Bytes × Bytes)) (positions : Option (ℕ × ℕ)) (u v : Bool) (q : Query)
    → state
        (record {
          path_stats_set = u;
          path_min_max = paths;
          pos_stats_set = v;
          pos_min_max = positions;
        })
        q
      ≡ greater
    → before
        (metadata_position (record {
          path_stats_set = u;
          path_min_max = paths;
          pos_stats_set = v;
          pos_min_max = positions;
        }))
        (upper q)
      ≡ false
unfolding state before metadata_position
greater-bound none positions u v q e = ground arith
greater-bound (some (a, b)) none u v q e = ground (arith, bytes_lt_asym q.url a)
greater-bound (some (a, b)) (some (c, d)) u v q e =
    ground (arith, bytes_lt_asym q.url a, eqb_bytes-eq a b)

-- A row group that is ahead of the query starts at or behind the end of the range.
pub state_greater-bound :
    (m : RowGroupMetadata) (q : Query)
    → state m q ≡ greater
    → before (metadata_position m) (upper q) ≡ false
state_greater-bound m q e =
    greater-bound m.path_min_max m.pos_min_max m.path_stats_set m.pos_stats_set q e
