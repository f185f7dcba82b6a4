-- ===== src/PositionalDelete/Steps.antt =====
-- What Next and NextRowGroup of iceberg/positional_delete/positional_delete.cpp do to a reader.
use iceberg_cxx.Common.{
  ℕ, ◌+◌, ◌<◌, ◌≡◌, refl, sym, ap, ◌∙◌, Option, none, some, List, [], ◌∷◌, ◌++◌, arith, length,
}
use mathlib.Core.Path.{subst}
use iceberg_cxx.Common.Int.{ℤ}
use iceberg_cxx.Filter.Value.{Bytes}
use iceberg_cxx.PositionalDelete.Position.{Row}
use iceberg_cxx.PositionalDelete.Reader.{RowGroup, Reader, next_row_group, next_value, next}
use iceberg_cxx.PositionalDelete.Queue.{groups_size, reader_size}
use iceberg_cxx.PositionalDelete.Valid.{
  rows_of, pending, Sorted, AreDescribed, IsValid, OptionIsValid, pending_after,
  next_row_group-IsValid, next_row_group-pending, unstarted-pending, started-pending,
}

abbrev pub layer_after : ℤ → Option Reader → ℤ
layer_after layer none = layer
layer_after layer (some r) = r.layer

abbrev pub size_after : Option Reader → ℕ
size_after none = 0
size_after (some r) = reader_size r

-- What a round does to the reader that was on top: it drops records and goes on with the others.
pub record Drops (r : Reader) (dropped : List Row) (after : Option Reader) : Type 0 where
  pub splits : pending r ≡ dropped ++ pending_after after
  pub is_valid : OptionIsValid after
  pub same_layer : layer_after r.layer after ≡ r.layer
  pub shrinks : size_after after < reader_size r

Sorted-append : (xs ys : List Row) → Sorted (xs ++ ys) → Sorted ys
Sorted-append [] ys s = s
Sorted-append (x ∷ xs) ys (n, a, s) = Sorted-append xs ys s

pub next_row_group-layer :
    (layer : ℤ) (gs : List RowGroup) → layer_after layer (next_row_group layer gs) ≡ layer
unfolding next_row_group
next_row_group-layer layer [] = refl
next_row_group-layer layer (g ∷ gs) = refl

pub next_row_group-size :
    (layer : ℤ) (gs : List RowGroup) → size_after (next_row_group layer gs) < groups_size gs
unfolding next_row_group reader_size groups_size
next_row_group-size layer [] = omega arith
next_row_group-size layer (g ∷ gs) = omega arith

module _ (r : Reader) where
  next_value-pending :
      (rows : List Row)
      → Sorted (rows ++ rows_of r.row_groups)
      → pending_after (next_value r rows) ≡ rows ++ rows_of r.row_groups
  unfolding next_value pending
  next_value-pending [] s = next_row_group-pending r.layer r.row_groups
  next_value-pending (row ∷ rows) (n, a, s) = rw n refl

  next_value-IsValid :
      (rows : List Row)
      → Sorted (rows ++ rows_of r.row_groups)
      → AreDescribed r.row_groups
      → OptionIsValid (next_value r rows)
  unfolding next_value IsValid pending
  next_value-IsValid [] s d = next_row_group-IsValid r.layer r.row_groups s d
  next_value-IsValid (row ∷ rows) (n, a, s) d = rw n ((n, a, s), d, tt)

  next_value-layer : (rows : List Row) → layer_after r.layer (next_value r rows) ≡ r.layer
  unfolding next_value
  next_value-layer [] = next_row_group-layer r.layer r.row_groups
  next_value-layer (row ∷ rows) = refl

  pub next_value-size :
      (rows : List Row) → size_after (next_value r rows) < length rows + groups_size r.row_groups
  unfolding next_value reader_size
  next_value-size [] = omega (arith, next_row_group-size r.layer r.row_groups)
  next_value-size (row ∷ rows) = omega arith

-- Passing over a row group drops the records of it.
pub skip-Drops :
    (r : Reader)
    → IsValid r
    → r.current_pos ≡ none
    → Drops r r.unread (next_row_group r.layer r.row_groups)
unfolding IsValid reader_size
skip-Drops r (s, d, c) e =
    let whole = unstarted-pending r (s, d, c) e in
    record {
      splits = whole ∙ ap (λ v. r.unread ++ v) (sym (next_row_group-pending r.layer r.row_groups));
      is_valid =
          next_row_group-IsValid r.layer r.row_groups
            (Sorted-append r.unread (rows_of r.row_groups) (subst Sorted whole s)) d;
      same_layer = next_row_group-layer r.layer r.row_groups;
      shrinks = omega (arith, next_row_group-size r.layer r.row_groups);
    }

-- Starting a row group drops nothing.
pub begin-Drops : (r : Reader) → IsValid r → r.current_pos ≡ none → Drops r [] (next r)
unfolding IsValid next reader_size
begin-Drops r (s, d, c) e =
    let whole = unstarted-pending r (s, d, c) e in
    let sorted = subst Sorted whole s in
    record {
      splits = whole ∙ sym (next_value-pending r r.unread sorted);
      is_valid = next_value-IsValid r r.unread sorted d;
      same_layer = next_value-layer r r.unread;
      shrinks = next_value-size r r.unread;
    }

-- The next record drops the current one.
pub next-Drops :
    (r : Reader) (p : Bytes) (i : ℕ)
    → IsValid r
    → r.current_file_path ≡ some p
    → r.current_pos ≡ some i
    → Drops r (record { file_path = p; pos = i } ∷ []) (next r)
unfolding IsValid next reader_size
next-Drops r p i (s, d, c) e k =
    let whole = started-pending r p i e k in
    let sorted = (subst Sorted whole s).2 in
    record {
      splits =
          whole
          ∙ ap (λ v. record { file_path = p; pos = i } ∷ v)
              (sym (next_value-pending r r.unread sorted));
      is_valid = next_value-IsValid r r.unread sorted d;
      same_layer = next_value-layer r r.unread;
      shrinks = next_value-size r r.unread;
    }
