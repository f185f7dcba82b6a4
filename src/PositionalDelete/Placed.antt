-- ===== src/PositionalDelete/Placed.antt =====
-- Where the record on top of the queue stands in iceberg/positional_delete/positional_delete.cpp, and
-- what adding its row does.
use iceberg_cxx.Common.{
  ℕ, ◌≤◌, ◌<◌, ◌≡◌, refl, sym, ap, ◌∙◌, ◌⊎◌, inl, inr, Bool, true, false, ◌&&◌, ◌||◌, Option, none,
  some, List, [], ◌∷◌, ◌++◌, arith, ltb, leb, ◌==◌, Bool-cases,
}
use iceberg_cxx.Common.Int.{ℤ, leb_ℤ}
use iceberg_cxx.Filter.Value.{Bytes}
use iceberg_cxx.Filter.Order.{ltb_bytes, eqb_bytes}
use iceberg_cxx.Selection.Filtered.{contains}
use iceberg_cxx.PositionalDelete.Position.{
  before, place, bytes_lt_irrefl, bytes_lt_asym, eqb_bytes_self, bytes_eq_of_not_lt,
}
use iceberg_cxx.PositionalDelete.Reader.{Reader, Query, RowGroupState, less, inter, greater}
use iceberg_cxx.PositionalDelete.Queue.{back, is_new, add_row, DeleteRows}
use iceberg_cxx.PositionalDelete.States.{in_range, upper, lower}

pub state-cases : (s : RowGroupState) → (s ≡ less) ⊎ (s ≡ inter) ⊎ (s ≡ greater)
state-cases less = inl refl
state-cases inter = inr (inl refl)
state-cases greater = inr (inr refl)

pub not_before-le : (p : Bytes) (b i : ℕ) → before (place p i) (place p b) ≡ false → b ≤ i
unfolding before
not_before-le p b i h = ground (arith, bytes_lt_irrefl p)

-- A row is added at the end or not at all.
pub add_row-cases :
    (data_layer : ℤ) (r : Reader) (i : ℕ) (rows : DeleteRows)
    → ((add_row data_layer r i rows ≡ rows ++ i ∷ [])
        × (is_new (back rows) i ≡ true)
        × (leb_ℤ data_layer r.layer ≡ true))
      ⊎ ((add_row data_layer r i rows ≡ rows)
          × ((is_new (back rows) i ≡ false) ⊎ (leb_ℤ data_layer r.layer ≡ false)))
unfolding add_row
add_row-cases data_layer r i rows = elim (Bool-cases (is_new (back rows) i)) [
  | inl e ↦ elim (Bool-cases (leb_ℤ data_layer r.layer)) [
    | inl k ↦ inl (rw (e, k) refl, e, k)
    | inr k ↦ inr (rw (e, k) refl, inr k)
  ]
  | inr e ↦ inr (rw e refl, inl e)
]

pub not_new : (last : Option ℕ) (i : ℕ) → is_new last i ≡ false → last ≡ some i
not_new none i h = cc
not_new (some b) i h = ap some (ground arith)

pub new-lt : (last : Option ℕ) (i b : ℕ) → is_new last i ≡ true → last ≡ some b → b ≤ i → b < i
new-lt none i b h e k = cc
new-lt (some c) i b h e k = ground arith

pub absorb :
    (c a l e : Bool) (x i : ℕ)
    → (x ≡ i → c ≡ true)
    → c ≡ (c || (a && (l && ((e && x == i) || false))))
absorb c a l e x i h = ground (arith, h)

pub found_at : (rows : List ℕ) (x i : ℕ) → contains rows i ≡ true → x ≡ i → contains rows x ≡ true
found_at rows x i h e = ap (contains rows) e ∙ h

pub and_both : (a b : Bool) → (a && b) ≡ true → (a ≡ true) × (b ≡ true)
and_both a b h = (ground arith, ground arith)

pub range-in : (q : Query) (i : ℕ) → leb q.begin i ≡ true → ltb i q.end ≡ true → in_range q i ≡ true
unfolding in_range
range-in q i h k = ground arith

-- Where a record stands that the query does not ask for.
pub path_behind :
    (q : Query) (path : Bytes) (i : ℕ)
    → ltb_bytes q.url path ≡ true
    → before (place path i) (upper q) ≡ false
unfolding before
path_behind q path i h = ground (arith, bytes_lt_asym q.url path)

pub row_behind :
    (q : Query) (i : ℕ) → ltb i q.end ≡ false → before (place q.url i) (upper q) ≡ false
unfolding before
row_behind q i h = ground (arith, bytes_lt_irrefl q.url)

pub record_early :
    (q : Query) (path : Bytes) (i : ℕ)
    → ltb_bytes q.url path ≡ false
    → (eqb_bytes q.url path && leb q.begin i) ≡ false
    → before (place path i) (lower q) ≡ true
unfolding before
record_early q path i h k = elim (Bool-cases (ltb_bytes path q.url)) [
  | inl e ↦ ground arith
  | inr e ↦
      let same : q.url ≡ path = bytes_eq_of_not_lt q.url path h e in
      let equal : eqb_bytes q.url path ≡ true =
        ap (eqb_bytes q.url) (sym same) ∙ eqb_bytes_self q.url in
      ground arith
]
