-- ===== src/PositionalDelete/Rows.antt =====
-- The rows that GetDeleted of iceberg/positional_delete/positional_delete.cpp collects, and which
-- records of the queue are about a row.
use iceberg_cxx.Common.{
  ℕ, suc, ◌≤◌, ◌<◌, ◌≡◌, refl, inl, inr, Bool, true, false, ◌&&◌, ◌||◌, some, List, [], ◌∷◌, ◌++◌,
  arith, ◌==◌, Bool-cases, All,
}
use iceberg_cxx.Common.Int.{ℤ, leb_ℤ}
use iceberg_cxx.Filter.Value.{Bytes}
use iceberg_cxx.Filter.Order.{eqb_bytes}
use iceberg_cxx.Selection.Filtered.{contains, AtLeast}
use iceberg_cxx.PositionalDelete.Position.{Row, Position, before, place, eqb_bytes-eq}
use iceberg_cxx.PositionalDelete.Reader.{Reader}
use iceberg_cxx.PositionalDelete.Queue.{back}
use iceberg_cxx.PositionalDelete.Valid.{pending, Above, has_row}
use iceberg_cxx.PositionalDelete.Top.{any_reader}

-- The rows are in order and no row occurs twice.
abbrev pub Rising : List ℕ → Type 0
Rising [] = Unit
Rising (x ∷ xs) = AtLeast (suc x) xs × Rising xs

AtLeast-snoc : (x i : ℕ) (xs : List ℕ) → AtLeast x xs → x ≤ i → AtLeast x (xs ++ i ∷ [])
AtLeast-snoc x i [] a h = (h, tt)
AtLeast-snoc x i (y ∷ ys) (a, b) h = (a, AtLeast-snoc x i ys b h)

back-cons : (x y : ℕ) (xs : List ℕ) → back xs ≡ some y → back (x ∷ xs) ≡ some y
unfolding back
back-cons x y [] e = cc
back-cons x y (z ∷ zs) e = e

back-AtLeast : (x b : ℕ) (xs : List ℕ) → AtLeast x xs → back xs ≡ some b → x ≤ b
unfolding back
back-AtLeast x b [] a e = cc
back-AtLeast x b (y ∷ []) (a, c) e = ground arith
back-AtLeast x b (y ∷ z ∷ zs) (a, c) e = back-AtLeast x b (z ∷ zs) c e

pub back-snoc : (xs : List ℕ) (i : ℕ) → back (xs ++ i ∷ []) ≡ some i
unfolding back
back-snoc [] i = refl
back-snoc (x ∷ []) i = refl
back-snoc (x ∷ y ∷ ys) i = back-snoc (y ∷ ys) i

back-some : (x : ℕ) (xs : List ℕ) → (b : ℕ) × (back (x ∷ xs) ≡ some b)
unfolding back
back-some x [] = (x, refl)
back-some x (y ∷ ys) = back-some y ys

-- A row behind the last one.
pub Rising-snoc :
    (xs : List ℕ) (i : ℕ) → Rising xs → ((b : ℕ) → back xs ≡ some b → b < i) → Rising (xs ++ i ∷ [])
unfolding back
Rising-snoc [] i r h = (tt, tt)
Rising-snoc (x ∷ []) i r h = ((h x refl, tt), (tt, tt))
Rising-snoc (x ∷ y ∷ ys) i (a, r) h =
    let (b, e) = back-some y ys in
    let below = h b (back-cons x b (y ∷ ys) e) in
    let least = back-AtLeast (suc x) b (y ∷ ys) a e in
    (
      AtLeast-snoc (suc x) i (y ∷ ys) a (omega arith),
      Rising-snoc (y ∷ ys) i r (λ c k. h c (back-cons x c (y ∷ ys) k)),
    )

pub contains-snoc : (xs : List ℕ) (i x : ℕ) → contains (xs ++ i ∷ []) x ≡ (contains xs x || i == x)
unfolding contains
contains-snoc [] i x = ground arith
contains-snoc (y ∷ ys) i x = ground (arith, contains-snoc ys i x)

pub contains-back : (xs : List ℕ) (b : ℕ) → back xs ≡ some b → contains xs b ≡ true
unfolding contains back
contains-back [] b e = cc
contains-back (x ∷ []) b e = ground arith
contains-back (x ∷ y ∷ ys) b e = ground (arith, contains-back (y ∷ ys) b e)

-- Nothing stands before a bound.
pub Above-has_row :
    (p : Bytes) (i : ℕ) (a : Position) (rows : List Row)
    → Above a rows
    → before (place p i) a ≡ true
    → has_row p i rows ≡ false
unfolding has_row
Above-has_row p i a [] h k = refl
Above-has_row p i a (r ∷ rs) (h, hs) k = elim (Bool-cases (eqb_bytes p r.file_path && i == r.pos)) [
  | inl e ↦
      let same : p ≡ r.file_path = eqb_bytes-eq p r.file_path (ground arith) in
      let row : i ≡ r.pos = ground arith in cc
  | inr e ↦ ground (arith, Above-has_row p i a rs hs k)
]

-- A reader of a layer that counts that has a record about the row.
abbrev pub deletes : ℤ → Bytes → ℕ → Reader → Bool
deletes data_layer p i r = leb_ℤ data_layer r.layer && has_row p i (pending r)

abbrev pub removes : ℤ → Bytes → ℕ → List Reader → Bool
removes data_layer p i = any_reader (deletes data_layer p i)

abbrev pub AllAbove : Position → List Reader → Type 0
AllAbove a = All (λ r. Above a (pending r))

pub AllAbove-removes :
    (data_layer : ℤ) (p : Bytes) (i : ℕ) (a : Position) (queue : List Reader)
    → AllAbove a queue
    → before (place p i) a ≡ true
    → removes data_layer p i queue ≡ false
AllAbove-removes data_layer p i a [] h k = refl
AllAbove-removes data_layer p i a (r ∷ rs) (h, hs) k =
    ground (arith, Above-has_row p i a (pending r) h k, AllAbove-removes data_layer p i a rs hs k)
