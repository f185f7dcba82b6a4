-- ===== src/PositionalDelete/Valid.antt =====
-- Readers of files that keep what Iceberg asks of delete files: what is pending in a reader, and what
-- a step of iceberg/positional_delete/positional_delete.cpp does to it.
use iceberg_cxx.Common.{
  ℕ, ◌≤◌, ◌≡◌, refl, Bool, false, ◌&&◌, ◌||◌, Option, none, some, List, [], ◌∷◌, ◌++◌, arith, ◌==◌,
  All,
}
use iceberg_cxx.Common.Int.{ℤ}
use iceberg_cxx.Filter.Value.{Bytes}
use iceberg_cxx.Filter.Order.{ltb_bytes, eqb_bytes}
use iceberg_cxx.PositionalDelete.Position.{
  Row, Position, before, place, at, not_before_trans, before_irrefl,
}
use iceberg_cxx.PositionalDelete.Reader.{
  RowGroupMetadata, RowGroup, Reader, next_row_group, get_position, metadata_position,
}

abbrev pub rows_of : List RowGroup → List Row
rows_of [] = []
rows_of (g ∷ gs) = g.rows ++ rows_of gs

abbrev pub current_row : Option Bytes → Option ℕ → List Row → List Row
current_row (some p) (some i) rows = record { file_path = p; pos = i } ∷ rows
current_row _ _ rows = rows

-- The records of a reader that are not consumed.
unfoldable pub pending : Reader → List Row
pending r = current_row r.current_file_path r.current_pos (r.unread ++ rows_of r.row_groups)

-- No record stands before the position.
abbrev pub Above : Position → List Row → Type 0
Above a rows = All (λ r. before (at r) a ≡ false) rows

-- Records are sorted by path and position, and paths are not empty.
abbrev pub Sorted : List Row → Type 0
Sorted [] = Unit
Sorted (r ∷ rs) = (eqb_bytes [] r.file_path ≡ false) × Above (at r) rs × Sorted rs

abbrev pub WithinPaths : Option (Bytes × Bytes) → Bytes → Type 0
WithinPaths none p = Unit
WithinPaths (some (a, b)) p = (ltb_bytes p a ≡ false) × (ltb_bytes b p ≡ false)

abbrev pub WithinPositions : Option (ℕ × ℕ) → ℕ → Type 0
WithinPositions none i = Unit
WithinPositions (some (a, b)) i = (a ≤ i) × (i ≤ b)

-- The statistics hold the values of the row group.
abbrev pub Fits : RowGroupMetadata → Row → Type 0
Fits m r = WithinPaths m.path_min_max r.file_path × WithinPositions m.pos_min_max r.pos

-- The minima of a row group also bound the row groups after it, which are sorted behind it.
abbrev pub IsDescribed : RowGroupMetadata → List Row → List RowGroup → Type 0
IsDescribed m rows gs = All (Fits m) rows × Above (metadata_position m) (rows ++ rows_of gs)

abbrev pub AreDescribed : List RowGroup → Type 0
AreDescribed [] = Unit
AreDescribed (g ∷ gs) = IsDescribed g.metadata g.rows gs × AreDescribed gs

abbrev pub CurrentIsValid :
    Option Bytes → Option ℕ → RowGroupMetadata → List Row → List RowGroup → Type 0
CurrentIsValid none none m rows gs = IsDescribed m rows gs
CurrentIsValid (some p) (some i) m rows gs = Unit
CurrentIsValid _ _ m rows gs = ⊥

-- A reader of a file that keeps the rules.
unfoldable pub IsValid : Reader → Type 0
unfolding pending
IsValid r =
    Sorted (pending r)
    × AreDescribed r.row_groups
    × CurrentIsValid r.current_file_path r.current_pos r.metadata r.unread r.row_groups

pub All-append : (P : Row → Type 0) (xs ys : List Row) → All P (xs ++ ys) → All P ys
All-append P [] ys h = h
All-append P (x ∷ xs) ys h = All-append P xs ys h.1

pub Above-trans :
    (a b : Position) (rows : List Row) → before b a ≡ false → Above b rows → Above a rows
Above-trans a b [] h k = tt
Above-trans a b (r ∷ rs) h k = (not_before_trans a b (at r) h k.0, Above-trans a b rs h k.1)

-- The position of a reader bounds what is pending in it.
pub get_position-Above : (r : Reader) → IsValid r → Above (get_position r) (pending r)
unfolding get_position IsValid
get_position-Above r v = go r.current_file_path r.current_pos v
  where
    go :
        (p : Option Bytes) (i : Option ℕ)
        → IsValid (record r { current_file_path = p; current_pos = i })
        → Above
            (get_position (record r { current_file_path = p; current_pos = i }))
            (pending (record r { current_file_path = p; current_pos = i }))
    go none none (s, d, c) = c.1
    go (some p) (some i) (s, d, c) = (before_irrefl (place p i), s.1)
    go none (some i) (s, d, c) = absurd c
    go (some p) none (s, d, c) = absurd c

-- The first row group of a file, or the next one.
abbrev pub OptionAll : (Reader → Type 0) → Option Reader → Type 0
OptionAll P none = Unit
OptionAll P (some r) = P r

abbrev pub OptionIsValid : Option Reader → Type 0
OptionIsValid = OptionAll IsValid

abbrev pub pending_after : Option Reader → List Row
pending_after none = []
pending_after (some r) = pending r

pub next_row_group-IsValid :
    (layer : ℤ) (gs : List RowGroup)
    → Sorted (rows_of gs)
    → AreDescribed gs
    → OptionIsValid (next_row_group layer gs)
unfolding next_row_group IsValid
next_row_group-IsValid layer [] s d = tt
next_row_group-IsValid layer (g ∷ gs) s d = (s, d.1, d.0)

pub next_row_group-pending :
    (layer : ℤ) (gs : List RowGroup) → pending_after (next_row_group layer gs) ≡ rows_of gs
unfolding next_row_group pending
next_row_group-pending layer [] = refl
next_row_group-pending layer (g ∷ gs) = refl

-- Whether the row is among the records.
unfoldable pub has_row : Bytes → ℕ → List Row → Bool
has_row p i [] = false
has_row p i (r ∷ rs) = (eqb_bytes p r.file_path && i == r.pos) || has_row p i rs

pub has_row-append :
    (p : Bytes) (i : ℕ) (xs ys : List Row)
    → has_row p i (xs ++ ys) ≡ (has_row p i xs || has_row p i ys)
unfolding has_row
has_row-append p i [] ys = refl
has_row-append p i (x ∷ xs) ys = ground (arith, has_row-append p i xs ys)

-- A reader that is not started has all of its row group ahead.
no_path :
    (path : Option Bytes) (pos : Option ℕ) (m : RowGroupMetadata) (rows : List Row)
    (gs : List RowGroup)
    → CurrentIsValid path pos m rows gs
    → pos ≡ none
    → path ≡ none
no_path none pos m rows gs c e = refl
no_path (some p) none m rows gs c e = absurd c
no_path (some p) (some i) m rows gs c e = cc

pub unstarted_path : (r : Reader) → IsValid r → r.current_pos ≡ none → r.current_file_path ≡ none
unfolding IsValid
unstarted_path r (s, d, c) e =
    no_path r.current_file_path r.current_pos r.metadata r.unread r.row_groups c e

pub unstarted-pending :
    (r : Reader) → IsValid r → r.current_pos ≡ none → pending r ≡ r.unread ++ rows_of r.row_groups
unfolding pending
unstarted-pending r v e = rw (unstarted_path r v e) refl

-- A started reader is at a path.
pub started_path :
    (r : Reader) (i : ℕ)
    → IsValid r
    → r.current_pos ≡ some i
    → (p : Bytes) × (r.current_file_path ≡ some p)
unfolding IsValid
started_path r i (s, d, c) e = go r.current_file_path r.current_pos c e
  where
    go :
        (path : Option Bytes) (pos : Option ℕ)
        → CurrentIsValid path pos r.metadata r.unread r.row_groups
        → pos ≡ some i
        → (p : Bytes) × (path ≡ some p)
    go none none c e = cc
    go none (some j) c e = absurd c
    go (some p) pos c e = (p, refl)

pub started-pending :
    (r : Reader) (p : Bytes) (i : ℕ)
    → r.current_file_path ≡ some p
    → r.current_pos ≡ some i
    → pending r ≡ record { file_path = p; pos = i } ∷ r.unread ++ rows_of r.row_groups
unfolding pending
started-pending r p i e k = rw (e, k) refl

described :
    (path : Option Bytes) (pos : Option ℕ) (m : RowGroupMetadata) (rows : List Row)
    (gs : List RowGroup)
    → CurrentIsValid path pos m rows gs
    → pos ≡ none
    → IsDescribed m rows gs
described none none m rows gs c e = c
described (some p) none m rows gs c e = absurd c
described path (some i) m rows gs c e = cc

-- The statistics of a row group that is not started hold its values.
pub unstarted-Fits :
    (r : Reader) → IsValid r → r.current_pos ≡ none → All (Fits r.metadata) r.unread
unfolding IsValid
unstarted-Fits r (s, d, c) e =
    (described r.current_file_path r.current_pos r.metadata r.unread r.row_groups c e).0

pub unstarted-position :
    (r : Reader) → r.current_pos ≡ none → get_position r ≡ metadata_position r.metadata
unfolding get_position
unstarted-position r e = rw e refl

pub started-position :
    (r : Reader) (p : Bytes) (i : ℕ)
    → r.current_file_path ≡ some p
    → r.current_pos ≡ some i
    → get_position r ≡ place p i
unfolding get_position
started-position r p i e k = rw (e, k) refl
