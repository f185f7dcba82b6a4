-- ===== src/PositionalDelete/Position.antt =====
-- The order of optional positions in iceberg/positional_delete/positional_delete.cpp: that of
-- std::pair and std::optional.
use iceberg_cxx.Common.{
  ℕ, ◌≡◌, refl, Bool, true, false, not, ◌&&◌, ◌||◌, Option, none, some, [], ◌∷◌, arith, ltb,
}
use iceberg_cxx.Filter.Value.{Bytes}
use iceberg_cxx.Filter.Order.{ltb_bytes, eqb_bytes}

-- A record of a delete file.
pub record Row : Type 0 where
  pub file_path : Bytes
  pub pos : ℕ

-- What `ReaderHolder::GetPosition` returns.
pub record Position : Type 0 where
  pub path : Option Bytes
  pub row : Option ℕ

abbrev pub lt_path : Option Bytes → Option Bytes → Bool
lt_path a none = false
lt_path none (some b) = true
lt_path (some a) (some b) = ltb_bytes a b

abbrev pub lt_row : Option ℕ → Option ℕ → Bool
lt_row a none = false
lt_row none (some b) = true
lt_row (some a) (some b) = ltb a b

-- `operator<` on pairs.
unfoldable pub before : Position → Position → Bool
before a b = lt_path a.path b.path || (not (lt_path b.path a.path) && lt_row a.row b.row)

abbrev pub place : Bytes → ℕ → Position
place p i = record { path = some p; row = some i }

abbrev pub at : Row → Position
at r = place r.file_path r.pos

pub bytes_not_lt_trans :
    (a b c : Bytes) → ltb_bytes b a ≡ false → ltb_bytes c b ≡ false → ltb_bytes c a ≡ false
unfolding ltb_bytes
bytes_not_lt_trans [] b c h k = refl
bytes_not_lt_trans (x ∷ xs) [] c h k = cc
bytes_not_lt_trans (x ∷ xs) (y ∷ ys) [] h k = cc
bytes_not_lt_trans (x ∷ xs) (y ∷ ys) (z ∷ zs) h k = ground (arith, bytes_not_lt_trans xs ys zs)

pub bytes_lt_irrefl : (a : Bytes) → ltb_bytes a a ≡ false
unfolding ltb_bytes
bytes_lt_irrefl [] = refl
bytes_lt_irrefl (x ∷ xs) = ground (arith, bytes_lt_irrefl xs)

pub bytes_lt_asym : (a b : Bytes) → ltb_bytes a b ≡ true → ltb_bytes b a ≡ false
unfolding ltb_bytes
bytes_lt_asym a [] h = cc
bytes_lt_asym [] (y ∷ ys) h = refl
bytes_lt_asym (x ∷ xs) (y ∷ ys) h = ground (arith, bytes_lt_asym xs ys)

pub bytes_eq_of_not_lt : (a b : Bytes) → ltb_bytes a b ≡ false → ltb_bytes b a ≡ false → a ≡ b
unfolding ltb_bytes
bytes_eq_of_not_lt [] [] h k = refl
bytes_eq_of_not_lt [] (y ∷ ys) h k = cc
bytes_eq_of_not_lt (x ∷ xs) [] h k = cc
bytes_eq_of_not_lt (x ∷ xs) (y ∷ ys) h k = ground (arith, bytes_eq_of_not_lt xs ys)

pub eqb_bytes-eq : (a b : Bytes) → eqb_bytes a b ≡ true → a ≡ b
unfolding eqb_bytes
eqb_bytes-eq [] [] h = refl
eqb_bytes-eq [] (y ∷ ys) h = cc
eqb_bytes-eq (x ∷ xs) [] h = cc
eqb_bytes-eq (x ∷ xs) (y ∷ ys) h = ground (arith, eqb_bytes-eq xs ys)

pub eqb_bytes_self : (a : Bytes) → eqb_bytes a a ≡ true
unfolding eqb_bytes
eqb_bytes_self [] = refl
eqb_bytes_self (x ∷ xs) = ground (arith, eqb_bytes_self xs)

path_not_lt_trans :
    (a b c : Option Bytes) → lt_path b a ≡ false → lt_path c b ≡ false → lt_path c a ≡ false
path_not_lt_trans none b c h k = refl
path_not_lt_trans (some a) none c h k = cc
path_not_lt_trans (some a) (some b) none h k = cc
path_not_lt_trans (some a) (some b) (some c) h k = bytes_not_lt_trans a b c h k

row_not_lt_trans : (a b c : Option ℕ) → lt_row b a ≡ false → lt_row c b ≡ false → lt_row c a ≡ false
row_not_lt_trans none b c h k = refl
row_not_lt_trans (some a) none c h k = cc
row_not_lt_trans (some a) (some b) none h k = cc
row_not_lt_trans (some a) (some b) (some c) h k = ground arith

path_lt_asym : (a b : Option Bytes) → lt_path a b ≡ true → lt_path b a ≡ false
path_lt_asym a none h = cc
path_lt_asym none (some b) h = refl
path_lt_asym (some a) (some b) h = bytes_lt_asym a b h

-- The order is total: "not before" is transitive.
pub not_before_trans :
    (a b c : Position) → before b a ≡ false → before c b ≡ false → before c a ≡ false
unfolding before
not_before_trans a b c h k = ground (
  arith,
  path_not_lt_trans a.path b.path c.path,
  path_not_lt_trans c.path a.path b.path,
  path_not_lt_trans b.path c.path a.path,
  path_lt_asym c.path a.path,
  path_lt_asym b.path a.path,
  path_lt_asym c.path b.path,
  row_not_lt_trans a.row b.row c.row,
)

row_lt_irrefl : (a : Option ℕ) → lt_row a a ≡ false
row_lt_irrefl none = refl
row_lt_irrefl (some a) = ground arith

path_lt_irrefl : (a : Option Bytes) → lt_path a a ≡ false
path_lt_irrefl none = refl
path_lt_irrefl (some a) = bytes_lt_irrefl a

pub before_irrefl : (a : Position) → before a a ≡ false
unfolding before
before_irrefl a = ground (arith, path_lt_irrefl a.path, row_lt_irrefl a.row)

row_lt_asym : (a b : Option ℕ) → lt_row a b ≡ true → lt_row b a ≡ false
row_lt_asym a none h = cc
row_lt_asym none (some b) h = refl
row_lt_asym (some a) (some b) h = ground arith

pub before_asym : (a b : Position) → before a b ≡ true → before b a ≡ false
unfolding before
before_asym a b h =
    ground (arith, path_lt_asym a.path b.path, path_lt_asym b.path a.path, row_lt_asym a.row b.row)
