-- ===== src/Filter/Order/Laws.antt =====
-- The laws of the orders that bounds rest on. They hold where values are NaN too.
use iceberg_cxx.Common.{◌≡◌, refl, true, false, ◌&&◌, [], ◌∷◌, arith}
use iceberg_cxx.Filter.Value.{
  ValueType, bool, int2, int4, int8, float4, float8, numeric, string, date, timestamp, timestamptz,
  time, interval, Bytes,
}
use iceberg_cxx.Filter.Order.{
  Comparators, int_comparators, bool_comparators, float_comparators, bytes_comparators, unranked,
  comparators, ltb_bytes, leb_bytes, eqb_bytes,
}

pub record Laws {A : Type 0} (o : Comparators A) : Type 0 where
  pub le_trans : (a b c : A) → o.le a b ≡ true → o.le b c ≡ true → o.le a c ≡ true
  pub le_lt_trans : (a b c : A) → o.le a b ≡ true → o.lt b c ≡ true → o.lt a c ≡ true
  pub lt_le_trans : (a b c : A) → o.lt a b ≡ true → o.le b c ≡ true → o.lt a c ≡ true
  pub le_of_lt : (a b : A) → o.lt a b ≡ true → o.le a b ≡ true
  -- `o.le a a` says that `a` is no NaN.
  pub le_of_not_lt :
      (a b : A) → o.le a a ≡ true → o.le b b ≡ true → o.lt b a ≡ false → o.le a b ≡ true
  pub eq_le : (a b : A) → o.eq a b ≡ (o.le a b && o.le b a)
  pub le_self : (a b : A) → o.le a b ≡ true → (o.le a a ≡ true) × (o.le b b ≡ true)

pub int-Laws : Laws int_comparators
int-Laws = record {
  le_trans = λ a b c h k. ground arith;
  le_lt_trans = λ a b c h k. ground arith;
  lt_le_trans = λ a b c h k. ground arith;
  le_of_lt = λ a b h. ground arith;
  le_of_not_lt = λ a b h k l. ground arith;
  eq_le = λ a b. ground arith;
  le_self = λ a b h. ground arith;
}

pub bool-Laws : Laws bool_comparators
bool-Laws = record {
  le_trans = λ a b c h k. ground arith;
  le_lt_trans = λ a b c h k. ground arith;
  lt_le_trans = λ a b c h k. ground arith;
  le_of_lt = λ a b h. ground arith;
  le_of_not_lt = λ a b h k l. ground arith;
  eq_le = λ a b. ground arith;
  le_self = λ a b h. ground arith;
}

pub float-Laws : Laws float_comparators
float-Laws = record {
  le_trans = λ a b c h k. ground arith;
  le_lt_trans = λ a b c h k. ground arith;
  lt_le_trans = λ a b c h k. ground arith;
  le_of_lt = λ a b h. ground arith;
  le_of_not_lt = λ a b h k l. ground arith;
  eq_le = λ a b. ground arith;
  le_self = λ a b h. ground arith;
}

pub unranked-Laws : {A : Type 0} → Laws (unranked {A = A})
unranked-Laws = record {
  le_trans = λ a b c h k. refl;
  le_lt_trans = λ a b c h k. k;
  lt_le_trans = λ a b c h k. h;
  le_of_lt = λ a b h. refl;
  le_of_not_lt = λ a b h k l. refl;
  eq_le = λ a b. refl;
  le_self = λ a b h. (refl, refl);
}

bytes_le_refl : (a : Bytes) → leb_bytes a a ≡ true
unfolding leb_bytes
bytes_le_refl [] = refl
bytes_le_refl (x ∷ xs) = ground (arith, bytes_le_refl xs)

bytes_le_trans :
    (a b c : Bytes) → leb_bytes a b ≡ true → leb_bytes b c ≡ true → leb_bytes a c ≡ true
unfolding leb_bytes
bytes_le_trans [] b c h k = refl
bytes_le_trans (x ∷ xs) [] c h k = cc
bytes_le_trans (x ∷ xs) (y ∷ ys) [] h k = cc
bytes_le_trans (x ∷ xs) (y ∷ ys) (z ∷ zs) h k = ground (arith, bytes_le_trans xs ys zs)

bytes_le_lt_trans :
    (a b c : Bytes) → leb_bytes a b ≡ true → ltb_bytes b c ≡ true → ltb_bytes a c ≡ true
unfolding leb_bytes ltb_bytes
bytes_le_lt_trans a b [] h k = cc
bytes_le_lt_trans [] b (z ∷ zs) h k = refl
bytes_le_lt_trans (x ∷ xs) [] (z ∷ zs) h k = cc
bytes_le_lt_trans (x ∷ xs) (y ∷ ys) (z ∷ zs) h k = ground (arith, bytes_le_lt_trans xs ys zs)

bytes_lt_le_trans :
    (a b c : Bytes) → ltb_bytes a b ≡ true → leb_bytes b c ≡ true → ltb_bytes a c ≡ true
unfolding leb_bytes ltb_bytes
bytes_lt_le_trans a [] c h k = cc
bytes_lt_le_trans a (y ∷ ys) [] h k = cc
bytes_lt_le_trans [] (y ∷ ys) (z ∷ zs) h k = refl
bytes_lt_le_trans (x ∷ xs) (y ∷ ys) (z ∷ zs) h k = ground (arith, bytes_lt_le_trans xs ys zs)

bytes_le_of_lt : (a b : Bytes) → ltb_bytes a b ≡ true → leb_bytes a b ≡ true
unfolding leb_bytes ltb_bytes
bytes_le_of_lt [] b h = refl
bytes_le_of_lt (x ∷ xs) [] h = cc
bytes_le_of_lt (x ∷ xs) (y ∷ ys) h = ground (arith, bytes_le_of_lt xs ys)

bytes_le_of_not_lt : (a b : Bytes) → ltb_bytes b a ≡ false → leb_bytes a b ≡ true
unfolding leb_bytes ltb_bytes
bytes_le_of_not_lt [] b h = refl
bytes_le_of_not_lt (x ∷ xs) [] h = cc
bytes_le_of_not_lt (x ∷ xs) (y ∷ ys) h = ground (arith, bytes_le_of_not_lt xs ys)

bytes_eq_le : (a b : Bytes) → eqb_bytes a b ≡ (leb_bytes a b && leb_bytes b a)
unfolding leb_bytes eqb_bytes
bytes_eq_le [] [] = refl
bytes_eq_le [] (y ∷ ys) = refl
bytes_eq_le (x ∷ xs) [] = refl
bytes_eq_le (x ∷ xs) (y ∷ ys) = ground (arith, bytes_eq_le xs ys)

pub bytes-Laws : Laws bytes_comparators
bytes-Laws = record {
  le_trans = bytes_le_trans;
  le_lt_trans = bytes_le_lt_trans;
  lt_le_trans = bytes_lt_le_trans;
  le_of_lt = bytes_le_of_lt;
  le_of_not_lt = λ a b h k l. bytes_le_of_not_lt a b l;
  eq_le = bytes_eq_le;
  le_self = λ a b h. (bytes_le_refl a, bytes_le_refl b);
}

pub comparators-Laws : (t : ValueType) → Laws (comparators t)
comparators-Laws bool = bool-Laws
comparators-Laws int2 = int-Laws
comparators-Laws int4 = int-Laws
comparators-Laws int8 = int-Laws
comparators-Laws float4 = float-Laws
comparators-Laws float8 = float-Laws
comparators-Laws numeric = unranked-Laws
comparators-Laws string = bytes-Laws
comparators-Laws date = int-Laws
comparators-Laws timestamp = int-Laws
comparators-Laws timestamptz = int-Laws
comparators-Laws time = int-Laws
comparators-Laws interval = unranked-Laws
