-- ===== src/Scan/MapKeys.antt =====
-- The keys of the maps of `ScanMetadataBuilder` in iceberg/tea_scan.cpp: texts and sequence numbers.
use iceberg_cxx.Common.{◌≡◌, true, false, not, ◌||◌, [], ◌∷◌, arith}
use iceberg_cxx.Common.Int.{ℤ, ltb_ℤ, eqb_ℤ}
use iceberg_cxx.Common.OrderedMap.{KeyOrder}
use iceberg_cxx.Filter.Value.{Bytes}
use iceberg_cxx.Filter.Order.{ltb_bytes, eqb_bytes}
use iceberg_cxx.PositionalDelete.Position.{bytes_lt_asym, bytes_not_lt_trans}

pub bytes_eqb-not_lt : (a b : Bytes) → eqb_bytes a b ≡ not (ltb_bytes a b || ltb_bytes b a)
unfolding eqb_bytes ltb_bytes
bytes_eqb-not_lt [] [] = ground arith
bytes_eqb-not_lt [] (y ∷ ys) = ground arith
bytes_eqb-not_lt (x ∷ xs) [] = ground arith
bytes_eqb-not_lt (x ∷ xs) (y ∷ ys) = ground (arith, bytes_eqb-not_lt xs ys)

pub int_asym : (a b : ℤ) → ltb_ℤ a b ≡ true → ltb_ℤ b a ≡ false
int_asym a b h = ground arith

pub int_not_lt_trans : (a b c : ℤ) → ltb_ℤ b a ≡ false → ltb_ℤ c b ≡ false → ltb_ℤ c a ≡ false
int_not_lt_trans a b c h k = ground arith

pub int_eqb-not_lt : (a b : ℤ) → eqb_ℤ a b ≡ not (ltb_ℤ a b || ltb_ℤ b a)
int_eqb-not_lt a b = ground arith

abbrev pub key_order : KeyOrder Bytes
key_order = record {
  lt = ltb_bytes;
  eqb = eqb_bytes;
  asym = bytes_lt_asym;
  not_lt_trans = bytes_not_lt_trans;
  eqb-not_lt = bytes_eqb-not_lt;
}

abbrev pub number_order : KeyOrder ℤ
number_order = record {
  lt = ltb_ℤ;
  eqb = eqb_ℤ;
  asym = int_asym;
  not_lt_trans = int_not_lt_trans;
  eqb-not_lt = int_eqb-not_lt;
}
