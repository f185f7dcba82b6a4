-- ===== src/DeletionVector.antt =====
-- DeletionVector of iceberg/deletion_vector.h and .cpp. The bitmap of CRoaring and the checksum of zlib
-- are a parameter. Bytes are numbers below 256, and the machine is little-endian.
use iceberg_cxx.Common.{
  ℕ, ◌+◌, ◌-◌, ◌*◌, ◌/◌, ◌%◌, ◌≡◌, ◌<◌, Bool, true, false, not, Option, none, some, List, [], ◌∷◌,
  ◌++◌, arith, ltb, leb, ◌==◌, if◌then◌else◌, length, Result, ok, err, ◌>>=◌,
}
use iceberg_cxx.Filter.Value.{Bytes}
use iceberg_cxx.Filter.Order.{eqb_bytes}
pub mod Blob
pub mod RoundTrip
pub mod Elements
pub mod Samples
mod Examples

-- What the code calls of roaring::Roaring64Map and of zlib. `iterate b l` is what an iterator that
-- is moved to l goes through; `read_safe` has no value where the library throws.
pub record BitmapLibrary : Type 1 where
  pub Bitmap : Type 0
  pub contains_in : Bitmap → ℕ → Bool
  pub rank : Bitmap → ℕ → ℕ
  pub iterate : Bitmap → ℕ → List ℕ
  pub size_in_bytes : Bitmap → ℕ
  pub shrink_to_fit : Bitmap → Bitmap
  pub write : Bitmap → Bytes
  pub read_safe : Bytes → Option Bitmap
  pub crc32 : Bytes → ℕ

-- Unsigned subtraction in 64 bits.
abbrev pub sub_u64 : ℕ → ℕ → ℕ
sub_u64 a b = (a + 18446744073709551616 - b) % 18446744073709551616

abbrev pub bit : Bool → ℕ
bit false = 0
bit true = 1

-- The loop of `GetElems` over what the iterator goes through.
unfoldable pub up_to : ℕ → List ℕ → List ℕ
up_to r [] = []
up_to r (x ∷ xs) = let rest = up_to r xs in if leb x r then x ∷ rest else []

module _ (lib : BitmapLibrary) where
  -- `Cardinality` of a range: unsigned sums wrap around.
  unfoldable pub cardinality_in : lib.Bitmap → ℕ → ℕ → ℕ
  cardinality_in b l r =
      (sub_u64 (lib.rank b r) (lib.rank b l) + bit (lib.contains_in b l)) % 18446744073709551616

  unfoldable pub get_elems : lib.Bitmap → ℕ → ℕ → List ℕ
  unfolding up_to
  get_elems b l r = up_to r (lib.iterate b l)
