-- ===== src/Uuid.antt =====
-- Uuid of iceberg/uuid.h and .cpp: its text and what reads it. `none` is an exception of Parse.
use iceberg_cxx.Common.{
  ℕ, zero, suc, ◌+◌, ◌-◌, ◌*◌, ◌/◌, ◌%◌, Bool, true, false, ◌&&◌, Option, none, some, List, [], ◌∷◌,
  ◌++◌, arith, ltb, leb, ◌==◌, if◌then◌else◌, length, get_or,
}
use iceberg_cxx.Common.Options.{◌>>=◌}
use iceberg_cxx.Filter.Value.{Bytes}
pub mod Text
mod Examples

pub record Uuid : Type 0 where
  pub time_low : ℕ
  pub time_mid : ℕ
  pub time_hi_and_version : ℕ
  pub clock_seq : ℕ
  pub node : List ℕ

-- `kDigits`.
abbrev pub digits : Bytes
digits = 48 ∷ 49 ∷ 50 ∷ 51 ∷ 52 ∷ 53 ∷ 54 ∷ 55 ∷ 56 ∷ 57 ∷ 97 ∷ 98 ∷ 99 ∷ 100 ∷ 101 ∷ 102 ∷ []

unfoldable pub digit : ℕ → ℕ
digit n = get_or digits n 0

-- `-1` is `none`.
unfoldable pub nibble : ℕ → Option ℕ
nibble hex =
    if leb 97 hex && leb hex 102
    then some (hex - 97 + 10)
    else if leb 65 hex && leb hex 70
    then some (hex - 65 + 10)
    else if leb 48 hex && leb hex 57
    then some (hex - 48)
    else none

-- `setField` reads a number of digits; `it` is what is left to read, which is never past its end.
unfoldable pub set_field : ℕ → ℕ → Bytes → Option (ℕ × Bytes)
unfolding nibble
set_field zero field it = some (field, it)
set_field (suc n) field [] = none
set_field (suc n) field (c ∷ it) = do d ← nibble c; set_field n (16 * field + d) it

-- `if (haveHyphens) ++it`.
abbrev pub pass_hyphen : Bool → Bytes → Bytes
pass_hyphen false it = it
pass_hyphen true [] = []
pass_hyphen true (c ∷ it) = it

-- The loop over `node_`, two digits for each byte.
unfoldable pub read_node : ℕ → Bytes → Option (List ℕ)
unfolding set_field
read_node zero it = some []
read_node (suc n) it = do
  (byte, it1) ← set_field 2 0 it
  bytes ← read_node n it1
  some (byte ∷ bytes)

unfoldable pub parse_fields : Bool → Bytes → Option Uuid
unfolding set_field read_node
parse_fields have_hyphens it = do
  (low, it1) ← set_field 8 0 it
  (mid, it2) ← set_field 4 0 (pass_hyphen have_hyphens it1)
  (high, it3) ← set_field 4 0 (pass_hyphen have_hyphens it2)
  (seq, it4) ← set_field 4 0 (pass_hyphen have_hyphens it3)
  bytes ← read_node 6 (pass_hyphen have_hyphens it4)
  some (record {
    time_low = low;
    time_mid = mid;
    time_hi_and_version = high;
    clock_seq = seq;
    node = bytes;
  })

-- `std::all_of` over `kSeparateIndices`.
unfoldable pub has_separators : Bytes → Bool
has_separators uuid =
    get_or uuid 8 0 == 45
    && get_or uuid 13 0 == 45
    && get_or uuid 18 0 == 45
    && get_or uuid 23 0 == 45

unfoldable pub parse : Bytes → Option Uuid
unfolding has_separators parse_fields
parse uuid =
    if ltb (length uuid) 32
    then none
    else if has_separators uuid
    then (if leb 36 (length uuid) then parse_fields true uuid else none)
    else parse_fields false uuid

-- `AppendHex` at 8, 16 and 32 bits.
unfoldable pub append_hex_8 : ℕ → Bytes
unfolding digit
append_hex_8 n = digit (n / 16 % 16) ∷ digit (n % 16) ∷ []

unfoldable pub append_hex_16 : ℕ → Bytes
unfolding append_hex_8
append_hex_16 n = append_hex_8 (n / 256 % 256) ++ append_hex_8 (n % 256)

unfoldable pub append_hex_32 : ℕ → Bytes
unfolding append_hex_16
append_hex_32 n = append_hex_16 (n / 65536 % 65536) ++ append_hex_16 (n % 65536)

unfoldable pub append_node : List ℕ → Bytes
unfolding append_hex_8
append_node [] = []
append_node (n ∷ node) = append_hex_8 n ++ append_node node

unfoldable pub to_string : Uuid → Bytes
unfolding append_hex_32 append_hex_16 append_node
to_string u =
    append_hex_32 u.time_low
    ++ 45
      ∷ (append_hex_16 u.time_mid
          ++ 45
            ∷ (append_hex_16 u.time_hi_and_version
                ++ 45 ∷ (append_hex_16 u.clock_seq ++ 45 ∷ append_node u.node)))
