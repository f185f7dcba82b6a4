-- ===== src/Uuid/Examples.antt =====
-- Texts of Uuids of iceberg/uuid.cpp.
use iceberg_cxx.Common.{◌≡◌, refl, none, some, [], ◌∷◌, ◌++◌, arith}
use iceberg_cxx.Filter.Value.{Bytes}
use iceberg_cxx.Uuid.{Uuid, parse, to_string, digits}
use iceberg_cxx.Uuid.Text.{IsValid, parse-to_string}

abbrev sample : Uuid
sample = record {
  time_low = 305419896;
  time_mid = 43981;
  time_hi_and_version = 16384;
  clock_seq = 65535;
  node = 0 ∷ 1 ∷ 128 ∷ 255 ∷ 16 ∷ 171 ∷ [];
}

-- "12345678-abcd-4000-ffff-000180ff10ab".
abbrev text : Bytes
text =
    49 ∷ 50 ∷ 51 ∷ 52 ∷ 53 ∷ 54 ∷ 55 ∷ 56 ∷ 45 ∷ 97 ∷ 98 ∷ 99 ∷ 100 ∷ 45 ∷ 52 ∷ 48 ∷ 48 ∷ 48 ∷ 45
    ∷ 102 ∷ 102 ∷ 102 ∷ 102 ∷ 45 ∷ 48 ∷ 48 ∷ 48 ∷ 49 ∷ 56 ∷ 48 ∷ 102 ∷ 102 ∷ 49 ∷ 48 ∷ 97 ∷ 98 ∷ []

prints : to_string sample ≡ text
unfolding to_string
prints = refl

-- Without hyphens, and with text behind the digits.
plain :
    parse (digits ++ digits ++ 120 ∷ [])
    ≡ some (record {
      time_low = 19088743;
      time_mid = 35243;
      time_hi_and_version = 52719;
      clock_seq = 291;
      node = 69 ∷ 103 ∷ 137 ∷ 171 ∷ 205 ∷ 239 ∷ [];
    })
unfolding parse
plain = refl

too_short : parse digits ≡ none
unfolding parse
too_short = refl

parse-to_string_example : parse (to_string sample) ≡ some sample
unfolding IsValid
parse-to_string_example =
    parse-to_string sample (omega arith, omega arith, omega arith, omega arith, refl, ground arith)
