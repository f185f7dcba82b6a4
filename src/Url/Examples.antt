-- ===== src/Url/Examples.antt =====
-- URLs that iceberg/common/fs/url.cpp splits.
use iceberg_cxx.Common.{◌≡◌, refl, some, [], ◌∷◌, arith}
use iceberg_cxx.Url.{UrlComponents, split_url, break_at, parse_param}
use iceberg_cxx.Url.Fuel.{split_url-ends}
use iceberg_cxx.Url.Parts.{IsValid, print_url, split_url-print_url}

-- "s://h/p?a=1&b=".
abbrev sample : UrlComponents
sample = record {
  schema = 115 ∷ [];
  location = 104 ∷ [];
  path = 47 ∷ 112 ∷ [];
  params = (97 ∷ [], 49 ∷ []) ∷ (98 ∷ [], []) ∷ [];
}

split_url-print_url_example : split_url (print_url sample) ≡ some sample
unfolding IsValid
split_url-print_url_example =
    split_url-print_url sample (ground arith, ground arith, (refl, ground arith), ground arith)

split_url-ends_example :
    (u : UrlComponents) × (split_url (104 ∷ 63 ∷ 97 ∷ 38 ∷ 98 ∷ 35 ∷ 99 ∷ []) ≡ some u)
split_url-ends_example = split_url-ends (104 ∷ 63 ∷ 97 ∷ 38 ∷ 98 ∷ 35 ∷ 99 ∷ [])

-- In "h?a=1?b=2" the second '?' drops what stands before it: only b is a parameter.
drops_param :
    split_url (104 ∷ 63 ∷ 97 ∷ 61 ∷ 49 ∷ 63 ∷ 98 ∷ 61 ∷ 50 ∷ [])
    ≡ some
        (record { schema = []; location = 104 ∷ []; path = []; params = (98 ∷ [], 50 ∷ []) ∷ [] })
unfolding split_url break_at parse_param
drops_param = refl
