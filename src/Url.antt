-- ===== src/Url.antt =====
-- SplitUrl of iceberg/common/fs/url.cpp. What `find_first_of` finds is given by the text before it and
-- the text from it on, which are what `substr` and `remove_prefix` leave.
use iceberg_cxx.Common.{
  ℕ, zero, suc, ◌+◌, Bool, true, false, ◌&&◌, ◌||◌, Option, none, some, List, [], ◌∷◌, ◌++◌, arith,
  ◌==◌, if◌then◌else◌, length,
}
use iceberg_cxx.Filter.Value.{Bytes}
pub mod Parts
pub mod Fuel
mod Examples

pub record UrlComponents : Type 0 where
  pub schema : Bytes
  pub location : Bytes
  pub path : Bytes
  pub params : List (Bytes × Bytes)

abbrev pub cons_to : ℕ → Option (Bytes × Bytes) → Option (Bytes × Bytes)
cons_to c none = none
cons_to c (some (a, b)) = some (c ∷ a, b)

-- `find_first_of`, of the characters that a test picks.
unfoldable pub break_at : (ℕ → Bool) → Bytes → Option (Bytes × Bytes)
break_at p [] = none
break_at p (c ∷ cs) = let rest = break_at p cs in if p c then some ([], c ∷ cs) else cons_to c rest

-- `kSchemaDelimiter`, at the front.
unfoldable pub strip_delimiter : Bytes → Option Bytes
strip_delimiter (a ∷ b ∷ c ∷ cs) = if a == 58 && b == 47 && c == 47 then some cs else none
strip_delimiter _ = none

-- `find` of the delimiter; the second part is what stands behind it.
unfoldable pub break_at_delimiter : Bytes → Option (Bytes × Bytes)
unfolding strip_delimiter
break_at_delimiter [] = none
break_at_delimiter (c ∷ cs) = elim (strip_delimiter (c ∷ cs)) [
  | some rest ↦ some ([], rest)
  | none ↦ cons_to c (break_at_delimiter cs)
]

abbrev pub is_equals : ℕ → Bool
is_equals c = c == 61

abbrev pub ends_location : ℕ → Bool
ends_location c = c == 47 || c == 63 || c == 35

abbrev pub ends_path : ℕ → Bool
ends_path c = c == 63 || c == 35

abbrev pub ends_param : ℕ → Bool
ends_param c = c == 63 || c == 38 || c == 35

-- A text without its first character.
abbrev pub tail : Bytes → Bytes
tail [] = []
tail (c ∷ cs) = cs

unfoldable pub parse_param : Bytes → Bytes × Bytes
parse_param param = elim (break_at is_equals param) [
  | some (key, rest) ↦ (key, tail rest)
  | none ↦ (param, [])
]

abbrev pub cons_param :
    Bytes × Bytes → Option (List (Bytes × Bytes)) → Option (List (Bytes × Bytes))
cons_param param none = none
cons_param param (some params) = some (param ∷ params)

-- The loop over the parameters, with fuel: `none` is that the fuel ran out.
unfoldable pub params_loop : ℕ → Bytes → Option (List (Bytes × Bytes))
params_loop zero url = none
params_loop (suc fuel) [] = some []
params_loop (suc fuel) (c ∷ cs) = if c == 35 then some [] else elim (break_at ends_param (c ∷ cs)) [
  | none ↦ some (parse_param (c ∷ cs) ∷ [])
  | some (param, []) ↦ some []
  | some (param, d ∷ rest) ↦
      let others = params_loop fuel cs in
      let behind = params_loop fuel rest in
      let fragment = params_loop fuel (d ∷ rest) in
      if d == 63
      then others
      else if d == 38
      then cons_param (parse_param param) behind
      else cons_param (parse_param param) fragment
]

abbrev pub with_params :
    Bytes → Bytes → Bytes → Option (List (Bytes × Bytes)) → Option UrlComponents
with_params schema location path none = none
with_params schema location path (some params) =
    some (record { schema = schema; location = location; path = path; params = params })

unfoldable pub split_path : Bytes → Bytes → Bytes → Option UrlComponents
unfolding params_loop
split_path schema location url = elim (break_at ends_path url) [
  | none ↦ with_params schema location url (some [])
  | some (path, rest) ↦ with_params schema location path (params_loop (suc (length rest)) rest)
]

unfoldable pub split_location : Bytes → Bytes → Option UrlComponents
unfolding split_path
split_location schema url = elim (break_at ends_location url) [
  | none ↦ with_params schema url [] (some [])
  | some (location, rest) ↦ split_path schema location rest
]

-- `SplitUrl`. `none` would be a loop that does not end.
unfoldable pub split_url : Bytes → Option UrlComponents
unfolding break_at_delimiter split_location
split_url url = elim (break_at_delimiter url) [
  | none ↦ split_location [] url
  | some (schema, rest) ↦ split_location schema rest
]
