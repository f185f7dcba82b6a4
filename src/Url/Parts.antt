-- ===== src/Url/Parts.antt =====
-- SplitUrl of iceberg/common/fs/url.cpp on a URL that is put together from its parts.
use iceberg_cxx.Common.{
  ℕ, zero, suc, ◌<◌, ◌≡◌, refl, sym, ap, ◌∙◌, Bool, true, false, none, some, List, [], ◌∷◌, ◌++◌,
  arith, ◌==◌, length, length-append, All,
}
use mathlib.Core.Path.{subst}
use mathlib.Core.List.{append-nil}
use iceberg_cxx.Filter.Value.{Bytes}
use iceberg_cxx.Url.{
  UrlComponents, break_at, strip_delimiter, break_at_delimiter, is_equals, ends_location, ends_path,
  ends_param, parse_param, cons_param, params_loop, with_params, split_path, split_location,
  split_url,
}

-- No character of the text is picked by the test.
abbrev pub Free : (ℕ → Bool) → Bytes → Type 0
Free p s = All (λ c. p c ≡ false) s

break_at-Free : (p : ℕ → Bool) (s : Bytes) → Free p s → break_at p s ≡ none
unfolding break_at
break_at-Free p [] f = refl
break_at-Free p (c ∷ s) (h, f) = rw (h, break_at-Free p s f) refl

break_at-append :
    (p : ℕ → Bool) (s : Bytes) (d : ℕ) (rest : Bytes)
    → Free p s
    → p d ≡ true
    → break_at p (s ++ d ∷ rest) ≡ some (s, d ∷ rest)
unfolding break_at
break_at-append p [] d rest f e = rw e refl
break_at-append p (c ∷ s) d rest (h, f) e = rw (h, break_at-append p s d rest f e) refl

strip_delimiter-other : (c : ℕ) (s : Bytes) → (c == 58) ≡ false → strip_delimiter (c ∷ s) ≡ none
unfolding strip_delimiter
strip_delimiter-other c [] h = refl
strip_delimiter-other c (x ∷ []) h = refl
strip_delimiter-other c (x ∷ y ∷ s) h = rw h refl

break_at_delimiter-append :
    (s rest : Bytes)
    → Free (λ c. c == 58) s
    → break_at_delimiter (s ++ 58 ∷ 47 ∷ 47 ∷ rest) ≡ some (s, rest)
unfolding break_at_delimiter
break_at_delimiter-append [] rest f = refl
break_at_delimiter-append (c ∷ s) rest (h, f) =
    rw
      (
        break_at_delimiter,
        strip_delimiter-other c (s ++ 58 ∷ 47 ∷ 47 ∷ rest) h,
        break_at_delimiter-append s rest f,
      )
      refl

-- "key=value", and parameters with '&' between them.
abbrev pub print_param : Bytes × Bytes → Bytes
print_param (key, value) = key ++ 61 ∷ value

abbrev pub print_params : List (Bytes × Bytes) → Bytes
print_params [] = []
print_params (p ∷ []) = print_param p
print_params (p ∷ q ∷ ps) = print_param p ++ 38 ∷ print_params (q ∷ ps)

-- A key has no '=', and neither part ends a parameter.
abbrev pub ParamIsValid : Bytes × Bytes → Type 0
ParamIsValid (key, value) = Free is_equals key × Free ends_param (key ++ 61 ∷ value)

parse_param-print_param : (p : Bytes × Bytes) → ParamIsValid p → parse_param (print_param p) ≡ p
unfolding parse_param
parse_param-print_param (key, value) (f, g) =
    rw (parse_param, break_at-append is_equals key 61 value f refl) refl

not_fragment : (c : ℕ) → ends_param c ≡ false → (c == 35) ≡ false
not_fragment c h = ground arith

loop_last :
    (n c : ℕ) (s : Bytes)
    → Free ends_param (c ∷ s)
    → params_loop (suc n) (c ∷ s) ≡ some (parse_param (c ∷ s) ∷ [])
unfolding params_loop
loop_last n c s f = rw (params_loop, not_fragment c f.0, break_at-Free ends_param (c ∷ s) f) refl

loop_more :
    (n c : ℕ) (s rest : Bytes)
    → Free ends_param (c ∷ s)
    → params_loop (suc n) ((c ∷ s) ++ 38 ∷ rest)
      ≡ cons_param (parse_param (c ∷ s)) (params_loop n rest)
unfolding params_loop
loop_more n c s rest f =
    rw (params_loop, not_fragment c f.0, break_at-append ends_param (c ∷ s) 38 rest f refl) refl

-- The text of a parameter is not empty.
param_front : (p : Bytes × Bytes) → (c : ℕ) × (s : Bytes) × (print_param p ≡ c ∷ s)
param_front ([], value) = (61, value, refl)
param_front (k ∷ key, value) = (k, key ++ 61 ∷ value, refl)

loop_param :
    (n : ℕ) (p : Bytes × Bytes)
    → ParamIsValid p
    → params_loop (suc n) (print_param p) ≡ some (p ∷ [])
loop_param n p v =
    let (c, s, e) = param_front p in
    ap (params_loop (suc n)) e
    ∙ loop_last n c s (subst (Free ends_param) e v.1)
    ∙ ap (λ q. some (q ∷ [])) (ap parse_param (sym e) ∙ parse_param-print_param p v)

loop_params :
    (n : ℕ) (p : Bytes × Bytes) (rest : Bytes)
    → ParamIsValid p
    → params_loop (suc n) (print_param p ++ 38 ∷ rest) ≡ cons_param p (params_loop n rest)
loop_params n p rest v =
    let (c, s, e) = param_front p in
    ap (λ t. params_loop (suc n) (t ++ 38 ∷ rest)) e
    ∙ loop_more n c s rest (subst (Free ends_param) e v.1)
    ∙ ap (λ q. cons_param q (params_loop n rest))
        (ap parse_param (sym e) ∙ parse_param-print_param p v)

params_loop-print_params :
    (n : ℕ) (ps : List (Bytes × Bytes))
    → length (print_params ps) < n
    → All ParamIsValid ps
    → params_loop n (print_params ps) ≡ some ps
unfolding params_loop
params_loop-print_params zero ps h v = absurd (omega arith)
params_loop-print_params (suc n) [] h v = refl
params_loop-print_params (suc n) (p ∷ []) h (v, vs) = loop_param n p v
params_loop-print_params (suc n) (p ∷ q ∷ ps) h (v, vs) =
    loop_params n p (print_params (q ∷ ps)) v
    ∙ ap (cons_param p) (
        params_loop-print_params n (q ∷ ps)
          (omega (arith, length-append (print_param p) (38 ∷ print_params (q ∷ ps)))) vs)

abbrev pub print_query : List (Bytes × Bytes) → Bytes
print_query [] = []
print_query (p ∷ ps) = 63 ∷ print_params (p ∷ ps)

-- "schema://location/path?key=value&key=value".
unfoldable pub print_url : UrlComponents → Bytes
print_url u = u.schema ++ 58 ∷ 47 ∷ 47 ∷ (u.location ++ (u.path ++ print_query u.params))

-- A path is empty or begins with '/'.
abbrev pub PathIsValid : Bytes → Type 0
PathIsValid [] = Unit
PathIsValid (c ∷ path) = (c ≡ 47) × Free ends_path path

-- No part holds a character that ends it.
unfoldable pub IsValid : UrlComponents → Type 0
IsValid u =
    Free (λ c. c == 58) u.schema
    × Free ends_location u.location
    × PathIsValid u.path
    × All ParamIsValid u.params

query_loop :
    (ps : List (Bytes × Bytes))
    → All ParamIsValid ps
    → params_loop (suc (suc (length (print_params ps)))) (63 ∷ print_params ps) ≡ some ps
unfolding params_loop break_at
query_loop ps v = params_loop-print_params (suc (length (print_params ps))) ps (omega arith) v

split_path-print :
    (schema location path : Bytes) (ps : List (Bytes × Bytes))
    → Free ends_path path
    → All ParamIsValid ps
    → split_path schema location (path ++ print_query ps)
      ≡ some (record { schema = schema; location = location; path = path; params = ps })
unfolding split_path
split_path-print schema location path [] f v =
    ap (split_path schema location) (append-nil path)
    ∙ rw (split_path, break_at-Free ends_path path f) refl
split_path-print schema location path (p ∷ ps) f v =
    rw (split_path, break_at-append ends_path path 63 (print_params (p ∷ ps)) f refl)
      (ap (with_params schema location path) (query_loop (p ∷ ps) v))

split_location-print :
    (schema location path : Bytes) (ps : List (Bytes × Bytes))
    → Free ends_location location
    → PathIsValid path
    → All ParamIsValid ps
    → split_location schema (location ++ (path ++ print_query ps))
      ≡ some (record { schema = schema; location = location; path = path; params = ps })
unfolding split_location
split_location-print schema location [] [] f g v =
    ap (split_location schema) (append-nil location)
    ∙ rw (split_location, break_at-Free ends_location location f) refl
split_location-print schema location [] (p ∷ ps) f g v =
    rw (split_location, break_at-append ends_location location 63 (print_params (p ∷ ps)) f refl)
      (split_path-print schema location [] (p ∷ ps) tt v)
split_location-print schema location (c ∷ path) ps f (slash, g) v =
    rw
      (
        split_location,
        break_at-append ends_location location c (path ++ print_query ps) f (rw slash refl),
      )
      (split_path-print schema location (c ∷ path) ps (rw slash refl, g) v)

-- A URL "schema://location/path?key=value&key=value" that is put together from parts is split into those
-- parts, where the path is empty or begins with '/', the schema has no ':', the location no '/', '?' or
-- '#', the path no '?' or '#', and the parameters no '?', '&' or '#' and their keys no '='.
pub split_url-print_url : (u : UrlComponents) → IsValid u → split_url (print_url u) ≡ some u
unfolding split_url print_url IsValid
split_url-print_url u (f, g, h, v) =
    rw
      (
        split_url,
        break_at_delimiter-append u.schema (u.location ++ (u.path ++ print_query u.params)) f,
      )
      (split_location-print u.schema u.location u.path u.params g h v)
