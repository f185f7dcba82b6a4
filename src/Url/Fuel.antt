-- ===== src/Url/Fuel.antt =====
-- The loop over the parameters in iceberg/common/fs/url.cpp ends.
use iceberg_cxx.Common.{
  ℕ, zero, suc, ◌<◌, ◌≡◌, refl, sym, ap, ◌∙◌, ◌⊎◌, inl, inr, Bool, true, Option, none, some, List,
  [], ◌∷◌, arith, ◌==◌, Bool-cases, Option-cases, length,
}
use iceberg_cxx.Filter.Value.{Bytes}
use iceberg_cxx.Url.{
  UrlComponents, break_at, cons_to, ends_param, ends_path, ends_location, parse_param, cons_param,
  params_loop, split_path, split_location, break_at_delimiter, split_url,
}

cons_to-some :
    (c : ℕ) (o : Option (Bytes × Bytes)) (a b : Bytes)
    → cons_to c o ≡ some (a, b)
    → (s : Bytes) × (o ≡ some (s, b))
cons_to-some c none a b e = cc
cons_to-some c (some (s, t)) a b e = (s, cc)

first_found :
    (c d : ℕ) (s a rest : Bytes)
    → ◌≡◌ {A = Option (Bytes × Bytes)} (some ([], c ∷ s)) (some (a, d ∷ rest))
    → (c ≡ d) × (s ≡ rest)
first_found c d s a rest e = (cc, cc)

-- What is found is picked by the test, and stands in the text.
break_at-found :
    (p : ℕ → Bool) (s a : Bytes) (d : ℕ) (rest : Bytes)
    → break_at p s ≡ some (a, d ∷ rest)
    → (p d ≡ true) × (length rest < length s)
unfolding break_at
break_at-found p [] a d rest e = cc
break_at-found p (c ∷ s) a d rest e = elim (Bool-cases (p c)) [
  | inl h ↦
      let (same, behind) = first_found c d s a rest (sym (rw h refl) ∙ e) in
      (ap p (sym same) ∙ h, omega (arith, ap length behind))
  | inr h ↦
      let (t, o) = cons_to-some c (break_at p s) a (d ∷ rest) (sym (rw h refl) ∙ e) in
      let (picked, shorter) = break_at-found p s t d rest o in (picked, omega arith)
]

-- The loop gives parameters.
abbrev Ends : Option (List (Bytes × Bytes)) → Type 0
Ends o = (params : List (Bytes × Bytes)) × (o ≡ some params)

loop_fragment : (n c : ℕ) (s : Bytes) → (c == 35) ≡ true → params_loop (suc n) (c ∷ s) ≡ some []
unfolding params_loop
loop_fragment n c s h = rw (params_loop, h) refl

fragment-Ends : (n d : ℕ) (s : Bytes) → 0 < n → (d == 35) ≡ true → Ends (params_loop n (d ∷ s))
fragment-Ends zero d s h e = absurd (omega arith)
fragment-Ends (suc n) d s h e = ([], loop_fragment n d s e)

cons_param-Ends :
    (param : Bytes × Bytes) (o : Option (List (Bytes × Bytes))) → Ends o → Ends (cons_param param o)
cons_param-Ends param o (params, e) = (param ∷ params, rw e refl)

Bytes-cases : (s : Bytes) → (s ≡ []) ⊎ ((d : ℕ) × (rest : Bytes) × (s ≡ d ∷ rest))
Bytes-cases [] = inl refl
Bytes-cases (d ∷ rest) = inr (d, rest, refl)

-- With fuel above the length of the text the loop does not run out of it: each round leaves less text.
params_loop-Ends : (n : ℕ) (url : Bytes) → length url < n → Ends (params_loop n url)
unfolding params_loop
params_loop-Ends zero url h = absurd (omega arith)
params_loop-Ends (suc n) [] h = ([], refl)
params_loop-Ends (suc n) (c ∷ cs) h = elim (Bool-cases (c == 35)) [
  | inl e ↦ ([], rw (params_loop, e) refl)
  | inr e ↦ elim (Option-cases (break_at ends_param (c ∷ cs))) [
    | inl o ↦ (parse_param (c ∷ cs) ∷ [], rw (params_loop, e, o) refl)
    | inr t ↦
        let (where_found, o) = t in
        let (param, rest) = where_found in
        elim (Bytes-cases rest) [
          | inl z ↦ ([], rw (params_loop, e, o, z) refl)
          | inr y ↦
              let (d, behind, z) = y in
              let split : break_at ends_param (c ∷ cs) ≡ some (param, d ∷ behind) =
                o ∙ ap (λ v. some (param, v)) z in
              let (picked, shorter) = break_at-found ends_param (c ∷ cs) param d behind split in
              elim (Bool-cases (d == 63)) [
                | inl u ↦ rw (params_loop, e, split, u) (params_loop-Ends n cs (omega arith))
                | inr u ↦ elim (Bool-cases (d == 38)) [
                  | inl w ↦
                      rw (params_loop, e, split, u, w)
                        (cons_param-Ends (parse_param param) (params_loop n behind)
                          (params_loop-Ends n behind (omega arith)))
                  | inr w ↦
                      rw (params_loop, e, split, u, w)
                        (cons_param-Ends (parse_param param) (params_loop n (d ∷ behind))
                          (fragment-Ends n d behind (omega arith) (ground arith)))
                ]
              ]
        ]
  ]
]

Splits : Option UrlComponents → Type 0
Splits o = (u : UrlComponents) × (o ≡ some u)

split_path-Splits : (schema location url : Bytes) → Splits (split_path schema location url)
unfolding split_path Splits
split_path-Splits schema location url = elim (Option-cases (break_at ends_path url)) [
  | inl o ↦ (
    record { schema = schema; location = location; path = url; params = [] },
    rw (split_path, o) refl,
  )
  | inr ((path, rest), o) ↦
      let (params, e) = params_loop-Ends (suc (length rest)) rest (omega arith) in
      (
        record { schema = schema; location = location; path = path; params = params },
        rw (split_path, o, e) refl,
      )
]

split_location-Splits : (schema url : Bytes) → Splits (split_location schema url)
unfolding split_location Splits
split_location-Splits schema url = elim (Option-cases (break_at ends_location url)) [
  | inl o ↦ (
    record { schema = schema; location = url; path = []; params = [] },
    rw (split_location, o) refl,
  )
  | inr ((location, rest), o) ↦ rw (split_location, o) (split_path-Splits schema location rest)
]

-- `SplitUrl` ends on every text and gives components: its loop over the parameters, with a round for
-- each character of the text that it starts on and one more, never runs out of rounds.
pub split_url-ends : (url : Bytes) → (u : UrlComponents) × (split_url url ≡ some u)
unfolding split_url Splits
split_url-ends url = elim (Option-cases (break_at_delimiter url)) [
  | inl o ↦ rw (split_url, o) (split_location-Splits [] url)
  | inr ((schema, rest), o) ↦ rw (split_url, o) (split_location-Splits schema rest)
]
