-- ===== src/Selection/InPlace.antt =====
-- The loops of iceberg/common/selection_vector.h move elements inside the vector that they read.
-- Beside each stands a pass over a list that writes another list.
use iceberg_cxx.Common.{
  ℕ, suc, ◌-◌, ◌≡◌, refl, sym, ap, ◌∙◌, inl, inr, List, [], ◌∷◌, ◌++◌, ◌⊎◌, arith, ◌==◌,
  if◌then◌else◌, Bool-cases, length, length-append, get_or, set, take-append,
}
use mathlib.Core.Path.{subst}
use mathlib.Core.List.{append_assoc, append-nil}
use iceberg_cxx.Selection.{
  SelectionVector, advance, Compacted, keep_loop, copy_loop, delete_loop, keep_if_equal, resized,
  delete_if_equal,
}

-- A vector under compaction: what is kept, what is left over, and what is not read yet.
abbrev view : List ℕ → List ℕ → List ℕ → List ℕ
view done junk rest = done ++ (junk ++ rest)

-- The left-over elements after one more write.
abbrev shifted : List ℕ → ℕ → List ℕ
shifted [] x = []
shifted (j ∷ js) x = js ++ x ∷ []

length-shifted : (junk : List ℕ) (x : ℕ) → length (shifted junk x) ≡ length junk
length-shifted [] x = refl
length-shifted (j ∷ js) x = omega (arith, length-append {0} js (x ∷ []))

get_or-append : (xs ys : List ℕ) (x : ℕ) → get_or (xs ++ x ∷ ys) (length xs) 0 ≡ x
get_or-append [] ys x = refl
get_or-append (z ∷ xs) ys x = get_or-append xs ys x

get_or-view :
    (done junk rest : List ℕ) (x : ℕ)
    → get_or (view done junk (x ∷ rest)) (length (done ++ junk)) 0 ≡ x
get_or-view done junk rest x =
    ap (λ v. get_or v (length (done ++ junk)) 0) (sym (append_assoc done junk (x ∷ rest)))
    ∙ get_or-append (done ++ junk) rest x

set-view :
    (done junk rest : List ℕ) (x : ℕ)
    → set (view done junk (x ∷ rest)) (length done) x ≡ view (done ++ x ∷ []) (shifted junk x) rest
set-view [] [] rest x = refl
set-view [] (j ∷ js) rest x = ap (λ v. x ∷ v) (sym (append_assoc js (x ∷ []) rest))
set-view (d ∷ done) junk rest x = ap (λ v. d ∷ v) (set-view done junk rest x)

-- The passes over lists.
unfoldable pub kept : List ℕ → List ℕ → List ℕ
kept [] current = []
kept (x ∷ xs) current = elim (advance x current) [
  | [] ↦ []
  | d ∷ ds ↦ let rest = kept xs (d ∷ ds) in if d == x then x ∷ rest else rest
]

unfoldable pub left : List ℕ → List ℕ → List ℕ
left [] current = []
left (x ∷ xs) current = elim (advance x current) [
  | [] ↦ x ∷ xs
  | d ∷ ds ↦ let rest = left xs (d ∷ ds) in if d == x then rest else x ∷ rest
]

-- A loop ends with the kept elements at the front.
abbrev EndsWith : Compacted → List ℕ → Type 0
EndsWith c out = (junk : List ℕ) × (c ≡ (out ++ junk, length out))

-- A write that keeps the next element.
module _ (done junk rest out : List ℕ) (x : ℕ) (f : List ℕ → ℕ → ℕ → Compacted) where
  length-snoc : suc (length done) ≡ length (done ++ x ∷ [])
  length-snoc = omega (arith, length-append {0} done (x ∷ []))

  length-written : suc (length (done ++ junk)) ≡ length ((done ++ x ∷ []) ++ shifted junk x)
  length-written = omega (
    arith,
    length-append {0} done junk,
    length-append {0} (done ++ x ∷ []) (shifted junk x),
    length-append {0} done (x ∷ []),
    length-shifted junk x,
  )

  length-passed : suc (length (done ++ junk)) ≡ length (done ++ (junk ++ x ∷ []))
  length-passed = omega (
    arith,
    length-append {0} done junk,
    length-append {0} done (junk ++ x ∷ []),
    length-append {0} junk (x ∷ []),
  )

  written :
      EndsWith
        (f
          (view (done ++ x ∷ []) (shifted junk x) rest)
          (length (done ++ x ∷ []))
          (length ((done ++ x ∷ []) ++ shifted junk x)))
        ((done ++ x ∷ []) ++ out)
      → EndsWith
          (f
            (set (view done junk (x ∷ rest)) (length done) x)
            (suc (length done))
            (suc (length (done ++ junk))))
          (done ++ x ∷ out)
  written h =
      rw (set-view done junk rest x, length-snoc, length-written)
        (subst (EndsWith _) (append_assoc done (x ∷ []) out) h)

  -- The next element is passed over.
  passed :
      EndsWith
        (f (view done (junk ++ x ∷ []) rest) (length done) (length (done ++ (junk ++ x ∷ []))))
        out
      → EndsWith (f (view done junk (x ∷ rest)) (length done) (suc (length (done ++ junk)))) out
  passed h = rw (← append_assoc junk (x ∷ []) rest, length-passed) h

ends_here : (done junk rest : List ℕ) → EndsWith (view done junk rest, length done) (done ++ [])
ends_here done junk rest = (junk ++ rest, simp append-nil)

pub List-cases : (xs : List ℕ) → (xs ≡ []) ⊎ ((d : ℕ) × (ds : List ℕ) × (xs ≡ d ∷ ds))
List-cases [] = inl refl
List-cases (d ∷ ds) = inr (d, ds, refl)

copy_loop-EndsWith :
    (rest done junk : List ℕ)
    → EndsWith
        (copy_loop (length rest) (view done junk rest) (length done) (length (done ++ junk)))
        (done ++ rest)
unfolding copy_loop
copy_loop-EndsWith [] done junk = ends_here done junk []
copy_loop-EndsWith (x ∷ rest) done junk =
    rw (copy_loop, get_or-view done junk rest x)
      (written done junk rest rest x (copy_loop (length rest))
        (copy_loop-EndsWith rest (done ++ x ∷ []) (shifted junk x)))

-- A round of the loops, on the element read and what `advance` leaves.
keep_loop_step :
    (n : ℕ) (v : List ℕ) (result_index index row : ℕ) (d : ℕ) (ds current : List ℕ)
    → get_or v index 0 ≡ row
    → advance row current ≡ d ∷ ds
    → keep_loop (suc n) v result_index index current ≡ (
        if d == row
        then keep_loop n (set v result_index row) (suc result_index) (suc index) (d ∷ ds)
        else keep_loop n v result_index (suc index) (d ∷ ds))
unfolding keep_loop
keep_loop_step n v result_index index row d ds current e a = grind (arith, e, a)

keep_loop_stop :
    (n : ℕ) (v : List ℕ) (result_index index row : ℕ) (current : List ℕ)
    → get_or v index 0 ≡ row
    → advance row current ≡ []
    → keep_loop (suc n) v result_index index current ≡ (v, result_index)
unfolding keep_loop
keep_loop_stop n v result_index index row current e a = simp (keep_loop, e, a) refl

keep_loop-EndsWith :
    (rest done junk current : List ℕ)
    → EndsWith
        (keep_loop
          (length rest)
          (view done junk rest)
          (length done)
          (length (done ++ junk))
          current)
        (done ++ kept rest current)
unfolding keep_loop kept
keep_loop-EndsWith [] done junk current = ends_here done junk []
keep_loop-EndsWith (x ∷ rest) done junk current = elim (List-cases (advance x current)) [
  | inl a ↦
      rw (kept, a, keep_loop_stop _ _ _ _ x current (get_or-view done junk rest x) a)
        (ends_here done junk (x ∷ rest))
  | inr (d, ds, a) ↦ elim (Bool-cases (d == x)) [
    | inl e ↦
        rw (kept, a, e, keep_loop_step _ _ _ _ x d ds current (get_or-view done junk rest x) a, e)
          (written done junk rest (kept rest (d ∷ ds)) x
            (λ v i j. keep_loop (length rest) v i j (d ∷ ds))
            (keep_loop-EndsWith rest (done ++ x ∷ []) (shifted junk x) (d ∷ ds)))
    | inr e ↦
        rw (kept, a, e, keep_loop_step _ _ _ _ x d ds current (get_or-view done junk rest x) a, e)
          (passed done junk rest (done ++ kept rest (d ∷ ds)) x
            (λ v i j. keep_loop (length rest) v i j (d ∷ ds))
            (keep_loop-EndsWith rest done (junk ++ x ∷ []) (d ∷ ds)))
  ]
]

-- A round of `DeleteIfEqual`, in the same way.
delete_loop_step :
    (n : ℕ) (v : List ℕ) (result_index index row : ℕ) (d : ℕ) (ds current : List ℕ)
    → get_or v index 0 ≡ row
    → advance row current ≡ d ∷ ds
    → delete_loop (suc n) v result_index index current ≡ (
        if d == row
        then delete_loop n v result_index (suc index) (d ∷ ds)
        else delete_loop n (set v result_index row) (suc result_index) (suc index) (d ∷ ds))
unfolding delete_loop
delete_loop_step n v result_index index row d ds current e a = grind (arith, e, a)

delete_loop_stop :
    (n : ℕ) (v : List ℕ) (result_index index row : ℕ) (current : List ℕ)
    → get_or v index 0 ≡ row
    → advance row current ≡ []
    → delete_loop (suc n) v result_index index current ≡ copy_loop (suc n) v result_index index
unfolding delete_loop
delete_loop_stop n v result_index index row current e a = simp (delete_loop, e, a) refl

delete_loop-EndsWith :
    (rest done junk current : List ℕ)
    → EndsWith
        (delete_loop
          (length rest)
          (view done junk rest)
          (length done)
          (length (done ++ junk))
          current)
        (done ++ left rest current)
unfolding delete_loop left
delete_loop-EndsWith [] done junk current = ends_here done junk []
delete_loop-EndsWith (x ∷ rest) done junk current = elim (List-cases (advance x current)) [
  | inl a ↦
      rw (left, a, delete_loop_stop _ _ _ _ x current (get_or-view done junk rest x) a)
        (copy_loop-EndsWith (x ∷ rest) done junk)
  | inr (d, ds, a) ↦ elim (Bool-cases (d == x)) [
    | inl e ↦
        rw (left, a, e, delete_loop_step _ _ _ _ x d ds current (get_or-view done junk rest x) a, e)
          (passed done junk rest (done ++ left rest (d ∷ ds)) x
            (λ v i j. delete_loop (length rest) v i j (d ∷ ds))
            (delete_loop-EndsWith rest done (junk ++ x ∷ []) (d ∷ ds)))
    | inr e ↦
        rw (left, a, e, delete_loop_step _ _ _ _ x d ds current (get_or-view done junk rest x) a, e)
          (written done junk rest (left rest (d ∷ ds)) x
            (λ v i j. delete_loop (length rest) v i j (d ∷ ds))
            (delete_loop-EndsWith rest (done ++ x ∷ []) (shifted junk x) (d ∷ ds)))
  ]
]

-- What the two operations leave, and what they return.
abbrev pub outcome : SelectionVector → List ℕ → SelectionVector × ℕ
outcome s out = (record { indices = out }, length s.indices - length out)

resized-outcome :
    (s : SelectionVector) (c : Compacted) (out : List ℕ)
    → EndsWith c out
    → resized s.indices c ≡ outcome s out
resized-outcome s c out (junk, e) = rw e (rw (take-append out junk) refl)

pub keep_if_equal-kept :
    (s : SelectionVector) (values : List ℕ)
    → keep_if_equal s values ≡ outcome s (kept s.indices values)
unfolding keep_if_equal
keep_if_equal-kept s values = resized-outcome s _ _ (keep_loop-EndsWith s.indices [] [] values)

pub delete_if_equal-left :
    (s : SelectionVector) (values : List ℕ)
    → delete_if_equal s values ≡ outcome s (left s.indices values)
unfolding delete_if_equal
delete_if_equal-left s values = resized-outcome s _ _ (delete_loop-EndsWith s.indices [] [] values)
