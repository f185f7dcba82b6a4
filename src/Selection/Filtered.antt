-- ===== src/Selection/Filtered.antt =====
-- KeepIfEqual and DeleteIfEqual of iceberg/common/selection_vector.h beside selection by membership.
use iceberg_cxx.Common.{
  ℕ, zero, suc, ◌≤◌, ◌<◌, ◌≡◌, refl, sym, ap, ◌∙◌, inl, inr, Bool, true, false, not, List, [], ◌∷◌,
  arith, ltb, ◌==◌, if◌then◌else◌, Bool-cases,
}
use mathlib.Core.Path.{subst}
use iceberg_cxx.Selection.{
  SelectionVector, advance, keep_if_equal, delete_if_equal, select, iota, set_size, erase_if,
}
use iceberg_cxx.Selection.InPlace.{
  kept, left, List-cases, outcome, keep_if_equal-kept, delete_if_equal-left,
}

unfoldable pub contains : List ℕ → ℕ → Bool
contains [] x = false
contains (y ∷ ys) x = let rest = contains ys x in if y == x then true else rest

-- Each element is at least the given one.
abbrev pub AtLeast : ℕ → List ℕ → Type 0
AtLeast x [] = Unit
AtLeast x (y ∷ ys) = (x ≤ y) × AtLeast x ys

abbrev pub Ascending : List ℕ → Type 0
Ascending [] = Unit
Ascending (x ∷ xs) = AtLeast x xs × Ascending xs

AtLeast-weaken : (x y : ℕ) (ys : List ℕ) → x ≤ y → AtLeast y ys → AtLeast x ys
AtLeast-weaken x y [] h a = tt
AtLeast-weaken x y (z ∷ zs) h (a, b) = (omega arith, AtLeast-weaken x y zs h b)

contains-above : (x y : ℕ) (ys : List ℕ) → x < y → AtLeast y ys → contains ys x ≡ false
unfolding contains
contains-above x y [] h a = refl
contains-above x y (z ∷ zs) h (a, b) = ground (arith, contains-above x y zs h b)

-- Passing over the smaller values does not change what is found from the row on.
contains-advance :
    (row y : ℕ) (current : List ℕ) → row ≤ y → contains (advance row current) y ≡ contains current y
unfolding contains advance
contains-advance row y [] h = refl
contains-advance row y (d ∷ ds) h = ground (arith, contains-advance row y ds h)

advance-Ascending :
    (row : ℕ) (current : List ℕ) → Ascending current → Ascending (advance row current)
unfolding advance
advance-Ascending row [] a = tt
advance-Ascending row (d ∷ ds) (a, b) = elim (Bool-cases (ltb d row)) [
  | inl e ↦ rw e (advance-Ascending row ds b)
  | inr e ↦ rw e (a, b)
]

advance-at_least : (row d : ℕ) (ds current : List ℕ) → advance row current ≡ d ∷ ds → row ≤ d
unfolding advance
advance-at_least row d ds [] e = cc
advance-at_least row d ds (c ∷ cs) e = ground (arith, advance-at_least row d ds cs)

-- A value of an ascending list that starts at or after it is its first.
contains-first :
    (x d : ℕ) (ds : List ℕ) → x ≤ d → Ascending (d ∷ ds) → contains (d ∷ ds) x ≡ (d == x)
unfolding contains
contains-first x d ds h (a, b) = elim (Bool-cases (d == x)) [
  | inl e ↦ rw e refl
  | inr e ↦ rw e (contains-above x d ds (ground arith) a)
]

-- Tests that agree from x on select the same.
select-agree :
    (p q : ℕ → Bool) (x : ℕ) (xs : List ℕ)
    → AtLeast x xs
    → ((y : ℕ) → x ≤ y → p y ≡ q y)
    → select p xs ≡ select q xs
unfolding select
select-agree p q x [] a h = refl
select-agree p q x (y ∷ ys) (a, b) h = rw (h y a, select-agree p q x ys b h) refl

select-none :
    (p : ℕ → Bool) (x : ℕ) (xs : List ℕ)
    → AtLeast x xs
    → ((y : ℕ) → x ≤ y → p y ≡ false)
    → select p xs ≡ []
unfolding select
select-none p x [] a h = refl
select-none p x (y ∷ ys) (a, b) h = rw (h y a, select-none p x ys b h) refl

select-all :
    (p : ℕ → Bool) (x : ℕ) (xs : List ℕ)
    → AtLeast x xs
    → ((y : ℕ) → x ≤ y → p y ≡ true)
    → select p xs ≡ xs
unfolding select
select-all p x [] a h = refl
select-all p x (y ∷ ys) (a, b) h = rw (h y a, select-all p x ys b h) refl

contains-at :
    (x d : ℕ) (ds current : List ℕ)
    → advance x current ≡ d ∷ ds
    → Ascending current
    → contains current x ≡ (d == x)
contains-at x d ds current e b =
    sym (ap (λ c. contains c x) (sym e) ∙ contains-advance x x current (omega arith))
    ∙ contains-first x d ds (advance-at_least x d ds current e)
        (subst Ascending e (advance-Ascending x current b))

kept-select :
    (xs current : List ℕ)
    → Ascending xs
    → Ascending current
    → kept xs current ≡ select (contains current) xs
unfolding kept select contains
kept-select [] current a b = refl
kept-select (x ∷ xs) current (a, a') b = elim (List-cases (advance x current)) [
  | inl e ↦
      rw (kept, e)
        (sym (
          select-none (contains current) x (x ∷ xs) (omega arith, a)
            (λ y h. sym (contains-advance x y current h) ∙ ap (λ c. contains c y) e)))
  | inr (d, ds, e) ↦
      let same : (y : ℕ) → x ≤ y → contains (d ∷ ds) y ≡ contains current y =
        λ y h. ap (λ c. contains c y) (sym e) ∙ contains-advance x y current h in
      let first : contains current x ≡ (d == x) = contains-at x d ds current e b in
      let rest : kept xs (d ∷ ds) ≡ select (contains current) xs =
        kept-select xs (d ∷ ds) a' (subst Ascending e (advance-Ascending x current b))
        ∙ select-agree (contains (d ∷ ds)) (contains current) x xs a same in
      rw (kept, e, first, rest) refl
]

-- What is not kept is left.
left-select :
    (xs current : List ℕ)
    → Ascending xs
    → Ascending current
    → left xs current ≡ select (λ x. not (contains current x)) xs
unfolding left select contains
left-select [] current a b = refl
left-select (x ∷ xs) current (a, a') b = elim (List-cases (advance x current)) [
  | inl e ↦
      rw (left, e)
        (sym (
          select-all (λ y. not (contains current y)) x (x ∷ xs) (omega arith, a)
            (λ y h. ap not (sym (contains-advance x y current h) ∙ ap (λ c. contains c y) e))))
  | inr (d, ds, e) ↦
      let same : (y : ℕ) → x ≤ y → not (contains (d ∷ ds) y) ≡ not (contains current y) =
        λ y h. ap not (ap (λ c. contains c y) (sym e) ∙ contains-advance x y current h) in
      let first : contains current x ≡ (d == x) = contains-at x d ds current e b in
      let rest : left xs (d ∷ ds) ≡ select (λ y. not (contains current y)) xs =
        left-select xs (d ∷ ds) a' (subst Ascending e (advance-Ascending x current b))
        ∙ select-agree (λ y. not (contains (d ∷ ds) y)) (λ y. not (contains current y)) x xs a
            same in
      elim (Bool-cases (d == x)) [
        | inl k ↦ rw (left, e, k, first ∙ k) rest
        | inr k ↦ rw (left, e, k, first ∙ k) (ap (λ v. x ∷ v) rest)
      ]
]

-- On ascending rows and ascending values KeepIfEqual keeps, in order, the rows that are among the
-- values, and it answers how many rows it removed.
pub keep_if_equal-select :
    (s : SelectionVector) (values : List ℕ)
    → Ascending s.indices
    → Ascending values
    → keep_if_equal s values ≡ outcome s (select (contains values) s.indices)
keep_if_equal-select s values a b =
    keep_if_equal-kept s values ∙ ap (outcome s) (kept-select s.indices values a b)

-- On ascending rows and ascending values DeleteIfEqual keeps, in order, the rows that are not among
-- the values, and it answers how many rows it removed.
pub delete_if_equal-select :
    (s : SelectionVector) (values : List ℕ)
    → Ascending s.indices
    → Ascending values
    → delete_if_equal s values ≡ outcome s (select (λ x. not (contains values x)) s.indices)
delete_if_equal-select s values a b =
    delete_if_equal-left s values ∙ ap (outcome s) (left-select s.indices values a b)

-- A row set that starts as all rows of a batch is ascending.
iota-AtLeast : (first n x : ℕ) → x ≤ first → AtLeast x (iota first n)
unfolding iota
iota-AtLeast first zero x h = tt
iota-AtLeast first (suc n) x h = (h, iota-AtLeast (suc first) n x (omega arith))

iota-Ascending : (first n : ℕ) → Ascending (iota first n)
unfolding iota
iota-Ascending first zero = tt
iota-Ascending first (suc n) =
    (iota-AtLeast (suc first) n first (omega arith), iota-Ascending (suc first) n)

select-AtLeast : (p : ℕ → Bool) (x : ℕ) (xs : List ℕ) → AtLeast x xs → AtLeast x (select p xs)
unfolding select
select-AtLeast p x [] a = tt
select-AtLeast p x (y ∷ ys) (a, b) = elim (Bool-cases (p y)) [
  | inl e ↦ rw e (a, select-AtLeast p x ys b)
  | inr e ↦ rw e (select-AtLeast p x ys b)
]

select-Ascending : (p : ℕ → Bool) (xs : List ℕ) → Ascending xs → Ascending (select p xs)
unfolding select
select-Ascending p [] a = tt
select-Ascending p (x ∷ xs) (a, b) = elim (Bool-cases (p x)) [
  | inl e ↦ rw e (select-AtLeast p x xs a, select-Ascending p xs b)
  | inr e ↦ rw e (select-Ascending p xs b)
]

unfoldable pub IsSelection : SelectionVector → Type 0
IsSelection s = Ascending s.indices

-- `Set` makes ascending rows, EraseIf keeps ascending rows ascending, and with ascending values so
-- do KeepIfEqual and DeleteIfEqual.
pub operations-IsSelection :
    (n : ℕ) (p : ℕ → Bool) (s : SelectionVector) (values : List ℕ)
    → IsSelection s
    → Ascending values
    → IsSelection (set_size n)
      × IsSelection (erase_if p s).0
      × IsSelection (keep_if_equal s values).0
      × IsSelection (delete_if_equal s values).0
unfolding IsSelection set_size erase_if
operations-IsSelection n p s values a b = (
  iota-Ascending 0 n,
  select-Ascending _ s.indices a,
  subst (λ o. Ascending o.0.indices) (sym (keep_if_equal-select s values a b))
      (select-Ascending _ s.indices a),
  subst (λ o. Ascending o.0.indices) (sym (delete_if_equal-select s values a b))
      (select-Ascending _ s.indices a),
)
