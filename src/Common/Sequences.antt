-- ===== src/Common/Sequences.antt =====
-- Membership and succession in a list, and the elements of a list that pass a test.
use iceberg_cxx.Common.Tests.{if◌then◌else◌, Bool-cases}
use iceberg_cxx.Common.Lists.{All, length, get_or}
use Prim.Native.Nat.{ℕ, zero, suc, ◌<◌}
use mathlib.Core.Path.{◌≡◌, refl, ap}
use mathlib.Core.Logic.{◌⊎◌, inl, inr}
use mathlib.Core.Bool.{Bool, true}
use mathlib.Core.List.{List, [], ◌∷◌, ◌++◌, map}
use native.Mathlib.Omega.{arith}

module _ {A : Type 0} where
  abbrev pub Among : A → List A → Type 0
  Among a [] = ⊥
  Among a (x ∷ xs) = (x ≡ a) ⊎ Among a xs

  -- `a` stands in the list, and `b` after it.
  abbrev pub Before : A → A → List A → Type 0
  Before a b [] = ⊥
  Before a b (x ∷ xs) = ((x ≡ a) × Among b xs) ⊎ Before a b xs

  unfoldable pub select : (A → Bool) → List A → List A
  select test [] = []
  select test (x ∷ xs) = if test x then x ∷ select test xs else select test xs

  pub select-append :
      (test : A → Bool) (xs ys : List A) → select test (xs ++ ys) ≡ select test xs ++ select test ys
  unfolding select
  select-append test [] ys = refl
  select-append test (x ∷ xs) ys = ground (arith, select-append test xs ys)

  pub Among-append_left : (a : A) (xs ys : List A) → Among a xs → Among a (xs ++ ys)
  Among-append_left a [] ys h = elim h [ ]
  Among-append_left a (x ∷ xs) ys (inl h) = inl h
  Among-append_left a (x ∷ xs) ys (inr h) = inr (Among-append_left a xs ys h)

  pub Among-append_right : (a : A) (xs ys : List A) → Among a ys → Among a (xs ++ ys)
  Among-append_right a [] ys h = h
  Among-append_right a (x ∷ xs) ys h = inr (Among-append_right a xs ys h)

  pub Among-append : (a : A) (xs ys : List A) → Among a (xs ++ ys) → Among a xs ⊎ Among a ys
  Among-append a [] ys h = inr h
  Among-append a (x ∷ xs) ys (inl h) = inl (inl h)
  Among-append a (x ∷ xs) ys (inr h) = elim (Among-append a xs ys h) [
    | inl left ↦ inl (inr left)
    | inr right ↦ inr right
  ]

  pub All-Among {κ} : (P : A → Type κ) (a : A) (xs : List A) → All P xs → Among a xs → P a
  All-Among P a [] all h = elim h [ ]
  All-Among P a (x ∷ xs) (first, rest) (inl h) = rw (← h) first
  All-Among P a (x ∷ xs) (first, rest) (inr h) = All-Among P a xs rest h

  pub Among-select :
      (a : A) (test : A → Bool) (xs : List A)
      → test a ≡ true
      → Among a xs
      → Among a (select test xs)
  unfolding select
  Among-select a test [] chosen h = elim h [ ]
  Among-select a test (x ∷ xs) chosen (inl h) = rw (h, chosen) (inl refl)
  Among-select a test (x ∷ xs) chosen (inr h) = elim (Bool-cases (test x)) [
    | inl kept ↦ rw kept (inr (Among-select a test xs chosen h))
    | inr left ↦ rw left (Among-select a test xs chosen h)
  ]

  pub Among-of_select :
      (a : A) (test : A → Bool) (xs : List A) → Among a (select test xs) → Among a xs
  unfolding select
  Among-of_select a test [] h = elim h [ ]
  Among-of_select a test (x ∷ xs) h = elim (Bool-cases (test x)) [
    | inl kept ↦
        let either : (x ≡ a) ⊎ Among a (select test xs) = rw kept at h in
        elim either [ inl e ↦ inl e | inr later ↦ inr (Among-of_select a test xs later) ]
    | inr left ↦ inr (Among-of_select a test xs (rw left at h))
  ]

  pub Before-select :
      (a b : A) (test : A → Bool) (xs : List A)
      → test a ≡ true
      → test b ≡ true
      → Before a b xs
      → Before a b (select test xs)
  unfolding select
  Before-select a b test [] chosen_a chosen_b h = elim h [ ]
  Before-select a b test (x ∷ xs) chosen_a chosen_b (inl (h, later)) =
      rw (h, chosen_a) (inl (refl, Among-select b test xs chosen_b later))
  Before-select a b test (x ∷ xs) chosen_a chosen_b (inr h) = elim (Bool-cases (test x)) [
    | inl kept ↦ rw kept (inr (Before-select a b test xs chosen_a chosen_b h))
    | inr left ↦ rw left (Before-select a b test xs chosen_a chosen_b h)
  ]

  pub Before-of_select :
      (a b : A) (test : A → Bool) (xs : List A) → Before a b (select test xs) → Before a b xs
  unfolding select
  Before-of_select a b test [] h = elim h [ ]
  Before-of_select a b test (x ∷ xs) h = elim (Bool-cases (test x)) [
    | inl kept ↦
        let either : ((x ≡ a) × Among b (select test xs)) ⊎ Before a b (select test xs) =
          rw kept at h in
        elim either [
          | inl (e, later) ↦ inl (e, Among-of_select b test xs later)
          | inr later ↦ inr (Before-of_select a b test xs later)
        ]
    | inr left ↦ inr (Before-of_select a b test xs (rw left at h))
  ]

  pub Before-Among : (a b : A) (xs : List A) → Before a b xs → Among a xs × Among b xs
  Before-Among a b [] h = elim h [ ]
  Before-Among a b (x ∷ xs) (inl (h, later)) = (inl h, inr later)
  Before-Among a b (x ∷ xs) (inr h) =
      let (first, second) = Before-Among a b xs h in (inr first, inr second)

  pub All-intro {κ} : (P : A → Type κ) (xs : List A) → ((a : A) → Among a xs → P a) → All P xs
  All-intro P [] h = tt
  All-intro P (x ∷ xs) h = (h x (inl refl), All-intro P xs (λ a later. h a (inr later)))

  -- Some element has the property.
  abbrev pub Some : (A → Type 0) → List A → Type 0
  Some P [] = ⊥
  Some P (x ∷ xs) = P x ⊎ Some P xs

  pub Some-get_or :
      (P : A → Type 0) (xs : List A) (i : ℕ) (d : A) → i < length xs → P (get_or xs i d) → Some P xs
  Some-get_or P [] i d inside h = absurd (omega arith)
  Some-get_or P (x ∷ xs) zero d inside h = inl h
  Some-get_or P (x ∷ xs) (suc i) d inside h = inr (Some-get_or P xs i d (omega arith) h)

  pub get_or-Some :
      (P : A → Type 0) (xs : List A) (d : A)
      → Some P xs
      → (i : ℕ) × (i < length xs) × P (get_or xs i d)
  get_or-Some P [] d h = elim h [ ]
  get_or-Some P (x ∷ xs) d (inl h) = (0, omega arith, h)
  get_or-Some P (x ∷ xs) d (inr h) =
      let (i, inside, found) = get_or-Some P xs d h in (suc i, omega arith, found)

  pub Some-append_left : (P : A → Type 0) (xs ys : List A) → Some P xs → Some P (xs ++ ys)
  Some-append_left P [] ys h = elim h [ ]
  Some-append_left P (x ∷ xs) ys (inl h) = inl h
  Some-append_left P (x ∷ xs) ys (inr h) = inr (Some-append_left P xs ys h)

  pub Some-append_right : (P : A → Type 0) (xs ys : List A) → Some P ys → Some P (xs ++ ys)
  Some-append_right P [] ys h = h
  Some-append_right P (x ∷ xs) ys h = inr (Some-append_right P xs ys h)

  pub Some-append : (P : A → Type 0) (xs ys : List A) → Some P (xs ++ ys) → Some P xs ⊎ Some P ys
  Some-append P [] ys h = inr h
  Some-append P (x ∷ xs) ys (inl h) = inl (inl h)
  Some-append P (x ∷ xs) ys (inr h) = elim (Some-append P xs ys h) [
    | inl left ↦ inl (inr left)
    | inr right ↦ inr right
  ]

  pub Before-append :
      (a b : A) (xs ys : List A)
      → Before a b (xs ++ ys)
      → Before a b xs ⊎ (Among a xs × Among b ys) ⊎ Before a b ys
  Before-append a b [] ys h = inr (inr h)
  Before-append a b (x ∷ xs) ys (inl (same, later)) = elim (Among-append b xs ys later) [
    | inl left ↦ inl (inl (same, left))
    | inr right ↦ inr (inl (inl same, right))
  ]
  Before-append a b (x ∷ xs) ys (inr h) = elim (Before-append a b xs ys h) [
    | inl left ↦ inl (inr left)
    | inr (inl (left, right)) ↦ inr (inl (inr left, right))
    | inr (inr right) ↦ inr (inr right)
  ]

  pub append-Before_left : (a b : A) (xs ys : List A) → Before a b xs → Before a b (xs ++ ys)
  append-Before_left a b [] ys h = elim h [ ]
  append-Before_left a b (x ∷ xs) ys (inl (same, later)) =
      inl (same, Among-append_left b xs ys later)
  append-Before_left a b (x ∷ xs) ys (inr h) = inr (append-Before_left a b xs ys h)

  pub append-Before_right : (a b : A) (xs ys : List A) → Before a b ys → Before a b (xs ++ ys)
  append-Before_right a b [] ys h = h
  append-Before_right a b (x ∷ xs) ys h = inr (append-Before_right a b xs ys h)

  pub append-Before : (a b : A) (xs ys : List A) → Among a xs → Among b ys → Before a b (xs ++ ys)
  append-Before a b [] ys h k = elim h [ ]
  append-Before a b (x ∷ xs) ys (inl same) k = inl (same, Among-append_right b xs ys k)
  append-Before a b (x ∷ xs) ys (inr later) k = inr (append-Before a b xs ys later k)

module _ {A B : Type 0} (f : A → B) where
  pub Among-map : (a : A) (xs : List A) → Among a xs → Among (f a) (map f xs)
  Among-map a [] h = h
  Among-map a (x ∷ xs) (inl same) = inl (ap f same)
  Among-map a (x ∷ xs) (inr later) = inr (Among-map a xs later)
