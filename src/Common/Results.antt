-- ===== src/Common/Results.antt =====
-- Results that carry an error, with the notation for `do` blocks.
use mathlib.Core.Path.{◌≡◌, refl}
use mathlib.Core.Logic.{◌⊎◌, inl, inr}
use mathlib.Core.List.{List, [], ◌∷◌}
use mathlib.Core.Option.{Option, none, some}

pub data Result {ℓ} (E A : Type ℓ) : Type ℓ where
  err : E → Result E A
  ok : A → Result E A

module _ {ℓ} {E A B : Type ℓ} where
  infixl 5 ◌>>=◌
  abbrev pub ◌>>=◌ : Result E A → (A → Result E B) → Result E B
  err status >>= next = err status
  ok value >>= next = next value

module _ {ℓ} {E A : Type ℓ} where
  abbrev pub or_err : Option A → E → Result E A
  or_err none e = err e
  or_err (some a) e = ok a

-- A loop that assigns every element the value of a call that may fail.
abbrev pub map_result {ℓ} : {E A B : Type ℓ} → (A → Result E B) → List A → Result E (List B)
map_result f [] = ok []
map_result f (x ∷ xs) = do y ← f x; ys ← map_result f xs; ok (y ∷ ys)

-- A bind that succeeds has a first step that does, and the second step runs on its value.
module _ {ℓ} {E A B : Type ℓ} where
  pub >>=-eq-ok :
      (first : Result E A) (next : A → Result E B) {out : B}
      → (first >>= next) ≡ ok out
      → (value : A) × (first ≡ ok value) × (next value ≡ ok out)
  >>=-eq-ok (err status) next run = cc
  >>=-eq-ok (ok value) next run = (value, refl, run)

pub eq_of_ok-eq-ok {ℓ} : {E A : Type ℓ} {a b : A} → ◌≡◌ {A = Result E A} (ok a) (ok b) → a ≡ b
eq_of_ok-eq-ok h = cc

pub Result-cases {ℓ} :
    {E A : Type ℓ} (m : Result E A) → ((e : E) × (m ≡ err e)) ⊎ ((a : A) × (m ≡ ok a))
Result-cases (err e) = inl (e, refl)
Result-cases (ok a) = inr (a, refl)
