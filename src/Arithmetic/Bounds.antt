-- ===== src/Arithmetic/Bounds.antt =====
-- Division of arithmetic_ops.h and the range of its type.
use iceberg_cxx.Common.{
  ℕ, zero, suc, ◌/◌, ◌%◌, ◌^◌, ◌≡◌, ◌≤◌, ◌<◌, refl, arith, true, false, ok, err, Bool-cases, ◌&&◌,
  ◌⊎◌, inl, inr,
}
use iceberg_cxx.Common.Int.{ℤ, pos, negsuc, sub_ℕ, ◌+ℤ◌, ◌*ℤ◌, pos_part, neg_part, eqb_ℤ, abs}
use native.Mathlib.Nat.{div-add-mod, div-le_self, div-lt_self, div-one, mod-le, two-pow-succ}
use iceberg_cxx.Arithmetic.{
  overflow, division_by_zero, min_value, in_range, quotient, remainder, div_safe, mod_safe,
}

quotient-remainder : (lhs rhs : ℤ) → rhs *ℤ quotient lhs rhs +ℤ remainder lhs rhs ≡ lhs
unfolding quotient remainder ◌*ℤ◌ ◌+ℤ◌
quotient-remainder (pos n) (pos m) = ground (arith, div-add-mod n m)
quotient-remainder (pos n) (negsuc m) = ground (arith, div-add-mod n (suc m))
quotient-remainder (negsuc n) (pos m) = ground (arith, div-add-mod (suc n) m)
quotient-remainder (negsuc n) (negsuc m) = ground (arith, div-add-mod (suc n) (suc m))

pow_pos : (w : ℕ) → 0 < 2 ^ w
pow_pos zero = omega arith
pow_pos (suc w) = omega (arith, two-pow-succ w, pow_pos w)

-- The range of a type of w + 1 bits, on the two parts of an integer.
abbrev IsInRange : ℕ → ℤ → Type 0
IsInRange w z = (neg_part z ≤ 2 ^ w) × (pos_part z < 2 ^ w)

of_in_range : (w : ℕ) (z : ℤ) → in_range w z ≡ true → IsInRange w z
unfolding in_range
of_in_range w z h = ground (arith, pow_pos w)

to_in_range : (w : ℕ) (z : ℤ) → IsInRange w z → in_range w z ≡ true
unfolding in_range
to_in_range w z (h, k) = ground (arith, pow_pos w)

neg_parts : (n : ℕ) → (pos_part (sub_ℕ 0 n) ≡ 0) × (neg_part (sub_ℕ 0 n) ≡ n)
neg_parts zero = (refl, refl)
neg_parts (suc n) = (ground arith, ground arith)

-- The one quotient that is out of range is that of the least value and -1.
div_neg-bound :
    (w n m : ℕ)
    → suc n ≤ 2 ^ w
    → eqb_ℤ (negsuc n) (min_value w) && eqb_ℤ (negsuc m) (negsuc 0) ≡ false
    → suc n / suc m < 2 ^ w
div_neg-bound w n zero h k = rw (div-one (suc n)) (ground (arith, pow_pos w))
div_neg-bound w n (suc m) h k =
    omega (arith, div-lt_self {n = suc n} {k = suc (suc m)} (omega arith) (omega arith))

quotient-IsInRange :
    (w : ℕ) (lhs rhs : ℤ)
    → IsInRange w lhs
    → eqb_ℤ lhs (min_value w) && eqb_ℤ rhs (negsuc 0) ≡ false
    → IsInRange w (quotient lhs rhs)
unfolding quotient
quotient-IsInRange w (pos n) (pos m) h k = (omega arith, omega (arith, div-le_self n m, h.1))
quotient-IsInRange w (pos n) (negsuc m) h k = (
  omega (arith, neg_parts (n / suc m), div-le_self n (suc m), h.1),
  omega (arith, neg_parts (n / suc m), h.1),
)
quotient-IsInRange w (negsuc n) (pos m) h k = (
  omega (arith, neg_parts (suc n / m), div-le_self (suc n) m, h.0),
  omega (arith, neg_parts (suc n / m), h.1),
)
quotient-IsInRange w (negsuc n) (negsuc m) h k = (omega arith, div_neg-bound w n m h.0 k)

remainder-IsInRange : (w : ℕ) (lhs rhs : ℤ) → IsInRange w lhs → IsInRange w (remainder lhs rhs)
unfolding remainder
remainder-IsInRange w (pos n) rhs h = (omega arith, omega (arith, mod-le n (abs rhs), h.1))
remainder-IsInRange w (negsuc n) rhs h = (
  omega (arith, neg_parts (suc n % abs rhs), mod-le (suc n) (abs rhs), h.0),
  omega (arith, neg_parts (suc n % abs rhs), h.1),
)

-- A quotient and a remainder in range that give back the dividend.
unfoldable pub IsQuotient : ℕ → ℤ → ℤ → ℤ → ℤ → Type 0
IsQuotient w lhs rhs q r = (in_range w q ≡ true) × (in_range w r ≡ true) × (rhs *ℤ q +ℤ r ≡ lhs)

-- For a dividend of w + 1 bits: by 0 DivSafe and ModSafe fail; for the least value by -1 DivSafe fails
-- and ModSafe answers 0; otherwise both answer, a quotient and a remainder in range that give back
-- the dividend.
pub div_safe-mod_safe :
    (w : ℕ) (lhs rhs : ℤ)
    → in_range w lhs ≡ true
    → ((rhs ≡ pos 0)
        × (div_safe w lhs rhs ≡ err division_by_zero)
        × (mod_safe w lhs rhs ≡ err division_by_zero))
      ⊎ ((lhs ≡ min_value w)
          × (rhs ≡ negsuc 0)
          × (div_safe w lhs rhs ≡ err overflow)
          × (mod_safe w lhs rhs ≡ ok (pos 0)))
      ⊎ ((q : ℤ) × (r : ℤ) × (div_safe w lhs rhs ≡ ok q)
          × (mod_safe w lhs rhs ≡ ok r)
          × IsQuotient w lhs rhs q r)
unfolding div_safe mod_safe IsQuotient
div_safe-mod_safe w lhs rhs h = elim (Bool-cases (eqb_ℤ rhs (pos 0))) [
  | inl e ↦ inl (ground arith, rw e refl, rw e refl)
  | inr e ↦ elim (Bool-cases (eqb_ℤ lhs (min_value w) && eqb_ℤ rhs (negsuc 0))) [
    | inl k ↦ inr (inl (ground arith, ground arith, rw (e, k) refl, rw (e, k) refl))
    | inr k ↦
        let q = quotient lhs rhs in
        let r = remainder lhs rhs in
        inr (
          inr (
            q,
            r,
            rw (e, k) refl,
            rw (e, k) refl,
            (
              to_in_range w q (quotient-IsInRange w lhs rhs (of_in_range w lhs h) k),
              to_in_range w r (remainder-IsInRange w lhs rhs (of_in_range w lhs h)),
              quotient-remainder lhs rhs,
            ),
          ))
  ]
]
