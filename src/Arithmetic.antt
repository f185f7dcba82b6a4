-- ===== src/Arithmetic.antt =====
-- Checked arithmetic in a row filter: iceberg/filter/row_filter/extend_gandiva/arithmetic_ops.h on
-- the signed integers of 32 and 64 bits.
pub mod Bounds
mod Examples
use iceberg_cxx.Common.{
  ℕ, suc, ◌/◌, ◌%◌, ◌-◌, ◌^◌, Bool, true, false, ◌&&◌, not, if◌then◌else◌, Result, ok, err,
}
use iceberg_cxx.Common.Int.{
  ℤ, pos, negsuc, sub_ℕ, ◌+ℤ◌, ◌-ℤ◌, ◌*ℤ◌, ltb_ℤ, leb_ℤ, eqb_ℤ, abs, neg_part,
}

-- The messages of gdv_fn_context_set_error_msg. The value 0 returned with one is not read.
pub data ArithmeticError : Type 0 where
  overflow : ArithmeticError
  division_by_zero : ArithmeticError

-- `std::numeric_limits<T>::min()` for a T of w + 1 bits, and the range of T.
abbrev pub min_value : ℕ → ℤ
min_value w = negsuc (2 ^ w - 1)

unfoldable pub in_range : ℕ → ℤ → Bool
in_range w z = leb_ℤ (min_value w) z && ltb_ℤ z (pos (2 ^ w))

-- The `__builtin_` operations answer whether the result fits.
unfoldable pub checked : ℕ → ℤ → Result ArithmeticError ℤ
unfolding in_range
checked w z = if in_range w z then ok z else err overflow

unfoldable pub add_overflow : ℕ → ℤ → ℤ → Result ArithmeticError ℤ
unfolding checked
add_overflow w lhs rhs = checked w (lhs +ℤ rhs)

unfoldable pub sub_overflow : ℕ → ℤ → ℤ → Result ArithmeticError ℤ
unfolding checked
sub_overflow w lhs rhs = checked w (lhs -ℤ rhs)

unfoldable pub mul_overflow : ℕ → ℤ → ℤ → Result ArithmeticError ℤ
unfolding checked
mul_overflow w lhs rhs = checked w (lhs *ℤ rhs)

-- `lhs / rhs` and `lhs % rhs`, which round to 0, for an rhs that is not 0.
unfoldable pub quotient : ℤ → ℤ → ℤ
quotient (pos n) (pos m) = pos (n / m)
quotient (pos n) (negsuc m) = sub_ℕ 0 (n / suc m)
quotient (negsuc n) (pos m) = sub_ℕ 0 (suc n / m)
quotient (negsuc n) (negsuc m) = pos (suc n / suc m)

unfoldable pub remainder : ℤ → ℤ → ℤ
remainder (pos n) b = pos (n % abs b)
remainder (negsuc n) b = sub_ℕ 0 (suc n % abs b)

unfoldable pub div_safe : ℕ → ℤ → ℤ → Result ArithmeticError ℤ
unfolding quotient
div_safe w lhs rhs =
    if eqb_ℤ rhs (pos 0)
    then err division_by_zero
    else if eqb_ℤ lhs (min_value w) && eqb_ℤ rhs (negsuc 0)
    then err overflow
    else ok (quotient lhs rhs)

unfoldable pub mod_safe : ℕ → ℤ → ℤ → Result ArithmeticError ℤ
unfolding remainder
mod_safe w lhs rhs =
    if eqb_ℤ rhs (pos 0)
    then err division_by_zero
    else if eqb_ℤ lhs (min_value w) && eqb_ℤ rhs (negsuc 0)
    then ok (pos 0)
    else ok (remainder lhs rhs)

abbrev pub less_than : ℤ → ℤ → Bool
less_than lhs rhs = ltb_ℤ lhs rhs

abbrev pub less_than_or_equal_to : ℤ → ℤ → Bool
less_than_or_equal_to lhs rhs = leb_ℤ lhs rhs

abbrev pub greater_than : ℤ → ℤ → Bool
greater_than lhs rhs = ltb_ℤ rhs lhs

abbrev pub greater_than_or_equal_to : ℤ → ℤ → Bool
greater_than_or_equal_to lhs rhs = leb_ℤ rhs lhs

abbrev pub equal : ℤ → ℤ → Bool
equal lhs rhs = eqb_ℤ lhs rhs

abbrev pub not_equal : ℤ → ℤ → Bool
not_equal lhs rhs = not (eqb_ℤ lhs rhs)
