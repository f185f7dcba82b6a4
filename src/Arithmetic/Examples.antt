-- ===== src/Arithmetic/Examples.antt =====
-- Tests of checked arithmetic (arithmetic_ops.h), and the theorem on division at concrete inputs.
use iceberg_cxx.Common.{◌≡◌, refl, true, ok, err, ◌⊎◌}
use iceberg_cxx.Common.Int.{ℤ, pos, negsuc, ◌+ℤ◌, ◌*ℤ◌}
use iceberg_cxx.Arithmetic.{
  overflow, division_by_zero, min_value, add_overflow, mul_overflow, div_safe, mod_safe, in_range,
}
use iceberg_cxx.Arithmetic.Bounds.{IsQuotient, div_safe-mod_safe}

sum_overflows : add_overflow 31 (pos 2147483647) (pos 1) ≡ err overflow
unfolding add_overflow ◌+ℤ◌
sum_overflows = refl

product_fits : mul_overflow 31 (pos 46340) (negsuc 46339) ≡ ok (negsuc 2147395599)
unfolding mul_overflow ◌*ℤ◌
product_fits = refl

least_by_minus_one : div_safe 31 (min_value 31) (negsuc 0) ≡ err overflow
unfolding div_safe
least_by_minus_one = refl

seven_by_minus_two :
    (div_safe 31 (pos 7) (negsuc 1) ≡ ok (negsuc 2)) × (mod_safe 31 (pos 7) (negsuc 1) ≡ ok (pos 1))
unfolding div_safe mod_safe
seven_by_minus_two = (refl, refl)

in_range_seven : in_range 31 (pos 7) ≡ true
unfolding in_range
in_range_seven = refl

div_safe-mod_safe_example :
    ((negsuc 1 ≡ pos 0)
      × (div_safe 31 (pos 7) (negsuc 1) ≡ err division_by_zero)
      × (mod_safe 31 (pos 7) (negsuc 1) ≡ err division_by_zero))
    ⊎ ((pos 7 ≡ min_value 31)
        × (negsuc 1 ≡ negsuc 0)
        × (div_safe 31 (pos 7) (negsuc 1) ≡ err overflow)
        × (mod_safe 31 (pos 7) (negsuc 1) ≡ ok (pos 0)))
    ⊎ ((q : ℤ) × (r : ℤ) × (div_safe 31 (pos 7) (negsuc 1) ≡ ok q)
        × (mod_safe 31 (pos 7) (negsuc 1) ≡ ok r)
        × IsQuotient 31 (pos 7) (negsuc 1) q r)
div_safe-mod_safe_example = div_safe-mod_safe 31 (pos 7) (negsuc 1) in_range_seven
