-- ===== src/Types/Examples.antt =====
-- Tests of the names of types (iceberg/type.cpp).
use iceberg_cxx.Common.{◌≡◌, refl, some, none, true}
use iceberg_cxx.Types.{list_type, primitive_type, long, decimal, to_string, make_decimal_type}
use iceberg_cxx.Common.Int.{pos}

list_of_long :
    to_string (λ n. "?") (list_type (pos 3) true (primitive_type long)) ≡ some "list(long)"
unfolding to_string
list_of_long = refl

-- A decimal has no name without its parameters.
decimal_name : to_string (λ n. "?") (primitive_type decimal) ≡ none
unfolding to_string
decimal_name = refl

precision_bounded : make_decimal_type (pos 39) (pos 2) ≡ none
unfolding make_decimal_type
precision_bounded = refl
