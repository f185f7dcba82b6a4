-- ===== src/Filter/Function.antt =====
-- Functions of filter expressions: iceberg/filter/representation/function.h.
use iceberg_cxx.Common.{◌≡◌, Bool, true, false, List, arith}
use iceberg_cxx.Filter.Value.{ValueType}

pub data FunctionId : Type 0 where
  less_than less_than_or_equal_to greater_than greater_than_or_equal_to equal not_equal : FunctionId
  add_without_checks subtract_without_checks multiply_without_checks divide_without_checks :
      FunctionId
  add_with_checks subtract_with_checks multiply_with_checks divide_with_checks : FunctionId
  modulo_with_checks : FunctionId
  like ilike not_like not_ilike : FunctionId
  bitwise_and bitwise_or xor bitwise_not : FunctionId
  is_null : FunctionId
  cast_int4 cast_int8 cast_timestamp cast_timestamptz cast_float8 cast_date : FunctionId
  sign ceil floor round sqrt cbrt exp log10 : FunctionId
  sin cos tan cot atan atan2 sinh cosh tanh asin acos : FunctionId
  extract_timestamp date_trunc date_diff absolute negative : FunctionId
  char_length lower upper ltrim rtrim btrim substring locate concatenate : FunctionId

pub FunctionId-discrete : Discrete FunctionId
FunctionId-discrete = hlevel

pub record FunctionSignature : Type 0 where
  pub function_id : FunctionId
  pub return_type : ValueType
  pub argument_types : List ValueType

-- `==` on function ids.
unfoldable pub same_function : FunctionId → FunctionId → Bool
unfolding FunctionId-discrete
same_function f g = elim (FunctionId-discrete f g) [ yes _ ↦ true | no _ ↦ false ]

pub same_function-eq : (f g : FunctionId) → same_function f g ≡ true → f ≡ g
unfolding same_function
same_function-eq f g h = ground arith
