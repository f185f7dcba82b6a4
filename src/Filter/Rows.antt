-- ===== src/Filter/Rows.antt =====
-- The meaning of a filter expression on one row, with SQL's three-valued logic: the reference that
-- the statistics are held against. It is written from the meaning of the expressions, not from the
-- code. A result `none` is no meaning: a type error, an overflow, or a cast with no shift given.
-- What a function gives that the statistics know nothing of is a parameter.
use iceberg_cxx.Common.{
  ◌≡◌, Bool, true, false, ◌&&◌, not, Option, none, some, List, [], ◌∷◌, if◌then◌else◌,
}
use Prim.Native.String.{String}
use iceberg_cxx.Common.Options.{◌>>=◌}
use iceberg_cxx.Common.Int.{ℤ, pos, ◌+ℤ◌, ◌*ℤ◌, leb_ℤ}
use iceberg_cxx.Filter.Value.{
  ValueType, bool, int2, int4, int8, float4, float8, string, date, timestamp, timestamptz, time,
  PhysicalType, PhysicalNullableType, Array, same_type,
}
use iceberg_cxx.Filter.Order.{Comparators, comparators}
use iceberg_cxx.Filter.Function.{
  FunctionId, less_than, less_than_or_equal_to, greater_than, greater_than_or_equal_to, equal,
  not_equal, is_null, cast_int4, cast_int8, cast_float8,
}
use iceberg_cxx.Filter.Registry.{int64_min, int64_max, micros_in_day}
use iceberg_cxx.Filter.Node.{
  Operation, and, or, Node, Nodes, variable_node, const_node, function_node,
  scalar_over_array_function_node, if_node, logical_node, nil, cons,
}

pub data Datum : Type 0 where
  datum : (t : ValueType) → PhysicalType t → Datum

-- A null has no type.
abbrev pub Cell : Type 0
Cell = Option Datum

abbrev pub bool_cell : Bool → Cell
bool_cell b = some (datum bool b)

abbrev pub Row : Type 0
Row = String → ValueType → Cell

-- The types that two compared values are brought to.
pub data Promotion : Type 0 where
  as_is to_int4 to_int8 to_float8 to_timestamp : Promotion

unfoldable pub promotion : ValueType → ValueType → Option Promotion
unfolding same_type
promotion int2 int4 = some to_int4
promotion int4 int2 = some to_int4
promotion int2 int8 = some to_int8
promotion int8 int2 = some to_int8
promotion int4 int8 = some to_int8
promotion int8 int4 = some to_int8
promotion float4 float8 = some to_float8
promotion float8 float4 = some to_float8
promotion timestamp timestamptz = some to_timestamp
promotion timestamptz timestamp = some to_timestamp
promotion timestamp date = some to_timestamp
promotion date timestamp = some to_timestamp
promotion timestamptz date = some to_timestamp
promotion date timestamptz = some to_timestamp
promotion s t = if same_type s t then some as_is else none

-- A timestamp has 64 bits.
abbrev pub timestamp_datum : ℤ → Option Datum
timestamp_datum z =
    if leb_ℤ int64_min z && leb_ℤ z int64_max then some (datum timestamp z) else none

unfoldable pub promote : Option ℤ → Promotion → Datum → Option Datum
promote shift to_int4 (datum int2 v) = some (datum int4 v)
promote shift to_int8 (datum int2 v) = some (datum int8 v)
promote shift to_int8 (datum int4 v) = some (datum int8 v)
promote shift to_float8 (datum float4 v) = some (datum float8 v)
promote shift to_timestamp (datum date v) = timestamp_datum (v *ℤ pos micros_in_day)
promote (some s) to_timestamp (datum timestamptz v) = timestamp_datum (v +ℤ s)
promote none to_timestamp (datum timestamptz v) = none
promote shift p d = some d

unfoldable pub value_at : (t : ValueType) → Datum → Option (PhysicalType t)
value_at bool (datum bool v) = some v
value_at int2 (datum int2 v) = some v
value_at int4 (datum int4 v) = some v
value_at int8 (datum int8 v) = some v
value_at float4 (datum float4 v) = some v
value_at float8 (datum float8 v) = some v
value_at string (datum string v) = some v
value_at date (datum date v) = some v
value_at timestamp (datum timestamp v) = some v
value_at timestamptz (datum timestamptz v) = some v
value_at time (datum time v) = some v
value_at _ _ = none

pub value_at-datum :
    (t : ValueType) (d : Datum) (v : PhysicalType t) → value_at t d ≡ some v → d ≡ datum t v
unfolding value_at
value_at-datum bool (datum bool w) v h = cc
value_at-datum int2 (datum int2 w) v h = cc
value_at-datum int4 (datum int4 w) v h = cc
value_at-datum int8 (datum int8 w) v h = cc
value_at-datum float4 (datum float4 w) v h = cc
value_at-datum float8 (datum float8 w) v h = cc
value_at-datum string (datum string w) v h = cc
value_at-datum date (datum date w) v h = cc
value_at-datum timestamp (datum timestamp w) v h = cc
value_at-datum timestamptz (datum timestamptz w) v h = cc
value_at-datum time (datum time w) v h = cc
value_at-datum _ _ v h = cc

pub data Comparison : Type 0 where
  lt gt le ge eq ne : Comparison

unfoldable pub comparison : FunctionId → Option Comparison
comparison less_than = some lt
comparison greater_than = some gt
comparison less_than_or_equal_to = some le
comparison greater_than_or_equal_to = some ge
comparison equal = some eq
comparison not_equal = some ne
comparison _ = none

abbrev pub holds : {A : Type 0} → Comparison → Comparators A → A → A → Bool
holds lt o a b = o.lt a b
holds gt o a b = o.lt b a
holds le o a b = o.le a b
holds ge o a b = o.le b a
holds eq o a b = o.eq a b
holds ne o a b = not (o.eq a b)

-- Two values of one type. Numerics and intervals have no order here.
unfoldable pub compare_values : Comparison → Datum → Datum → Option Cell
unfolding value_at
compare_values c (datum t v) e = do w ← value_at t e; some (bool_cell (holds c (comparators t) v w))

abbrev pub type_of : Datum → ValueType
type_of (datum t v) = t

unfoldable pub compare_cells : Option ℤ → Comparison → Cell → Cell → Option Cell
unfolding promotion promote compare_values
compare_cells shift c none r = some none
compare_cells shift c (some d) none = some none
compare_cells shift c (some d) (some e) = do
  p ← promotion (type_of d) (type_of e)
  d' ← promote shift p d
  e' ← promote shift p e
  compare_values c d' e'

-- A cast to a wider type.
unfoldable pub widen : FunctionId → Datum → Option Datum
widen cast_int4 (datum int2 v) = some (datum int4 v)
widen cast_int8 (datum int2 v) = some (datum int8 v)
widen cast_int8 (datum int4 v) = some (datum int8 v)
widen cast_float8 (datum float4 v) = some (datum float8 v)
widen _ _ = none

abbrev pub widen_cell : FunctionId → Cell → Option Cell
widen_cell fid none = some none
widen_cell fid (some d) = do d' ← widen fid d; some (some d')

-- SQL's AND, OR and NOT; `none` is null.
abbrev pub and_null : Option Bool → Option Bool → Option Bool
and_null (some false) b = some false
and_null (some true) b = b
and_null none (some false) = some false
and_null none _ = none

abbrev pub or_null : Option Bool → Option Bool → Option Bool
or_null (some true) b = some true
or_null (some false) b = b
or_null none (some true) = some true
or_null none _ = none

abbrev pub not_null : Option Bool → Option Bool
not_null none = none
not_null (some b) = some (not b)

abbrev pub truth : Cell → Option (Option Bool)
truth none = some none
truth (some (datum bool b)) = some (some b)
truth _ = none

abbrev pub truth_cell : Option Bool → Cell
truth_cell none = none
truth_cell (some b) = bool_cell b

-- The results of AND or of OR over many arguments, from the first to the last.
abbrev pub connect : Bool → Option Bool → Option Bool → Option Bool
connect true a b = or_null a b
connect false a b = and_null a b

abbrev pub literal_cell : (t : ValueType) → PhysicalNullableType t → Cell
literal_cell t none = none
literal_cell t (some v) = some (datum t v)

-- Functions that the statistics do not know.
abbrev pub OtherFunctions : Type 0
OtherFunctions = FunctionId → List Cell → Option Cell

module _ (shift : Option ℤ) (other : OtherFunctions) where
  unfoldable pub apply_unary : FunctionId → Cell → Option Cell
  unfolding widen
  apply_unary is_null none = some (bool_cell true)
  apply_unary is_null (some d) = some (bool_cell false)
  apply_unary cast_int4 c = widen_cell cast_int4 c
  apply_unary cast_int8 c = widen_cell cast_int8 c
  apply_unary cast_float8 c = widen_cell cast_float8 c
  apply_unary fid c = other fid (c ∷ [])

  unfoldable pub apply : FunctionId → List Cell → Option Cell
  unfolding apply_unary compare_cells comparison
  apply fid (c ∷ []) = apply_unary fid c
  apply fid (l ∷ r ∷ []) = elim (comparison fid) [
    | none ↦ other fid (l ∷ r ∷ [])
    | some c ↦ compare_cells shift c l r
  ]
  apply fid cells = other fid cells

  -- `scalar op element`, connected by OR or by AND.
  unfoldable pub over_array :
      FunctionId → Bool → Cell → (t : ValueType) → Array t → Option Bool → Option Cell
  unfolding apply
  over_array fid use_or lhs t [] acc = some (truth_cell acc)
  over_array fid use_or lhs t (elem ∷ elems) acc = do
    c ← apply fid (lhs ∷ literal_cell t elem ∷ [])
    b ← truth c
    over_array fid use_or lhs t elems (connect use_or acc b)

  module _ (row : Row) where
    unfoldable mutual
      pub eval : Node → Option Cell
      eval (variable_node t name) = some (row name t)
      eval (const_node t v) = some (literal_cell t v)
      eval (function_node signature arguments) = do
        cells ← eval_all arguments
        apply signature.function_id cells
      eval (scalar_over_array_function_node signature use_or scalar t array) = do
        lhs ← eval scalar
        over_array signature.function_id use_or lhs t array (some (not use_or))
      eval (if_node condition then_node else_node) = do
        c ← eval condition
        b ← truth c
        elim b [ some true ↦ eval then_node | _ ↦ eval else_node ]
      eval (logical_node Operation.not arguments) = eval_not arguments
      eval (logical_node and arguments) = eval_connected false arguments (some true)
      eval (logical_node or arguments) = eval_connected true arguments (some false)

      pub eval_all : Nodes → Option (List Cell)
      eval_all nil = some []
      eval_all (cons n ns) = do c ← eval n; cs ← eval_all ns; some (c ∷ cs)

      pub eval_not : Nodes → Option Cell
      eval_not (cons n nil) = do c ← eval n; b ← truth c; some (truth_cell (not_null b))
      eval_not _ = none

      pub eval_connected : Bool → Nodes → Option Bool → Option Cell
      eval_connected use_or nil acc = some (truth_cell acc)
      eval_connected use_or (cons n ns) acc = do
        c ← eval n
        b ← truth c
        eval_connected use_or ns (connect use_or acc b)

-- A filter selects the rows on which it is true, and not those on which it is null.
abbrev pub Selected : Option Cell → Type 0
Selected r = r ≡ some (bool_cell true)
