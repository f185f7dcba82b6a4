-- ===== src/Filter/Node.antt =====
-- Filter expressions: iceberg/filter/representation/node.h and the constants of value.h. A
-- `std::vector<NodePtr>` is the type `Nodes`.
use iceberg_cxx.Common.{Bool}
use Prim.Native.String.{String}
use iceberg_cxx.Filter.Value.{ValueType, PhysicalNullableType, Array}
use iceberg_cxx.Filter.Function.{FunctionSignature}

-- `LogicalNode::Operation`.
pub data Operation : Type 0 where
  and or not : Operation

-- A `Value` and an `ArrayHolder` are written out as a type with a nullable value or an array of it.
mutual
  pub data Node : Type 0 where
    variable_node : ValueType → String → Node
    const_node : (t : ValueType) → PhysicalNullableType t → Node
    function_node : FunctionSignature → Nodes → Node
    scalar_over_array_function_node :
        FunctionSignature → Bool → Node → (t : ValueType) → Array t → Node
    if_node : Node → Node → Node → Node
    logical_node : Operation → Nodes → Node

  pub data Nodes : Type 0 where
    nil : Nodes
    cons : Node → Nodes → Nodes
