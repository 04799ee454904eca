-- ===== src/Expression.antt =====
-- src/binder/expression.rs: bound expressions. A list of operands and an input that may be missing
-- are data types of their own.
use Prim.Native.String.{String}
use ruzu.Prelude.{Bool, false, Option, none, some}
use ruzu.Types.{DataType}
use ruzu.Types.Value.{Value, data_type as value_type}

pub data ComparisonOp : Type 0 where
  eq neq lt lte gt gte : ComparisonOp

pub data LogicalOp : Type 0 where
  and or not : LogicalOp

pub data ArithmeticOp : Type 0 where
  add sub mul div mod_ : ArithmeticOp

pub data AggregateFunction : Type 0 where
  count sum avg min max : AggregateFunction

mutual
  pub data BoundExpression : Type 0 where
    literal : Value → DataType → BoundExpression
    property_access : String → String → DataType → BoundExpression
    variable_ref : String → DataType → BoundExpression
    comparison : BoundExpression → ComparisonOp → BoundExpression → DataType → BoundExpression
    logical : LogicalOp → Operands → DataType → BoundExpression
    arithmetic : BoundExpression → ArithmeticOp → BoundExpression → DataType → BoundExpression
    aggregate : AggregateFunction → Input → Bool → DataType → BoundExpression
    is_null : BoundExpression → Bool → DataType → BoundExpression

  pub data Operands : Type 0 where
    end : Operands
    more : BoundExpression → Operands → Operands

  pub data Input : Type 0 where
    absent : Input
    present : BoundExpression → Input

unfoldable pub data_type : BoundExpression → DataType
data_type (literal value t) = t
data_type (property_access variable property t) = t
data_type (variable_ref variable t) = t
data_type (comparison left op right t) = t
data_type (logical op operands t) = t
data_type (arithmetic left op right t) = t
data_type (aggregate function input distinct t) = t
data_type (is_null operand negated t) = t

abbrev unwrap_or : Option DataType → DataType → DataType
unwrap_or (some t) other = t
unwrap_or none other = other

-- `BoundExpression::literal`
unfoldable pub new_literal : Value → BoundExpression
new_literal value = literal value (unwrap_or (value_type value) DataType.string)

-- `BoundExpression::comparison`
unfoldable pub new_comparison : BoundExpression → ComparisonOp → BoundExpression → BoundExpression
new_comparison left op right = comparison left op right DataType.bool

-- `BoundExpression::and`
unfoldable pub new_and : Operands → BoundExpression
new_and operands = logical LogicalOp.and operands DataType.bool

-- `BoundExpression::or`
unfoldable pub new_or : Operands → BoundExpression
new_or operands = logical LogicalOp.or operands DataType.bool

-- `BoundExpression::not`
unfoldable pub new_not : BoundExpression → BoundExpression
new_not operand = logical LogicalOp.not (more operand end) DataType.bool

-- `BoundExpression::aggregate`
unfoldable pub new_aggregate : AggregateFunction → Input → DataType → BoundExpression
new_aggregate function input t = aggregate function input false t

unfoldable pub count_star : BoundExpression
count_star = aggregate AggregateFunction.count absent false DataType.int64

unfoldable pub output_type : AggregateFunction → Option DataType → DataType
output_type AggregateFunction.count input_type = DataType.int64
output_type AggregateFunction.avg input_type = DataType.float64
output_type AggregateFunction.sum input_type = unwrap_or input_type DataType.int64
output_type AggregateFunction.min input_type = unwrap_or input_type DataType.int64
output_type AggregateFunction.max input_type = unwrap_or input_type DataType.int64
