-- ===== src/Optimizer.antt =====
-- src/planner/optimizer/mod.rs: constants in predicates.
pub mod Meaning
pub mod Simplify
pub mod Truth
pub mod Rules
mod Tests
use Prim.Native.Nat.{Ordering}
use ruzu.Prelude.{ℕ, ◌≡◌, Bool, true, false, ◌||◌, Option, none, some}
use ruzu.Types.{DataType}
use ruzu.Types.Value.{Value, compare}
use ruzu.Expression.{
  BoundExpression, Operands, ComparisonOp, LogicalOp, literal, comparison, logical, end, more,
  new_literal, new_not,
}

pub data ConstantValue : Type 0 where
  always never unknown : ConstantValue

unfoldable pub holds_at : ComparisonOp → Ordering → Bool
holds_at ComparisonOp.eq Ordering.eq = true
holds_at ComparisonOp.lte Ordering.eq = true
holds_at ComparisonOp.gte Ordering.eq = true
holds_at ComparisonOp.lt Ordering.lt = true
holds_at ComparisonOp.lte Ordering.lt = true
holds_at ComparisonOp.neq Ordering.lt = true
holds_at ComparisonOp.gt Ordering.gt = true
holds_at ComparisonOp.gte Ordering.gt = true
holds_at ComparisonOp.neq Ordering.gt = true
holds_at op ordering = false

abbrev at_ordering : ComparisonOp → Option Ordering → Bool
at_ordering op none = false
at_ordering op (some ordering) = holds_at op ordering

unfoldable pub evaluate_comparison : Value → ComparisonOp → Value → Bool
evaluate_comparison left op right = at_ordering op (compare left right)

abbrev pub constant : Bool → ConstantValue
constant true = always
constant false = never

-- The comparison when both sides are literals.
unfoldable pub constant_comparison : BoundExpression → ComparisonOp → BoundExpression → Option Bool
constant_comparison (literal left_val t) op (literal right_val u) =
    some (evaluate_comparison left_val op right_val)
constant_comparison left op right = none

abbrev pub constant_or_unknown : Option Bool → ConstantValue
constant_or_unknown (some result) = constant result
constant_or_unknown none = unknown

abbrev pub negated : ConstantValue → ConstantValue
negated always = never
negated never = always
negated unknown = unknown

-- One operand of a conjunction, before the others: a constant false ends the loop.
abbrev pub and_then : ConstantValue → ConstantValue → ConstantValue
and_then never rest = never
and_then always rest = rest
and_then unknown never = never
and_then unknown always = unknown
and_then unknown unknown = unknown

abbrev pub or_then : ConstantValue → ConstantValue → ConstantValue
or_then always rest = always
or_then never rest = rest
or_then unknown always = always
or_then unknown never = unknown
or_then unknown unknown = unknown

unfoldable mutual
  pub try_evaluate_constant : BoundExpression → ConstantValue
  try_evaluate_constant (literal (Value.bool b) t) = constant b
  try_evaluate_constant (comparison left op right t) =
      constant_or_unknown (constant_comparison left op right)
  try_evaluate_constant (logical LogicalOp.and operands t) = all_constant operands
  try_evaluate_constant (logical LogicalOp.or operands t) = any_constant operands
  try_evaluate_constant (logical LogicalOp.not end t) = unknown
  try_evaluate_constant (logical LogicalOp.not (more operand others) t) =
      negated (try_evaluate_constant operand)
  try_evaluate_constant expr = unknown

  pub all_constant : Operands → ConstantValue
  all_constant end = always
  all_constant (more operand operands) =
      and_then (try_evaluate_constant operand) (all_constant operands)

  pub any_constant : Operands → ConstantValue
  any_constant end = never
  any_constant (more operand operands) =
      or_then (try_evaluate_constant operand) (any_constant operands)

abbrev pub bool_literal : Bool → BoundExpression
bool_literal b = new_literal (Value.bool b)

-- The operands that a loop of `simplify_predicate` keeps, `none` when it returns early: one operand,
-- by its constant value, before the others.
abbrev pub keep_and : ConstantValue → BoundExpression → Option Operands → Option Operands
keep_and never simplified rest = none
keep_and always simplified rest = rest
keep_and unknown simplified none = none
keep_and unknown simplified (some rest) = some (more simplified rest)

abbrev pub keep_or : ConstantValue → BoundExpression → Option Operands → Option Operands
keep_or always simplified rest = none
keep_or never simplified rest = rest
keep_or unknown simplified none = none
keep_or unknown simplified (some rest) = some (more simplified rest)

-- `match new_operands.len()`: `early` is what an early return gives, `empty` what no operand gives.
abbrev pub rebuild : LogicalOp → DataType → Bool → Bool → Option Operands → BoundExpression
rebuild op t early empty none = bool_literal early
rebuild op t early empty (some end) = bool_literal empty
rebuild op t early empty (some (more only end)) = only
rebuild op t early empty (some (more first (more second rest))) =
    logical op (more first (more second rest)) t

abbrev pub rebuild_not : ConstantValue → BoundExpression → BoundExpression
rebuild_not always simplified = bool_literal false
rebuild_not never simplified = bool_literal true
rebuild_not unknown simplified = new_not simplified

abbrev pub rebuild_comparison : BoundExpression → Option Bool → BoundExpression
rebuild_comparison expr (some result) = bool_literal result
rebuild_comparison expr none = expr

unfoldable mutual
  pub simplify_predicate : BoundExpression → BoundExpression
  simplify_predicate (logical LogicalOp.and operands t) =
      rebuild LogicalOp.and t false true (simplify_and operands)
  simplify_predicate (logical LogicalOp.or operands t) =
      rebuild LogicalOp.or t true false (simplify_or operands)
  simplify_predicate (logical LogicalOp.not end t) = logical LogicalOp.not end t
  simplify_predicate (logical LogicalOp.not (more operand others) t) =
      let simplified = simplify_predicate operand in
      rebuild_not (try_evaluate_constant simplified) simplified
  simplify_predicate (comparison left op right t) =
      rebuild_comparison (comparison left op right t) (constant_comparison left op right)
  simplify_predicate expr = expr

  pub simplify_and : Operands → Option Operands
  simplify_and end = some end
  simplify_and (more operand operands) =
      let simplified = simplify_predicate operand in
      keep_and (try_evaluate_constant simplified) simplified (simplify_and operands)

  pub simplify_or : Operands → Option Operands
  simplify_or end = some end
  simplify_or (more operand operands) =
      let simplified = simplify_predicate operand in
      keep_or (try_evaluate_constant simplified) simplified (simplify_or operands)
