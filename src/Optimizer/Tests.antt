-- ===== src/Optimizer/Tests.antt =====
-- The theorems at a filter on a scan.
use ruzu.Prelude.{ℕ, ◌≡◌, refl, Bool, true, false, none, List, [], ◌∷◌, ok}
use ruzu.Types.{DataType}
use ruzu.Types.Value.{Value, pos}
use ruzu.Expression.{
  BoundExpression, ComparisonOp, new_literal, new_comparison, new_and, new_not, more, end,
  property_access,
}
use ruzu.Catalog.{NodeTableSchema}
use ruzu.Plan.{LogicalPlan, filter, node_scan, project, output_schema}
use ruzu.Optimizer.{simplify_predicate}
use ruzu.Optimizer.Rules.{
  Transformed, predicate_simplification, default_rules, rewrite, optimize, into_inner,
}
use ruzu.Optimizer.Rules.Schema.{output_schema-optimize}
use ruzu.Optimizer.Rules.Rows.{moves_columns, rows, rows-rewrite}

abbrev person : NodeTableSchema
person = record {
  table_id = 0;
  name = "Person";
  columns =
      record { name = "name"; data_type = DataType.string }
      ∷ record { name = "age"; data_type = DataType.int64 }
      ∷ [];
  primary_key = "name" ∷ [];
}

abbrev age : BoundExpression
age = property_access "p" "age" DataType.int64

abbrev number : ℕ → BoundExpression
number n = new_literal (Value.int64 (pos n))

-- `p.age > 30 AND NOT 1 = 2`
abbrev predicate : BoundExpression
predicate = new_and (
    more (new_comparison age ComparisonOp.gt (number 30))
      (more (new_not (new_comparison (number 1) ComparisonOp.eq (number 2))) end))

abbrev scan : LogicalPlan
scan = node_scan "Person" "p" person [] none

abbrev never_same : BoundExpression → BoundExpression → Bool
never_same a b = false

-- A row is whether `p.age > 30`.
abbrev at_row : Bool → BoundExpression → Bool
at_row row expr = row

abbrev base : LogicalPlan → List Bool
base plan = true ∷ false ∷ true ∷ []

simplified : simplify_predicate predicate ≡ new_comparison age ComparisonOp.gt (number 30)
unfolding new_comparison simplify_predicate new_and ruzu.Optimizer.try_evaluate_constant
    ruzu.Optimizer.constant_comparison new_not new_literal ruzu.Optimizer.evaluate_comparison
    ruzu.Types.Value.compare ruzu.Optimizer.holds_at
simplified = refl

output_schema-optimize_example :
    (optimized : LogicalPlan) × (optimize never_same default_rules
        (project (filter scan predicate) (("a", age) ∷ []))
      ≡ ok optimized)
    × (output_schema optimized ≡ output_schema (project (filter scan predicate) (("a", age) ∷ [])))
output_schema-optimize_example =
    output_schema-optimize never_same default_rules
      (project (filter scan predicate) (("a", age) ∷ []))

rows-rewrite_example :
    (transformed : Transformed) × (rewrite never_same predicate_simplification
        (filter scan predicate)
      ≡ ok transformed)
    × (rows at_row base (into_inner transformed) ≡ rows at_row base (filter scan predicate))
unfolding moves_columns ruzu.Optimizer.Truth.comparable new_and new_comparison new_not new_literal
    ruzu.Types.Value.compare
rows-rewrite_example =
    rows-rewrite at_row base never_same predicate_simplification (filter scan predicate) refl refl
