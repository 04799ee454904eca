-- ===== src/Optimizer/Rules.antt =====
-- The rules of src/planner/optimizer/ and `Planner::optimize` of src/planner/mod.rs, which applies
-- them in order. A rule that compares the debug output of two predicates does it by a parameter. The
-- set of required columns is a list, whose order stands for that in which the set iterates.
pub mod Schema
pub mod Rows
use Prim.Native.String.{String, ◌++◌ as ◌+text◌, len, slice}
use text.Mathlib.Text
use ruzu.Prelude.{
  ℕ, ◌≡◌, Bool, true, false, Option, none, some, List, [], ◌∷◌, ◌++◌, map, Result, ok, ◌>>=◌,
  if◌then◌else◌,
}
use ruzu.Expression.{BoundExpression, Operands, Input}
use ruzu.Expression
use ruzu.Catalog.{contains}
use ruzu.Plan.{LogicalPlan, filter, project, node_scan, empty, output_schema, qualified}
use ruzu.Optimizer.{
  ConstantValue, always, never, unknown, try_evaluate_constant, simplify_predicate,
}

pub data Transformed : Type 0 where
  yes_ no_ : LogicalPlan → Transformed

unfoldable pub into_inner : Transformed → LogicalPlan
into_inner (yes_ plan) = plan
into_inner (no_ plan) = plan

unfoldable pub was_transformed : Transformed → Bool
was_transformed (yes_ plan) = true
was_transformed (no_ plan) = false

pub data Rule : Type 0 where
  filter_pushdown projection_pushdown predicate_simplification constant_folding : Rule

-- `FilterPushdownRule`, below a filter.
unfoldable pub push_filter : BoundExpression → LogicalPlan → Transformed
push_filter predicate (node_scan table variable schema filters projection) =
    yes_ (node_scan table variable schema (filters ++ (predicate ∷ [])) projection)
push_filter predicate (project input expressions) =
    yes_ (project (filter input predicate) expressions)
push_filter predicate other = no_ (filter other predicate)

-- `HashSet::insert` of a column.
abbrev add_column : String → List String → List String
add_column column columns = if contains column columns then columns else column ∷ columns

unfoldable mutual
  pub collect_columns_from_expr : BoundExpression → List String → List String
  collect_columns_from_expr (Expression.property_access variable property t) columns =
      add_column (qualified variable property) columns
  collect_columns_from_expr (Expression.variable_ref variable t) columns =
      add_column variable columns
  collect_columns_from_expr (Expression.comparison left op right t) columns =
      collect_columns_from_expr right (collect_columns_from_expr left columns)
  collect_columns_from_expr (Expression.arithmetic left op right t) columns =
      collect_columns_from_expr right (collect_columns_from_expr left columns)
  collect_columns_from_expr (Expression.logical op operands t) columns =
      collect_all operands columns
  collect_columns_from_expr (Expression.aggregate function input distinct t) columns =
      collect_input input columns
  collect_columns_from_expr (Expression.is_null operand negated t) columns =
      collect_columns_from_expr operand columns
  collect_columns_from_expr (Expression.literal value t) columns = columns

  collect_all : Operands → List String → List String
  collect_all Expression.end columns = columns
  collect_all (Expression.more operand operands) columns =
      collect_all operands (collect_columns_from_expr operand columns)

  collect_input : Input → List String → List String
  collect_input Expression.absent columns = columns
  collect_input (Expression.present inner) columns = collect_columns_from_expr inner columns

unfoldable pub collect_required_columns :
    List (String × BoundExpression) → List String → List String
collect_required_columns [] columns = columns
collect_required_columns ((name, expr) ∷ expressions) columns =
    collect_required_columns expressions (collect_columns_from_expr expr columns)

-- The columns with the prefix, without it.
unfoldable pub strip_all : String → List String → List String
strip_all prefix [] = []
strip_all prefix (col ∷ columns) =
    let rest = strip_all prefix columns in
    if Text.starts_with col prefix then slice col (len prefix) (len col) ∷ rest else rest

abbrev projected :
    List String
    → List (String × BoundExpression)
    → (Option (List String) → LogicalPlan)
    → Transformed
projected [] expressions scan = no_ (project (scan none) expressions)
projected (name ∷ names) expressions scan = yes_ (project (scan (some (name ∷ names))) expressions)

-- `ProjectionPushdownRule`, below a projection.
unfoldable pub push_projection : List (String × BoundExpression) → LogicalPlan → Transformed
push_projection expressions (node_scan table variable schema filters projection) =
    projected (strip_all (variable +text ".") (collect_required_columns expressions [])) expressions
      (λ kept. node_scan table variable schema filters kept)
push_projection expressions other = no_ (project other expressions)

module _ (same_debug : BoundExpression → BoundExpression → Bool) where
  abbrev pub simplified_filter :
      ConstantValue → LogicalPlan → BoundExpression → BoundExpression → Transformed
  simplified_filter never input predicate simplified = yes_ (empty (output_schema input))
  simplified_filter always input predicate simplified = yes_ input
  simplified_filter unknown input predicate simplified =
      if same_debug predicate simplified
      then no_ (filter input predicate)
      else yes_ (filter input simplified)

  -- `PredicateSimplificationRule`
  unfoldable pub simplify_filter : LogicalPlan → Transformed
  simplify_filter (filter input predicate) =
      let simplified = simplify_predicate predicate in
      simplified_filter (try_evaluate_constant simplified) input predicate simplified
  simplify_filter plan = no_ plan

abbrev pub folded_filter : ConstantValue → LogicalPlan → BoundExpression → Transformed
folded_filter never input predicate = yes_ (empty (output_schema input))
folded_filter always input predicate = yes_ input
folded_filter unknown input predicate = no_ (filter input predicate)

-- `ConstantFoldingRule`
unfoldable pub fold_filter : LogicalPlan → Transformed
fold_filter (filter input predicate) =
    folded_filter (try_evaluate_constant predicate) input predicate
fold_filter plan = no_ plan

unfoldable pub push_filters : LogicalPlan → Transformed
push_filters (filter input predicate) = push_filter predicate input
push_filters plan = no_ plan

unfoldable pub push_projections : LogicalPlan → Transformed
push_projections (project input expressions) = push_projection expressions input
push_projections plan = no_ plan

module _ (same_debug : BoundExpression → BoundExpression → Bool) where
  unfoldable pub rewrite : Rule → LogicalPlan → Result Transformed
  rewrite filter_pushdown plan = ok (push_filters plan)
  rewrite projection_pushdown plan = ok (push_projections plan)
  rewrite predicate_simplification plan = ok (simplify_filter same_debug plan)
  rewrite constant_folding plan = ok (fold_filter plan)

  unfoldable pub optimize : List Rule → LogicalPlan → Result LogicalPlan
  optimize [] plan = ok plan
  optimize (rule ∷ rules) plan =
      rewrite rule plan >>= λ transformed. optimize rules (into_inner transformed)

-- `Planner::new`
abbrev pub default_rules : List Rule
default_rules =
    filter_pushdown ∷ projection_pushdown ∷ predicate_simplification ∷ constant_folding ∷ []
