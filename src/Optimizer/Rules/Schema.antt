-- ===== src/Optimizer/Rules/Schema.antt =====
-- The rules of src/planner/optimizer/ keep the schema of a plan.
use Prim.Native.String.{String}
use ruzu.Prelude.{◌≡◌, refl, ◌∙◌, ap, Bool, List, [], ◌∷◌, arith, Result, ok, ◌>>=◌}
use ruzu.Expression.{BoundExpression}
use ruzu.Plan.{LogicalPlan, filter, project, output_schema}
use ruzu.Optimizer.{
  ConstantValue, always, never, unknown, try_evaluate_constant, simplify_predicate,
}
use ruzu.Optimizer.Rules.{
  Transformed, into_inner, Rule, filter_pushdown, projection_pushdown, predicate_simplification,
  constant_folding, push_filter, push_projection, simplify_filter, simplified_filter, fold_filter,
  folded_filter, push_filters, push_projections, rewrite, optimize,
}

-- The rewritten plan has the schema of the plan.
KeepsSchema : LogicalPlan → Transformed → Type 0
KeepsSchema plan transformed = output_schema (into_inner transformed) ≡ output_schema plan

push_filter-KeepsSchema :
    (predicate : BoundExpression) (input : LogicalPlan)
    → KeepsSchema (filter input predicate) (push_filter predicate input)
unfolding KeepsSchema push_filter into_inner output_schema
push_filter-KeepsSchema predicate input = ground arith

push_filters-KeepsSchema : (plan : LogicalPlan) → KeepsSchema plan (push_filters plan)
unfolding KeepsSchema push_filters into_inner
push_filters-KeepsSchema (filter input predicate) = push_filter-KeepsSchema predicate input
push_filters-KeepsSchema plan = refl

push_projection-KeepsSchema :
    (expressions : List (String × BoundExpression)) (input : LogicalPlan)
    → KeepsSchema (project input expressions) (push_projection expressions input)
unfolding KeepsSchema push_projection into_inner output_schema
push_projection-KeepsSchema expressions input = ground arith

push_projections-KeepsSchema : (plan : LogicalPlan) → KeepsSchema plan (push_projections plan)
unfolding KeepsSchema push_projections into_inner
push_projections-KeepsSchema (project input expressions) =
    push_projection-KeepsSchema expressions input
push_projections-KeepsSchema plan = refl

folded_filter-KeepsSchema :
    (c : ConstantValue) (input : LogicalPlan) (predicate : BoundExpression)
    → KeepsSchema (filter input predicate) (folded_filter c input predicate)
unfolding KeepsSchema into_inner output_schema
folded_filter-KeepsSchema always input predicate = refl
folded_filter-KeepsSchema never input predicate = refl
folded_filter-KeepsSchema unknown input predicate = refl

fold_filter-KeepsSchema : (plan : LogicalPlan) → KeepsSchema plan (fold_filter plan)
unfolding KeepsSchema fold_filter into_inner
fold_filter-KeepsSchema (filter input predicate) =
    folded_filter-KeepsSchema (try_evaluate_constant predicate) input predicate
fold_filter-KeepsSchema plan = refl

module _ (same_debug : BoundExpression → BoundExpression → Bool) where
  simplified_filter-KeepsSchema :
      (c : ConstantValue) (input : LogicalPlan) (predicate simplified : BoundExpression)
      → KeepsSchema
          (filter input predicate)
          (simplified_filter same_debug c input predicate simplified)
  unfolding KeepsSchema into_inner output_schema
  simplified_filter-KeepsSchema always input predicate simplified = refl
  simplified_filter-KeepsSchema never input predicate simplified = refl
  simplified_filter-KeepsSchema unknown input predicate simplified = ground arith

  simplify_filter-KeepsSchema :
      (plan : LogicalPlan) → KeepsSchema plan (simplify_filter same_debug plan)
  unfolding KeepsSchema simplify_filter into_inner
  simplify_filter-KeepsSchema (filter input predicate) =
      simplified_filter-KeepsSchema (try_evaluate_constant (simplify_predicate predicate)) input
        predicate (simplify_predicate predicate)
  simplify_filter-KeepsSchema plan = refl

  -- A rewrite that succeeds, into a plan of the same schema.
  rewrite-KeepsSchema :
      (rule : Rule) (plan : LogicalPlan)
      → (transformed : Transformed) × (rewrite same_debug rule plan ≡ ok transformed)
        × KeepsSchema plan transformed
  unfolding rewrite
  rewrite-KeepsSchema filter_pushdown plan =
      (push_filters plan, refl, push_filters-KeepsSchema plan)
  rewrite-KeepsSchema projection_pushdown plan =
      (push_projections plan, refl, push_projections-KeepsSchema plan)
  rewrite-KeepsSchema predicate_simplification plan =
      (simplify_filter same_debug plan, refl, simplify_filter-KeepsSchema plan)
  rewrite-KeepsSchema constant_folding plan = (fold_filter plan, refl, fold_filter-KeepsSchema plan)

  optimize-step :
      (rewritten : Result Transformed) (rules : List Rule) {transformed : Transformed}
      {optimized : LogicalPlan}
      → rewritten ≡ ok transformed
      → optimize same_debug rules (into_inner transformed) ≡ ok optimized
      → (rewritten >>= λ transformed. optimize same_debug rules (into_inner transformed))
        ≡ ok optimized
  optimize-step rewritten rules e done =
      ap (λ r. r >>= λ t. optimize same_debug rules (into_inner t)) e ∙ done

  -- Optimizing a plan by any list of the rules succeeds, and the optimized plan has the names and
  -- types of columns of the plan.
  pub output_schema-optimize :
      (rules : List Rule) (plan : LogicalPlan)
      → (optimized : LogicalPlan) × (optimize same_debug rules plan ≡ ok optimized)
        × (output_schema optimized ≡ output_schema plan)
  unfolding optimize KeepsSchema
  output_schema-optimize [] plan = (plan, refl, refl)
  output_schema-optimize (rule ∷ rules) plan =
      let (transformed, rewritten, same) = rewrite-KeepsSchema rule plan in
      let (optimized, done, kept) = output_schema-optimize rules (into_inner transformed) in
      (optimized, optimize-step (rewrite same_debug rule plan) rules rewritten done, kept ∙ same)
