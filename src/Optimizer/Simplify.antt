-- ===== src/Optimizer/Simplify.antt =====
-- `simplify_predicate` of src/planner/optimizer/mod.rs keeps what a predicate folds to.
use ruzu.Prelude.{
  ◌≡◌, refl, ◌∙◌, ap, ap₂, Bool, true, false, not, ◌&&◌, ◌||◌, Option, none, some, arith,
}
use ruzu.Types.{DataType}
use ruzu.Expression.{
  BoundExpression, Operands, ComparisonOp, LogicalOp, literal, comparison, logical, end, more,
  property_access, variable_ref, arithmetic, aggregate, is_null, new_literal, new_not,
}
use ruzu.Optimizer.{
  ConstantValue, always, never, unknown, constant_comparison, try_evaluate_constant, keep_and,
  keep_or, rebuild, rebuild_not, rebuild_comparison, simplify_predicate, simplify_and, simplify_or,
}
use ruzu.Optimizer.Meaning.{
  folds, all_fold, any_folds, or_at_row, Promises, try_evaluate_constant-Promises,
}

module _ (at_row : BoundExpression → Bool) where
  -- The truth of what a loop keeps.
  kept_and : Option Operands → Bool
  kept_and none = false
  kept_and (some operands) = all_fold at_row operands

  kept_or : Option Operands → Bool
  kept_or none = true
  kept_or (some operands) = any_folds at_row operands

  folds-rebuild_and :
      (t : DataType) (kept : Option Operands)
      → folds at_row (rebuild LogicalOp.and t false true kept) ≡ kept_and kept
  unfolding folds kept_and new_literal
  folds-rebuild_and t none = refl
  folds-rebuild_and t (some end) = refl
  folds-rebuild_and t (some (more only end)) = ground arith
  folds-rebuild_and t (some (more first (more second rest))) = refl

  folds-rebuild_or :
      (t : DataType) (kept : Option Operands)
      → folds at_row (rebuild LogicalOp.or t true false kept) ≡ kept_or kept
  unfolding folds kept_or new_literal
  folds-rebuild_or t none = refl
  folds-rebuild_or t (some end) = refl
  folds-rebuild_or t (some (more only end)) = ground arith
  folds-rebuild_or t (some (more first (more second rest))) = refl

  kept_and-keep_and :
      (c : ConstantValue) (simplified : BoundExpression) (rest : Option Operands)
      → Promises at_row c (folds at_row simplified)
      → kept_and (keep_and c simplified rest) ≡ (folds at_row simplified && kept_and rest)
  unfolding folds kept_and Promises
  kept_and-keep_and never simplified rest p = rw p
  kept_and-keep_and always simplified rest p = rw p
  kept_and-keep_and unknown simplified none p = ground arith
  kept_and-keep_and unknown simplified (some rest) p = refl

  kept_or-keep_or :
      (c : ConstantValue) (simplified : BoundExpression) (rest : Option Operands)
      → Promises at_row c (folds at_row simplified)
      → kept_or (keep_or c simplified rest) ≡ (folds at_row simplified || kept_or rest)
  unfolding folds kept_or Promises
  kept_or-keep_or never simplified rest p = rw p
  kept_or-keep_or always simplified rest p = rw p
  kept_or-keep_or unknown simplified none p = ground arith
  kept_or-keep_or unknown simplified (some rest) p = refl

  folds-rebuild_not :
      (c : ConstantValue) (simplified : BoundExpression)
      → Promises at_row c (folds at_row simplified)
      → folds at_row (rebuild_not c simplified) ≡ not (folds at_row simplified)
  unfolding folds Promises new_literal new_not
  folds-rebuild_not always simplified p = rw p
  folds-rebuild_not never simplified p = rw p
  folds-rebuild_not unknown simplified p = refl

  folds-rebuild_comparison :
      (left : BoundExpression) (op : ComparisonOp) (right : BoundExpression) (t : DataType)
      (result : Option Bool)
      → constant_comparison left op right ≡ result
      → folds at_row (rebuild_comparison (comparison left op right t) result)
        ≡ or_at_row at_row result (comparison left op right t)
  unfolding folds new_literal
  folds-rebuild_comparison left op right t (some result) e = refl
  folds-rebuild_comparison left op right t none e = rw e

  mutual
    unfolding folds simplify_predicate kept_and kept_or

    pub folds-simplify_predicate :
        (expr : BoundExpression) → folds at_row (simplify_predicate expr) ≡ folds at_row expr
    folds-simplify_predicate (logical LogicalOp.and operands t) =
        folds-rebuild_and t (simplify_and operands) ∙ kept_and-simplify_and operands
    folds-simplify_predicate (logical LogicalOp.or operands t) =
        folds-rebuild_or t (simplify_or operands) ∙ kept_or-simplify_or operands
    folds-simplify_predicate (logical LogicalOp.not end t) = refl
    folds-simplify_predicate (logical LogicalOp.not (more operand others) t) =
        folds-rebuild_not (try_evaluate_constant (simplify_predicate operand))
          (simplify_predicate operand)
          (try_evaluate_constant-Promises at_row (simplify_predicate operand))
        ∙ ap not (folds-simplify_predicate operand)
    folds-simplify_predicate (comparison left op right t) =
        folds-rebuild_comparison left op right t (constant_comparison left op right) refl
    folds-simplify_predicate (literal value t) = refl
    folds-simplify_predicate (property_access variable property t) = refl
    folds-simplify_predicate (variable_ref variable t) = refl
    folds-simplify_predicate (arithmetic left op right t) = refl
    folds-simplify_predicate (aggregate function input distinct t) = refl
    folds-simplify_predicate (is_null operand negation t) = refl

    kept_and-simplify_and :
        (operands : Operands) → kept_and (simplify_and operands) ≡ all_fold at_row operands
    kept_and-simplify_and end = refl
    kept_and-simplify_and (more operand operands) =
        kept_and-keep_and (try_evaluate_constant (simplify_predicate operand))
          (simplify_predicate operand) (simplify_and operands)
          (try_evaluate_constant-Promises at_row (simplify_predicate operand))
        ∙ ap₂ (λ a b. a && b) (folds-simplify_predicate operand) (kept_and-simplify_and operands)

    kept_or-simplify_or :
        (operands : Operands) → kept_or (simplify_or operands) ≡ any_folds at_row operands
    kept_or-simplify_or end = refl
    kept_or-simplify_or (more operand operands) =
        kept_or-keep_or (try_evaluate_constant (simplify_predicate operand))
          (simplify_predicate operand) (simplify_or operands)
          (try_evaluate_constant-Promises at_row (simplify_predicate operand))
        ∙ ap₂ (λ a b. a || b) (folds-simplify_predicate operand) (kept_or-simplify_or operands)
