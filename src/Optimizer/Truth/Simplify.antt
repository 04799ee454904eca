-- ===== src/Optimizer/Truth/Simplify.antt =====
-- Constants and simplified predicates of src/planner/optimizer/mod.rs against the truth of a
-- predicate, where the literals that it compares can be compared.
use ruzu.Prelude.{◌≡◌, refl, sym, subst, ◌∙◌, Bool, true, false, Option, none, some}
use ruzu.Types.{DataType}
use ruzu.Expression.{
  BoundExpression, Operands, LogicalOp, comparison, logical, end, more, new_literal, new_not,
}
use ruzu.Optimizer.{
  ConstantValue, always, never, unknown, constant_comparison, try_evaluate_constant, keep_and,
  keep_or, rebuild, rebuild_not, rebuild_comparison, simplify_predicate, simplify_and, simplify_or,
}
use ruzu.Optimizer.Meaning.{Promises, try_evaluate_constant-Promises}
use ruzu.Optimizer.Simplify.{folds-simplify_predicate}
use ruzu.Optimizer.Truth.{
  comparable, all_comparable, holds, folds_lem, first_comparable, rest_comparable,
}

abbrev kept_comparable : Option Operands → Bool
kept_comparable none = true
kept_comparable (some operands) = all_comparable operands

comparable-rebuild :
    (op : LogicalOp) (t : DataType) (early empty : Bool) (kept : Option Operands)
    → kept_comparable kept ≡ true
    → comparable (rebuild op t early empty kept) ≡ true
unfolding comparable new_literal
comparable-rebuild op t early empty none h = refl
comparable-rebuild op t early empty (some end) h = refl
comparable-rebuild op t early empty (some (more only end)) h = first_comparable only end h
comparable-rebuild op t early empty (some (more first (more second rest))) h = h

kept_comparable-keep_and :
    (c : ConstantValue) (e : BoundExpression) (rest : Option Operands)
    → comparable e ≡ true
    → kept_comparable rest ≡ true
    → kept_comparable (keep_and c e rest) ≡ true
unfolding comparable
kept_comparable-keep_and never e rest h k = refl
kept_comparable-keep_and always e rest h k = k
kept_comparable-keep_and unknown e none h k = refl
kept_comparable-keep_and unknown e (some rest) h k = rw (h, k)

kept_comparable-keep_or :
    (c : ConstantValue) (e : BoundExpression) (rest : Option Operands)
    → comparable e ≡ true
    → kept_comparable rest ≡ true
    → kept_comparable (keep_or c e rest) ≡ true
unfolding comparable
kept_comparable-keep_or always e rest h k = refl
kept_comparable-keep_or never e rest h k = k
kept_comparable-keep_or unknown e none h k = refl
kept_comparable-keep_or unknown e (some rest) h k = rw (h, k)

comparable-rebuild_not :
    (c : ConstantValue) (e : BoundExpression)
    → comparable e ≡ true
    → comparable (rebuild_not c e) ≡ true
unfolding comparable new_literal new_not
comparable-rebuild_not always e h = refl
comparable-rebuild_not never e h = refl
comparable-rebuild_not unknown e h = rw h

comparable-rebuild_comparison :
    (e : BoundExpression) (result : Option Bool)
    → comparable e ≡ true
    → comparable (rebuild_comparison e result) ≡ true
unfolding comparable new_literal
comparable-rebuild_comparison e none h = h
comparable-rebuild_comparison e (some b) h = refl

mutual
  unfolding comparable simplify_predicate

  comparable-simplify_predicate :
      (e : BoundExpression) → comparable e ≡ true → comparable (simplify_predicate e) ≡ true
  comparable-simplify_predicate (logical LogicalOp.and operands t) h =
      comparable-rebuild LogicalOp.and t false true (simplify_and operands)
        (kept_comparable-simplify_and operands h)
  comparable-simplify_predicate (logical LogicalOp.or operands t) h =
      comparable-rebuild LogicalOp.or t true false (simplify_or operands)
        (kept_comparable-simplify_or operands h)
  comparable-simplify_predicate (logical LogicalOp.not end t) h = refl
  comparable-simplify_predicate (logical LogicalOp.not (more operand others) t) h =
      comparable-rebuild_not (try_evaluate_constant (simplify_predicate operand))
        (simplify_predicate operand)
        (comparable-simplify_predicate operand (first_comparable operand others h))
  comparable-simplify_predicate (comparison left op right t) h =
      comparable-rebuild_comparison (comparison left op right t) (constant_comparison left op right)
        h
  comparable-simplify_predicate e h = refl

  kept_comparable-simplify_and :
      (es : Operands) → all_comparable es ≡ true → kept_comparable (simplify_and es) ≡ true
  kept_comparable-simplify_and end h = refl
  kept_comparable-simplify_and (more e es) h =
      kept_comparable-keep_and (try_evaluate_constant (simplify_predicate e)) (simplify_predicate e)
        (simplify_and es) (comparable-simplify_predicate e (first_comparable e es h))
        (kept_comparable-simplify_and es (rest_comparable e es h))

  kept_comparable-simplify_or :
      (es : Operands) → all_comparable es ≡ true → kept_comparable (simplify_or es) ≡ true
  kept_comparable-simplify_or end h = refl
  kept_comparable-simplify_or (more e es) h =
      kept_comparable-keep_or (try_evaluate_constant (simplify_predicate e)) (simplify_predicate e)
        (simplify_or es) (comparable-simplify_predicate e (first_comparable e es h))
        (kept_comparable-simplify_or es (rest_comparable e es h))

module _ (at_row : BoundExpression → Bool) (e : BoundExpression) (h : comparable e ≡ true) where
  -- A constant is the truth of the predicate.
  pub constant-holds : Promises at_row (try_evaluate_constant e) (holds at_row e)
  constant-holds =
      subst (Promises at_row (try_evaluate_constant e)) (folds_lem at_row e h)
        (try_evaluate_constant-Promises at_row e)

  -- A simplified predicate has the truth of the predicate.
  pub holds-simplify_predicate : holds at_row (simplify_predicate e) ≡ holds at_row e
  holds-simplify_predicate =
      sym (folds_lem at_row (simplify_predicate e) (comparable-simplify_predicate e h))
      ∙ (folds-simplify_predicate at_row e ∙ folds_lem at_row e h)

  pub constant-simplified :
      Promises at_row
        (try_evaluate_constant (simplify_predicate e))
        (holds at_row (simplify_predicate e))
  constant-simplified =
      subst (Promises at_row (try_evaluate_constant (simplify_predicate e)))
        (folds_lem at_row (simplify_predicate e) (comparable-simplify_predicate e h))
        (try_evaluate_constant-Promises at_row (simplify_predicate e))
