-- ===== src/Optimizer/Truth.antt =====
-- The truth of a predicate at a row, as SQL has it where nothing is NULL, against what
-- src/planner/optimizer/mod.rs takes for it.
use ruzu.Prelude.{
  ◌≡◌, refl, sym, subst, ◌∙◌, ap, ap₂, Bool, true, false, not, ◌&&◌, ◌||◌, Option, none, some,
  arith, Option-cases, inl, inr,
}
pub mod Simplify
use Prim.Native.Nat.{Ordering}
use ruzu.Types.{DataType}
use ruzu.Types.Value.{Value, compare}
use ruzu.Expression.{
  BoundExpression, Operands, ComparisonOp, LogicalOp, literal, comparison, logical, end, more,
  new_literal, new_not,
}
use ruzu.Optimizer.{
  ConstantValue, always, never, unknown, holds_at, evaluate_comparison, constant_comparison,
  try_evaluate_constant, keep_and, keep_or, rebuild, rebuild_not, rebuild_comparison,
  simplify_predicate, simplify_and, simplify_or,
}
use ruzu.Optimizer.Meaning.{
  or_at_row, folds, all_fold, any_folds, Promises, try_evaluate_constant-Promises,
}
use ruzu.Optimizer.Simplify.{folds-simplify_predicate}

abbrev pub is_lt : Ordering → Bool
is_lt Ordering.lt = true
is_lt other = false

abbrev pub is_eq : Ordering → Bool
is_eq Ordering.eq = true
is_eq other = false

abbrev pub is_gt : Ordering → Bool
is_gt Ordering.gt = true
is_gt other = false

-- What an operator says of two values in that order.
abbrev pub says : ComparisonOp → Ordering → Bool
says ComparisonOp.eq o = is_eq o
says ComparisonOp.neq o = not (is_eq o)
says ComparisonOp.lt o = is_lt o
says ComparisonOp.lte o = not (is_gt o)
says ComparisonOp.gt o = is_gt o
says ComparisonOp.gte o = not (is_lt o)

abbrev pub said : ComparisonOp → Option Ordering → Option Bool
said op none = none
said op (some o) = some (says op o)

-- The truth of a comparison that does not refer to the row: of two values that can be compared.
abbrev pub literal_truth : BoundExpression → ComparisonOp → BoundExpression → Option Bool
literal_truth (literal l t) op (literal r u) = said op (compare l r)
literal_truth left op right = none

abbrev pub is_some : Option Ordering → Bool
is_some none = false
is_some (some o) = true

-- Two literals that are compared can be: they are of one type, and neither is NULL or a float that is
-- not a number.
abbrev pub comparable_sides : BoundExpression → BoundExpression → Bool
comparable_sides (literal l t) (literal r u) = is_some (compare l r)
comparable_sides left right = true

unfoldable mutual
  pub comparable : BoundExpression → Bool
  comparable (comparison left op right t) = comparable_sides left right
  comparable (logical op operands t) = all_comparable operands
  comparable expr = true

  pub all_comparable : Operands → Bool
  all_comparable end = true
  all_comparable (more operand operands) = comparable operand && all_comparable operands

-- The truth of a predicate at a row, given that of the expressions that refer to the row.
module _ (at_row : BoundExpression → Bool) where
  unfoldable mutual
    pub holds : BoundExpression → Bool
    holds (literal (Value.bool b) t) = b
    holds (comparison left op right t) =
        or_at_row at_row (literal_truth left op right) (comparison left op right t)
    holds (logical LogicalOp.and operands t) = all_hold operands
    holds (logical LogicalOp.or operands t) = any_holds operands
    holds (logical LogicalOp.not end t) = at_row (logical LogicalOp.not end t)
    holds (logical LogicalOp.not (more operand others) t) = not (holds operand)
    holds expr = at_row expr

    pub all_hold : Operands → Bool
    all_hold end = true
    all_hold (more operand operands) = holds operand && all_hold operands

    pub any_holds : Operands → Bool
    any_holds end = false
    any_holds (more operand operands) = holds operand || any_holds operands

holds_at-says : (op : ComparisonOp) (o : Ordering) → holds_at op o ≡ says op o
unfolding holds_at
holds_at-says ComparisonOp.eq Ordering.lt = refl
holds_at-says ComparisonOp.eq Ordering.eq = refl
holds_at-says ComparisonOp.eq Ordering.gt = refl
holds_at-says ComparisonOp.neq Ordering.lt = refl
holds_at-says ComparisonOp.neq Ordering.eq = refl
holds_at-says ComparisonOp.neq Ordering.gt = refl
holds_at-says ComparisonOp.lt Ordering.lt = refl
holds_at-says ComparisonOp.lt Ordering.eq = refl
holds_at-says ComparisonOp.lt Ordering.gt = refl
holds_at-says ComparisonOp.lte Ordering.lt = refl
holds_at-says ComparisonOp.lte Ordering.eq = refl
holds_at-says ComparisonOp.lte Ordering.gt = refl
holds_at-says ComparisonOp.gt Ordering.lt = refl
holds_at-says ComparisonOp.gt Ordering.eq = refl
holds_at-says ComparisonOp.gt Ordering.gt = refl
holds_at-says ComparisonOp.gte Ordering.lt = refl
holds_at-says ComparisonOp.gte Ordering.eq = refl
holds_at-says ComparisonOp.gte Ordering.gt = refl

-- What the optimizer takes for a comparison of two values that can be compared is its truth.
evaluate_comparison-said :
    (l r : Value) (op : ComparisonOp)
    → is_some (compare l r) ≡ true
    → some (evaluate_comparison l op r) ≡ said op (compare l r)
unfolding evaluate_comparison
evaluate_comparison-said l r op h = elim (Option-cases (compare l r)) [
  | inl nothing ↦ absurd (let e = ap is_some nothing in cc)
  | inr (o, e) ↦ rw (e, holds_at-says op o)
]

constant_comparison-literal_truth :
    (left : BoundExpression) (op : ComparisonOp) (right : BoundExpression)
    → comparable_sides left right ≡ true
    → constant_comparison left op right ≡ literal_truth left op right
unfolding constant_comparison
constant_comparison-literal_truth (literal l t) op (literal r u) h =
    evaluate_comparison-said l r op h
constant_comparison-literal_truth left op right h = refl

both : (a b : Bool) → (a && b) ≡ true → (a ≡ true) × (b ≡ true)
both true b h = (refl, h)
both false b h = absurd cc

pub first_comparable :
    (e : BoundExpression) (es : Operands) → all_comparable (more e es) ≡ true → comparable e ≡ true
unfolding comparable
first_comparable e es h = (both (comparable e) (all_comparable es) h).0

pub rest_comparable :
    (e : BoundExpression) (es : Operands)
    → all_comparable (more e es) ≡ true
    → all_comparable es ≡ true
unfolding comparable
rest_comparable e es h = (both (comparable e) (all_comparable es) h).1

module _ (at_row : BoundExpression → Bool) where
  mutual
    unfolding comparable holds folds

    pub folds_lem : (e : BoundExpression) → comparable e ≡ true → folds at_row e ≡ holds at_row e
    folds_lem (comparison left op right t) h =
        ap (λ m. or_at_row at_row m (comparison left op right t))
          (constant_comparison-literal_truth left op right h)
    folds_lem (logical LogicalOp.and operands t) h = all_fold_lem operands h
    folds_lem (logical LogicalOp.or operands t) h = any_folds_lem operands h
    folds_lem (logical LogicalOp.not end t) h = refl
    folds_lem (logical LogicalOp.not (more operand others) t) h =
        ap not (folds_lem operand (first_comparable operand others h))
    folds_lem (literal (Value.bool b) t) h = refl
    folds_lem e h = refl

    all_fold_lem :
        (es : Operands) → all_comparable es ≡ true → all_fold at_row es ≡ all_hold at_row es
    all_fold_lem end h = refl
    all_fold_lem (more e es) h =
        ap₂ (λ a b. a && b) (folds_lem e (first_comparable e es h))
          (all_fold_lem es (rest_comparable e es h))

    any_folds_lem :
        (es : Operands) → all_comparable es ≡ true → any_folds at_row es ≡ any_holds at_row es
    any_folds_lem end h = refl
    any_folds_lem (more e es) h =
        ap₂ (λ a b. a || b) (folds_lem e (first_comparable e es h))
          (any_folds_lem es (rest_comparable e es h))
