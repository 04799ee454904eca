-- ===== src/Optimizer/Meaning.antt =====
-- What the constants of src/planner/optimizer/mod.rs promise of a predicate in which the comparisons
-- of literals are taken as the optimizer folds them; `Optimizer.Truth` has the truth of a predicate.
use ruzu.Prelude.{◌≡◌, refl, ap, Bool, true, false, not, ◌&&◌, ◌||◌, Option, none, some}
use ruzu.Types.Value.{Value}
use ruzu.Expression.{
  BoundExpression, Operands, LogicalOp, literal, comparison, logical, end, more, property_access,
  variable_ref, arithmetic, aggregate, is_null,
}
use ruzu.Optimizer.{
  ConstantValue, always, never, unknown, constant_comparison, constant_or_unknown, negated,
  and_then, or_then, try_evaluate_constant, all_constant, any_constant,
}

-- What a predicate folds to at a row, given the truth of the expressions that refer to the row.
module _ (at_row : BoundExpression → Bool) where
  abbrev pub or_at_row : Option Bool → BoundExpression → Bool
  or_at_row (some result) expr = result
  or_at_row none expr = at_row expr

  unfoldable mutual
    pub folds : BoundExpression → Bool
    folds (literal (Value.bool b) t) = b
    folds (comparison left op right t) =
        or_at_row (constant_comparison left op right) (comparison left op right t)
    folds (logical LogicalOp.and operands t) = all_fold operands
    folds (logical LogicalOp.or operands t) = any_folds operands
    folds (logical LogicalOp.not end t) = at_row (logical LogicalOp.not end t)
    folds (logical LogicalOp.not (more operand others) t) = not (folds operand)
    folds expr = at_row expr

    pub all_fold : Operands → Bool
    all_fold end = true
    all_fold (more operand operands) = folds operand && all_fold operands

    pub any_folds : Operands → Bool
    any_folds end = false
    any_folds (more operand operands) = folds operand || any_folds operands

  -- What a constant value promises of a truth value.
  unfoldable pub Promises : ConstantValue → Bool → Type 0
  Promises always b = b ≡ true
  Promises never b = b ≡ false
  Promises unknown b = Unit {0}

  comparison-Promises :
      (result : Option Bool) (expr : BoundExpression)
      → Promises (constant_or_unknown result) (or_at_row result expr)
  unfolding Promises
  comparison-Promises none expr = tt
  comparison-Promises (some true) expr = refl
  comparison-Promises (some false) expr = refl

  negated-Promises : (c : ConstantValue) (b : Bool) → Promises c b → Promises (negated c) (not b)
  unfolding Promises
  negated-Promises always b e = ap not e
  negated-Promises never b e = ap not e
  negated-Promises unknown b e = tt

  and_then-Promises :
      (c d : ConstantValue) (a b : Bool)
      → Promises c a
      → Promises d b
      → Promises (and_then c d) (a && b)
  unfolding Promises
  and_then-Promises never d a b p q = rw p
  and_then-Promises always always a b p q = rw (p, q)
  and_then-Promises always never a b p q = rw (p, q)
  and_then-Promises always unknown a b p q = tt
  and_then-Promises unknown always a b p q = tt
  and_then-Promises unknown never true b p q = q
  and_then-Promises unknown never false b p q = refl
  and_then-Promises unknown unknown a b p q = tt

  or_then-Promises :
      (c d : ConstantValue) (a b : Bool)
      → Promises c a
      → Promises d b
      → Promises (or_then c d) (a || b)
  unfolding Promises
  or_then-Promises always d a b p q = rw p
  or_then-Promises never always a b p q = rw (p, q)
  or_then-Promises never never a b p q = rw (p, q)
  or_then-Promises never unknown a b p q = tt
  or_then-Promises unknown never a b p q = tt
  or_then-Promises unknown always true b p q = refl
  or_then-Promises unknown always false b p q = q
  or_then-Promises unknown unknown a b p q = tt

  mutual
    unfolding folds try_evaluate_constant Promises

    pub try_evaluate_constant-Promises :
        (expr : BoundExpression) → Promises (try_evaluate_constant expr) (folds expr)
    try_evaluate_constant-Promises (literal (Value.bool true) t) = refl
    try_evaluate_constant-Promises (literal (Value.bool false) t) = refl
    try_evaluate_constant-Promises (literal (Value.int64 i) t) = tt
    try_evaluate_constant-Promises (literal (Value.float32 i) t) = tt
    try_evaluate_constant-Promises (literal (Value.float64 i) t) = tt
    try_evaluate_constant-Promises (literal (Value.string i) t) = tt
    try_evaluate_constant-Promises (literal (Value.date i) t) = tt
    try_evaluate_constant-Promises (literal (Value.timestamp i) t) = tt
    try_evaluate_constant-Promises (literal Value.null t) = tt
    try_evaluate_constant-Promises (property_access variable property t) = tt
    try_evaluate_constant-Promises (variable_ref variable t) = tt
    try_evaluate_constant-Promises (comparison left op right t) =
        comparison-Promises (constant_comparison left op right) (comparison left op right t)
    try_evaluate_constant-Promises (logical LogicalOp.and operands t) =
        all_constant-Promises operands
    try_evaluate_constant-Promises (logical LogicalOp.or operands t) =
        any_constant-Promises operands
    try_evaluate_constant-Promises (logical LogicalOp.not end t) = tt
    try_evaluate_constant-Promises (logical LogicalOp.not (more operand others) t) =
        negated-Promises (try_evaluate_constant operand) (folds operand)
          (try_evaluate_constant-Promises operand)
    try_evaluate_constant-Promises (arithmetic left op right t) = tt
    try_evaluate_constant-Promises (aggregate function input distinct t) = tt
    try_evaluate_constant-Promises (is_null operand negation t) = tt

    all_constant-Promises :
        (operands : Operands) → Promises (all_constant operands) (all_fold operands)
    all_constant-Promises end = refl
    all_constant-Promises (more operand operands) =
        and_then-Promises (try_evaluate_constant operand) (all_constant operands) (folds operand)
          (all_fold operands) (try_evaluate_constant-Promises operand)
          (all_constant-Promises operands)

    any_constant-Promises :
        (operands : Operands) → Promises (any_constant operands) (any_folds operands)
    any_constant-Promises end = refl
    any_constant-Promises (more operand operands) =
        or_then-Promises (try_evaluate_constant operand) (any_constant operands) (folds operand)
          (any_folds operands) (try_evaluate_constant-Promises operand)
          (any_constant-Promises operands)
