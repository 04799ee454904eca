-- ===== src/Optimizer/Rules/Rows.antt =====
-- The rows of a rewritten plan, for the rules of src/planner/optimizer/ that stay above a
-- projection.
use ruzu.Prelude.{
  ◌≡◌, refl, sym, ◌∙◌, Bool, true, false, List, [], ◌∷◌, ◌++◌, arith, ok, if◌then◌else◌, Bool-cases,
  inl, inr,
}
use ruzu.Expression.{BoundExpression}
use ruzu.Plan.{LogicalPlan, filter, project, node_scan, empty}
use ruzu.Optimizer.{
  ConstantValue, always, never, unknown, try_evaluate_constant, simplify_predicate,
}
use ruzu.Optimizer.Meaning.{Promises}
use ruzu.Optimizer.Truth.{comparable, holds}
use ruzu.Optimizer.Truth.Simplify.{constant-holds, holds-simplify_predicate, constant-simplified}
use ruzu.Optimizer.Rules.{
  Transformed, into_inner, Rule, filter_pushdown, projection_pushdown, predicate_simplification,
  constant_folding, push_filter, simplify_filter, simplified_filter, fold_filter, folded_filter,
  push_filters, push_projections, rewrite,
}

abbrev pub is_project : LogicalPlan → Bool
is_project (project input expressions) = true
is_project other = false

-- The rewrites that move a column selection or move below one: those of a projection, and those of
-- a filter above a projection.
unfoldable pub moves_columns : Rule → LogicalPlan → Bool
moves_columns filter_pushdown (filter input predicate) = is_project input
moves_columns projection_pushdown plan = is_project plan
moves_columns rule plan = false

-- The literals that the predicate of a filter compares can be compared.
abbrev pub compares_known : LogicalPlan → Bool
compares_known (filter input predicate) = comparable predicate
compares_known other = true

module _ {Row : Type 0} (at_row : Row → BoundExpression → Bool)
    (base : LogicalPlan → List Row) where
  keep : BoundExpression → List Row → List Row
  keep predicate [] = []
  keep predicate (row ∷ rows) =
      let rest = keep predicate rows in if holds (at_row row) predicate then row ∷ rest else rest

  keep_all : List BoundExpression → List Row → List Row
  unfolding keep
  keep_all [] rows = rows
  keep_all (predicate ∷ predicates) rows = keep_all predicates (keep predicate rows)

  -- The rows of a plan: a scan gives those that its filters hold of, a filter those of its input
  -- that the predicate holds of; the other plans' are given.
  unfoldable pub rows : LogicalPlan → List Row
  unfolding keep_all keep
  rows (filter input predicate) = keep predicate (rows input)
  rows (node_scan table variable schema filters projection) =
      keep_all filters (base (node_scan table variable schema [] projection))
  rows (empty schema) = []
  rows plan = base plan

  keep_all-append :
      (predicates : List BoundExpression) (predicate : BoundExpression) (all : List Row)
      → keep_all (predicates ++ (predicate ∷ [])) all ≡ keep predicate (keep_all predicates all)
  unfolding keep_all
  keep_all-append [] predicate all = refl
  keep_all-append (p ∷ predicates) predicate all = keep_all-append predicates predicate (keep p all)

  keep_same :
      (p q : BoundExpression) (all : List Row)
      → ((row : Row) → holds (at_row row) p ≡ holds (at_row row) q)
      → keep p all ≡ keep q all
  unfolding keep
  keep_same p q [] same = refl
  keep_same p q (row ∷ all) same = rw (same row, keep_same p q all same)

  keep-true :
      (p : BoundExpression) (all : List Row)
      → ((row : Row) → holds (at_row row) p ≡ true)
      → keep p all ≡ all
  unfolding keep
  keep-true p [] h = refl
  keep-true p (row ∷ all) h = rw (h row, keep-true p all h)

  keep-false :
      (p : BoundExpression) (all : List Row)
      → ((row : Row) → holds (at_row row) p ≡ false)
      → keep p all ≡ []
  unfolding keep
  keep-false p [] h = refl
  keep-false p (row ∷ all) h = rw (h row, keep-false p all h)

  KeepsRows : LogicalPlan → Transformed → Type 0
  KeepsRows plan transformed = rows (into_inner transformed) ≡ rows plan

  folded_filter-KeepsRows :
      (c : ConstantValue) (input : LogicalPlan) (predicate : BoundExpression)
      → ((row : Row) → Promises (at_row row) c (holds (at_row row) predicate))
      → KeepsRows (filter input predicate) (folded_filter c input predicate)
  unfolding KeepsRows into_inner rows Promises
  folded_filter-KeepsRows always input predicate h = sym (keep-true predicate (rows input) h)
  folded_filter-KeepsRows never input predicate h = sym (keep-false predicate (rows input) h)
  folded_filter-KeepsRows unknown input predicate h = refl

  simplified_filter-KeepsRows :
      (same_debug : BoundExpression → BoundExpression → Bool) (c : ConstantValue)
      (input : LogicalPlan) (predicate simplified : BoundExpression)
      → ((row : Row) → Promises (at_row row) c (holds (at_row row) simplified))
      → ((row : Row) → holds (at_row row) simplified ≡ holds (at_row row) predicate)
      → KeepsRows
          (filter input predicate)
          (simplified_filter same_debug c input predicate simplified)
  unfolding KeepsRows into_inner rows Promises
  simplified_filter-KeepsRows same_debug always input predicate simplified h same =
      sym (keep-true predicate (rows input) (λ row. sym (same row) ∙ h row))
  simplified_filter-KeepsRows same_debug never input predicate simplified h same =
      sym (keep-false predicate (rows input) (λ row. sym (same row) ∙ h row))
  simplified_filter-KeepsRows same_debug unknown input predicate simplified h same =
      elim (Bool-cases (same_debug predicate simplified)) [
        | inl e ↦ rw e
        | inr e ↦ rw (e, keep_same simplified predicate (rows input) same)
      ]

  push_filter-KeepsRows :
      (predicate : BoundExpression) (input : LogicalPlan)
      → is_project input ≡ false
      → KeepsRows (filter input predicate) (push_filter predicate input)
  unfolding KeepsRows push_filter into_inner rows
  push_filter-KeepsRows predicate (node_scan table variable schema filters projection) h =
      keep_all-append filters predicate (base (node_scan table variable schema [] projection))
  push_filter-KeepsRows predicate (project input expressions) h = absurd (ground arith)
  push_filter-KeepsRows predicate other h = refl

  push_filters-KeepsRows :
      (plan : LogicalPlan)
      → moves_columns filter_pushdown plan ≡ false
      → KeepsRows plan (push_filters plan)
  unfolding KeepsRows push_filters into_inner moves_columns
  push_filters-KeepsRows (filter input predicate) h = push_filter-KeepsRows predicate input h
  push_filters-KeepsRows plan h = refl

  push_projections-KeepsRows :
      (plan : LogicalPlan)
      → moves_columns projection_pushdown plan ≡ false
      → KeepsRows plan (push_projections plan)
  unfolding KeepsRows push_projections into_inner moves_columns
  push_projections-KeepsRows (project input expressions) h = absurd (ground arith)
  push_projections-KeepsRows plan h = refl

  fold_filter-KeepsRows :
      (plan : LogicalPlan) → compares_known plan ≡ true → KeepsRows plan (fold_filter plan)
  unfolding KeepsRows fold_filter into_inner
  fold_filter-KeepsRows (filter input predicate) known =
      folded_filter-KeepsRows (try_evaluate_constant predicate) input predicate
        (λ row. constant-holds (at_row row) predicate known)
  fold_filter-KeepsRows plan known = refl

  simplify_filter-KeepsRows :
      (same_debug : BoundExpression → BoundExpression → Bool) (plan : LogicalPlan)
      → compares_known plan ≡ true
      → KeepsRows plan (simplify_filter same_debug plan)
  unfolding KeepsRows simplify_filter into_inner
  simplify_filter-KeepsRows same_debug (filter input predicate) known =
      simplified_filter-KeepsRows same_debug (try_evaluate_constant (simplify_predicate predicate))
        input predicate (simplify_predicate predicate)
        (λ row. constant-simplified (at_row row) predicate known)
        (λ row. holds-simplify_predicate (at_row row) predicate known)
  simplify_filter-KeepsRows same_debug plan known = refl

  -- Let no condition be NULL at a row: each that refers to the row, or that is no comparison of two
  -- literals, is true or false there, and let the literals that a filter's predicate compares be
  -- comparable by `compare`: of one type, and neither NULL nor a float that is not a number. A
  -- rewrite by a rule that neither moves a projection nor moves a filter below one then succeeds,
  -- and the new plan has the rows of the old one, whatever rows the other operators give: a
  -- comparison of literals is replaced by what its operator says of their order, predicates are
  -- simplified to ones that are true of the same rows, filters that are always or never true are
  -- dropped or emptied, and a filter pushed into a scan keeps what it kept above it.
  pub rows-rewrite :
      (same_debug : BoundExpression → BoundExpression → Bool) (rule : Rule) (plan : LogicalPlan)
      → moves_columns rule plan ≡ false
      → compares_known plan ≡ true
      → (transformed : Transformed) × (rewrite same_debug rule plan ≡ ok transformed)
        × (rows (into_inner transformed) ≡ rows plan)
  unfolding rewrite KeepsRows
  rows-rewrite same_debug filter_pushdown plan h known =
      (push_filters plan, refl, push_filters-KeepsRows plan h)
  rows-rewrite same_debug projection_pushdown plan h known =
      (push_projections plan, refl, push_projections-KeepsRows plan h)
  rows-rewrite same_debug predicate_simplification plan h known =
      (simplify_filter same_debug plan, refl, simplify_filter-KeepsRows same_debug plan known)
  rows-rewrite same_debug constant_folding plan h known =
      (fold_filter plan, refl, fold_filter-KeepsRows plan known)
