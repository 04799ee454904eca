-- ===== src/Plan.antt =====
-- src/planner/logical_plan.rs: logical plans and the schema of what they give. A list of plans is a
-- data type of its own. The binder's `Direction` has the values of the catalog's, which stands for it.
use Prim.Native.String.{String, ◌++◌ as ◌+text◌}
use ruzu.Prelude.{
  ℕ, zero, suc, ◌+◌, ◌/◌, ◌%◌, Bool, true, false, Option, none, some, List, [], ◌∷◌, ◌++◌, map, ltb,
  if◌then◌else◌, get_elem?,
}
use ruzu.Types.{DataType}
use ruzu.Catalog.{ColumnDef, NodeTableSchema, RelTableSchema, Direction, contains}
use ruzu.Expression.{BoundExpression, data_type}

pub data JoinType : Type 0 where
  inner left_outer right_outer full_outer : JoinType

pub record SortExpr : Type 0 where
  pub expr : BoundExpression
  pub ascending : Bool
  pub nulls_first : Bool

unfoldable pub asc : BoundExpression → SortExpr
asc expr = record { expr = expr; ascending = true; nulls_first = false }

unfoldable pub desc : BoundExpression → SortExpr
desc expr = record { expr = expr; ascending = false; nulls_first = false }

abbrev pub Schema : Type 0
Schema = List (String × DataType)

mutual
  pub data LogicalPlan : Type 0 where
    -- table, variable, schema, pushed filters, projection
    node_scan :
        String
        → String
        → NodeTableSchema
        → List BoundExpression
        → Option (List String)
        → LogicalPlan
    rel_scan :
        String
        → Option String
        → RelTableSchema
        → List BoundExpression
        → Option (List String)
        → LogicalPlan
    -- input, type, schema, source, destination and relationship variable, direction
    extend :
        LogicalPlan
        → String
        → RelTableSchema
        → String
        → String
        → Option String
        → Direction
        → LogicalPlan
    -- input, type, schema, source, destination and path variable, least and most hops, direction
    path_expand :
        LogicalPlan
        → String
        → RelTableSchema
        → String
        → String
        → Option String
        → ℕ
        → ℕ
        → Direction
        → LogicalPlan
    filter : LogicalPlan → BoundExpression → LogicalPlan
    project : LogicalPlan → List (String × BoundExpression) → LogicalPlan
    hash_join : LogicalPlan → LogicalPlan → List String → List String → JoinType → LogicalPlan
    -- input, grouping, aggregates
    aggregate : LogicalPlan → List BoundExpression → List (String × BoundExpression) → LogicalPlan
    sort : LogicalPlan → List SortExpr → LogicalPlan
    limit : LogicalPlan → Option ℕ → Option ℕ → LogicalPlan
    union : Plans → Bool → LogicalPlan
    empty : Schema → LogicalPlan

  pub data Plans : Type 0 where
    end : Plans
    more : LogicalPlan → Plans → Plans

-- `format!("{variable}.{name}")`
abbrev pub qualified : String → String → String
qualified variable name = variable +text ("." +text name)

-- The columns that a projection keeps, in the table's order.
unfoldable pub kept_columns : Option (List String) → List ColumnDef → List ColumnDef
kept_columns none columns = columns
kept_columns (some names) [] = []
kept_columns (some names) (c ∷ columns) =
    let rest = kept_columns (some names) columns in if contains c.name names then c ∷ rest else rest

unfoldable pub scan_schema : String → Option (List String) → List ColumnDef → Schema
scan_schema variable projection columns =
    map (λ c. (qualified variable (ColumnDef.name c), ColumnDef.data_type c))
      (kept_columns projection columns)

abbrev var_or : Option String → String
var_or none = "_rel"
var_or (some variable) = variable

abbrev push_path : Option String → Schema → Schema
push_path none schema = schema
push_path (some path_var) schema = schema ++ ((qualified path_var "path", DataType.string) ∷ [])

abbrev digits : List String
digits = "0" ∷ "1" ∷ "2" ∷ "3" ∷ "4" ∷ "5" ∷ "6" ∷ "7" ∷ "8" ∷ "9" ∷ []

abbrev text_or : Option String → String
text_or none = ""
text_or (some text) = text

-- A number in decimal, of at most as many digits as the first argument says.
decimal : ℕ → ℕ → String
decimal zero n = ""
decimal (suc fuel) n =
    let rest = decimal fuel (n / 10) in
    let digit = text_or (get_elem? digits (n % 10)) in if ltb n 10 then digit else rest +text digit

-- The columns of a grouping, numbered from `i`.
group_schema : ℕ → List BoundExpression → Schema
unfolding decimal
group_schema i [] = []
group_schema i (expr ∷ group_by) =
    ("group_" +text decimal (suc i) i, data_type expr) ∷ group_schema (i + 1) group_by

unfoldable pub named_schema : List (String × BoundExpression) → Schema
named_schema expressions = map (λ e. (e.0, data_type e.1)) expressions

unfoldable mutual
  unfolding group_schema

  pub output_schema : LogicalPlan → Schema
  output_schema (node_scan table variable schema filters projection) =
      scan_schema variable projection schema.columns
  output_schema (rel_scan table variable schema filters projection) =
      scan_schema (var_or variable) projection schema.columns
  output_schema (extend input rel_type schema src dst variable direction) =
      output_schema input ++ ((qualified dst "id", DataType.int64) ∷ [])
  output_schema (path_expand input rel_type schema src dst path_variable least most direction) =
      push_path path_variable (output_schema input)
  output_schema (filter input predicate) = output_schema input
  output_schema (sort input order_by) = output_schema input
  output_schema (limit input skip most) = output_schema input
  output_schema (project input expressions) = named_schema expressions
  output_schema (hash_join left right left_keys right_keys join_type) =
      output_schema left ++ output_schema right
  output_schema (aggregate input group_by aggregates) =
      group_schema 0 group_by ++ named_schema aggregates
  output_schema (union inputs all) = first_schema inputs
  output_schema (empty schema) = schema

  first_schema : Plans → Schema
  first_schema end = []
  first_schema (more plan plans) = output_schema plan

abbrev listed : Plans → List LogicalPlan
listed end = []
listed (more plan plans) = plan ∷ listed plans

unfoldable pub children : LogicalPlan → List LogicalPlan
children (node_scan table variable schema filters projection) = []
children (rel_scan table variable schema filters projection) = []
children (empty schema) = []
children (extend input rel_type schema src dst variable direction) = input ∷ []
children (path_expand input rel_type schema src dst variable least most direction) = input ∷ []
children (filter input predicate) = input ∷ []
children (project input expressions) = input ∷ []
children (aggregate input group_by aggregates) = input ∷ []
children (sort input order_by) = input ∷ []
children (limit input skip most) = input ∷ []
children (hash_join left right left_keys right_keys join_type) = left ∷ right ∷ []
children (union inputs all) = listed inputs
