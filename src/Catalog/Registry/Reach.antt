-- ===== src/Catalog/Registry/Reach.antt =====
-- Every registry that the operations of src/catalog/schema.rs make from the empty one.
use ruzu.Prelude.{ℕ, ◌+◌, ◌<◌, ◌≤◌, ◌^◌, refl, List, [], ◌∷◌, length, arith, Result}
use ruzu.Prelude.Names.{lookup, contains_key}
use ruzu.Catalog.{
  NodeTableSchema, RelTableSchema, Catalog, create_table, create_rel_table, new_catalog, get_table,
  get_rel_table, table_exists, rel_table_exists, next_id,
}
use ruzu.Catalog.Registry.{id_of, IsNumbering, IsWellFormed, Keeps}
use ruzu.Catalog.Registry.Tables.{create_table-IsWellFormed}
use ruzu.Catalog.Registry.RelTables.{create_rel_table-IsWellFormed}

-- A request to the registry.
pub data Request : Type 0 where
  create_node : NodeTableSchema → Request
  create_rel : RelTableSchema → Request

abbrev pub serve : Request → Catalog → Result ℕ × Catalog
serve (create_node schema) self = create_table schema self
serve (create_rel schema) self = create_rel_table schema self

-- The registry after the requests, whatever came of each.
abbrev pub serve_all : List Request → Catalog → Catalog
serve_all [] self = self
serve_all (request ∷ requests) self = serve_all requests (serve request self).1

new_catalog-IsWellFormed : IsWellFormed new_catalog
unfolding new_catalog get_table get_rel_table table_exists rel_table_exists id_of lookup
    contains_key ruzu.Catalog.Registry.DistinctKeys
new_catalog-IsWellFormed = record {
  tables_distinct = tt;
  rel_tables_distinct = tt;
  one_kind = λ name e. refl;
  numbering = record { below = λ name i e. absurd cc; unique = λ m n i e f. absurd cc };
  table_named = λ name schema e. absurd cc;
  rel_table_named = λ name schema e. absurd cc;
  ends_exist = λ name schema e. absurd cc;
}

-- A request takes at most one identifier.
Counted : ℕ → Result ℕ × Catalog → Type 0
Counted next (outcome, self) = self.next_table_id ≤ next + 1

serve-Counted :
    (request : Request) (self : Catalog)
    → self.next_table_id + 1 < 2 ^ 32
    → Counted self.next_table_id (serve request self)
unfolding Counted create_table create_rel_table next_id
serve-Counted (create_node schema) self room = ground arith
serve-Counted (create_rel schema) self room = ground arith

serve-IsWellFormed :
    (request : Request) (self : Catalog)
    → IsWellFormed self
    → self.next_table_id + 1 < 2 ^ 32
    → Keeps (serve request self)
serve-IsWellFormed (create_node schema) self w room = create_table-IsWellFormed self w room schema
serve-IsWellFormed (create_rel schema) self w room =
    create_rel_table-IsWellFormed self w room schema

serve_all-IsWellFormed :
    (requests : List Request) (self : Catalog)
    → IsWellFormed self
    → self.next_table_id + length requests < 2 ^ 32
    → IsWellFormed (serve_all requests self)
unfolding Counted
serve_all-IsWellFormed [] self w room = w
serve_all-IsWellFormed (request ∷ requests) self w room =
    serve_all-IsWellFormed requests (serve request self).1
      (serve-IsWellFormed request self w (omega arith))
      (omega (arith, serve-Counted request self (omega arith)))

-- After fewer than `2 ^ 32` requests to create node tables and relationship tables, some of which
-- may fail, the registry that began empty is well-formed: each name stands for one table of one
-- kind and is that table's name, the identifiers are below the counter and no two tables have one,
-- and both ends of every relationship table are node tables.
pub reachable-IsWellFormed :
    (requests : List Request)
    → length requests < 2 ^ 32
    → IsWellFormed (serve_all requests new_catalog)
unfolding new_catalog
reachable-IsWellFormed requests room =
    serve_all-IsWellFormed requests new_catalog new_catalog-IsWellFormed (omega (arith, room))
