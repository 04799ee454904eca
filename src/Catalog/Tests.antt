-- ===== src/Catalog/Tests.antt =====
-- The theorems at a registry of two node tables and a relationship table.
use ruzu.Prelude.{ℕ, ◌≡◌, ◌↔◌, refl, some, List, [], ◌∷◌, arith, schema_error, Decides}
use ruzu.Types.{int64, string}
use ruzu.Catalog.{
  ColumnDef, NodeTableSchema, RelTableSchema, Catalog, both, new_catalog, validate_node_table,
  table_name_by_id,
}
use ruzu.Catalog.Schema.{IsNodeTable, validate_node_table-Decides}
use ruzu.Catalog.Registry.{IsWellFormed, id_of}
use ruzu.Catalog.Registry.Reach.{
  Request, create_node, create_rel, serve_all, reachable-IsWellFormed,
}
use ruzu.Catalog.Lookup.{table_name_by_id_iff}

abbrev person : NodeTableSchema
person = record {
  table_id = 0;
  name = "Person";
  columns =
      record { name = "name"; data_type = string }
      ∷ record { name = "age"; data_type = int64 }
      ∷ [];
  primary_key = "name" ∷ [];
}

abbrev city : NodeTableSchema
city = record person { name = "City" }

abbrev lives_in : RelTableSchema
lives_in = record {
  table_id = 0;
  name = "LIVES_IN";
  src_table = "Person";
  dst_table = "City";
  columns = [];
  direction = both;
}

-- The second `Person` and the `LIVES_IN` that comes too early are refused.
abbrev requests : List Request
requests =
    create_node person
    ∷ create_rel lives_in
    ∷ create_node person
    ∷ create_node city
    ∷ create_rel lives_in
    ∷ []

validate_node_table-Decides_example :
    Decides schema_error (validate_node_table person) (IsNodeTable person)
validate_node_table-Decides_example = validate_node_table-Decides person

reachable-IsWellFormed_example : IsWellFormed (serve_all requests new_catalog)
reachable-IsWellFormed_example = reachable-IsWellFormed requests (omega arith)

table_name_by_id_iff_example :
    (table_name_by_id (serve_all requests new_catalog) 2 ≡ some "LIVES_IN")
    ↔ (id_of (serve_all requests new_catalog) "LIVES_IN" ≡ some 2)
table_name_by_id_iff_example =
    table_name_by_id_iff (serve_all requests new_catalog)
      (reachable-IsWellFormed requests (omega arith)) 2 "LIVES_IN"

found : table_name_by_id (serve_all requests new_catalog) 2 ≡ some "LIVES_IN"
unfolding table_name_by_id ruzu.Catalog.find_id ruzu.Catalog.create_rel_table
    ruzu.Catalog.table_exists ruzu.Prelude.Names.contains_key ruzu.Catalog.create_table new_catalog
    ruzu.Catalog.rel_table_exists ruzu.Prelude.Names.insert ruzu.Catalog.next_id
    ruzu.Prelude.Names.same_name
found = refl
