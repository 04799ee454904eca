-- ===== src/Catalog/Registry/Tables.antt =====
-- `create_table` keeps the registry well-formed, src/catalog/schema.rs.
use Prim.Native.String.{String}
use ruzu.Prelude.{
  ◌+◌, ◌<◌, ◌^◌, ◌≡◌, refl, sym, ◌∙◌, inl, inr, true, false, none, some, arith, if◌then◌else◌,
  Bool-cases, if_intro, add_u32,
}
use ruzu.Prelude.Names.{same_name, same_name_iff, insert, contains_key-lookup, lookup-insert}
use ruzu.Catalog.{
  NodeTableSchema, RelTableSchema, Catalog, create_table, get_table, get_rel_table, table_exists,
  rel_table_exists, next_id,
}
use ruzu.Catalog.Registry.{
  id_of, IsWellFormed, Keeps, contains_key-insert, insert-DistinctKeys, IsNumbering-suc,
}

module _ (self : Catalog) (w : IsWellFormed self) (room : self.next_table_id + 1 < 2 ^ 32) where
  module _ (schema : NodeTableSchema) (no_table : table_exists self schema.name ≡ false)
      (no_rel_table : rel_table_exists self schema.name ≡ false) where
    added_table : NodeTableSchema
    added_table = record schema { table_id = self.next_table_id }

    with_table : Catalog
    unfolding added_table
    with_table = record self {
      next_table_id = add_u32 self.next_table_id 1;
      tables = insert same_name schema.name added_table self.tables;
    }

    get-with_table :
        (name : String)
        → get_table with_table name
          ≡ (if same_name schema.name name then some added_table else get_table self name)
    unfolding with_table get_table
    get-with_table name =
        lookup-insert same_name (λ a b. (same_name_iff a b).0) schema.name name added_table
          self.tables

    exists-with_table :
        (name : String)
        → table_exists with_table name
          ≡ (if same_name schema.name name then true else table_exists self name)
    unfolding with_table table_exists
    exists-with_table name = contains_key-insert schema.name name added_table self.tables

    no_id : id_of self schema.name ≡ none
    unfolding id_of get_table get_rel_table table_exists rel_table_exists
    no_id = rw (
      (contains_key-lookup same_name schema.name self.tables).0 no_table,
      (contains_key-lookup same_name schema.name self.rel_tables).0 no_rel_table,
    )

    get_rel-with_table : (name : String) → get_rel_table with_table name ≡ get_rel_table self name
    unfolding with_table get_rel_table
    get_rel-with_table name = refl

    rel_exists-with_table :
        (name : String) → rel_table_exists with_table name ≡ rel_table_exists self name
    unfolding with_table rel_table_exists
    rel_exists-with_table name = refl

    id_of-with_table :
        (name : String)
        → id_of with_table name
          ≡ (if same_name schema.name name then some self.next_table_id else id_of self name)
    unfolding id_of added_table
    id_of-with_table name = elim (Bool-cases (same_name schema.name name)) [
      | inl e ↦ rw (get-with_table name, get_rel-with_table name, e)
      | inr e ↦ rw (get-with_table name, get_rel-with_table name, e)
    ]

    one_kind-with_table :
        (name : String)
        → table_exists with_table name ≡ true
        → rel_table_exists with_table name ≡ false
    one_kind-with_table name e = ground (
      arith,
      exists-with_table name,
      rel_exists-with_table name,
      (same_name_iff schema.name name).0,
      w.one_kind name,
    )

    named-with_table :
        (name : String) (s : NodeTableSchema) → get_table with_table name ≡ some s → s.name ≡ name
    unfolding added_table
    named-with_table name s e =
        ground
          (arith, get-with_table name, (same_name_iff schema.name name).0, w.table_named name s)

    ends-with_table :
        (name : String) (s : RelTableSchema)
        → get_rel_table with_table name ≡ some s
        → (table_exists with_table s.src_table ≡ true)
          × (table_exists with_table s.dst_table ≡ true)
    ends-with_table name s e =
        let ends = w.ends_exist name s (sym (get_rel-with_table name) ∙ e) in
        (
          ground (arith, exists-with_table s.src_table),
          ground (arith, exists-with_table s.dst_table),
        )

    with_table-IsWellFormed : IsWellFormed with_table
    unfolding with_table get_rel_table
    with_table-IsWellFormed = record {
      tables_distinct = insert-DistinctKeys schema.name added_table self.tables w.tables_distinct;
      rel_tables_distinct = w.rel_tables_distinct;
      one_kind = one_kind-with_table;
      numbering =
          IsNumbering-suc (id_of self) (id_of with_table) self.next_table_id schema.name w.numbering
            room no_id id_of-with_table;
      table_named = named-with_table;
      rel_table_named = w.rel_table_named;
      ends_exist = ends-with_table;
    }

  pub create_table-IsWellFormed : (schema : NodeTableSchema) → Keeps (create_table schema self)
  unfolding create_table with_table added_table next_id
  create_table-IsWellFormed schema =
      if_intro Keeps (table_exists self schema.name) _ _ (λ e. w)
        (λ no_table.
          if_intro Keeps (rel_table_exists self schema.name) _ _ (λ e. w)
            (λ no_rel_table. with_table-IsWellFormed schema no_table no_rel_table))
