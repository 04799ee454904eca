-- ===== src/Catalog/Registry/RelTables.antt =====
-- `create_rel_table` keeps the registry well-formed, src/catalog/schema.rs.
use Prim.Native.String.{String}
use ruzu.Prelude.{
  ◌+◌, ◌<◌, ◌^◌, ◌≡◌, refl, inl, inr, true, false, not, none, some, arith, if◌then◌else◌,
  Bool-cases, if_intro, add_u32,
}
use ruzu.Prelude.Names.{same_name, same_name_iff, insert, contains_key-lookup, lookup-insert}
use ruzu.Catalog.{
  RelTableSchema, Catalog, create_rel_table, get_table, get_rel_table, table_exists,
  rel_table_exists, next_id,
}
use ruzu.Catalog.Registry.{
  id_of, IsWellFormed, Keeps, contains_key-insert, insert-DistinctKeys, IsNumbering-suc,
}

module _ (self : Catalog) (w : IsWellFormed self) (room : self.next_table_id + 1 < 2 ^ 32) where
  module _ (schema : RelTableSchema) (no_table : table_exists self schema.name ≡ false)
      (no_rel_table : rel_table_exists self schema.name ≡ false)
      (src_exists : table_exists self schema.src_table ≡ true)
      (dst_exists : table_exists self schema.dst_table ≡ true) where
    added_rel : RelTableSchema
    added_rel = record schema { table_id = self.next_table_id }

    with_rel : Catalog
    unfolding added_rel
    with_rel = record self {
      next_table_id = add_u32 self.next_table_id 1;
      rel_tables = insert same_name schema.name added_rel self.rel_tables;
    }

    get_rel-with_rel :
        (name : String)
        → get_rel_table with_rel name
          ≡ (if same_name schema.name name then some added_rel else get_rel_table self name)
    unfolding with_rel get_rel_table
    get_rel-with_rel name =
        lookup-insert same_name (λ a b. (same_name_iff a b).0) schema.name name added_rel
          self.rel_tables

    rel_exists-with_rel :
        (name : String)
        → rel_table_exists with_rel name
          ≡ (if same_name schema.name name then true else rel_table_exists self name)
    unfolding with_rel rel_table_exists
    rel_exists-with_rel name = contains_key-insert schema.name name added_rel self.rel_tables

    no_id : get_table self schema.name ≡ none
    unfolding get_table table_exists
    no_id = (contains_key-lookup same_name schema.name self.tables).0 no_table

    no_rel_id : get_rel_table self schema.name ≡ none
    unfolding get_rel_table rel_table_exists
    no_rel_id = (contains_key-lookup same_name schema.name self.rel_tables).0 no_rel_table

    get-with_rel : (name : String) → get_table with_rel name ≡ get_table self name
    unfolding with_rel get_table
    get-with_rel name = refl

    exists-with_rel : (name : String) → table_exists with_rel name ≡ table_exists self name
    unfolding with_rel table_exists
    exists-with_rel name = refl

    id_of-with_rel :
        (name : String)
        → id_of with_rel name
          ≡ (if same_name schema.name name then some self.next_table_id else id_of self name)
    unfolding id_of added_rel
    id_of-with_rel name = elim (Bool-cases (same_name schema.name name)) [
      | inl e ↦ rw (
        get-with_rel name,
        get_rel-with_rel name,
        e,
        ← (same_name_iff schema.name name).0 e,
        no_id,
      )
      | inr e ↦ rw (get-with_rel name, get_rel-with_rel name, e)
    ]

    one_kind-with_rel :
        (name : String) → table_exists with_rel name ≡ true → rel_table_exists with_rel name ≡ false
    one_kind-with_rel name e = ground (
      arith,
      exists-with_rel name,
      rel_exists-with_rel name,
      (same_name_iff schema.name name).0,
      w.one_kind name,
    )

    named-with_rel :
        (name : String) (s : RelTableSchema) → get_rel_table with_rel name ≡ some s → s.name ≡ name
    unfolding added_rel
    named-with_rel name s e =
        ground (
          arith,
          get_rel-with_rel name,
          (same_name_iff schema.name name).0,
          w.rel_table_named name s,
        )

    ends-with_rel :
        (name : String) (s : RelTableSchema)
        → get_rel_table with_rel name ≡ some s
        → (table_exists with_rel s.src_table ≡ true) × (table_exists with_rel s.dst_table ≡ true)
    unfolding added_rel with_rel table_exists
    ends-with_rel name s e = ground (arith, get_rel-with_rel name, w.ends_exist name s)

    with_rel-IsWellFormed : IsWellFormed with_rel
    unfolding with_rel get_table
    with_rel-IsWellFormed = record {
      tables_distinct = w.tables_distinct;
      rel_tables_distinct =
          insert-DistinctKeys schema.name added_rel self.rel_tables w.rel_tables_distinct;
      one_kind = one_kind-with_rel;
      numbering =
          IsNumbering-suc (id_of self) (id_of with_rel) self.next_table_id schema.name w.numbering
            room (unfold id_of in rw (no_id, no_rel_id)) id_of-with_rel;
      table_named = w.table_named;
      rel_table_named = named-with_rel;
      ends_exist = ends-with_rel;
    }

  pub create_rel_table-IsWellFormed :
      (schema : RelTableSchema) → Keeps (create_rel_table schema self)
  unfolding create_rel_table with_rel added_rel next_id
  create_rel_table-IsWellFormed schema =
      if_intro Keeps (table_exists self schema.name) _ _ (λ e. w)
        (λ no_table.
          if_intro Keeps (rel_table_exists self schema.name) _ _ (λ e. w)
            (λ no_rel_table.
              if_intro Keeps (not (table_exists self schema.src_table)) _ _ (λ e. w)
                (λ src.
                  if_intro Keeps (not (table_exists self schema.dst_table)) _ _ (λ e. w)
                    (λ dst.
                      with_rel-IsWellFormed schema no_table no_rel_table (ground arith)
                        (ground arith)))))
