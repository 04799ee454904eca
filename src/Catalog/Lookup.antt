-- ===== src/Catalog/Lookup.antt =====
-- From an identifier to the name, `table_name_by_id` of src/catalog/schema.rs.
use Prim.Native.String.{String}
use ruzu.Prelude.{
  ℕ, ◌≡◌, ap, ◌∙◌, ◌↔◌, inl, inr, none, some, List, [], ◌∷◌, arith, Bool-cases, Option-cases, ◌==◌,
  ==→eq, ==_refl,
}
use ruzu.Prelude.Names.{
  same_name, same_name_iff, same_name_refl, lookup, contains_key, contains_key-lookup,
}
use ruzu.Catalog.{
  NodeTableSchema, RelTableSchema, Catalog, get_table, get_rel_table, find_id, table_name_by_id,
}
use ruzu.Catalog.Registry.{DistinctKeys, id_of, IsWellFormed}

module _ {S : Type 0} (id : S → ℕ) where
  find_id-lookup :
      (i : ℕ) (entries : List (String × S)) (name : String)
      → DistinctKeys entries
      → find_id id i entries ≡ some name
      → (schema : S) × (lookup same_name name entries ≡ some schema) × (id schema ≡ i)
  unfolding DistinctKeys find_id lookup
  find_id-lookup i [] name distinct e = absurd cc
  find_id-lookup i ((n, s) ∷ rest) name (fresh, distinct) e = elim (Bool-cases (id s == i)) [
    | inl same ↦ (s, ground (arith, same_name_refl name), ==→eq (id s) i same)
    | inr differ ↦
        (let (schema, found, its) = find_id-lookup i rest name distinct (ground arith) in
          let absent = (contains_key-lookup same_name n rest).0 fresh in
          (schema, ground (arith, (same_name_iff n name).0), its))
  ]

  lookup-find_id :
      (name : String) (entries : List (String × S)) (schema : S)
      → lookup same_name name entries ≡ some schema
      → (other : String) × (find_id id (id schema) entries ≡ some other)
  unfolding find_id lookup
  lookup-find_id name [] schema e = absurd cc
  lookup-find_id name ((n, s) ∷ rest) schema e = elim (Bool-cases (id s == id schema)) [
    | inl same ↦ (n, ground arith)
    | inr differ ↦
        (let (other, found) = lookup-find_id name rest schema (ground (arith, ==_refl (id s))) in
          (other, ground arith))
  ]

module _ (self : Catalog) (w : IsWellFormed self) where
  -- The name of a relationship table is no node table's.
  rel_only :
      (name : String) (schema : RelTableSchema)
      → get_rel_table self name ≡ some schema
      → get_table self name ≡ none
  unfolding get_table get_rel_table ruzu.Catalog.table_exists contains_key
      ruzu.Catalog.rel_table_exists
  rel_only name schema e = elim (Bool-cases (contains_key same_name name self.tables)) [
    | inl is_table ↦
        (let no_rel =
            (contains_key-lookup same_name name self.rel_tables).0 (w.one_kind name is_table) in
          absurd cc)
    | inr no_table ↦ (contains_key-lookup same_name name self.tables).0 no_table
  ]

  name_found :
      (i : ℕ) (name : String) → table_name_by_id self i ≡ some name → id_of self name ≡ some i
  unfolding table_name_by_id id_of get_table get_rel_table
  name_found i name e =
      elim (Option-cases (find_id (λ (s : NodeTableSchema). s.table_id) i self.tables)) [
        | inl none_found ↦
            (let (schema, found, its) =
                find_id-lookup (λ (s : RelTableSchema). s.table_id) i self.rel_tables name
                  w.rel_tables_distinct (ground arith) in
              rw (rel_only name schema found, found, its))
        | inr (other, is_found) ↦
            (let (schema, found, its) =
                find_id-lookup (λ (s : NodeTableSchema). s.table_id) i self.tables name
                  w.tables_distinct (ground arith) in
              rw (found, its))
      ]

  some_name :
      (i : ℕ) (name : String)
      → id_of self name ≡ some i
      → (other : String) × (table_name_by_id self i ≡ some other)
  unfolding table_name_by_id id_of get_table get_rel_table
  some_name i name e = elim (Option-cases (get_table self name)) [
    | inr (schema, found) ↦
        (let its : schema.table_id ≡ i = ground arith in
          let (other, is_found) =
            lookup-find_id (λ (s : NodeTableSchema). s.table_id) name self.tables schema found in
          (other, ground arith))
    | inl no_table ↦ elim (Option-cases (get_rel_table self name)) [
      | inr (schema, found) ↦
          (let (other, is_found) =
              lookup-find_id (λ (s : RelTableSchema). s.table_id) name self.rel_tables schema
                found in
            let its : schema.table_id ≡ i = ground arith in
            elim (Option-cases (find_id (λ (s : NodeTableSchema). s.table_id) i self.tables)) [
              | inl none_found ↦ (other, ground arith)
              | inr (first, first_found) ↦ (first, ground arith)
            ])
      | inl no_rel_table ↦ absurd (ground arith)
    ]
  ]

  -- In a well-formed registry `table_name_by_id` gives a name exactly if the table of that name, of
  -- either kind, has the identifier.
  pub table_name_by_id_iff :
      (i : ℕ) (name : String) → (table_name_by_id self i ≡ some name) ↔ (id_of self name ≡ some i)
  table_name_by_id_iff i name = (
    name_found i name,
    λ e.
        (let (other, found) = some_name i name e in
          found ∙ ap some (w.numbering.unique other name i (name_found i other found) e)),
  )
