-- ===== src/Catalog/Schema.antt =====
-- The checks of a schema, `NodeTableSchema::validate` of src/catalog/schema.rs.
use Prim.Native.String.{String}
use ruzu.Prelude.{
  ◌≡◌, refl, ◌≢◌, ◌↔◌, inl, inr, true, false, List, [], ◌∷◌, arith, ok, ◌>>◌, guard, schema_error,
  Decides, >>-Decides, if-Decides, guard-Decides, ok-Decides, Decides_iff, Bool-cases,
}
use ruzu.Prelude.Names.{same_name, same_name_iff, same_name_ne}
use ruzu.Catalog.{
  ColumnDef, NodeTableSchema, contains, any_column, check_unique, check_primary_key, some_of,
  validate_node_table,
}

-- The name is none of the columns'.
Fresh : String → List ColumnDef → Type 0
Fresh name [] = Unit {0}
Fresh name (c ∷ columns) = (name ≢ c.name) × Fresh name columns

-- The columns have different names.
pub Distinct : List ColumnDef → Type 0
Distinct [] = Unit {0}
Distinct (c ∷ columns) = Fresh c.name columns × Distinct columns

-- None of the columns has a name that was seen.
Unseen : List ColumnDef → List String → Type 0
Unseen [] seen = Unit {0}
Unseen (c ∷ columns) seen = (contains c.name seen ≡ false) × Unseen columns seen

Unseen-cons :
    (columns : List ColumnDef) (name : String) (seen : List String)
    → Unseen columns (name ∷ seen) ↔ (Fresh name columns × Unseen columns seen)
unfolding Unseen Fresh contains
Unseen-cons [] name seen = (λ h. (tt, tt), λ h. tt)
Unseen-cons (c ∷ columns) name seen =
    ground (arith, Unseen-cons columns name seen, same_name_ne name c.name)

check_unique-Decides :
    (columns : List ColumnDef) (seen : List String)
    → Decides schema_error (check_unique columns seen) (Unseen columns seen × Distinct columns)
unfolding check_unique Unseen Distinct
check_unique-Decides [] seen =
    Decides_iff schema_error (ok tt) (ok-Decides schema_error) (λ h. (tt, tt), λ h. tt)
check_unique-Decides (c ∷ columns) seen =
    Decides_iff schema_error (check_unique (c ∷ columns) seen)
      (if-Decides schema_error (contains c.name seen) (check_unique columns (c.name ∷ seen))
        (λ h. h, λ h. h) (check_unique-Decides columns (c.name ∷ seen)))
      (
        λ h.
            (let split = (Unseen-cons columns c.name seen).0 h.1.0 in
              ((h.0, split.1), (split.0, h.1.1))),
        λ h. (h.0.0, ((Unseen-cons columns c.name seen).1 (h.1.0, h.0.1), h.1.1)),
      )

Unseen-nil : (columns : List ColumnDef) → Unseen columns []
unfolding Unseen contains
Unseen-nil [] = tt
Unseen-nil (c ∷ columns) = (refl, Unseen-nil columns)

-- Every name is a column's.
pub data HasColumn (name : String) : List ColumnDef → Type 0 where
  here : {c : ColumnDef} {columns : List ColumnDef} → c.name ≡ name → HasColumn name (c ∷ columns)
  there :
      {c : ColumnDef} {columns : List ColumnDef}
      → HasColumn name columns
      → HasColumn name (c ∷ columns)

any_column_found :
    (columns : List ColumnDef) (name : String)
    → any_column columns name ≡ true
    → HasColumn name columns
unfolding any_column
any_column_found [] name e = absurd cc
any_column_found (c ∷ columns) name e = elim (Bool-cases (same_name c.name name)) [
  | inl same ↦ here ((same_name_iff c.name name).0 same)
  | inr differ ↦ there (any_column_found columns name (ground arith))
]

any_column_present :
    (columns : List ColumnDef) (name : String)
    → HasColumn name columns
    → any_column columns name ≡ true
unfolding any_column
any_column_present [] name h = elim h [ ]
any_column_present (c ∷ columns) name (here e) =
    let same = (same_name_iff c.name name).1 e in ground arith
any_column_present (c ∷ columns) name (there h) =
    let rest = any_column_present columns name h in ground arith

pub any_column_iff :
    (columns : List ColumnDef) (name : String)
    → (any_column columns name ≡ true) ↔ HasColumn name columns
any_column_iff columns name = (any_column_found columns name, any_column_present columns name)

unfoldable pub AllColumns : List String → List ColumnDef → Type 0
AllColumns [] columns = Unit {0}
AllColumns (name ∷ names) columns = HasColumn name columns × AllColumns names columns

check_primary_key-Decides :
    (columns : List ColumnDef) (names : List String)
    → Decides schema_error (check_primary_key columns names) (AllColumns names columns)
unfolding check_primary_key AllColumns
check_primary_key-Decides columns [] = ok-Decides schema_error
check_primary_key-Decides columns (name ∷ names) =
    >>-Decides schema_error (guard (any_column columns name) schema_error)
      (check_primary_key columns names)
      (guard-Decides schema_error (any_column columns name) (any_column_iff columns name))
      (check_primary_key-Decides columns names)

-- A schema that can be a node table's: with columns of different names, and a primary key of some
-- of them.
unfoldable pub IsNodeTable : NodeTableSchema → Type 0
IsNodeTable schema =
    (some_of schema.columns ≡ true)
    × Distinct schema.columns
    × AllColumns schema.primary_key schema.columns
    × (some_of schema.primary_key ≡ true)

-- A schema is accepted exactly if it has a column, its columns have different names, its primary
-- key is not empty and names columns alone; else the check fails with a schema error.
pub validate_node_table-Decides :
    (schema : NodeTableSchema)
    → Decides schema_error (validate_node_table schema) (IsNodeTable schema)
unfolding validate_node_table IsNodeTable
validate_node_table-Decides schema =
    Decides_iff schema_error (validate_node_table schema)
      (>>-Decides schema_error (guard (some_of schema.columns) schema_error)
        (check_unique schema.columns []
          >> (check_primary_key schema.columns schema.primary_key
              >> guard (some_of schema.primary_key) schema_error))
        (guard-Decides schema_error (some_of schema.columns) (λ h. h, λ h. h))
        (>>-Decides schema_error (check_unique schema.columns [])
          (check_primary_key schema.columns schema.primary_key
            >> guard (some_of schema.primary_key) schema_error)
          (check_unique-Decides schema.columns [])
          (>>-Decides schema_error (check_primary_key schema.columns schema.primary_key)
            (guard (some_of schema.primary_key) schema_error)
            (check_primary_key-Decides schema.columns schema.primary_key)
            (guard-Decides schema_error (some_of schema.primary_key) (λ h. h, λ h. h)))))
      (
        λ h. (h.0, h.1.0.1, h.1.1.0, h.1.1.1),
        λ h. (h.0, ((Unseen-nil schema.columns, h.1), (h.2, h.3))),
      )
