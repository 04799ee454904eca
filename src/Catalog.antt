-- ===== src/Catalog.antt =====
-- src/catalog/schema.rs: the schemas of node tables and of relationship tables, and the registry of
-- both. The two hash maps are association lists keyed by name.
pub mod Schema
pub mod Registry
pub mod Lookup
mod Tests
use Prim.Native.String.{String}
use Prim.Native.String
use ruzu.Prelude.{
  ℕ, zero, suc, ◌≡◌, Bool, true, false, not, Option, none, some, List, [], ◌∷◌, map, length,
  add_u32, ◌==◌, if◌then◌else◌, Result, ok, err, ◌>>◌, ◌>>=◌, guard, schema_error,
}
use ruzu.Prelude.Names.{same_name, lookup, contains_key, insert}
use ruzu.Types.{DataType}

pub record ColumnDef : Type 0 where
  pub name : String
  pub data_type : DataType

-- `ColumnDef::new`
unfoldable pub new_column : String → DataType → Result ColumnDef
new_column name data_type =
    if same_name name ""
    then err schema_error
    else ok (record { name = name; data_type = data_type })

pub data Direction : Type 0 where
  forward backward both : Direction

pub record RelTableSchema : Type 0 where
  pub table_id : ℕ
  pub name : String
  pub src_table : String
  pub dst_table : String
  pub columns : List ColumnDef
  pub direction : Direction

pub record NodeTableSchema : Type 0 where
  pub table_id : ℕ
  pub name : String
  pub columns : List ColumnDef
  pub primary_key : List String

-- `HashSet::contains`
unfoldable pub contains : String → List String → Bool
contains name [] = false
contains name (s ∷ seen) = if same_name s name then true else contains name seen

-- `self.columns.iter().any(|c| &c.name == name)`
unfoldable pub any_column : List ColumnDef → String → Bool
any_column [] name = false
any_column (c ∷ columns) name = if same_name c.name name then true else any_column columns name

-- The loop over the columns, with the set of the names seen.
unfoldable pub check_unique : List ColumnDef → List String → Result (Unit {0})
check_unique [] seen = ok tt
check_unique (col ∷ columns) seen =
    if contains col.name seen then err schema_error else check_unique columns (col.name ∷ seen)

-- The loop over the columns of the primary key.
unfoldable pub check_primary_key : List ColumnDef → List String → Result (Unit {0})
check_primary_key columns [] = ok tt
check_primary_key columns (pk_col ∷ primary_key) =
    guard (any_column columns pk_col) schema_error >> check_primary_key columns primary_key

abbrev pub some_of {ℓ} : {A : Type ℓ} → List A → Bool
some_of [] = false
some_of (x ∷ xs) = true

-- `NodeTableSchema::validate`
unfoldable pub validate_node_table : NodeTableSchema → Result (Unit {0})
validate_node_table self =
    guard (some_of self.columns) schema_error
    >> (check_unique self.columns []
        >> (check_primary_key self.columns self.primary_key
            >> guard (some_of self.primary_key) schema_error))

-- `RelTableSchema::validate`
unfoldable pub validate_rel_table : RelTableSchema → Result (Unit {0})
validate_rel_table self = check_unique self.columns []

-- `NodeTableSchema::new`
unfoldable pub new_node_table : String → List ColumnDef → List String → Result NodeTableSchema
new_node_table name columns primary_key =
    let schema : NodeTableSchema = record {
      table_id = 0;
      name = name;
      columns = columns;
      primary_key = primary_key;
    } in
    validate_node_table schema >> ok schema

-- `RelTableSchema::new`
unfoldable pub new_rel_table :
    String → String → String → List ColumnDef → Direction → Result RelTableSchema
new_rel_table name src_table dst_table columns direction =
    let schema : RelTableSchema = record {
      table_id = 0;
      name = name;
      src_table = src_table;
      dst_table = dst_table;
      columns = columns;
      direction = direction;
    } in
    validate_rel_table schema >> ok schema

-- `get_column` of both kinds of schema.
unfoldable pub get_column : List ColumnDef → String → Option ColumnDef
get_column [] name = none
get_column (c ∷ columns) name = if same_name c.name name then some c else get_column columns name

abbrev pub map_suc : Option ℕ → Option ℕ
map_suc none = none
map_suc (some i) = some (suc i)

-- `get_column_index` of both kinds of schema.
unfoldable pub get_column_index : List ColumnDef → String → Option ℕ
get_column_index [] name = none
get_column_index (c ∷ columns) name =
    if same_name c.name name then some 0 else map_suc (get_column_index columns name)

pub record Catalog : Type 0 where
  pub tables : List (String × NodeTableSchema)
  pub rel_tables : List (String × RelTableSchema)
  pub next_table_id : ℕ

unfoldable pub new_catalog : Catalog
new_catalog = record { tables = []; rel_tables = []; next_table_id = 0 }

unfoldable pub next_id : Catalog → ℕ × Catalog
next_id self = (self.next_table_id, record self { next_table_id = add_u32 self.next_table_id 1 })

unfoldable pub table_exists : Catalog → String → Bool
table_exists self name = contains_key same_name name self.tables

unfoldable pub rel_table_exists : Catalog → String → Bool
rel_table_exists self name = contains_key same_name name self.rel_tables

unfoldable pub get_table : Catalog → String → Option NodeTableSchema
get_table self name = lookup same_name name self.tables

unfoldable pub get_rel_table : Catalog → String → Option RelTableSchema
get_rel_table self name = lookup same_name name self.rel_tables

unfoldable pub create_table : NodeTableSchema → Catalog → Result ℕ × Catalog
create_table schema self =
    if table_exists self schema.name
    then (err schema_error, self)
    else if rel_table_exists self schema.name
    then (err schema_error, self)
    else let (table_id, next) = next_id self in
      (
        ok table_id,
        record next {
          tables = insert same_name schema.name (record schema { table_id = table_id }) next.tables;
        },
      )

unfoldable pub create_rel_table : RelTableSchema → Catalog → Result ℕ × Catalog
create_rel_table schema self =
    if table_exists self schema.name
    then (err schema_error, self)
    else if rel_table_exists self schema.name
    then (err schema_error, self)
    else if not (table_exists self schema.src_table)
    then (err schema_error, self)
    else if not (table_exists self schema.dst_table)
    then (err schema_error, self)
    else let (table_id, next) = next_id self in
      (
        ok table_id,
        record next {
          rel_tables =
              insert same_name schema.name (record schema { table_id = table_id }) next.rel_tables;
        },
      )

-- One loop of `table_name_by_id`, over the entries of a map.
unfoldable pub find_id : {S : Type 0} → (S → ℕ) → ℕ → List (String × S) → Option String
find_id id_of table_id [] = none
find_id id_of table_id ((name, schema) ∷ rest) =
    if id_of schema == table_id then some name else find_id id_of table_id rest

abbrev or_else : Option String → Option String → Option String
or_else (some name) other = some name
or_else none other = other

unfoldable pub table_name_by_id : Catalog → ℕ → Option String
table_name_by_id self table_id =
    or_else (find_id (λ (s : NodeTableSchema). s.table_id) table_id self.tables)
      (find_id (λ (s : RelTableSchema). s.table_id) table_id self.rel_tables)

-- `table_names` and `rel_table_names`
unfoldable pub names : {S : Type 0} → List (String × S) → List String
names entries = map (λ entry. entry.0) entries
