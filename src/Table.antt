-- ===== src/Table.antt =====
-- src/storage/table.rs and src/storage/column.rs: a node table, by columns, with the index of its
-- primary keys. A row to insert is a hash map by column name. After a panic the table is left as it
-- was before the call, where the code may have changed it in part.
pub mod Cells
pub mod Panics
pub mod Invariant
pub mod Insert
pub mod Index
pub mod Reach
pub mod Batch
mod Tests
use Prim.Native.String.{String}
use ruzu.Prelude.{
  ℕ, zero, suc, ◌+◌, ◌≡◌, Bool, true, false, not, Option, none, some, List, [], ◌∷◌, ◌++◌, map,
  length, get_elem?, ltb, ◌==◌, if◌then◌else◌, Result, ok, err, panic, ◌>>=◌, ◌>>◌, guard, or_panic,
  or_fail, schema_error, type_error, constraint_violation,
}
use ruzu.Prelude.Names.{same_name, lookup, contains_key, insert}
use ruzu.Types.{DataType, tag}
use ruzu.Types.Value.{Value, is_null, data_type, eq, same_key}
use ruzu.Catalog.{ColumnDef, NodeTableSchema, get_column, get_column_index, contains}

abbrev pub ColumnStorage : Type 0
ColumnStorage = List Value

unfoldable pub push : Value → ColumnStorage → ColumnStorage
push value self = self ++ (value ∷ [])

abbrev pub Index : Type 0
Index = List (List Value × ℕ)

abbrev pub Row : Type 0
Row = List (String × Value)

pub record TableData : Type 0 where
  pub columns : List ColumnStorage
  pub row_count : ℕ

pub record NodeTable : Type 0 where
  pub schema : NodeTableSchema
  pub columns : List ColumnStorage
  pub row_count : ℕ
  pub pk_index : Index

unfoldable pub new_table : NodeTableSchema → NodeTable
new_table schema = record {
  schema = schema;
  columns = map (λ column. []) schema.columns;
  row_count = 0;
  pk_index = [];
}

abbrev pub and_then : {A B : Type 0} → Option A → (A → Option B) → Option B
and_then none next = none
and_then (some a) next = next a

-- The value of a row in the column of that name.
unfoldable pub cell : List ColumnDef → List ColumnStorage → ℕ → String → Option Value
cell defs columns row_idx name =
    and_then (get_column_index defs name)
      (λ idx. and_then (get_elem? columns idx) (λ column. get_elem? column row_idx))

-- `get`
unfoldable pub get : NodeTable → ℕ → String → Option Value
get self row_idx column_name = cell self.schema.columns self.columns row_idx column_name

abbrev pub cons_some : Option Value → List Value → List Value
cons_some none values = values
cons_some (some value) values = value ∷ values

-- The values of a row in the columns of those names, as `from_data` collects them.
unfoldable pub row_key : List ColumnDef → List ColumnStorage → ℕ → List String → List Value
row_key defs columns row_idx [] = []
row_key defs columns row_idx (name ∷ names) =
    cons_some (cell defs columns row_idx name) (row_key defs columns row_idx names)

-- The loop of `from_data` over the rows below `n`.
unfoldable pub index_rows : NodeTableSchema → List ColumnStorage → ℕ → Index
index_rows schema columns zero = []
index_rows schema columns (suc n) =
    insert same_key (row_key schema.columns columns n schema.primary_key) n
      (index_rows schema columns n)

unfoldable pub from_data : NodeTableSchema → TableData → NodeTable
from_data schema stored = record {
  schema = schema;
  columns = stored.columns;
  row_count = stored.row_count;
  pk_index = index_rows schema stored.columns stored.row_count;
}

unfoldable pub to_data : NodeTable → TableData
to_data self = record { columns = self.columns; row_count = self.row_count }

-- The first loop of `insert`: all columns are present.
unfoldable pub check_present : List ColumnDef → Row → Result (Unit {0})
check_present [] row = ok tt
check_present (col_def ∷ defs) row =
    guard (contains_key same_name (ColumnDef.name col_def) row) schema_error
    >> check_present defs row

abbrev pub matches : Option DataType → DataType → Result (Unit {0})
matches none expected = ok tt
matches (some actual) expected = guard (tag actual == tag expected) type_error

-- The type of one value.
unfoldable pub check_type : ColumnDef → Value → Result (Unit {0})
check_type col_def value =
    if is_null value then ok tt else matches (data_type value) col_def.data_type

-- The second loop of `insert`, over the entries of the row.
unfoldable pub check_types : List ColumnDef → Row → Result (Unit {0})
check_types defs [] = ok tt
check_types defs ((col_name, value) ∷ row) =
    (or_fail (get_column defs col_name) schema_error >>= λ col_def. check_type col_def value)
    >> check_types defs row

-- The primary key of a row to insert; a missing column panics.
unfoldable pub unwrap_all : Row → List String → Result (List Value)
unwrap_all row [] = ok []
unwrap_all row (name ∷ names) = or_panic (lookup same_name name row) >>= λ value.
    (unwrap_all row names >>= λ values. ok (value ∷ values))

-- The loop of `insert` that pushes the values; a column or a value that is missing panics.
unfoldable pub push_row : List ColumnDef → Row → List ColumnStorage → Result (List ColumnStorage)
push_row [] row columns = ok columns
push_row (col_def ∷ defs) row [] = panic
push_row (col_def ∷ defs) row (column ∷ columns) =
    or_panic (lookup same_name (ColumnDef.name col_def) row) >>= λ value.
    (push_row defs row columns >>= λ pushed. ok (push value column ∷ pushed))

-- The changes of `insert`, after its checks.
unfoldable pub add_row : Row → List Value → NodeTable → Result NodeTable
add_row row pk_values self = push_row self.schema.columns row self.columns >>= λ columns.
    ok (record self {
      columns = columns;
      pk_index = insert same_key pk_values self.row_count self.pk_index;
      row_count = self.row_count + 1;
    })

-- The key is new, or the row is refused.
unfoldable pub add_unique : Row → NodeTable → List Value → Result NodeTable
add_unique row self pk_values =
    if contains_key same_key pk_values self.pk_index
    then err constraint_violation
    else add_row row pk_values self

unfoldable pub try_insert : Row → NodeTable → Result NodeTable
try_insert row self =
    check_present self.schema.columns row
    >> (check_types self.schema.columns row
        >> (unwrap_all row self.schema.primary_key >>= add_unique row self))

-- How a call ended, and the table after it.
abbrev pub settle : {A : Type 0} → A → Result A → Result (Unit {0}) × A
settle before (ok after) = (ok tt, after)
settle before (err kind) = (err kind, before)
settle before panic = (panic, before)

-- `insert`
unfoldable pub insert_row : Row → NodeTable → Result (Unit {0}) × NodeTable
insert_row row self = settle self (try_insert row self)

abbrev is_value : Value → Option Value → Bool
is_value value none = false
is_value value (some val) = eq val value

-- The scan of `find_by_pk` on part of a composite key, over the rows from `row_idx` on.
unfoldable pub scan_column : Value → ColumnStorage → ℕ → ℕ → Option ℕ
scan_column value column row_idx zero = none
scan_column value column row_idx (suc left) =
    let rest = scan_column value column (row_idx + 1) left in
    if is_value value (get_elem? column row_idx) then some row_idx else rest

-- The scan of the column of the key.
unfoldable pub scan_by_pk : NodeTable → String → Value → Option ℕ
scan_by_pk self key_column value =
    and_then (get_column_index self.schema.columns key_column) (λ col_idx.
      and_then (get_elem? self.columns col_idx)
        (λ column. scan_column value column 0 self.row_count))

unfoldable pub find_by_pk : NodeTable → String → Value → Option ℕ
find_by_pk self key_column value =
    if contains key_column self.schema.primary_key
    then (if length self.schema.primary_key == 1
        then lookup same_key (value ∷ []) self.pk_index
        else scan_by_pk self key_column value)
    else none
