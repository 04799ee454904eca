-- ===== src/Table/Batch.antt =====
-- `NodeTable::insert_batch` of src/storage/table.rs. A row is a list of values in the order of the
-- given columns.
pub mod Rows
pub mod Loop
pub mod Outcome
use Prim.Native.String.{String}
use ruzu.Prelude.{
  ℕ, zero, suc, ◌+◌, ◌≡◌, Bool, true, false, Option, none, some, List, [], ◌∷◌, length, get_elem?,
  ◌==◌, if◌then◌else◌, Result, ok, err, panic, ◌>>=◌, ◌>>◌, guard, or_panic, or_fail, or_return,
  schema_error, constraint_violation,
}
use ruzu.Prelude.Names.{same_name, contains_key, insert}
use ruzu.Types.Value.{Value, same_key}
use ruzu.Catalog.{ColumnDef, map_suc, get_column_index}
use ruzu.Table.{ColumnStorage, NodeTable, push}

-- `columns.iter().position(|c| c == name)`
unfoldable pub position : List String → String → Option ℕ
position [] name = none
position (c ∷ columns) name = if same_name c name then some 0 else map_suc (position columns name)

-- The places of the schema's columns among those given.
unfoldable pub col_mapping : List ColumnDef → List String → Result (List ℕ)
col_mapping [] columns = ok []
col_mapping (def ∷ defs) columns =
    or_fail (position columns (ColumnDef.name def)) schema_error >>= λ idx.
    (col_mapping defs columns >>= λ mapping. ok (idx ∷ mapping))

abbrev keep_index : Option ℕ → List ℕ → List ℕ
keep_index none indices = indices
keep_index (some idx) indices = idx ∷ indices

-- The places of the key's columns in the schema.
unfoldable pub pk_col_indices : List ColumnDef → List String → List ℕ
pk_col_indices defs [] = []
pk_col_indices defs (name ∷ names) =
    keep_index (get_column_index defs name) (pk_col_indices defs names)

-- `row[col_mapping[schema_idx]]`
unfoldable pub mapped_value : List ℕ → List Value → ℕ → Result Value
mapped_value mapping row schema_idx =
    or_panic (get_elem? mapping schema_idx) >>= λ input_idx. or_panic (get_elem? row input_idx)

unfoldable pub batch_key : List ℕ → List Value → List ℕ → Result (List Value)
batch_key mapping row [] = ok []
batch_key mapping row (schema_idx ∷ indices) = mapped_value mapping row schema_idx >>= λ value.
    (batch_key mapping row indices >>= λ values. ok (value ∷ values))

-- `HashSet::contains`
unfoldable pub seen_key : List Value → List (List Value) → Bool
seen_key key [] = false
seen_key key (k ∷ seen) = if same_key k key then true else seen_key key seen

-- The key of one row: new in the batch and in the table.
unfoldable pub check_key : NodeTable → List (List Value) → List Value → Result (Unit {0})
check_key self seen key =
    if seen_key key seen
    then err constraint_violation
    else if contains_key same_key key self.pk_index
    then err constraint_violation
    else ok tt

-- The loop that checks the rows, with the keys of the batch so far.
unfoldable pub check_rows :
    NodeTable
    → List String
    → List ℕ
    → List ℕ
    → List (List Value)
    → List (List Value)
    → Result (Unit {0})
check_rows self columns mapping indices [] seen = ok tt
check_rows self columns mapping indices (row ∷ rows) seen =
    guard (length row == length columns) schema_error
    >> (batch_key mapping row indices >>= λ key.
        (check_key self seen key >> check_rows self columns mapping indices rows (key ∷ seen)))

-- The values of one row, pushed in the order of the schema, and the columns that were reached.
unfoldable pub push_mapped :
    List ℕ → List Value → List ColumnStorage → Result (Unit {0}) × List ColumnStorage
push_mapped mapping row [] = (ok tt, [])
push_mapped [] row (col ∷ columns) = (panic, col ∷ columns)
push_mapped (input_idx ∷ mapping) row (col ∷ columns) =
    let (outcome, pushed) = push_mapped mapping row columns in
    elim (get_elem? row input_idx) [
      | none ↦ (panic, col ∷ columns)
      | some value ↦ (outcome, push value col ∷ pushed)
    ]

-- The end of one turn: the row is in the columns.
abbrev pub index_row : List Value → NodeTable → NodeTable
index_row pk_values self = record self {
  pk_index = insert same_key pk_values self.row_count self.pk_index;
  row_count = self.row_count + 1;
}

-- One turn of the loop that inserts, and the table that was reached.
unfoldable pub add_mapped : List ℕ → List ℕ → List Value → NodeTable → Result (Unit {0}) × NodeTable
add_mapped mapping indices row self = or_return self (batch_key mapping row indices) (λ pk_values.
    let (outcome, columns) = push_mapped mapping row self.columns in
    let pushed : NodeTable = record self { columns = columns } in
    or_return pushed outcome (λ done. (ok tt, index_row pk_values pushed)))

-- The loop that inserts: a turn that ended early would leave what it had reached.
unfoldable pub add_rows :
    List ℕ → List ℕ → List (List Value) → NodeTable → Result (Unit {0}) × NodeTable
add_rows mapping indices [] self = (ok tt, self)
add_rows mapping indices (row ∷ rows) self =
    let (outcome, reached) = add_mapped mapping indices row self in
    or_return reached outcome (λ done. add_rows mapping indices rows reached)

-- The checks, which change nothing, and then the insertion, with the mapping of the columns.
unfoldable pub insert_mapped :
    List (List Value) → List String → NodeTable → List ℕ → Result ℕ × NodeTable
insert_mapped rows columns self mapping =
    let indices = pk_col_indices self.schema.columns self.schema.primary_key in
    or_return self (check_rows self columns mapping indices rows []) (λ checked.
      let (outcome, reached) = add_rows mapping indices rows self in
      or_return reached outcome (λ done. (ok (length rows), reached)))

-- `insert_batch`: the number of rows inserted, and the table after it.
unfoldable pub insert_batch : List (List Value) → List String → NodeTable → Result ℕ × NodeTable
insert_batch [] columns self = (ok 0, self)
insert_batch (row ∷ rows) columns self =
    or_return self
      (guard (length columns == length self.schema.columns) schema_error
        >> col_mapping self.schema.columns columns)
      (insert_mapped (row ∷ rows) columns self)
