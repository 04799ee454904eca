-- ===== src/Table/Reach.antt =====
-- The tables that insertions make from an accepted schema: src/catalog/schema.rs and
-- src/storage/table.rs together.
use Prim.Native.String.{String}
use ruzu.Prelude.{
  ℕ, ◌≡◌, sym, subst, List, [], ◌∷◌, Result, ok, err, panic, >>=-eq-ok, ok-injective,
}
use ruzu.Catalog.{ColumnDef, NodeTableSchema, new_node_table, validate_node_table}
use ruzu.Catalog.Schema.{AllColumns, IsNodeTable, validate_node_table-Decides, any_column_iff}
use ruzu.Table.{Row, NodeTable, new_table, insert_row}
use ruzu.Table.Cells.{AllKnown}
use ruzu.Types.Value.{Value}
use ruzu.Table.Batch.{insert_batch}
use ruzu.Table.Batch.Outcome.{BatchInserted, insert_batch-BatchInserted}
use ruzu.Table.Invariant.{IsTable, new_table-IsTable}
use ruzu.Table.Insert.{Inserted, insert_row-Inserted}

-- A call that inserts.
pub data Request : Type 0 where
  one : Row → Request
  batch : List (List Value) → List String → Request

abbrev pub serve : Request → NodeTable → NodeTable
serve (one row) self = (insert_row row self).1
serve (batch rows columns) self = (insert_batch rows columns self).1

-- The table after the calls, whatever came of each.
abbrev pub serve_all : List Request → NodeTable → NodeTable
serve_all [] self = self
serve_all (request ∷ requests) self = serve_all requests (serve request self)

AllKnown-AllColumns :
    (columns : List ColumnDef) (names : List String)
    → AllColumns names columns
    → AllKnown columns names
unfolding AllKnown AllColumns
AllKnown-AllColumns columns [] h = tt
AllKnown-AllColumns columns (name ∷ names) (known, h) =
    ((any_column_iff columns name).1 known, AllKnown-AllColumns columns names h)

Inserted-IsTable :
    (row : Row) (before : NodeTable) (outcome : Result (Unit {0}) × NodeTable)
    → IsTable before
    → Inserted row before outcome
    → IsTable outcome.1
unfolding Inserted
Inserted-IsTable row before (ok done, after) w h = h.table
Inserted-IsTable row before (err kind, after) w h = subst IsTable (sym h.0) w
Inserted-IsTable row before (panic, after) w h = absurd cc

BatchInserted-IsTable :
    (columns : List String) (rows : List (List Value)) (before : NodeTable)
    (outcome : Result ℕ × NodeTable)
    → IsTable before
    → BatchInserted columns rows before outcome
    → IsTable outcome.1
unfolding BatchInserted
BatchInserted-IsTable columns rows before (ok count, after) w h = h.1.table
BatchInserted-IsTable columns rows before (err kind, after) w h = subst IsTable (sym h) w
BatchInserted-IsTable columns rows before (panic, after) w h = absurd cc

serve-IsTable : (request : Request) (self : NodeTable) → IsTable self → IsTable (serve request self)
serve-IsTable (one row) self w =
    Inserted-IsTable row self (insert_row row self) w (insert_row-Inserted row self w)
serve-IsTable (batch rows columns) self w =
    BatchInserted-IsTable columns rows self (insert_batch rows columns self) w
      (insert_batch-BatchInserted rows columns self w)

serve_all-IsTable :
    (requests : List Request) (self : NodeTable) → IsTable self → IsTable (serve_all requests self)
serve_all-IsTable [] self w = w
serve_all-IsTable (request ∷ requests) self w =
    serve_all-IsTable requests (serve request self) (serve-IsTable request self w)

-- If a schema is accepted by `NodeTableSchema::new`, then after any calls of `insert` and
-- `insert_batch` on the empty table of that schema, whatever came of each, the columns have as many
-- values as the table has rows and the index finds exactly the rows by their keys.
pub reachable-IsTable :
    (name : String) (columns : List ColumnDef) (primary_key : List String)
    (schema : NodeTableSchema) (requests : List Request)
    → new_node_table name columns primary_key ≡ ok schema
    → IsTable (serve_all requests (new_table schema))
unfolding new_node_table IsNodeTable
reachable-IsTable name columns primary_key schema requests e =
    let raw : NodeTableSchema = record {
      table_id = 0;
      name = name;
      columns = columns;
      primary_key = primary_key;
    } in
    let (checked, valid, same) = >>=-eq-ok (validate_node_table raw) (λ done. ok raw) e in
    let node = (validate_node_table-Decides raw).accepted valid in
    subst (λ s. IsTable (serve_all requests (new_table s))) (ok-injective raw schema same)
      (serve_all-IsTable requests (new_table raw)
        (new_table-IsTable raw (AllKnown-AllColumns columns primary_key node.2)))
