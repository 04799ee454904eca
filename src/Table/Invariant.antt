-- ===== src/Table/Invariant.antt =====
-- The invariant of a node table of src/storage/table.rs.
use Prim.Native.String.{String}
use ruzu.Prelude.{ℕ, ◌+◌, ◌<◌, ◌≡◌, refl, true, some, List, [], ◌∷◌, map, length, length-map, arith}
use ruzu.Prelude.Names.{same_name, lookup}
use ruzu.Types.Value.{Value, same_key}
use ruzu.Catalog.{ColumnDef, NodeTableSchema, any_column}
use ruzu.Table.{Row, NodeTable, new_table, get, row_key}
use ruzu.Table.Cells.{AllHave, AllKnown}

-- The primary key of a row.
abbrev pub key_of : NodeTable → ℕ → List Value
key_of self i = row_key self.schema.columns self.columns i self.schema.primary_key

-- Columns of one length, and an index that has the rows by their keys.
pub record IsTable (self : NodeTable) : Type 0 where
  pub width : length self.columns ≡ length self.schema.columns
  pub sizes : AllHave self.row_count self.columns
  pub keys_known : AllKnown self.schema.columns self.schema.primary_key
  pub indexed :
      (key : List Value) (i : ℕ)
      → lookup same_key key self.pk_index ≡ some i
      → (i < self.row_count) × (key_of self i ≡ key)
  pub complete :
      (i : ℕ)
      → i < self.row_count
      → same_key (key_of self i) (key_of self i) ≡ true
      → lookup same_key (key_of self i) self.pk_index ≡ some i

new_columns-AllHave : (defs : List ColumnDef) → AllHave 0 (map (λ def. []) defs)
unfolding AllHave
new_columns-AllHave [] = tt
new_columns-AllHave (def ∷ defs) = (refl, new_columns-AllHave defs)

pub new_table-IsTable :
    (schema : NodeTableSchema)
    → AllKnown schema.columns schema.primary_key
    → IsTable (new_table schema)
unfolding new_table lookup
new_table-IsTable schema known = record {
  width = length-map schema.columns (λ def. []);
  sizes = new_columns-AllHave schema.columns;
  keys_known = known;
  indexed = λ key i e. absurd cc;
  complete = λ i below own. absurd (omega arith);
}

-- One more row, that of the call.
pub record HasRow (row : Row) (before after : NodeTable) : Type 0 where
  pub table : IsTable after
  pub counted : after.row_count ≡ before.row_count + 1
  pub old_rows :
      (i : ℕ) (name : String) → i < before.row_count → get after i name ≡ get before i name
  pub new_row :
      (name : String)
      → any_column before.schema.columns name ≡ true
      → get after before.row_count name ≡ lookup same_name name row
