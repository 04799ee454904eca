-- ===== src/Table/Tests.antt =====
-- The theorems at a table of two people.
use Prim.Native.String.{String}
use ruzu.Prelude.{ℕ, ◌+◌, ◌<◌, ◌≡◌, ◌↔◌, refl, true, some, none, List, [], ◌∷◌, arith, ok, length}
use ruzu.Prelude.Names.{lookup}
use ruzu.Types.{DataType}
use ruzu.Types.Value.{Value, pos, same_value, same_key}
use ruzu.Catalog.{NodeTableSchema}
use ruzu.Table.{Row, NodeTable, new_table, insert_row, find_by_pk, get, from_data, to_data}
use ruzu.Table.Invariant.{IsTable, new_table-IsTable}
use ruzu.Table.Insert.{Inserted, insert_row-Inserted}
use ruzu.Table.Reach.{serve_all, one, batch, reachable-IsTable}
use ruzu.Table.Batch.{insert_batch}
use ruzu.Table.Batch.Outcome.{BatchInserted, insert_batch-BatchInserted}
use ruzu.Table.Index.{from_data-to_data, find_by_pk_iff}

abbrev person : NodeTableSchema
person = record {
  table_id = 0;
  name = "Person";
  columns =
      record { name = "name"; data_type = DataType.string }
      ∷ record { name = "age"; data_type = DataType.int64 }
      ∷ [];
  primary_key = "name" ∷ [];
}

abbrev alice : Row
alice = ("age", Value.int64 (pos 30)) ∷ ("name", Value.string "Alice") ∷ []

abbrev bob : Row
bob = ("name", Value.string "Bob") ∷ ("age", Value.null) ∷ []

empty_person-IsTable : IsTable (new_table person)
unfolding ruzu.Table.Cells.AllKnown ruzu.Catalog.any_column ruzu.Prelude.Names.same_name
empty_person-IsTable = new_table-IsTable person (refl, tt)

abbrev first : NodeTable
first = (insert_row alice (new_table person)).1

abbrev two : NodeTable
two = (insert_row bob first).1

insert_row-Inserted_example :
    Inserted alice (new_table person) (insert_row alice (new_table person))
insert_row-Inserted_example = insert_row-Inserted alice (new_table person) empty_person-IsTable

first-IsTable : IsTable first
unfolding Inserted insert_row ruzu.Table.try_insert ruzu.Table.check_present new_table
    ruzu.Prelude.Names.contains_key ruzu.Prelude.Names.same_name ruzu.Table.check_types
    ruzu.Catalog.get_column ruzu.Table.check_type ruzu.Types.Value.is_null
    ruzu.Types.Value.data_type ruzu.Table.unwrap_all lookup ruzu.Table.add_unique ruzu.Table.add_row
    ruzu.Table.push_row
first-IsTable = (insert_row-Inserted alice (new_table person) empty_person-IsTable).table

two-IsTable : IsTable two
unfolding Inserted insert_row ruzu.Table.try_insert ruzu.Table.check_present new_table
    ruzu.Prelude.Names.contains_key ruzu.Prelude.Names.same_name ruzu.Table.check_types
    ruzu.Catalog.get_column ruzu.Table.check_type ruzu.Types.Value.is_null
    ruzu.Types.Value.data_type ruzu.Table.unwrap_all lookup ruzu.Table.add_unique ruzu.Table.add_row
    ruzu.Table.push_row ruzu.Prelude.Names.insert same_key same_value
two-IsTable = (insert_row-Inserted bob first first-IsTable).table

-- A second Alice is refused.
third : (insert_row alice two).1 ≡ two
unfolding Inserted insert_row ruzu.Table.try_insert ruzu.Table.check_present new_table
    ruzu.Prelude.Names.contains_key ruzu.Prelude.Names.same_name ruzu.Table.check_types
    ruzu.Catalog.get_column ruzu.Table.check_type ruzu.Types.Value.is_null
    ruzu.Types.Value.data_type ruzu.Table.unwrap_all lookup ruzu.Table.add_unique ruzu.Table.add_row
    ruzu.Table.push_row ruzu.Prelude.Names.insert same_key same_value
third = (insert_row-Inserted alice two two-IsTable).0

find_by_pk_iff_example : (find_by_pk two "name" (Value.string "Bob") ≡ some 1) ↔ (
    (1 < two.row_count)
    × (get two 1 "name" ≡ some (Value.string "Bob"))
    × (same_value (Value.string "Bob") (Value.string "Bob") ≡ true))
unfolding insert_row ruzu.Table.try_insert ruzu.Table.check_present new_table
    ruzu.Prelude.Names.contains_key ruzu.Prelude.Names.same_name ruzu.Table.check_types
    ruzu.Catalog.get_column ruzu.Table.check_type ruzu.Types.Value.is_null
    ruzu.Types.Value.data_type ruzu.Table.unwrap_all lookup ruzu.Table.add_unique ruzu.Table.add_row
    ruzu.Table.push_row ruzu.Prelude.Names.insert same_key same_value
find_by_pk_iff_example = find_by_pk_iff two two-IsTable "name" refl (Value.string "Bob") 1

from_data-to_data_example :
    lookup same_key (Value.string "Bob" ∷ []) (from_data person (to_data two)).pk_index
    ≡ lookup same_key (Value.string "Bob" ∷ []) two.pk_index
unfolding insert_row ruzu.Table.try_insert ruzu.Table.check_present new_table
    ruzu.Prelude.Names.contains_key ruzu.Prelude.Names.same_name ruzu.Table.check_types
    ruzu.Catalog.get_column ruzu.Table.check_type ruzu.Types.Value.is_null
    ruzu.Types.Value.data_type ruzu.Table.unwrap_all lookup ruzu.Table.add_unique ruzu.Table.add_row
    ruzu.Table.push_row ruzu.Prelude.Names.insert same_key same_value
from_data-to_data_example = from_data-to_data two two-IsTable (Value.string "Bob" ∷ [])

-- Two more people, with the columns in another order.
abbrev people : List (List Value)
people =
    (Value.int64 (pos 41) ∷ Value.string "Carol" ∷ [])
    ∷ (Value.null ∷ Value.string "Dave" ∷ [])
    ∷ []

abbrev given : List String
given = "age" ∷ "name" ∷ []

insert_batch-BatchInserted_example : BatchInserted given people two (insert_batch people given two)
insert_batch-BatchInserted_example = insert_batch-BatchInserted people given two two-IsTable

carol : find_by_pk (insert_batch people given two).1 "name" (Value.string "Carol") ≡ some 2
unfolding find_by_pk ruzu.Catalog.contains insert_batch insert_row ruzu.Table.try_insert
    ruzu.Table.check_present new_table ruzu.Prelude.Names.contains_key ruzu.Prelude.Names.same_name
    ruzu.Table.check_types ruzu.Catalog.get_column ruzu.Table.check_type ruzu.Types.Value.is_null
    ruzu.Types.Value.data_type ruzu.Table.unwrap_all lookup ruzu.Table.add_unique ruzu.Table.add_row
    ruzu.Table.push_row ruzu.Prelude.Names.insert same_key same_value ruzu.Table.Batch.col_mapping
    ruzu.Table.Batch.position ruzu.Table.Batch.insert_mapped ruzu.Table.Batch.check_rows
    ruzu.Table.Batch.batch_key ruzu.Table.Batch.pk_col_indices ruzu.Catalog.get_column_index
    ruzu.Table.Batch.mapped_value ruzu.Table.Batch.check_key ruzu.Table.Batch.seen_key
    ruzu.Table.Batch.add_rows ruzu.Table.Batch.add_mapped ruzu.Table.Batch.push_mapped
carol = refl

reachable-IsTable_example :
    IsTable (serve_all (one alice ∷ batch people given ∷ one alice ∷ []) (new_table person))
unfolding ruzu.Catalog.new_node_table ruzu.Catalog.validate_node_table ruzu.Catalog.check_unique
    ruzu.Catalog.contains ruzu.Prelude.Names.same_name ruzu.Catalog.check_primary_key
    ruzu.Catalog.any_column
reachable-IsTable_example =
    reachable-IsTable "Person" person.columns ("name" ∷ []) person
      (one alice ∷ batch people given ∷ one alice ∷ []) refl
