-- ===== src/Rel/Tests.antt =====
-- Runs of `RelTable`, and the theorems at them.
use ruzu.Prelude.{ℕ, ◌≡◌, refl, List, [], ◌∷◌, ok}
use ruzu.Types.{int64}
use ruzu.Catalog.{RelTableSchema, forward}
use ruzu.Prelude.Dict
use ruzu.Csr
use ruzu.Rel.{
  RelTable, new, insert, get_forward_edges, get_backward_edges, edges_at, insert_into, ensure_group,
  or_insert, extend, preallocate, push_node, insert_backward, group_edges, store_properties,
  zip_edges,
}

-- `KNOWS`, with one property `since`
abbrev knows : RelTableSchema
knows = record {
  table_id = 1;
  name = "KNOWS";
  src_table = "Person";
  dst_table = "Person";
  columns = record { name = "since"; data_type = int64 } ∷ [];
  direction = forward;
}

abbrev empty_table : RelTable ℕ
empty_table = new knows

abbrev three_rels : List (ℕ × ℕ × List ℕ)
three_rels = (5, 7, 2020 ∷ []) ∷ (5, 5, 2021 ∷ []) ∷ (7, 5, 2022 ∷ []) ∷ []

both_ways :
    (get_forward_edges (insert empty_table 0 2 (1 ∷ [])).1 0 ≡ ok ((2, 0) ∷ []))
    × (get_backward_edges (insert empty_table 0 2 (1 ∷ [])).1 2 ≡ ok ((0, 0) ∷ []))
unfolding new insert get_forward_edges get_backward_edges edges_at Dict.get insert_into ensure_group
    or_insert Dict.put Csr.insert_edge extend preallocate push_node Csr.new Csr.vec_insert
    insert_backward group_edges Csr.get_neighbors Csr.bump_from Csr.slice Csr.get_rel_ids
    store_properties zip_edges
both_ways = (refl, refl)
