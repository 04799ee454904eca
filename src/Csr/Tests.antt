-- ===== src/Csr/Tests.antt =====
-- Runs of `CsrNodeGroup`, and the theorems at them.
use ruzu.Prelude.{ℕ, ◌≡◌, ◌↔◌, refl, List, [], ◌∷◌, ◌++◌, arith, ok, err, storage_error}
use ruzu.Csr.{
  CsrNodeGroup, slice, vec_insert, bump_from, starts_at_zero, monotonic, get_neighbors, get_rel_ids,
  degree, insert_edge, add_node_edges, validate,
}
use ruzu.Csr.Rows.{Row, Holds, push_edge}
use ruzu.Csr.Refine.{get-Holds, insert_edge-Holds, add_node_edges-Holds}
use ruzu.Csr.Validate.{validate_iff}

-- Node 0 has edges to 10 and 20, node 1 none, node 2 one to 30.
abbrev three_rows : List Row
three_rows = ((10, 0) ∷ (20, 1) ∷ []) ∷ [] ∷ ((30, 2) ∷ []) ∷ []

abbrev three_nodes : CsrNodeGroup ℕ
three_nodes = record {
  group_id = 0;
  num_nodes = 3;
  offsets = 0 ∷ 2 ∷ 2 ∷ 3 ∷ [];
  neighbors = 10 ∷ 20 ∷ 30 ∷ [];
  rel_ids = 0 ∷ 1 ∷ 2 ∷ [];
  properties = [];
}

three_nodes-Holds : Holds three_nodes three_rows
three_nodes-Holds = record { nodes = refl; offs = refl; nbrs = refl; rels = refl }

neighbors_of_0 : get_neighbors three_nodes 0 ≡ ok (10 ∷ 20 ∷ [])
unfolding get_neighbors slice
neighbors_of_0 = refl

insert_at_1 :
    insert_edge three_nodes 1 40 3
    ≡ ok (record three_nodes {
      offsets = 0 ∷ 2 ∷ 3 ∷ 4 ∷ [];
      neighbors = 10 ∷ 20 ∷ 40 ∷ 30 ∷ [];
      rel_ids = 0 ∷ 1 ∷ 3 ∷ 2 ∷ [];
    })
unfolding insert_edge vec_insert bump_from
insert_at_1 = refl

bad_offsets : validate (record three_nodes { offsets = 0 ∷ 2 ∷ 1 ∷ 3 ∷ [] }) ≡ err storage_error
unfolding validate starts_at_zero monotonic
bad_offsets = refl

get-Holds_example :
    (get_neighbors three_nodes 0 ≡ ok (10 ∷ 20 ∷ []))
    × (get_rel_ids three_nodes 0 ≡ ok (0 ∷ 1 ∷ []))
    × (degree three_nodes 0 ≡ ok 2)
get-Holds_example =
    get-Holds three_nodes three_rows three_nodes-Holds 0 ((10, 0) ∷ (20, 1) ∷ []) refl

insert_edge-Holds_example :
    (g' : CsrNodeGroup ℕ) × (insert_edge three_nodes 1 40 3 ≡ ok g')
    × Holds g' (push_edge 1 (40, 3) three_rows)
    × (g'.group_id ≡ 0)
insert_edge-Holds_example =
    insert_edge-Holds three_nodes three_rows three_nodes-Holds 1 [] refl (40, 3) (omega arith)

add_node_edges-Holds_example :
    (g' : CsrNodeGroup ℕ) × (add_node_edges three_nodes (50 ∷ []) (9 ∷ []) ≡ ok g')
    × Holds g' (three_rows ++ (((50, 9) ∷ []) ∷ []))
add_node_edges-Holds_example =
    add_node_edges-Holds three_nodes three_rows ((50, 9) ∷ []) three_nodes-Holds (omega arith)

validate_iff_example : (validate three_nodes ≡ ok tt) ↔ ((rows : List Row) × Holds three_nodes rows)
validate_iff_example = validate_iff three_nodes
