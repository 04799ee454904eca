-- ===== src/Rel.antt =====
-- src/storage/rel_table.rs: `RelTable`, two indices of groups by node group, and the properties.
-- A property value is of any type `V`. A method that mutates the table and may fail returns its
-- result beside the table that it leaves, also on an error.
pub mod Extend
pub mod Index
pub mod Insert
pub mod Batch
mod Tests
use ruzu.Prelude.{
  ℕ, zero, suc, ◌+◌, ◌*◌, ◌/◌, ◌%◌, Bool, true, false, ◌&&◌, Option, none, some, List, [], ◌∷◌,
  ◌++◌, map, Result, ok, err, panic, execution_error, ◌>>=◌, ltb, ◌==◌, if◌then◌else◌, length,
  add_u64, add_u32, as_u32,
}
use ruzu.Prelude.Dict
use ruzu.Prelude.Dict.{Dict}
use ruzu.Catalog.{RelTableSchema}
use ruzu.Csr
use ruzu.Csr.{CsrNodeGroup, node_group_size}

abbrev pub Edges : Type 0
Edges = List (ℕ × ℕ)

pub record RelTable {ℓ} (V : Type ℓ) : Type ℓ where
  pub schema : RelTableSchema
  pub forward_groups : Dict (CsrNodeGroup V)
  pub backward_groups : Dict (CsrNodeGroup V)
  pub next_rel_id : ℕ
  pub properties : Dict (List V)

-- The node group of a node, and its place in it. The casts to `u32` keep the low bits.
abbrev pub group_of : ℕ → ℕ
group_of node = as_u32 (node / node_group_size)

abbrev pub local_of : ℕ → ℕ
local_of node = as_u32 (node % node_group_size)

unfoldable pub zip_edges : List ℕ → List ℕ → Edges
zip_edges (n ∷ ns) (r ∷ rs) = (n, r) ∷ zip_edges ns rs
zip_edges _ _ = []

module _ {ℓ} {V : Type ℓ} where
  unfoldable pub new : RelTableSchema → RelTable V
  new schema = record {
    schema = schema;
    forward_groups = [];
    backward_groups = [];
    next_rel_id = 0;
    properties = [];
  }

  -- `offsets.push(offset); num_nodes += 1`
  unfoldable pub push_node : ℕ → CsrNodeGroup V → CsrNodeGroup V
  push_node offset g = record g {
    offsets = g.offsets ++ (offset ∷ []);
    num_nodes = add_u32 g.num_nodes 1;
  }

  -- `for _ in 0..min_nodes`
  unfoldable pub preallocate : ℕ → CsrNodeGroup V → CsrNodeGroup V
  preallocate zero g = g
  preallocate (suc rounds) g = preallocate rounds (push_node 0 g)

  -- `while group.num_nodes < min_nodes`, with fuel
  unfoldable pub extend : ℕ → ℕ → CsrNodeGroup V → CsrNodeGroup V
  extend zero min_nodes g = g
  extend (suc fuel) min_nodes g = elim (ltb g.num_nodes min_nodes) [
    | true ↦ extend fuel min_nodes (push_node (length g.neighbors) g)
    | false ↦ g
  ]

  -- `entry(group_id).or_insert_with(…)`
  unfoldable pub or_insert : Dict (CsrNodeGroup V) → ℕ → ℕ → Dict (CsrNodeGroup V)
  or_insert groups group_id min_nodes = elim (Dict.get group_id groups) [
    | none ↦ Dict.put group_id (preallocate min_nodes (Csr.new group_id)) groups
    | some g ↦ groups
  ]

  -- `ensure_forward_group` and `ensure_backward_group`, which differ in the field alone. Each round
  -- of the `while` adds a node, so `min_nodes` rounds are enough.
  unfoldable pub ensure_group : Dict (CsrNodeGroup V) → ℕ → ℕ → Dict (CsrNodeGroup V)
  ensure_group groups group_id min_nodes =
      let entered = or_insert groups group_id min_nodes in
      elim (Dict.get group_id entered) [
        | none ↦ entered
        | some g ↦ Dict.put group_id (extend min_nodes min_nodes g) entered
      ]

  -- `if let Some(group) = groups.get_mut(&group_id) { group.insert_edge(…)?; }`
  unfoldable pub insert_into :
      Dict (CsrNodeGroup V) → ℕ → ℕ → ℕ → ℕ → Result (Dict (CsrNodeGroup V))
  insert_into groups group_id local_id neighbor rel_id = elim (Dict.get group_id groups) [
    | none ↦ ok groups
    | some g ↦ do g' ← Csr.insert_edge g local_id neighbor rel_id; ok (Dict.put group_id g' groups)
  ]

  -- `if !props.is_empty() { self.properties.insert(rel_id, props); }`
  unfoldable pub store_properties : Dict (List V) → ℕ → List V → Dict (List V)
  store_properties properties rel_id [] = properties
  store_properties properties rel_id (p ∷ props) = Dict.put rel_id (p ∷ props) properties

  -- The backward half of `insert`, and the properties. `t` has the forward half done.
  unfoldable pub insert_backward : RelTable V → ℕ → ℕ → ℕ → List V → Result ℕ × RelTable V
  insert_backward t src_node_id dst_node_id rel_id props =
      let ensured =
        ensure_group t.backward_groups (group_of dst_node_id) (add_u32 (local_of dst_node_id) 1) in
      elim (insert_into ensured (group_of dst_node_id) (local_of dst_node_id) src_node_id rel_id) [
        | ok groups ↦ (
          ok rel_id,
          record t {
            backward_groups = groups;
            properties = store_properties t.properties rel_id props;
          },
        )
        | err e ↦ (err e, record t { backward_groups = ensured })
        | panic ↦ (panic, record t { backward_groups = ensured })
      ]

  unfoldable pub insert : RelTable V → ℕ → ℕ → List V → Result ℕ × RelTable V
  insert t src_node_id dst_node_id props =
      let rel_id = t.next_rel_id in
      let ensured =
        ensure_group t.forward_groups (group_of src_node_id) (add_u32 (local_of src_node_id) 1) in
      let counted : RelTable V = record t {
        next_rel_id = add_u64 rel_id 1;
        forward_groups = ensured;
      } in
      if length props == length t.schema.columns
      then (elim (insert_into ensured (group_of src_node_id) (local_of src_node_id) dst_node_id
          rel_id) [
            | ok groups ↦
                insert_backward (record counted { forward_groups = groups }) src_node_id dst_node_id
                  rel_id props
            | err e ↦ (err e, counted)
            | panic ↦ (panic, counted)
          ])
      else (err execution_error, t)

  -- The edges of one node of a group: none for a node that the group has not got.
  unfoldable pub group_edges : CsrNodeGroup V → ℕ → Result Edges
  group_edges g local_id =
      if ltb local_id g.num_nodes
      then (do
        neighbors ← Csr.get_neighbors g local_id
        rel_ids ← Csr.get_rel_ids g local_id
        ok (zip_edges neighbors rel_ids))
      else ok []

  -- The body that `get_forward_edges` and `get_backward_edges` share.
  unfoldable pub edges_at : Dict (CsrNodeGroup V) → ℕ → Result Edges
  edges_at groups node = elim (Dict.get (group_of node) groups) [
    | none ↦ ok []
    | some g ↦ group_edges g (local_of node)
  ]

  unfoldable pub get_forward_edges : RelTable V → ℕ → Result Edges
  get_forward_edges t src_node_id = edges_at t.forward_groups src_node_id

  unfoldable pub get_backward_edges : RelTable V → ℕ → Result Edges
  get_backward_edges t dst_node_id = edges_at t.backward_groups dst_node_id

  unfoldable pub get_properties : RelTable V → ℕ → Option (List V)
  get_properties t rel_id = Dict.get rel_id t.properties

  -- `map(num_edges).sum()` over the forward groups
  unfoldable pub sum_edges : Dict (CsrNodeGroup V) → ℕ
  sum_edges [] = 0
  sum_edges ((k, g) ∷ groups) = Csr.num_edges g + sum_edges groups

  unfoldable pub len : RelTable V → ℕ
  len t = sum_edges t.forward_groups

  -- The validation loop of `insert_batch`.
  unfoldable pub all_counts : ℕ → List (ℕ × ℕ × List V) → Bool
  all_counts expected [] = true
  all_counts expected ((s, d, props) ∷ rest) = length props == expected && all_counts expected rest

  -- The insertion loop of `insert_batch`, which stops at the first failure.
  unfoldable pub insert_each : RelTable V → List (ℕ × ℕ × List V) → Result (Unit {0}) × RelTable V
  insert_each t [] = (ok tt, t)
  insert_each t ((s, d, props) ∷ rest) =
      let (r, t') = insert t s d props in
      elim r [ ok id ↦ insert_each t' rest | err e ↦ (err e, t') | panic ↦ (panic, t') ]

  unfoldable pub insert_batch : RelTable V → List (ℕ × ℕ × List V) → Result ℕ × RelTable V
  insert_batch t [] = (ok 0, t)
  insert_batch t (r ∷ rest) =
      let relationships = r ∷ rest in
      let (inserted, t') = insert_each t relationships in
      if all_counts (length t.schema.columns) relationships
      then ((do done ← inserted; ok (length relationships)), t')
      else (err execution_error, t)
