-- ===== src/Rel/Insert.antt =====
-- `RelTable::insert`: on a valid table, with nodes in the range of the casts, it succeeds, and the
-- edge is then the last one of its source forwards and of its destination backwards.
use ruzu.Prelude.{
  ℕ, ◌+◌, ◌*◌, ◌^◌, ◌<◌, ◌≡◌, List, [], ◌∷◌, ◌++◌, ◌==◌, if◌then◌else◌, Result, ok, err, panic,
}
use ruzu.Prelude.Dict.{Dict}
use ruzu.Csr.{node_group_size}
use ruzu.Rel.{RelTable, Edges, get_forward_edges, get_backward_edges, store_properties}
use ruzu.Rel.Index.{IsIndex}

-- The nodes whose group id fits in a `u32`.
abbrev pub max_node : ℕ
max_node = node_group_size * 2 ^ 32

abbrev pub append_edge : ℕ × ℕ → Result Edges → Result Edges
append_edge e (ok es) = ok (es ++ (e ∷ []))
append_edge e (err x) = err x
append_edge e panic = panic

module _ {ℓ} {V : Type ℓ} where
  -- Both indices are sound, and no more edges are stored than ids were given out.
  pub record IsTable (t : RelTable V) : Type ℓ where
    pub forward : IsIndex t.next_rel_id t.forward_groups
    pub backward : IsIndex t.next_rel_id t.backward_groups

  -- What an insertion of the edge `s → d` with id `id` has made of the table.
  pub record Inserted (t : RelTable V) (s d : ℕ) (props : List V) (t' : RelTable V) : Type ℓ where
    pub valid : IsTable t'
    pub next : t'.next_rel_id ≡ t.next_rel_id + 1
    pub schema : t'.schema ≡ t.schema
    pub forwards :
        (n : ℕ)
        → n < max_node
        → get_forward_edges t' n ≡ (
            if s == n
            then append_edge (d, t.next_rel_id) (get_forward_edges t n)
            else get_forward_edges t n)
    pub backwards :
        (n : ℕ)
        → n < max_node
        → get_backward_edges t' n ≡ (
            if d == n
            then append_edge (s, t.next_rel_id) (get_backward_edges t n)
            else get_backward_edges t n)
    pub properties : t'.properties ≡ store_properties t.properties t.next_rel_id props
