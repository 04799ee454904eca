-- ===== src/Csr/Refine.antt =====
-- `CsrNodeGroup` implements its rows: each operation does to the arrays what the list operation
-- does to the rows, and does not panic.
use ruzu.Prelude.{
  ℕ, ◌+◌, ◌^◌, ◌≤◌, ◌<◌, ◌≡◌, refl, ap, ap₂, sym, ◌∙◌, append_assoc, map-append, some, List, [],
  ◌∷◌, ◌++◌, map, arith, length, get_elem?, take, insert_at, length-append, length-map, ok, err,
  storage_error, le→leb, lt→ltb, le→ltb, take-length-append, drop-length-append, add_u32, ==_refl,
  get_elem?-some_lt,
}
use native.Mathlib.Numerals.{add-one}
use ruzu.Csr.{
  CsrNodeGroup, slice, vec_insert, new, get_neighbors, get_rel_ids, degree, add_node_edges,
  insert_edge, bump_from,
}
use ruzu.Csr.Rows.{
  Row, Holds, neighbor_of, rel_of, offsets_of, edges_of, total, push_edge, edges_before,
  edges_after, offset-start, offset-end, edges-split, edges-push_edge, bump_from-offsets_of,
  length-push_edge, offsets_of-append_row, edges-append_row,
}

slice-middle {ℓ} :
    {A : Type ℓ} (xs ys zs : List A)
    → slice (xs ++ (ys ++ zs)) (length xs) (length xs + length ys) ≡ ok ys
unfolding slice
slice-middle xs ys zs = rw (le→leb (length xs) (length xs + length ys) (omega arith)) (
    rw
      (le→leb (length xs + length ys) (length (xs ++ (ys ++ zs)))
        (omega (arith, length-append xs (ys ++ zs), length-append ys zs)))
      (rw (drop-length-append xs (ys ++ zs))
        (ap ok (ap (λ n. take n (ys ++ zs)) (omega arith) ∙ take-length-append ys zs))))

insert_at-middle {ℓ} :
    {A : Type ℓ} (xs zs : List A) (v : A) → insert_at (length xs) v (xs ++ zs) ≡ xs ++ (v ∷ zs)
insert_at-middle [] zs v = refl
insert_at-middle (x ∷ xs) zs v = ap (λ t. x ∷ t) (insert_at-middle xs zs v)

vec_insert-middle {ℓ} :
    {A : Type ℓ} (xs zs : List A) (v : A)
    → vec_insert (xs ++ zs) (length xs) v ≡ ok (xs ++ (v ∷ zs))
unfolding vec_insert
vec_insert-middle xs zs v =
    rw (le→leb (length xs) (length (xs ++ zs)) (omega (arith, length-append xs zs)))
      (ap ok (insert_at-middle xs zs v))

module _ (f : ℕ × ℕ → ℕ) (rows : List Row) (i : ℕ) (r : Row) (at : get_elem? rows i ≡ some r) where
  mapped-split :
      map f (edges_of rows) ≡ map f (edges_before i rows) ++ (map f r ++ map f (edges_after i rows))
  mapped-split = rw (edges-split r i rows at, map-append, map-append)

  slice-row :
      slice
        (map f (edges_of rows))
        (length (edges_before i rows))
        (length (edges_before i rows) + length r)
      ≡ ok (map f r)
  slice-row =
      rw (mapped-split, ← length-map (edges_before i rows) f, ← length-map r f)
        (slice-middle (map f (edges_before i rows)) (map f r) (map f (edges_after i rows)))

  mapped-at_end :
      map f (edges_of rows) ≡ map f (edges_before i rows ++ r) ++ map f (edges_after i rows)
  mapped-at_end = rw (edges-split r i rows at) (simp (map-append, append_assoc))

  mapped-push_edge :
      (e : ℕ × ℕ)
      → map f (edges_of (push_edge i e rows))
        ≡ map f (edges_before i rows ++ r) ++ (f e ∷ map f (edges_after i rows))
  mapped-push_edge e = rw (edges-push_edge r i e rows at, map-append)

  length-at_end :
      length (edges_before i rows) + length r ≡ length (map f (edges_before i rows ++ r))
  length-at_end =
      sym (length-map (edges_before i rows ++ r) f ∙ length-append (edges_before i rows) r)

  insert-row :
      (e : ℕ × ℕ)
      → vec_insert (map f (edges_of rows)) (length (edges_before i rows) + length r) (f e)
        ≡ ok (map f (edges_of (push_edge i e rows)))
  insert-row e =
      rw (mapped-at_end, mapped-push_edge e, length-at_end)
        (vec_insert-middle (map f (edges_before i rows ++ r)) (map f (edges_after i rows)) (f e))

module _ {ℓ} {V : Type ℓ} (g : CsrNodeGroup V) (rows : List Row) (h : Holds g rows) where
  module _ (i : ℕ) (r : Row) (at : get_elem? rows i ≡ some r) where
    start_at : get_elem? g.offsets i ≡ some (length (edges_before i rows))
    start_at = rw h.offs (offset-start r i 0 rows at ∙ ap some (omega arith))

    end_at : get_elem? g.offsets (i + 1) ≡ some (length (edges_before i rows) + length r)
    end_at = rw (h.offs, add-one) (offset-end r i 0 rows at ∙ ap some (omega arith))

    -- On a group that is the compressed form of some rows, a node that has a row gets the neighbors
    -- and the relationship ids of its row, in order, and the row's length as its degree; nothing
    -- panics.
    pub get-Holds :
        (get_neighbors g i ≡ ok (map neighbor_of r))
        × (get_rel_ids g i ≡ ok (map rel_of r))
        × (degree g i ≡ ok (length r))
    unfolding get_neighbors get_rel_ids degree
    get-Holds = (
      rw (start_at, end_at, h.nbrs) (slice-row neighbor_of rows i r at),
      rw (start_at, end_at, h.rels) (slice-row rel_of rows i r at),
      rw
          (
            start_at,
            end_at,
            le→leb (length (edges_before i rows)) (length (edges_before i rows) + length r)
                (omega arith),
          )
          (ap ok (omega arith)),
    )

    in_range : i < g.num_nodes
    in_range = omega (arith, h.nodes, get_elem?-some_lt rows i r at)

    -- On a group that is the compressed form of some rows, with a row for the node and fewer than
    -- `2 ^ 64 - 1` edges, `insert_edge` succeeds, and the group is then the compressed form of the
    -- rows with the edge at the end of the node's row and no other row changed. The group keeps its
    -- id.
    pub insert_edge-Holds :
        (e : ℕ × ℕ)
        → total rows + 1 < 2 ^ 64
        → (g' : CsrNodeGroup V) × (insert_edge g i (neighbor_of e) (rel_of e) ≡ ok g')
          × Holds g' (push_edge i e rows)
          × (g'.group_id ≡ g.group_id)
    unfolding insert_edge
    insert_edge-Holds e room = (
      record g {
        neighbors = map neighbor_of (edges_of (push_edge i e rows));
        rel_ids = map rel_of (edges_of (push_edge i e rows));
        offsets = bump_from (i + 1) g.offsets;
      },
      rw (
        lt→ltb i g.num_nodes in_range,
        end_at,
        h.nbrs,
        insert-row neighbor_of rows i r at e,
        h.rels,
        insert-row rel_of rows i r at e,
      ),
      record {
        nodes = h.nodes ∙ sym (length-push_edge i e rows);
        offs =
            rw (h.offs, add-one)
              (bump_from-offsets_of i 0 e rows (get_elem?-some_lt rows i r at) (omega arith));
        nbrs = refl;
        rels = refl;
      },
      refl,
    )

  -- A node past the last one is an error, and the group is left alone.
  pub insert_edge_out_of_range :
      (i n r : ℕ) → length rows ≤ i → insert_edge g i n r ≡ err storage_error
  unfolding insert_edge
  insert_edge_out_of_range i n r h' = rw (le→ltb i g.num_nodes (omega (arith, h.nodes)))

module _ {ℓ} {V : Type ℓ} (g : CsrNodeGroup V) (rows : List Row) (r : Row) (h : Holds g rows) where
  length-neighbors : length (g.neighbors ++ map neighbor_of r) ≡ total rows + length r
  length-neighbors =
      length-append g.neighbors (map neighbor_of r)
      ∙ ap₂ ◌+◌ (ap length h.nbrs ∙ length-map (edges_of rows) neighbor_of)
          (length-map r neighbor_of)

  pub Holds-append_row :
      length rows + 1 < 2 ^ 32
      → Holds
          (record g {
            neighbors = g.neighbors ++ map neighbor_of r;
            rel_ids = g.rel_ids ++ map rel_of r;
            offsets = g.offsets ++ (length (g.neighbors ++ map neighbor_of r) ∷ []);
            num_nodes = add_u32 g.num_nodes 1;
          })
          (rows ++ (r ∷ []))
  Holds-append_row room = record {
    nodes = omega (arith, h.nodes, length-append rows (r ∷ []));
    offs =
        rw (offsets_of-append_row 0 rows r, length-neighbors, h.offs)
          (ap (λ c. offsets_of 0 rows ++ (c ∷ [])) (omega arith));
    nbrs = rw (edges-append_row rows r, map-append, h.nbrs);
    rels = rw (edges-append_row rows r, map-append, h.rels);
  }

-- On a group that is the compressed form of some rows, fewer than `2 ^ 32 - 1`, `add_node_edges`
-- with the neighbors and ids of a row succeeds, and the group is then the compressed form of the
-- rows with this one behind them.
pub add_node_edges-Holds {ℓ} :
    {V : Type ℓ} (g : CsrNodeGroup V) (rows : List Row) (r : Row)
    → Holds g rows
    → length rows + 1 < 2 ^ 32
    → (g' : CsrNodeGroup V) × (add_node_edges g (map neighbor_of r) (map rel_of r) ≡ ok g')
      × Holds g' (rows ++ (r ∷ []))
unfolding add_node_edges
add_node_edges-Holds g rows r h room = (
  record g {
    neighbors = g.neighbors ++ map neighbor_of r;
    rel_ids = g.rel_ids ++ map rel_of r;
    offsets = g.offsets ++ (length (g.neighbors ++ map neighbor_of r) ∷ []);
    num_nodes = add_u32 g.num_nodes 1;
  },
  rw (length-map r neighbor_of, length-map r rel_of, ==_refl (length r)),
  Holds-append_row g rows r h room,
)

pub Holds-new {ℓ} : {V : Type ℓ} (k : ℕ) → Holds {V = V} (new k) []
unfolding new
Holds-new k = record { nodes = refl; offs = refl; nbrs = refl; rels = refl }
