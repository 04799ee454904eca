-- ===== src/Rel/Extend.antt =====
-- Nodes without edges are added to a group as empty rows.
use native.Mathlib.Nat.{zero-add}
use ruzu.Prelude.{
  ℕ, zero, suc, ◌+◌, ◌≤◌, ◌<◌, ◌≡◌, refl, ap, sym, subst, ◌∙◌, Option, none, some, List, [], ◌∷◌,
  ◌++◌, arith, length, get_elem?, length-append, length-map, ltb, Bool-cases, inl, inr, ltb→lt,
  ltb→le, append-nil,
}
use ruzu.Csr
use ruzu.Csr.{CsrNodeGroup, node_group_size}
use ruzu.Csr.Rows.{
  Row, Holds, neighbor_of, edges_of, offsets_of, total, offsets_of-append_row, edges-append_row,
}
use ruzu.Csr.Refine.{Holds-new}
use ruzu.Rel.{push_node, preallocate, extend}

-- The row of a node, empty where there is none.
abbrev pub row_or : Option Row → Row
row_or none = []
row_or (some r) = r

abbrev pub row_at : List Row → ℕ → Row
row_at rows i = row_or (get_elem? rows i)

row_at-append_empty : (rows : List Row) (j : ℕ) → row_at (rows ++ ([] ∷ [])) j ≡ row_at rows j
row_at-append_empty [] zero = refl
row_at-append_empty [] (suc j) = refl
row_at-append_empty (r ∷ rows) zero = refl
row_at-append_empty (r ∷ rows) (suc j) = row_at-append_empty rows j

total-append_empty : (rows : List Row) → total (rows ++ ([] ∷ [])) ≡ total rows
total-append_empty rows = ap length (edges-append_row rows [] ∙ append-nil (edges_of rows))

module _ {ℓ} {V : Type ℓ} where
  push_node-Holds :
      (g : CsrNodeGroup V) (rows : List Row) (c : ℕ)
      → Holds g rows
      → c ≡ total rows
      → length rows < node_group_size
      → Holds (push_node c g) (rows ++ ([] ∷ []))
  unfolding push_node
  push_node-Holds g rows c h e small = record {
    nodes = omega (arith, h.nodes, length-append {0} rows ([] ∷ []));
    offs =
        rw (offsets_of-append_row 0 rows [], h.offs)
          (ap (λ x. offsets_of 0 rows ++ (x ∷ [])) (omega arith));
    nbrs = rw (edges-append_row rows [], append-nil, h.nbrs);
    rels = rw (edges-append_row rows [], append-nil, h.rels);
  }

  -- What a group has become when nodes without edges were added up to `n`.
  pub record Grown (rows : List Row) (n : ℕ) (g : CsrNodeGroup V) : Type 0 where
    pub rows' : List Row
    pub holds : Holds g rows'
    pub enough : n ≤ length rows'
    pub bounded : length rows' ≤ node_group_size
    pub same_total : total rows' ≡ total rows
    pub same_rows : (j : ℕ) → row_at rows' j ≡ row_at rows j

  pub extend-Grown :
      (fuel n : ℕ) (g : CsrNodeGroup V) (rows : List Row)
      → Holds g rows
      → n ≤ length rows + fuel
      → n ≤ node_group_size
      → length rows ≤ node_group_size
      → Grown rows n (extend fuel n g)
  unfolding extend
  extend-Grown zero n g rows h room small fits = record {
    rows' = rows;
    holds = h;
    enough = omega arith;
    bounded = fits;
    same_total = refl;
    same_rows = λ j. refl;
  }
  extend-Grown (suc fuel) n g rows h room small fits = elim (Bool-cases (ltb g.num_nodes n)) [
    | inl more ↦
        let len : length g.neighbors ≡ total rows =
          ap length h.nbrs ∙ length-map (edges_of rows) neighbor_of in
        let below : length rows < n = omega (arith, h.nodes, ltb→lt g.num_nodes n more) in
        let rest : Grown (rows ++ ([] ∷ [])) n (extend fuel n (push_node (length g.neighbors) g)) =
          extend-Grown fuel n (push_node (length g.neighbors) g) (rows ++ ([] ∷ []))
            (push_node-Holds g rows (length g.neighbors) h len (omega arith))
            (omega (arith, length-append {0} rows ([] ∷ []))) small
            (omega (arith, length-append {0} rows ([] ∷ []))) in
        rw (more, extend)
          (record {
            rows' = rest.rows';
            holds = rest.holds;
            enough = rest.enough;
            bounded = rest.bounded;
            same_total = rest.same_total ∙ total-append_empty rows;
            same_rows = λ j. rest.same_rows j ∙ row_at-append_empty rows j;
          })
    | inr done ↦
        rw (done, extend)
          (record {
            rows' = rows;
            holds = h;
            enough = omega (arith, h.nodes, ltb→le g.num_nodes n done);
            bounded = fits;
            same_total = refl;
            same_rows = λ j. refl;
          })
  ]

  preallocate-Grown :
      (n : ℕ) (g : CsrNodeGroup V) (rows : List Row)
      → Holds g rows
      → total rows ≡ 0
      → length rows + n ≤ node_group_size
      → Grown rows (length rows + n) (preallocate n g)
  unfolding preallocate
  preallocate-Grown zero g rows h z small = record {
    rows' = rows;
    holds = h;
    enough = omega arith;
    bounded = omega arith;
    same_total = refl;
    same_rows = λ j. refl;
  }
  preallocate-Grown (suc n) g rows h z small =
      let rest : Grown (rows ++ ([] ∷ [])) (length (rows ++ ([] ∷ [])) + n)
          (preallocate n (push_node 0 g)) =
        preallocate-Grown n (push_node 0 g) (rows ++ ([] ∷ []))
          (push_node-Holds g rows 0 h (sym z) (omega arith)) (total-append_empty rows ∙ z)
          (omega (arith, length-append {0} rows ([] ∷ []))) in
      record {
        rows' = rest.rows';
        holds = rest.holds;
        enough = omega (arith, rest.enough, length-append {0} rows ([] ∷ []));
        bounded = rest.bounded;
        same_total = rest.same_total ∙ total-append_empty rows;
        same_rows = λ j. rest.same_rows j ∙ row_at-append_empty rows j;
      }

  -- A new group with `n` nodes has no edges.
  pub preallocate-new-Grown :
      (n k : ℕ) → n ≤ node_group_size → Grown [] n (preallocate n (Csr.new k))
  preallocate-new-Grown n k small =
      subst (λ c. Grown [] c (preallocate n (Csr.new k))) (zero-add n)
        (preallocate-Grown n (Csr.new k) [] (Holds-new k) refl (omega arith))
