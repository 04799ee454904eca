-- ===== src/Csr/Validate.antt =====
-- `CsrNodeGroup::validate` accepts exactly the groups that are the compressed form of some rows.
use ruzu.Prelude.{
  ℕ, zero, suc, ◌+◌, ◌-◌, ◌≤◌, ◌≡◌, ◌↔◌, refl, ap, ap₂, sym, ◌∙◌, List, [], ◌∷◌, ◌++◌, map, arith,
  length, length-append, length-map, length-take, take, drop, true, false, le→ltb, ◌==◌, ok,
  storage_error, guard, >>=-eq-ok, ==→eq, ==_iff, subst, Bool, ok-injective,
}
use ruzu.Csr.{CsrNodeGroup, validate, monotonic, last, starts_at_zero}
use ruzu.Csr.Rows.{Row, Holds, neighbor_of, rel_of, offsets_of, edges_of, total, length-offsets_of}

monotonic-offsets_of :
    (b : ℕ) (rows : List Row) → monotonic (length rows) (offsets_of b rows) ≡ ok tt
unfolding monotonic
monotonic-offsets_of b [] = refl
monotonic-offsets_of b (r ∷ []) = rw (le→ltb (b + length r) b (omega arith))
monotonic-offsets_of b (r ∷ q ∷ rows) =
    rw (le→ltb (b + length r) b (omega arith)) (monotonic-offsets_of (b + length r) (q ∷ rows))

last-offsets_of : (b : ℕ) (rows : List Row) → last (offsets_of b rows) ≡ ok (b + total rows)
unfolding last
last-offsets_of b [] = ap ok (omega arith)
last-offsets_of b (r ∷ []) = ap ok (omega (arith, length-append r []))
last-offsets_of b (r ∷ q ∷ rows) =
    last-offsets_of (b + length r) (q ∷ rows)
    ∙ ap ok (omega (arith, length-append r (edges_of (q ∷ rows))))

starts_at_zero-offsets_of : (rows : List Row) → starts_at_zero (offsets_of 0 rows) ≡ true
unfolding starts_at_zero
starts_at_zero-offsets_of [] = refl
starts_at_zero-offsets_of (r ∷ rows) = refl

-- The rows that the offsets cut a list of edges into.
cut : ℕ → List ℕ → Row → List Row
cut a [] es = []
cut a (b ∷ os) es = take (b - a) es ∷ cut b os (drop (b - a) es)

length-drop_le : (n : ℕ) (es : Row) → n ≤ length es → length (drop n es) + n ≡ length es
length-drop_le zero es h = omega arith
length-drop_le (suc n) [] h = absurd (omega arith)
length-drop_le (suc n) (e ∷ es) h = omega (arith, length-drop_le n es (omega arith))

take-drop : (n : ℕ) (es : Row) → take n es ++ drop n es ≡ es
take-drop zero es = refl
take-drop (suc n) [] = refl
take-drop (suc n) (e ∷ es) = ap (λ t. e ∷ t) (take-drop n es)

monotonic_head :
    (a b n : ℕ) (os : List ℕ)
    → monotonic (suc n) (a ∷ b ∷ os) ≡ ok tt
    → (a ≤ b) × (monotonic n (b ∷ os) ≡ ok tt)
unfolding monotonic
monotonic_head a b n os h = ground arith

le-last :
    (a z : ℕ) (os : List ℕ) → monotonic (length os) (a ∷ os) ≡ ok tt → last (a ∷ os) ≡ ok z → a ≤ z
unfolding last
le-last a z [] m l = ground arith
le-last a z (b ∷ os) m l =
    let (h, m') = monotonic_head a b (length os) os m in omega (arith, le-last b z os m' l)

record Cuts (a : ℕ) (os : List ℕ) (es : Row) : Type 0 where
  offs : offsets_of a (cut a os es) ≡ a ∷ os
  edges : edges_of (cut a os es) ≡ es
  count : length (cut a os es) ≡ length os

nil-of : (a : ℕ) (es : Row) → ok a ≡ ok (a + length es) → [] ≡ es
nil-of a [] h = refl
nil-of a (e ∷ es) h = absurd (omega (arith, ok-injective a (a + length (e ∷ es)) h))

cut_lem :
    (a : ℕ) (os : List ℕ) (es : Row)
    → monotonic (length os) (a ∷ os) ≡ ok tt
    → last (a ∷ os) ≡ ok (a + length es)
    → Cuts a os es
unfolding cut
cut_lem a [] es m l = record { offs = refl; edges = nil-of a es (unfold last in l); count = refl }
cut_lem a (b ∷ os) es m l =
    let (h, m') = monotonic_head a b (length os) os m in
    let l' : last (b ∷ os) ≡ ok (a + length es) = unfold last in l in
    let fits : b ≤ a + length es = le-last b (a + length es) os m' l' in
    let len = length-drop_le (b - a) es (omega arith) in
    let step : b + length (drop (b - a) es) ≡ a + length es = omega (arith, len) in
    let rest : Cuts b os (drop (b - a) es) =
      cut_lem b os (drop (b - a) es) m' (l' ∙ ap ok (sym step)) in
    let size : a + length (take (b - a) es) ≡ b = omega (arith, length-take (b - a) es, len) in
    record {
      offs = ap (λ t. a ∷ t) (ap (λ c. offsets_of c (cut b os (drop (b - a) es))) size ∙ rest.offs);
      edges = ap (λ t. take (b - a) es ++ t) rest.edges ∙ take-drop (b - a) es;
      count = ap suc rest.count;
    }

pair_up : List ℕ → List ℕ → Row
pair_up (n ∷ ns) (r ∷ rs) = (n, r) ∷ pair_up ns rs
pair_up _ _ = []

pair_up_lem :
    (ns rs : List ℕ)
    → length rs ≡ length ns
    → (map neighbor_of (pair_up ns rs) ≡ ns)
      × (map rel_of (pair_up ns rs) ≡ rs)
      × (length (pair_up ns rs) ≡ length ns)
unfolding pair_up
pair_up_lem [] [] h = (refl, refl, refl)
pair_up_lem [] (r ∷ rs) h = absurd (omega arith)
pair_up_lem (n ∷ ns) [] h = absurd (omega arith)
pair_up_lem (n ∷ ns) (r ∷ rs) h =
    let (a, b, c) = pair_up_lem ns rs (omega arith) in
    (ap (λ t. n ∷ t) a, ap (λ t. r ∷ t) b, ap suc c)

-- `rows` is what the three arrays hold.
record Decoded (n : ℕ) (offsets neighbors rel_ids : List ℕ) : Type 0 where
  rows : List Row
  nodes : n ≡ length rows
  offs : offsets ≡ offsets_of 0 rows
  nbrs : neighbors ≡ map neighbor_of (edges_of rows)
  rels : rel_ids ≡ map rel_of (edges_of rows)

decode :
    (offsets neighbors rel_ids : List ℕ) (n : ℕ)
    → starts_at_zero offsets ≡ true
    → length offsets ≡ n + 1
    → monotonic n offsets ≡ ok tt
    → last offsets ≡ ok (length neighbors)
    → length rel_ids ≡ length neighbors
    → Decoded n offsets neighbors rel_ids
unfolding starts_at_zero
decode [] ns rs n z len m l same = cc
decode (a ∷ os) ns rs n z len m l same =
    let zero_first : a ≡ 0 = ==→eq a 0 z in
    let es = pair_up ns rs in
    let (mapped, mapped', count) = pair_up_lem ns rs same in
    let c : Cuts a os es =
      cut_lem a os es (subst (λ k. monotonic k (a ∷ os) ≡ ok tt) (omega arith) m)
        (l ∙ ap ok (omega (arith, count))) in
    record {
      rows = cut a os es;
      nodes = omega (arith, c.count);
      offs = sym (subst (λ k. offsets_of k (cut a os es) ≡ a ∷ os) zero_first c.offs);
      nbrs = sym (rw c.edges mapped);
      rels = sym (rw c.edges mapped');
    }

guard-true : (b : Bool) → guard b storage_error ≡ ok tt → b ≡ true
guard-true true h = refl
guard-true false h = cc

module _ {ℓ} {V : Type ℓ} (g : CsrNodeGroup V) where
  -- The compressed form of rows passes.
  pub validate-Holds : (rows : List Row) → Holds g rows → validate g ≡ ok tt
  unfolding validate
  validate-Holds rows h =
      let starts : starts_at_zero g.offsets ≡ true =
        ap starts_at_zero h.offs ∙ starts_at_zero-offsets_of rows in
      let len : length g.offsets ≡ g.num_nodes + 1 =
        ap length h.offs ∙ omega (arith, length-offsets_of 0 rows, h.nodes) in
      let mono : monotonic g.num_nodes g.offsets ≡ ok tt =
        ap₂ monotonic h.nodes h.offs ∙ monotonic-offsets_of 0 rows in
      let final : last g.offsets ≡ ok (0 + total rows) = ap last h.offs ∙ last-offsets_of 0 rows in
      let edges : length g.neighbors ≡ total rows =
        ap length h.nbrs ∙ length-map (edges_of rows) neighbor_of in
      let ids : length g.rel_ids ≡ total rows =
        ap length h.rels ∙ length-map (edges_of rows) rel_of in
      rw (
        starts,
        (==_iff (length g.offsets) (g.num_nodes + 1)).1 len,
        mono,
        final,
        (==_iff (0 + total rows) (length g.neighbors)).1 (omega arith),
        (==_iff (length g.rel_ids) (length g.neighbors)).1 (ids ∙ sym edges),
      )

  -- Whatever passes is the compressed form of rows.
  pub Holds-validate : validate g ≡ ok tt → (rows : List Row) × Holds g rows
  unfolding validate
  Holds-validate e =
      let (_, a, e1) = >>=-eq-ok (guard (starts_at_zero g.offsets) storage_error) _ e in
      let (_, b, e2) = >>=-eq-ok (guard (length g.offsets == g.num_nodes + 1) storage_error) _ e1 in
      let (_, c, e3) = >>=-eq-ok (monotonic g.num_nodes g.offsets) _ e2 in
      let (z, d, e4) = >>=-eq-ok (last g.offsets) _ e3 in
      let (_, f, e5) = >>=-eq-ok (guard (z == length g.neighbors) storage_error) _ e4 in
      let done =
        decode g.offsets g.neighbors g.rel_ids g.num_nodes (guard-true (starts_at_zero g.offsets) a)
          (==→eq (length g.offsets) (g.num_nodes + 1) (guard-true _ b)) c
          (d ∙ ap ok (==→eq z (length g.neighbors) (guard-true _ f)))
          (==→eq (length g.rel_ids) (length g.neighbors) (guard-true _ e5)) in
      (
        done.rows,
        record { nodes = done.nodes; offs = done.offs; nbrs = done.nbrs; rels = done.rels },
      )

  -- `validate` succeeds exactly on the groups that are the compressed form of some rows of edges.
  pub validate_iff : (validate g ≡ ok tt) ↔ ((rows : List Row) × Holds g rows)
  validate_iff = (Holds-validate, λ h. validate-Holds h.0 h.1)
