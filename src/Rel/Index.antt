-- ===== src/Rel/Index.antt =====
-- One index of a relationship table: a map from group ids to groups. `entries` is what it says of
-- each group and each local id, and an insertion adds one edge to one entry.
use ruzu.Prelude.{
  ℕ, zero, suc, ◌+◌, ◌^◌, ◌≤◌, ◌<◌, ◌≡◌, refl, ap, sym, subst, ==→eq, ◌∙◌, none, some, List, [],
  ◌∷◌, ◌++◌, map, arith, length, get_elem?, lt→ltb, le→ltb, false, Bool-cases, Option-cases, inl,
  inr, ◌==◌, if◌then◌else◌, Result, ok, get_elem?-some_lt, get_elem?_in_range, ==_refl,
}
use mathlib.Core.Option.{some-injective}
use ruzu.Prelude.Dict
use ruzu.Prelude.Dict.{Dict, get-put}
use ruzu.Csr
use ruzu.Csr.{CsrNodeGroup, node_group_size}
use ruzu.Csr.Rows.{
  Row, Holds, total, neighbor_of, rel_of, push_edge, get_elem?-push_edge, total-push_edge,
  length-push_edge,
}
use ruzu.Csr.Refine.{get-Holds, insert_edge-Holds}
use ruzu.Rel.{
  Edges, zip_edges, group_edges, or_insert, ensure_group, insert_into, preallocate, extend,
}
use ruzu.Rel.Extend.{row_at, Grown, extend-Grown, preallocate-new-Grown}

zip_edges-map : (r : Row) → zip_edges (map neighbor_of r) (map rel_of r) ≡ r
unfolding zip_edges
zip_edges-map [] = refl
zip_edges-map ((n, k) ∷ r) = ap (λ t. (n, k) ∷ t) (zip_edges-map r)

get_elem?-none_le {ℓ} : {A : Type ℓ} (xs : List A) (i : ℕ) → get_elem? xs i ≡ none → length xs ≤ i
get_elem?-none_le [] i h = omega arith
get_elem?-none_le (x ∷ xs) zero h = cc
get_elem?-none_le (x ∷ xs) (suc i) h = omega (arith, get_elem?-none_le xs i h)

-- `row_at` of the other rows, and of the row with the new edge.
row_at-push_edge :
    (l i : ℕ) (e : ℕ × ℕ) (rows : List Row)
    → l < length rows
    → row_at (push_edge l e rows) i ≡ (if l == i then row_at rows i ++ (e ∷ []) else row_at rows i)
row_at-push_edge l i e rows h = elim (Bool-cases (l == i)) [
  | inl same ↦
      let (r, at) = get_elem?_in_range rows i (omega (arith, ==→eq l i same)) in
      rw (get_elem?-push_edge l i e rows, same, at)
  | inr other ↦ rw (get_elem?-push_edge l i e rows, other)
]

module _ {ℓ} {V : Type ℓ} where
  pub group_edges-Holds :
      (g : CsrNodeGroup V) (rows : List Row) (i : ℕ)
      → Holds g rows
      → group_edges g i ≡ ok (row_at rows i)
  unfolding group_edges
  group_edges-Holds g rows i h = elim (Option-cases (get_elem? rows i)) [
    | inl e ↦ rw (le→ltb i g.num_nodes (omega (arith, h.nodes, get_elem?-none_le rows i e)), e)
    | inr (r, e) ↦
        let got = get-Holds g rows h i r e in
        rw
          (
            lt→ltb i g.num_nodes (omega (arith, h.nodes, get_elem?-some_lt rows i r e)),
            got.0,
            got.1,
            e,
          )
          (ap ok (zip_edges-map r))
  ]

  -- A group that holds at most `m` edges.
  pub record Fits (m : ℕ) (g : CsrNodeGroup V) : Type ℓ where
    pub rows : List Row
    pub holds : Holds g rows
    pub few : total rows ≤ m
    pub small : length rows ≤ node_group_size

  pub record IsIndex (m : ℕ) (d : Dict (CsrNodeGroup V)) : Type ℓ where
    pub at_key : (k : ℕ) (g : CsrNodeGroup V) → Dict.get k d ≡ some g → Fits m g

  -- What an index says of a local id of a group.
  abbrev pub entries : Dict (CsrNodeGroup V) → ℕ → ℕ → Result Edges
  entries d k i = elim (Dict.get k d) [ none ↦ ok [] | some g ↦ group_edges g i ]

  -- `d` with a group `k` of at least `n` nodes, and the same entries.
  pub record Ensured (m : ℕ) (d : Dict (CsrNodeGroup V)) (k n : ℕ) (d' : Dict (CsrNodeGroup V))
      : Type ℓ where
    pub group : CsrNodeGroup V
    pub found : Dict.get k d' ≡ some group
    pub fits : Fits m group
    pub enough : n ≤ length fits.rows
    pub same : (i : ℕ) → entries d k i ≡ ok (row_at fits.rows i)
    pub others : (j : ℕ) → (k == j) ≡ false → Dict.get j d' ≡ Dict.get j d

  or_insert-Ensured :
      (m k n : ℕ) (d : Dict (CsrNodeGroup V))
      → IsIndex m d
      → n ≤ node_group_size
      → Ensured m d k 0 (or_insert d k n)
  unfolding or_insert
  or_insert-Ensured m k n d v small = elim (Option-cases (Dict.get k d)) [
    | inl e ↦
        let grown : Grown [] n (preallocate n (Csr.new {V = V} k)) =
          preallocate-new-Grown n k small in
        rw (e, or_insert)
          (record {
            group = preallocate n (Csr.new k);
            found = get-put k k (preallocate n (Csr.new k)) d ∙ rw (==_refl k);
            fits = record {
              rows = grown.rows';
              holds = grown.holds;
              few = omega (arith, grown.same_total);
              small = grown.bounded;
            };
            enough = omega arith;
            same = λ i. rw (e, entries) (ap ok (sym (grown.same_rows i)));
            others = λ j ne. get-put k j (preallocate n (Csr.new k)) d ∙ rw ne;
          })
    | inr (g, e) ↦
        let f : Fits m g = v.at_key k g e in
        rw (e, or_insert)
          (record {
            group = g;
            found = e;
            fits = f;
            enough = omega arith;
            same = λ i. rw (e, entries) (group_edges-Holds g f.rows i f.holds);
            others = λ j ne. refl;
          })
  ]

  pub ensure_group-Ensured :
      (m k n : ℕ) (d : Dict (CsrNodeGroup V))
      → IsIndex m d
      → n ≤ node_group_size
      → Ensured m d k n (ensure_group d k n)
  unfolding ensure_group
  ensure_group-Ensured m k n d v small =
      let en : Ensured m d k 0 (or_insert d k n) = or_insert-Ensured m k n d v small in
      let f = en.fits in
      let grown : Grown f.rows n (extend n n en.group) =
        extend-Grown n n en.group f.rows f.holds (omega arith) small f.small in
      rw (en.found, ensure_group)
        (record {
          group = extend n n en.group;
          found = get-put k k (extend n n en.group) (or_insert d k n) ∙ rw (==_refl k);
          fits = record {
            rows = grown.rows';
            holds = grown.holds;
            few = omega (arith, grown.same_total, f.few);
            small = grown.bounded;
          };
          enough = grown.enough;
          same = λ i. en.same i ∙ ap ok (sym (grown.same_rows i));
          others = λ j ne.
              (get-put k j (extend n n en.group) (or_insert d k n) ∙ rw ne) ∙ en.others j ne;
        })

  -- `d'` is `d` with one more edge at the end of entry `l` of group `k`.
  pub record Added (m : ℕ) (d : Dict (CsrNodeGroup V)) (k l : ℕ) (e : ℕ × ℕ)
      (d' : Dict (CsrNodeGroup V)) : Type ℓ where
    pub index : IsIndex (suc m) d'
    pub old : Edges
    pub before : entries d k l ≡ ok old
    pub after : entries d' k l ≡ ok (old ++ (e ∷ []))
    pub other_nodes : (i : ℕ) → (l == i) ≡ false → entries d' k i ≡ entries d k i
    pub other_groups : (j : ℕ) → (k == j) ≡ false → Dict.get j d' ≡ Dict.get j d

  module _ (m : ℕ) (d d1 : Dict (CsrNodeGroup V)) (k l : ℕ) (v : IsIndex m d)
      (en : Ensured m d k (suc l) d1) where
    put-IsIndex : (g' : CsrNodeGroup V) → Fits (suc m) g' → IsIndex (suc m) (Dict.put k g' d1)
    put-IsIndex g' f = record {
      at_key = λ j g e. elim (Bool-cases (k == j)) [
        | inl same ↦
            subst (Fits (suc m)) (some-injective g' g (sym (get-put k j g' d1 ∙ rw same) ∙ e)) f
        | inr other ↦
            let was : Dict.get j d ≡ some g =
              sym (en.others j other) ∙ (sym (get-put k j g' d1 ∙ rw other) ∙ e) in
            let f' : Fits m g = v.at_key j g was in
            record {
              rows = f'.rows;
              holds = f'.holds;
              few = omega (arith, f'.few);
              small = f'.small;
            }
      ];
    }

    pub insert_into-Added :
        (e : ℕ × ℕ)
        → m + 1 < 2 ^ 64
        → (d' : Dict (CsrNodeGroup V)) × (insert_into d1 k l (neighbor_of e) (rel_of e) ≡ ok d')
          × Added m d k l e d'
    unfolding insert_into
    insert_into-Added e room =
        let f = en.fits in
        let (r, at) = get_elem?_in_range f.rows l en.enough in
        let (g', done, holds', _) =
          insert_edge-Holds en.group f.rows f.holds l r at e (omega (arith, f.few)) in
        let rows' = push_edge l e f.rows in
        let found' : Dict.get k (Dict.put k g' d1) ≡ some g' = get-put k k g' d1 ∙ rw (==_refl k) in
        let entry : (i : ℕ) → entries (Dict.put k g' d1) k i ≡ ok (row_at rows' i) =
          λ i. rw (found', entries) (group_edges-Holds g' rows' i holds') in
        (
          Dict.put k g' d1,
          rw (en.found, insert_into, done),
          record {
            index = put-IsIndex g' (record {
              rows = rows';
              holds = holds';
              few = omega (arith, f.few, total-push_edge l e f.rows en.enough);
              small = omega (arith, f.small, length-push_edge l e f.rows);
            });
            old = row_at f.rows l;
            before = en.same l;
            after = entry l ∙ ap ok (row_at-push_edge l l e f.rows en.enough ∙ rw (==_refl l));
            other_nodes = λ i ne.
                entry i
                ∙ (ap ok (row_at-push_edge l i e f.rows en.enough ∙ rw ne) ∙ sym (en.same i));
            other_groups = λ j ne. (get-put k j g' d1 ∙ rw ne) ∙ en.others j ne;
          },
        )
