-- ===== src/Csr/Rows.antt =====
-- The abstract view of a group: one row of (neighbor, rel id) edges for each node, in order.
-- `Holds g rows` says that the three arrays of `g` are the compressed form of `rows`.
use ruzu.Prelude.{
  ℕ, zero, suc, ◌+◌, ◌^◌, ◌<◌, ap₂, if◌then◌else◌, ◌==◌, ◌≡◌, refl, ap, sym, ◌∙◌, append_assoc,
  append-nil, Option, none, some, List, [], ◌∷◌, ◌++◌, map, arith, length, get_elem?, length-append,
}
use mathlib.Core.Option.{some-injective}
use ruzu.Csr.{CsrNodeGroup, bump_from}

abbrev pub Row : Type 0
Row = List (ℕ × ℕ)

abbrev pub neighbor_of : ℕ × ℕ → ℕ
neighbor_of (n, r) = n

abbrev pub rel_of : ℕ × ℕ → ℕ
rel_of (n, r) = r

-- The running totals of the lengths of the rows, from a first offset on.
abbrev pub offsets_of : ℕ → List Row → List ℕ
offsets_of base [] = base ∷ []
offsets_of base (r ∷ rows) = base ∷ offsets_of (base + length r) rows

abbrev pub edges_of : List Row → Row
edges_of [] = []
edges_of (r ∷ rows) = r ++ edges_of rows

abbrev pub total : List Row → ℕ
total rows = length (edges_of rows)

-- The row of node `i` with one more edge at its end.
abbrev pub push_edge : ℕ → ℕ × ℕ → List Row → List Row
push_edge i e [] = []
push_edge zero e (r ∷ rows) = (r ++ (e ∷ [])) ∷ rows
push_edge (suc i) e (r ∷ rows) = r ∷ push_edge i e rows

-- A row that is there, with one more edge at its end.
abbrev pub pushed : ℕ × ℕ → Option Row → Option Row
pushed e none = none
pushed e (some r) = some (r ++ (e ∷ []))

pub record Holds {ℓ} {V : Type ℓ} (g : CsrNodeGroup V) (rows : List Row) : Type 0 where
  pub nodes : g.num_nodes ≡ length rows
  pub offs : g.offsets ≡ offsets_of 0 rows
  pub nbrs : g.neighbors ≡ map neighbor_of (edges_of rows)
  pub rels : g.rel_ids ≡ map rel_of (edges_of rows)

-- The edges of the rows before row `i`.
abbrev pub edges_before : ℕ → List Row → Row
edges_before zero rows = []
edges_before (suc i) [] = []
edges_before (suc i) (r ∷ rows) = r ++ edges_before i rows

abbrev pub edges_after : ℕ → List Row → Row
edges_after i [] = []
edges_after zero (r ∷ rows) = edges_of rows
edges_after (suc i) (r ∷ rows) = edges_after i rows

pub length-offsets_of : (b : ℕ) (rows : List Row) → length (offsets_of b rows) ≡ suc (length rows)
length-offsets_of b [] = refl
length-offsets_of b (r ∷ rows) = ap suc (length-offsets_of (b + length r) rows)

pub length-push_edge :
    (i : ℕ) (e : ℕ × ℕ) (rows : List Row) → length (push_edge i e rows) ≡ length rows
length-push_edge i e [] = refl
length-push_edge zero e (r ∷ rows) = refl
length-push_edge (suc i) e (r ∷ rows) = ap suc (length-push_edge i e rows)

module _ (r : Row) where
  pub offset-start :
      (i b : ℕ) (rows : List Row)
      → get_elem? rows i ≡ some r
      → get_elem? (offsets_of b rows) i ≡ some (b + length (edges_before i rows))
  offset-start i b [] h = cc
  offset-start zero b (q ∷ rows) h = ap some (omega arith)
  offset-start (suc i) b (q ∷ rows) h =
      offset-start i (b + length q) rows h
      ∙ ap some (omega (arith, length-append q (edges_before i rows)))

  pub offset-end :
      (i b : ℕ) (rows : List Row)
      → get_elem? rows i ≡ some r
      → get_elem? (offsets_of b rows) (suc i) ≡ some (b + length (edges_before i rows) + length r)
  offset-end i b [] h = cc
  offset-end zero b (q ∷ []) h = let e : some q ≡ some r = h in ground (arith, e)
  offset-end zero b (q ∷ p ∷ rows) h = let e : some q ≡ some r = h in ground (arith, e)
  offset-end (suc i) b (q ∷ rows) h =
      offset-end i (b + length q) rows h
      ∙ ap some (omega (arith, length-append q (edges_before i rows)))

  pub edges-split :
      (i : ℕ) (rows : List Row)
      → get_elem? rows i ≡ some r
      → edges_of rows ≡ edges_before i rows ++ (r ++ edges_after i rows)
  edges-split i [] h = cc
  edges-split zero (q ∷ rows) h = rw (some-injective q r h)
  edges-split (suc i) (q ∷ rows) h =
      ap (λ t. q ++ t) (edges-split i rows h)
      ∙ sym (append_assoc q (edges_before i rows) (r ++ edges_after i rows))

  pub edges-push_edge :
      (i : ℕ) (e : ℕ × ℕ) (rows : List Row)
      → get_elem? rows i ≡ some r
      → edges_of (push_edge i e rows) ≡ (edges_before i rows ++ r) ++ (e ∷ edges_after i rows)
  edges-push_edge i e [] h = cc
  edges-push_edge zero e (q ∷ rows) h = rw (some-injective q r h, append_assoc)
  edges-push_edge (suc i) e (q ∷ rows) h = rw (edges-push_edge i e rows h) (simp append_assoc)

pub get_elem?-push_edge :
    (i j : ℕ) (e : ℕ × ℕ) (rows : List Row)
    → get_elem? (push_edge i e rows) j
      ≡ (if i == j then pushed e (get_elem? rows j) else get_elem? rows j)
get_elem?-push_edge i j e [] = ground arith
get_elem?-push_edge zero zero e (r ∷ rows) = refl
get_elem?-push_edge zero (suc j) e (r ∷ rows) = ground arith
get_elem?-push_edge (suc i) zero e (r ∷ rows) = ground arith
get_elem?-push_edge (suc i) (suc j) e (r ∷ rows) = get_elem?-push_edge i j e rows ∙ ground arith

pub total-push_edge :
    (i : ℕ) (e : ℕ × ℕ) (rows : List Row)
    → i < length rows
    → total (push_edge i e rows) ≡ total rows + 1
total-push_edge i e [] h = absurd (omega arith)
total-push_edge zero e (r ∷ rows) h = omega (
  arith,
  length-append (r ++ (e ∷ [])) (edges_of rows),
  length-append r (e ∷ []),
  length-append r (edges_of rows),
)
total-push_edge (suc i) e (r ∷ rows) h = omega (
  arith,
  length-append r (edges_of (push_edge i e rows)),
  length-append r (edges_of rows),
  total-push_edge i e rows (omega arith),
)

bump_all-offsets_of :
    (b : ℕ) (rows : List Row)
    → b + total rows + 1 < 2 ^ 64
    → bump_from 0 (offsets_of b rows) ≡ offsets_of (b + 1) rows
unfolding bump_from
bump_all-offsets_of b [] h = ap (λ x. x ∷ []) (omega arith)
bump_all-offsets_of b (r ∷ rows) h =
    ap₂ (λ x xs. x ∷ xs) (omega arith)
      (bump_all-offsets_of (b + length r) rows (omega (arith, length-append r (edges_of rows)))
        ∙ ap (λ c. offsets_of c rows) (omega arith))

pub bump_from-offsets_of :
    (i b : ℕ) (e : ℕ × ℕ) (rows : List Row)
    → i < length rows
    → b + total rows + 1 < 2 ^ 64
    → bump_from (suc i) (offsets_of b rows) ≡ offsets_of b (push_edge i e rows)
unfolding bump_from
bump_from-offsets_of i b e [] lt h = absurd (omega arith)
bump_from-offsets_of zero b e (r ∷ rows) lt h =
    ap (λ xs. b ∷ xs)
      (bump_all-offsets_of (b + length r) rows (omega (arith, length-append r (edges_of rows)))
        ∙ ap (λ c. offsets_of c rows) (omega (arith, length-append r (e ∷ []))))
bump_from-offsets_of (suc i) b e (r ∷ rows) lt h =
    ap (λ xs. b ∷ xs)
      (bump_from-offsets_of i (b + length r) e rows (omega arith)
        (omega (arith, length-append r (edges_of rows))))

-- One more node, with its row.
pub offsets_of-append_row :
    (b : ℕ) (rows : List Row) (q : Row)
    → offsets_of b (rows ++ (q ∷ [])) ≡ offsets_of b rows ++ ((b + total rows + length q) ∷ [])
offsets_of-append_row b [] q = ap (λ c. b ∷ c ∷ []) (omega arith)
offsets_of-append_row b (r ∷ rows) q =
    ap (λ xs. b ∷ xs)
      (offsets_of-append_row (b + length r) rows q
        ∙ ap (λ c. offsets_of (b + length r) rows ++ (c ∷ []))
            (omega (arith, length-append r (edges_of rows))))

pub edges-append_row :
    (rows : List Row) (q : Row) → edges_of (rows ++ (q ∷ [])) ≡ edges_of rows ++ q
edges-append_row [] q = append-nil q
edges-append_row (r ∷ rows) q =
    ap (λ t. r ++ t) (edges-append_row rows q) ∙ sym (append_assoc r (edges_of rows) q)

pub get_elem?-append_row :
    (j : ℕ) (rows : List Row) (q : Row)
    → get_elem? (rows ++ (q ∷ [])) j ≡ (if j == length rows then some q else get_elem? rows j)
get_elem?-append_row zero [] q = refl
get_elem?-append_row (suc j) [] q = ground arith
get_elem?-append_row zero (r ∷ rows) q = ground arith
get_elem?-append_row (suc j) (r ∷ rows) q = get_elem?-append_row j rows q ∙ ground arith
