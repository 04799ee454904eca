-- ===== src/Rel/Batch.antt =====
-- `RelTable::insert_batch` against the list of relationships that it is given.
use ruzu.Prelude.{
  ℕ, ◌+◌, ◌<◌, ◌≡◌, List, [], ◌∷◌, ◌++◌, length, ◌==◌, if◌then◌else◌, Result, ok, err, panic,
}
use ruzu.Prelude.Dict.{get}
use ruzu.Rel.{RelTable, Edges, get_forward_edges, get_backward_edges, new}
use ruzu.Rel.Insert.{IsTable, max_node}
use ruzu.Catalog.{RelTableSchema}

abbrev pub append_all : Result Edges → Edges → Result Edges
append_all (ok es) more = ok (es ++ more)
append_all (err x) more = err x
append_all panic more = panic

module _ {ℓ} {V : Type ℓ} where
  -- The specification: the edges that leave `n` and those that reach it, with ids from `id` on.
  abbrev pub leaving : ℕ → List (ℕ × ℕ × List V) → ℕ → Edges
  leaving id [] n = []
  leaving id ((s, d, p) ∷ rest) n =
      if s == n then (d, id) ∷ leaving (id + 1) rest n else leaving (id + 1) rest n

  abbrev pub reaching : ℕ → List (ℕ × ℕ × List V) → ℕ → Edges
  reaching id [] n = []
  reaching id ((s, d, p) ∷ rest) n =
      if d == n then (s, id) ∷ reaching (id + 1) rest n else reaching (id + 1) rest n

  -- Relationships with `columns` properties each, between nodes in the range of the casts.
  abbrev pub AllFit : ℕ → List (ℕ × ℕ × List V) → Type 0
  AllFit columns [] = Unit
  AllFit columns ((s, d, p) ∷ rest) =
      (length p ≡ columns) × (s < max_node) × (d < max_node) × AllFit columns rest

  pub record Loaded (t : RelTable V) (rels : List (ℕ × ℕ × List V)) (t' : RelTable V) : Type ℓ where
    pub valid : IsTable t'
    pub next : t'.next_rel_id ≡ t.next_rel_id + length rels
    pub forwards :
        (n : ℕ)
        → n < max_node
        → get_forward_edges t' n ≡ append_all (get_forward_edges t n) (leaving t.next_rel_id rels n)
    pub backwards :
        (n : ℕ)
        → n < max_node
        → get_backward_edges t' n
          ≡ append_all (get_backward_edges t n) (reaching t.next_rel_id rels n)

  -- The table that a schema starts with is valid and empty.
  pub IsTable-new : (schema : RelTableSchema) → IsTable (new {V = V} schema)
  unfolding new
  IsTable-new schema = record {
    forward = record { at_key = λ k g e. unfold get in (cc (e)) };
    backward = record { at_key = λ k g e. unfold get in (cc (e)) };
  }
