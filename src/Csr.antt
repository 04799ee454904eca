-- ===== src/Csr.antt =====
-- src/storage/rel_table.rs: `CsrNodeGroup`, the compressed sparse rows of one group of nodes.
-- A property column is a list of values of any type `V`: the groups only carry them.
pub mod Rows
pub mod Refine
pub mod Validate
mod Tests
use ruzu.Prelude.{
  ℕ, zero, suc, ◌+◌, ◌-◌, ◌≡◌, Bool, true, false, Option, none, some, List, [], ◌∷◌, ◌++◌,
  RuzuError, storage_error, Result, ok, err, panic, ◌>>=◌, ◌>>◌, guard, check, or_panic, ltb, leb,
  ◌==◌, if◌then◌else◌, length, get_elem?, take, drop, insert_at, add_u64, add_u32,
}

-- `NODE_GROUP_SIZE`
abbrev pub node_group_size : ℕ
node_group_size = 131072

pub record CsrNodeGroup {ℓ} (V : Type ℓ) : Type ℓ where
  pub group_id : ℕ
  pub num_nodes : ℕ
  pub offsets : List ℕ
  pub neighbors : List ℕ
  pub rel_ids : List ℕ
  pub properties : List (List V)

-- `&xs[start..end]`: a panic when the range runs backwards or past the end.
unfoldable pub slice {ℓ} : {A : Type ℓ} → List A → ℕ → ℕ → Result (List A)
slice xs start end =
    if leb start end
    then (if leb end (length xs) then ok (take (end - start) (drop start xs)) else panic)
    else panic

-- `Vec::insert`: a panic past the end.
unfoldable pub vec_insert {ℓ} : {A : Type ℓ} → List A → ℕ → A → Result (List A)
vec_insert xs i v = if leb i (length xs) then ok (insert_at i v xs) else panic

-- `for i in from..offsets.len() { offsets[i] += 1 }`
unfoldable pub bump_from : ℕ → List ℕ → List ℕ
bump_from from [] = []
bump_from zero (x ∷ xs) = add_u64 x 1 ∷ bump_from zero xs
bump_from (suc n) (x ∷ xs) = x ∷ bump_from n xs

-- The loop of invariant 3, over the offsets from one index on: `rounds` comparisons are left.
unfoldable pub monotonic : ℕ → List ℕ → Result (Unit {0})
monotonic zero offsets = ok tt
monotonic (suc rounds) [] = panic
monotonic (suc rounds) (a ∷ []) = panic
monotonic (suc rounds) (a ∷ b ∷ rest) =
    let next = monotonic rounds (b ∷ rest) in if ltb b a then err storage_error else next

-- `offsets.last().unwrap()`
unfoldable pub last : List ℕ → Result ℕ
last [] = panic
last (a ∷ []) = ok a
last (a ∷ b ∷ rest) = last (b ∷ rest)

unfoldable pub starts_at_zero : List ℕ → Bool
starts_at_zero [] = false
starts_at_zero (a ∷ rest) = a == 0

module _ {ℓ} {V : Type ℓ} where
  unfoldable pub new : ℕ → CsrNodeGroup V
  new group_id = record {
    group_id = group_id;
    num_nodes = 0;
    offsets = 0 ∷ [];
    neighbors = [];
    rel_ids = [];
    properties = [];
  }

  unfoldable pub get_neighbors : CsrNodeGroup V → ℕ → Result (List ℕ)
  get_neighbors g local_node_id = do
    start ← or_panic (get_elem? g.offsets local_node_id)
    end ← or_panic (get_elem? g.offsets (local_node_id + 1))
    slice g.neighbors start end

  unfoldable pub get_rel_ids : CsrNodeGroup V → ℕ → Result (List ℕ)
  get_rel_ids g local_node_id = do
    start ← or_panic (get_elem? g.offsets local_node_id)
    end ← or_panic (get_elem? g.offsets (local_node_id + 1))
    slice g.rel_ids start end

  unfoldable pub num_edges : CsrNodeGroup V → ℕ
  num_edges g = length g.neighbors

  -- `end - start` panics or wraps when it would be negative; both are a panic here.
  unfoldable pub degree : CsrNodeGroup V → ℕ → Result ℕ
  degree g local_node_id = do
    start ← or_panic (get_elem? g.offsets local_node_id)
    end ← or_panic (get_elem? g.offsets (local_node_id + 1))
    if leb start end then ok (end - start) else panic

  unfoldable pub validate : CsrNodeGroup V → Result (Unit {0})
  validate g = do
    guard (starts_at_zero g.offsets) storage_error
    guard (length g.offsets == g.num_nodes + 1) storage_error
    monotonic g.num_nodes g.offsets
    last_offset ← last g.offsets
    guard (last_offset == length g.neighbors) storage_error
    guard (length g.rel_ids == length g.neighbors) storage_error

  unfoldable pub add_node_edges : CsrNodeGroup V → List ℕ → List ℕ → Result (CsrNodeGroup V)
  add_node_edges g neighbors rel_ids = do
    check (length neighbors == length rel_ids)
    ok (record g {
      neighbors = g.neighbors ++ neighbors;
      rel_ids = g.rel_ids ++ rel_ids;
      offsets = g.offsets ++ (length (g.neighbors ++ neighbors) ∷ []);
      num_nodes = add_u32 g.num_nodes 1;
    })

  unfoldable pub insert_edge : CsrNodeGroup V → ℕ → ℕ → ℕ → Result (CsrNodeGroup V)
  insert_edge g local_node_id neighbor rel_id = do
    guard (ltb local_node_id g.num_nodes) storage_error
    insert_idx ← or_panic (get_elem? g.offsets (local_node_id + 1))
    neighbors ← vec_insert g.neighbors insert_idx neighbor
    rel_ids ← vec_insert g.rel_ids insert_idx rel_id
    ok (record g {
      neighbors = neighbors;
      rel_ids = rel_ids;
      offsets = bump_from (local_node_id + 1) g.offsets;
    })
