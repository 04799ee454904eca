-- ===== src/Table/Batch/Rows.antt =====
-- A row of a batch is the row by names of its columns, for `insert_batch` of src/storage/table.rs.
use Prim.Native.String.{String}
use ruzu.Prelude.{
  ℕ, suc, ◌≡◌, refl, sym, ◌∙◌, ap, inl, inr, true, false, some, List, [], ◌∷◌, length, get_elem?,
  arith, ok, ◌>>=◌, or_panic, or_fail, schema_error, Bool-cases, Option-cases, >>=-eq-ok,
  ok-injective, subst,
}
use ruzu.Prelude.Names.{same_name, same_name_iff, lookup, contains_key-lookup}
use ruzu.Types.Value.{Value}
use ruzu.Catalog.{ColumnDef, get_column_index, any_column}
use ruzu.Table.{ColumnStorage, Row, push, push_row, check_present, unwrap_all}
use ruzu.Table.Cells.{AllKnown}
use ruzu.Table.Batch.{position, col_mapping, pk_col_indices, mapped_value, batch_key, push_mapped}

-- The values by the names of the columns.
unfoldable pub named : List String → List Value → Row
named [] row = []
named (c ∷ columns) [] = []
named (c ∷ columns) (value ∷ row) = (c, value) ∷ named columns row

position-lookup :
    (columns : List String) (row : List Value) (name : String) (idx : ℕ)
    → length row ≡ length columns
    → position columns name ≡ some idx
    → (value : Value) × (get_elem? row idx ≡ some value)
      × (lookup same_name name (named columns row) ≡ some value)
unfolding position named lookup
position-lookup [] row name idx sized e = absurd cc
position-lookup (c ∷ columns) [] name idx sized e = absurd (omega arith)
position-lookup (c ∷ columns) (value ∷ row) name idx sized e =
    elim (Bool-cases (same_name c name)) [
      | inl same ↦ (value, ground arith, ground arith)
      | inr differ ↦ elim (Option-cases (position columns name)) [
        | inl absent ↦ absurd (ground arith)
        | inr (i, found) ↦
            (let (v, at, its) = position-lookup columns row name i (omega arith) found in
              (v, ground arith, ground arith))
      ]
    ]

-- The places of the columns, as a relation.
unfoldable pub Mapped : List ColumnDef → List String → List ℕ → Type 0
Mapped [] columns mapping = Unit {0}
Mapped (def ∷ defs) columns [] = true ≡ false
Mapped (def ∷ defs) columns (idx ∷ mapping) =
    (position columns def.name ≡ some idx) × Mapped defs columns mapping

pub col_mapping-Mapped :
    (defs : List ColumnDef) (columns : List String) (mapping : List ℕ)
    → col_mapping defs columns ≡ ok mapping
    → Mapped defs columns mapping
unfolding Mapped col_mapping
col_mapping-Mapped [] columns mapping e = tt
col_mapping-Mapped (def ∷ defs) columns mapping e =
    elim (Option-cases (position columns def.name)) [
      | inl absent ↦ absurd (ground arith)
      | inr (idx, found) ↦
          (let (i, at, later) =
              >>=-eq-ok (or_fail (position columns def.name) schema_error)
                (λ idx. col_mapping defs columns >>= λ rest. ok (idx ∷ rest)) e in
            let (rest, mapped, whole) =
              >>=-eq-ok (col_mapping defs columns) (λ rest. ok (i ∷ rest)) later in
            let same : idx ≡ i = ground arith in
            subst (Mapped (def ∷ defs) columns) (ok-injective (i ∷ rest) mapping whole)
              (found ∙ ap some same, col_mapping-Mapped defs columns rest mapped))
    ]

module _ (columns : List String) (row : List Value) (sized : length row ≡ length columns) where
  pub check_present-named :
      (defs : List ColumnDef) (mapping : List ℕ)
      → Mapped defs columns mapping
      → check_present defs (named columns row) ≡ ok tt
  unfolding Mapped check_present
  check_present-named [] mapping m = refl
  check_present-named (def ∷ defs) [] m = absurd cc
  check_present-named (def ∷ defs) (idx ∷ mapping) (found, m) =
      let (value, at, its) = position-lookup columns row def.name idx sized found in
      let rest = check_present-named defs mapping m in
      ground (arith, (contains_key-lookup same_name def.name (named columns row)).0)

  pub push_mapped-named :
      (defs : List ColumnDef) (mapping : List ℕ) (storage pushed : List ColumnStorage)
      → Mapped defs columns mapping
      → length storage ≡ length defs
      → push_row defs (named columns row) storage ≡ ok pushed
      → push_mapped mapping row storage ≡ (ok tt, pushed)
  unfolding Mapped push_mapped push_row
  push_mapped-named [] mapping [] pushed m width e = ap (λ s. (ok tt, s)) (ok-injective [] pushed e)
  push_mapped-named [] mapping (col ∷ storage) pushed m width e = absurd (omega arith)
  push_mapped-named (def ∷ defs) mapping [] pushed m width e = absurd (omega arith)
  push_mapped-named (def ∷ defs) [] (col ∷ storage) pushed m width e = absurd cc
  push_mapped-named (def ∷ defs) (idx ∷ mapping) (col ∷ storage) pushed (found, m) width e =
      let (value, at, its) = position-lookup columns row def.name idx sized found in
      let e' : (push_row defs (named columns row) storage >>= λ rest. ok (push value col ∷ rest))
          ≡ ok pushed =
        rw (← e, its) refl in
      let (rest, done, same) = >>=-eq-ok (push_row defs (named columns row) storage) _ e' in
      rw
        (at, push_mapped, push_mapped-named defs mapping storage rest m (omega (arith, width)) done)
        (ap (λ s. (ok tt, s)) (ok-injective (push value col ∷ rest) pushed same))

  mapped_value-named :
      (defs : List ColumnDef) (mapping : List ℕ) (name : String)
      → Mapped defs columns mapping
      → any_column defs name ≡ true
      → (k : ℕ) × (get_column_index defs name ≡ some k)
        × (mapped_value mapping row k ≡ or_panic (lookup same_name name (named columns row)))
  unfolding Mapped any_column get_column_index mapped_value
  mapped_value-named [] mapping name m known = absurd cc
  mapped_value-named (def ∷ defs) [] name m known = absurd cc
  mapped_value-named (def ∷ defs) (idx ∷ mapping) name (found, m) known =
      elim (Bool-cases (same_name def.name name)) [
        | inl same ↦
            (let (value, at, its) = position-lookup columns row def.name idx sized found in
              let name_is = (same_name_iff def.name name).0 same in
              (
                0,
                rw same,
                ap or_panic
                    (at ∙ sym its ∙ ap (λ n. lookup same_name n (named columns row)) name_is),
              ))
        | inr differ ↦
            (let (k, there, value) = mapped_value-named defs mapping name m (ground arith) in
              (suc k, rw (differ, there), value))
      ]

  pub batch_key-named :
      (defs : List ColumnDef) (mapping : List ℕ) (names : List String)
      → Mapped defs columns mapping
      → AllKnown defs names
      → batch_key mapping row (pk_col_indices defs names) ≡ unwrap_all (named columns row) names
  unfolding AllKnown pk_col_indices batch_key unwrap_all
  batch_key-named defs mapping [] m known = refl
  batch_key-named defs mapping (name ∷ names) m (known, all_known) =
      let (k, there, value) = mapped_value-named defs mapping name m known in
      rw (there, value, batch_key-named defs mapping names m all_known)
