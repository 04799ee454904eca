-- ===== src/Table/Index.antt =====
-- The index of the primary keys, `find_by_pk`, `from_data` and `to_data` of src/storage/table.rs.
use Prim.Native.String.{String}
use ruzu.Prelude.{
  ℕ, zero, suc, ◌<◌, ◌≤◌, ◌≡◌, sym, ◌∙◌, ap, subst, ◌↔◌, inl, inr, true, Option, none, some, List,
  [], ◌∷◌, arith, ltb, ltb→lt, ltb→le, Bool-cases, Option-cases,
}
use ruzu.Prelude.Names.{same_name_refl, lookup, lookup-insert}
use ruzu.Types.Value.{Value, same_value, same_key, same_key_sound}
use ruzu.Catalog.{contains}
use ruzu.Table.{
  NodeTable, Index, get, row_key, cons_some, index_rows, from_data, to_data, find_by_pk,
}
use ruzu.Table.Invariant.{IsTable, key_of}

-- A key that is found is equal to itself as a key.
lookup_self :
    (key : List Value) (index : Index) (i : ℕ)
    → lookup same_key key index ≡ some i
    → same_key key key ≡ true
unfolding lookup
lookup_self key [] i e = absurd cc
lookup_self key ((k, j) ∷ index) i e = elim (Bool-cases (same_key k key)) [
  | inl same ↦ subst (λ x. same_key x key ≡ true) (same_key_sound k key same) same
  | inr differ ↦ lookup_self key index i (ground arith)
]

module _ (self : NodeTable) (w : IsTable self) where
  -- The rows that have a key are those that the index finds by it.
  pub lookup-key_of :
      (key : List Value) (i : ℕ)
      → (lookup same_key key self.pk_index ≡ some i)
        ↔ ((i < self.row_count) × (key_of self i ≡ key) × (same_key key key ≡ true))
  lookup-key_of key i = (
    λ e. (let found = w.indexed key i e in (found.0, found.1, lookup_self key self.pk_index i e)),
    λ h.
        subst (λ k. lookup same_key k self.pk_index ≡ some i) h.1
          (w.complete i h.0 (subst (λ k. same_key k k ≡ true) (sym h.1) h.2)),
  )

  rebuilt : ℕ → Index
  rebuilt n = index_rows self.schema self.columns n

  rebuilt-found :
      (n : ℕ) (key : List Value) (i : ℕ)
      → lookup same_key key (rebuilt n) ≡ some i
      → (i < n) × (key_of self i ≡ key)
  unfolding rebuilt index_rows
  rebuilt-found zero key i e = absurd (unfold lookup in cc)
  rebuilt-found (suc n) key i e =
      let step = lookup-insert same_key same_key_sound (key_of self n) key n (rebuilt n) in
      elim (Bool-cases (same_key (key_of self n) key)) [
        | inl same ↦
            (let last : n ≡ i = ground arith in
              (omega arith, ap (key_of self) (sym last) ∙ same_key_sound (key_of self n) key same))
        | inr differ ↦
            (let old = rebuilt-found n key i (ground arith) in (omega (arith, old.0), old.1))
      ]

  same_row :
      (key : List Value) (i j : ℕ)
      → i < self.row_count
      → j < self.row_count
      → key_of self i ≡ key
      → key_of self j ≡ key
      → same_key key key ≡ true
      → i ≡ j
  same_row key i j hi hj ki kj own =
      let at_i = (lookup-key_of key i).1 (hi, ki, own) in
      let at_j = (lookup-key_of key j).1 (hj, kj, own) in cc

  rebuilt-finds :
      (n : ℕ) (key : List Value) (i : ℕ)
      → n ≤ self.row_count
      → i < n
      → key_of self i ≡ key
      → same_key key key ≡ true
      → lookup same_key key (rebuilt n) ≡ some i
  unfolding rebuilt index_rows
  rebuilt-finds zero key i h lt its own = absurd (omega arith)
  rebuilt-finds (suc n) key i h lt its own =
      let step = lookup-insert same_key same_key_sound (key_of self n) key n (rebuilt n) in
      elim (Bool-cases (same_key (key_of self n) key)) [
        | inl same ↦
            (let e : n ≡ i =
                same_row key n i (omega arith) (omega arith)
                  (same_key_sound (key_of self n) key same) its own in
              ground arith)
        | inr differ ↦ elim (Bool-cases (ltb i n)) [
          | inl old ↦
              (let rest = rebuilt-finds n key i (omega arith) (ltb→lt i n old) its own in
                ground arith)
          | inr last ↦
              (let e : n ≡ i = omega (arith, ltb→le i n last) in
                let same : same_key (key_of self n) key ≡ true =
                  subst (λ k. same_key k key ≡ true) (sym its ∙ ap (key_of self) (sym e)) own in
                absurd cc)
        ]
      ]

  -- A table whose columns have as many values as the table has rows and whose index finds exactly
  -- the rows by their keys, exported and made again from the export, finds every key in the row in
  -- which the old one does, and finds no other key.
  pub from_data-to_data :
      (key : List Value)
      → lookup same_key key (from_data self.schema (to_data self)).pk_index
        ≡ lookup same_key key self.pk_index
  unfolding from_data to_data index_rows rebuilt
  from_data-to_data key = elim (Option-cases (lookup same_key key self.pk_index)) [
    | inr (i, found) ↦
        (let has = (lookup-key_of key i).0 found in
          rebuilt-finds self.row_count key i (omega arith) has.0 has.1 has.2 ∙ sym found)
    | inl nothing ↦ elim (Option-cases (lookup same_key key (rebuilt self.row_count))) [
      | inl none_rebuilt ↦ none_rebuilt ∙ sym nothing
      | inr (i, found) ↦
          (let has = rebuilt-found self.row_count key i found in
            let there =
              (lookup-key_of key i).1
                (has.0, has.1, lookup_self key (rebuilt self.row_count) i found) in
            absurd cc)
    ]
  ]

  cons_some-injective :
      (found : Option Value) (value : Value) → cons_some found [] ≡ value ∷ [] → found ≡ some value
  cons_some-injective none value e = absurd cc
  cons_some-injective (some v) value e = cc

  module _ (name : String) (single : self.schema.primary_key ≡ name ∷ []) where
    find_by_pk_lem :
        (value : Value) → find_by_pk self name value ≡ lookup same_key (value ∷ []) self.pk_index
    unfolding find_by_pk contains
    find_by_pk_lem value = rw (single, same_name_refl name)

    key_of_lem : (i : ℕ) → key_of self i ≡ cons_some (get self i name) []
    unfolding row_key get
    key_of_lem i = rw single

    -- On a table whose columns have as many values as the table has rows and whose index finds
    -- exactly the rows by their keys, with a primary key of one column, `find_by_pk` by that column
    -- gives a row exactly if it is a row of the table that has the value in the column and the
    -- value finds itself as a key, which all values do but floats that are not numbers.
    pub find_by_pk_iff :
        (value : Value) (i : ℕ)
        → (find_by_pk self name value ≡ some i) ↔ (
            (i < self.row_count) × (get self i name ≡ some value) × (same_value value value ≡ true))
    unfolding same_key
    find_by_pk_iff value i = (
      λ e.
          (let h = (lookup-key_of (value ∷ []) i).0 (sym (find_by_pk_lem value) ∙ e) in
            (
              h.0,
              cons_some-injective (get self i name) value (sym (key_of_lem i) ∙ h.1),
              ground (arith, h.2),
            )),
      λ h.
          find_by_pk_lem value
          ∙ (lookup-key_of (value ∷ []) i).1
              (h.0, key_of_lem i ∙ ap (λ found. cons_some found []) h.1, ground (arith, h.2)),
    )
