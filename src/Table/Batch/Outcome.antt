-- ===== src/Table/Batch/Outcome.antt =====
-- How `insert_batch` of src/storage/table.rs ends.
use Prim.Native.String.{String}
use ruzu.Prelude.{
  or_return, >>=-eq-ok, ℕ, ◌≡◌, refl, sym, ◌∙◌, subst, inl, inr, true, false, List, [], ◌∷◌, length,
  ◌==◌, ==→eq, Result, ok, err, panic, ◌>>◌, guard, or_fail, schema_error, Bool-cases, if_intro,
}
use ruzu.Prelude.Names.{contains_key}
use ruzu.Types.Value.{Value, same_key}
use ruzu.Catalog.{ColumnDef}
use ruzu.Table.{NodeTable}
use ruzu.Table.Cells.{push_row-IsPushed, row_key-new}
use ruzu.Table.Invariant.{IsTable}
use ruzu.Table.Panics.{NotPanic, >>=-NotPanic, guard-NotPanic, or_fail-NotPanic}
use ruzu.Table.Batch.{
  position, col_mapping, pk_col_indices, batch_key, seen_key, check_key, check_rows, insert_mapped,
  insert_batch,
}
use ruzu.Table.Batch.Rows.{named, Mapped, col_mapping-Mapped, check_present-named, batch_key-named}
use ruzu.Table.Batch.Loop.{check_rows-FreshKeys, HasRows, HasRows-nil, add_rows-HasRows}

col_mapping-NotPanic :
    (defs : List ColumnDef) (columns : List String) → NotPanic (col_mapping defs columns)
unfolding NotPanic col_mapping
col_mapping-NotPanic [] columns = tt
col_mapping-NotPanic (def ∷ defs) columns =
    >>=-NotPanic (or_fail (position columns def.name) schema_error) _
      (or_fail-NotPanic (position columns def.name) schema_error)
      (λ idx.
        >>=-NotPanic (col_mapping defs columns) (λ mapping. ok (idx ∷ mapping))
          (col_mapping-NotPanic defs columns) (λ mapping. tt))

module _ (self : NodeTable) (w : IsTable self) (columns : List String) (mapping : List ℕ)
    (m : Mapped self.schema.columns columns mapping) where
  indices : List ℕ
  indices = pk_col_indices self.schema.columns self.schema.primary_key

  batch_key-NotPanic :
      (row : List Value) → length row ≡ length columns → NotPanic (batch_key mapping row indices)
  unfolding NotPanic indices
  batch_key-NotPanic row sized =
      let present = check_present-named columns row sized self.schema.columns mapping m in
      let (pushed, done, p) =
        push_row-IsPushed self.row_count self.schema.columns (named columns row) self.columns
          w.width w.sizes present in
      subst NotPanic
        (sym (
          batch_key-named columns row sized self.schema.columns mapping self.schema.primary_key m
            w.keys_known
          ∙ row_key-new self.row_count self.schema.columns (named columns row) self.columns pushed
              self.schema.primary_key p present w.keys_known))
        tt

  check_key-NotPanic :
      (seen : List (List Value)) (key : List Value) → NotPanic (check_key self seen key)
  unfolding NotPanic check_key
  check_key-NotPanic seen key =
      if_intro NotPanic (seen_key key seen) _ _ (λ e. tt)
        (λ e. if_intro NotPanic (contains_key same_key key self.pk_index) _ _ (λ f. tt) (λ f. tt))

  -- A guard, and what follows where it holds.
  guarded-NotPanic :
      (a b : ℕ) (rest : Result (Unit {0}))
      → (a ≡ b → NotPanic rest)
      → NotPanic (guard (a == b) schema_error >> rest)
  unfolding NotPanic
  guarded-NotPanic a b rest h = elim (Bool-cases (a == b)) [
    | inl same ↦
        subst (λ t. NotPanic (guard t schema_error >> rest)) (sym same) (h (==→eq a b same))
    | inr differ ↦ subst (λ t. NotPanic (guard t schema_error >> rest)) (sym differ) tt
  ]

  check_rows-NotPanic :
      (rows seen : List (List Value)) → NotPanic (check_rows self columns mapping indices rows seen)
  unfolding NotPanic check_rows
  check_rows-NotPanic [] seen = tt
  check_rows-NotPanic (row ∷ rows) seen = guarded-NotPanic (length row) (length columns) _ (λ sized.
      >>=-NotPanic (batch_key mapping row indices) _ (batch_key-NotPanic row sized) (λ key.
        >>=-NotPanic (check_key self seen key) _ (check_key-NotPanic seen key)
          (λ fresh. check_rows-NotPanic rows (key ∷ seen))))

-- How a call ends: with all the rows in the table, or with an error and the table as it was.
unfoldable pub BatchInserted :
    List String → List (List Value) → NodeTable → Result ℕ × NodeTable → Type 0
BatchInserted columns rows before (ok count, after) =
    (count ≡ length rows) × HasRows columns rows before after
BatchInserted columns rows before (err kind, after) = after ≡ before
BatchInserted columns rows before (panic, after) = true ≡ false

module _ (columns : List String) (rows : List (List Value)) (self : NodeTable)
    (w : IsTable self) where
  -- The checks leave the table as it is.
  or_return-BatchInserted :
      {A : Type 0} (first : Result A) (next : A → Result ℕ × NodeTable)
      → NotPanic first
      → ((a : A) → first ≡ ok a → BatchInserted columns rows self (next a))
      → BatchInserted columns rows self (or_return self first next)
  unfolding BatchInserted NotPanic
  or_return-BatchInserted (ok a) next h then_next = then_next a refl
  or_return-BatchInserted (err kind) next h then_next = refl
  or_return-BatchInserted panic next h then_next = absurd cc

  insert_mapped-BatchInserted :
      (mapping : List ℕ)
      → Mapped self.schema.columns columns mapping
      → BatchInserted columns rows self (insert_mapped rows columns self mapping)
  unfolding insert_mapped BatchInserted indices
  insert_mapped-BatchInserted mapping m =
      or_return-BatchInserted
        (check_rows self columns mapping (indices self w columns mapping m) rows []) _
        (check_rows-NotPanic self w columns mapping m rows [])
        (λ checked e.
          (let (sized, fresh) =
              check_rows-FreshKeys self columns mapping (indices self w columns mapping m) rows []
                e in
            let (next, done, has) = add_rows-HasRows columns mapping rows [] self w m sized fresh in
            rw done (refl, has)))

-- On a table whose columns have as many values as the table has rows and whose index finds exactly
-- the rows by their keys, `insert_batch` does not panic. Either it succeeds, and returns the number
-- of rows given: then the table is again such a table, of the same schema, with the rows behind its
-- old ones in their order, each with its values in the columns that they were given for, and every
-- older row is read as before. Or it fails, and the table that its loops have reached is the one
-- before the call.
pub insert_batch-BatchInserted :
    (rows : List (List Value)) (columns : List String) (self : NodeTable)
    → IsTable self
    → BatchInserted columns rows self (insert_batch rows columns self)
unfolding insert_batch BatchInserted
insert_batch-BatchInserted [] columns self w = (refl, HasRows-nil columns self w)
insert_batch-BatchInserted (row ∷ rows) columns self w =
    or_return-BatchInserted columns (row ∷ rows) self w
      (guard (length columns == length self.schema.columns) schema_error
        >> col_mapping self.schema.columns columns)
      (insert_mapped (row ∷ rows) columns self)
      (>>=-NotPanic (guard (length columns == length self.schema.columns) schema_error)
        (λ done. col_mapping self.schema.columns columns)
        (guard-NotPanic (length columns == length self.schema.columns) schema_error)
        (λ done. col_mapping-NotPanic self.schema.columns columns))
      (λ mapping e.
        let (done, checked, mapped) =
          >>=-eq-ok (guard (length columns == length self.schema.columns) schema_error)
            (λ done. col_mapping self.schema.columns columns) e in
        insert_mapped-BatchInserted columns (row ∷ rows) self w mapping
          (col_mapping-Mapped self.schema.columns columns mapping mapped))
