-- ===== src/Table/Batch/Loop.antt =====
-- The two loops of `insert_batch` of src/storage/table.rs over the rows.
use Prim.Native.String.{String}
use ruzu.Prelude.{
  ℕ, zero, suc, ◌<◌, ap, true, some, get_elem?, ◌+◌, ◌≡◌, refl, sym, ◌∙◌, subst, false, List, [],
  ◌∷◌, length, arith, ◌==◌, ok, guard, schema_error, >>=-eq-ok, ok-injective,
}
use ruzu.Prelude.Names.{same_name, lookup, insert, contains_key, contains_key-lookup, lookup-insert}
use ruzu.Types.Value.{Value, same_key, same_key_sound}
use ruzu.Table.{ColumnStorage, NodeTable, Index, get, row_key}
use ruzu.Table.Cells.{push_row-IsPushed, row_key-new}
use ruzu.Catalog.{any_column}
use ruzu.Table.Invariant.{IsTable, HasRow}
use ruzu.Table.Insert.{new_key, after, after-HasRow}
use ruzu.Table.Batch.{
  pk_col_indices, batch_key, seen_key, check_key, check_rows, add_mapped, add_rows,
}
use ruzu.Table.Batch.Rows.{named, Mapped, check_present-named, push_mapped-named, batch_key-named}

-- The table has the rows behind its old ones, each with the values of its columns.
pub record HasRows (columns : List String) (rows : List (List Value)) (before after : NodeTable)
    : Type 0 where
  pub table : IsTable after
  pub counted : after.row_count ≡ before.row_count + length rows
  pub same_schema : after.schema ≡ before.schema
  pub old_rows :
      (i : ℕ) (name : String) → i < before.row_count → get after i name ≡ get before i name
  pub new_rows :
      (i : ℕ) (row : List Value) (name : String)
      → get_elem? rows i ≡ some row
      → any_column before.schema.columns name ≡ true
      → get after (before.row_count + i) name ≡ lookup same_name name (named columns row)

-- The table with one more row, of that key.
abbrev grown : NodeTable → List Value → List ColumnStorage → NodeTable
grown self key pushed = record self {
  columns = pushed;
  pk_index = insert same_key key self.row_count self.pk_index;
  row_count = self.row_count + 1;
}

pub HasRows-nil :
    (columns : List String) (self : NodeTable) → IsTable self → HasRows columns [] self self
HasRows-nil columns self w = record {
  table = w;
  counted = omega arith;
  same_schema = refl;
  old_rows = λ i name below. refl;
  new_rows = λ i row name at known. cc;
}

HasRows-cons :
    (columns : List String) (row key : List Value) (rows : List (List Value))
    (self next : NodeTable) (pushed : List ColumnStorage)
    → HasRow (named columns row) self (grown self key pushed)
    → HasRows columns rows (grown self key pushed) next
    → HasRows columns (row ∷ rows) self next
HasRows-cons columns row key rows self next pushed h hs = record {
  table = hs.table;
  counted = omega (arith, hs.counted);
  same_schema = hs.same_schema;
  old_rows = λ i name below. hs.old_rows i name (omega (arith, below)) ∙ h.old_rows i name below;
  new_rows = new;
}
  where
    new :
        (i : ℕ) (r : List Value) (name : String)
        → get_elem? (row ∷ rows) i ≡ some r
        → any_column self.schema.columns name ≡ true
        → get next (self.row_count + i) name ≡ lookup same_name name (named columns r)
    new zero r name at known =
        let row_is : row ≡ r = ground arith in
        let here : get next self.row_count name ≡ lookup same_name name (named columns r) =
          hs.old_rows self.row_count name (omega arith)
          ∙ (h.new_row name known ∙ ap (λ x. lookup same_name name (named columns x)) row_is) in
        subst (λ n. get next n name ≡ lookup same_name name (named columns r)) (omega arith) here
    new (suc i) r name at known =
        subst (λ n. get next n name ≡ lookup same_name name (named columns r)) (omega arith)
          (hs.new_rows i r name at known)

-- One turn of the loop that inserts: with a key that is not in the index, the row goes in.
add_mapped-HasRow :
    (self : NodeTable) (columns : List String) (mapping : List ℕ) (row key : List Value)
    → IsTable self
    → Mapped self.schema.columns columns mapping
    → length row ≡ length columns
    → batch_key mapping row (pk_col_indices self.schema.columns self.schema.primary_key) ≡ ok key
    → contains_key same_key key self.pk_index ≡ false
    → (pushed : List ColumnStorage) × (add_mapped mapping
          (pk_col_indices self.schema.columns self.schema.primary_key)
          row
          self
        ≡ (ok tt, grown self key pushed))
      × HasRow (named columns row) self (grown self key pushed)
unfolding add_mapped after new_key
add_mapped-HasRow self columns mapping row key w m sized keyed fresh =
    let present = check_present-named columns row sized self.schema.columns mapping m in
    let (pushed, done, p) =
      push_row-IsPushed self.row_count self.schema.columns (named columns row) self.columns w.width
        w.sizes present in
    let unwrapped =
      batch_key-named columns row sized self.schema.columns mapping self.schema.primary_key m
        w.keys_known in
    let read =
      row_key-new self.row_count self.schema.columns (named columns row) self.columns pushed
        self.schema.primary_key p present w.keys_known in
    let its : row_key self.schema.columns pushed self.row_count self.schema.primary_key ≡ key =
      ok-injective (row_key self.schema.columns pushed self.row_count self.schema.primary_key) key
        (sym read ∙ sym unwrapped ∙ keyed) in
    let fresh_row = subst (λ k. contains_key same_key k self.pk_index ≡ false) (sym its) fresh in
    (
      pushed,
      rw (
        keyed,
        push_mapped-named columns row sized self.schema.columns mapping self.columns pushed m
            w.width done,
      ),
      subst (λ k. HasRow (named columns row) self (grown self k pushed)) its
          (after-HasRow (named columns row) self w present pushed p fresh_row),
    )

-- The keys of the rows: none is in the index or met before.
pub FreshKeys : List ℕ → List ℕ → Index → List (List Value) → List (List Value) → Type 0
FreshKeys mapping indices index [] seen = Unit {0}
FreshKeys mapping indices index (row ∷ rows) seen =
    (key : List Value) × (batch_key mapping row indices ≡ ok key)
    × (contains_key same_key key index ≡ false)
    × (seen_key key seen ≡ false)
    × FreshKeys mapping indices index rows (key ∷ seen)

-- The rows have a value for each column.
pub AllSized : List String → List (List Value) → Type 0
AllSized columns [] = Unit {0}
AllSized columns (row ∷ rows) = (length row ≡ length columns) × AllSized columns rows

check_key-ok :
    (self : NodeTable) (seen : List (List Value)) (key : List Value)
    → check_key self seen key ≡ ok tt
    → (contains_key same_key key self.pk_index ≡ false) × (seen_key key seen ≡ false)
unfolding check_key
check_key-ok self seen key e = ground arith

guard-ok : (a b : ℕ) → guard (a == b) schema_error ≡ ok tt → a ≡ b
guard-ok a b e = ground arith

pub check_rows-FreshKeys :
    (self : NodeTable) (columns : List String) (mapping indices : List ℕ)
    (rows seen : List (List Value))
    → check_rows self columns mapping indices rows seen ≡ ok tt
    → AllSized columns rows × FreshKeys mapping indices self.pk_index rows seen
unfolding check_rows FreshKeys AllSized
check_rows-FreshKeys self columns mapping indices [] seen e = (tt, tt)
check_rows-FreshKeys self columns mapping indices (row ∷ rows) seen e =
    let (sized, is_sized, keyed) =
      >>=-eq-ok (guard (length row == length columns) schema_error) _ e in
    let (key, has_key, checked) = >>=-eq-ok (batch_key mapping row indices) _ keyed in
    let (fresh, is_fresh, later) = >>=-eq-ok (check_key self seen key) _ checked in
    let rest = check_rows-FreshKeys self columns mapping indices rows (key ∷ seen) later in
    let free = check_key-ok self seen key is_fresh in
    (
      (guard-ok (length row) (length columns) is_sized, rest.0),
      (key, has_key, free.0, free.1, rest.1),
    )

contains_key-grown :
    (key other : List Value) (n : ℕ) (index : Index)
    → same_key key other ≡ false
    → contains_key same_key other index ≡ false
    → contains_key same_key other (insert same_key key n index) ≡ false
contains_key-grown key other n index differ fresh =
    let old = (contains_key-lookup same_key other index).0 fresh in
    (contains_key-lookup same_key other (insert same_key key n index)).1
      (lookup-insert same_key same_key_sound key other n index ∙ rw (differ, old))

-- The keys stay fresh when one that was met goes into the index.
FreshKeys-insert :
    (mapping indices : List ℕ) (index : Index) (key : List Value) (n : ℕ)
    (rows seen : List (List Value))
    → ((other : List Value) → seen_key other seen ≡ false → same_key key other ≡ false)
    → FreshKeys mapping indices index rows seen
    → FreshKeys mapping indices (insert same_key key n index) rows seen
unfolding FreshKeys seen_key
FreshKeys-insert mapping indices index key n [] seen met fresh = tt
FreshKeys-insert mapping indices index key n (row ∷ rows) seen met (k, has, free, unseen, rest) = (
  k,
  has,
  contains_key-grown key k n index (met k unseen) free,
  unseen,
  FreshKeys-insert mapping indices index key n rows (k ∷ seen) (λ other h. met other (ground arith))
      rest,
)

pub add_rows-HasRows :
    (columns : List String) (mapping : List ℕ) (rows seen : List (List Value)) (self : NodeTable)
    → IsTable self
    → Mapped self.schema.columns columns mapping
    → AllSized columns rows
    → FreshKeys mapping
        (pk_col_indices self.schema.columns self.schema.primary_key)
        self.pk_index
        rows
        seen
    → (next : NodeTable) × (add_rows mapping
          (pk_col_indices self.schema.columns self.schema.primary_key)
          rows
          self
        ≡ (ok tt, next))
      × HasRows columns rows self next
unfolding add_rows FreshKeys AllSized
add_rows-HasRows columns mapping [] seen self w m sized fresh =
    (self, refl, HasRows-nil columns self w)
add_rows-HasRows columns mapping (row ∷ rows) seen self w m (sized, all_sized)
      (key, has, free, unseen, rest) =
    let (pushed, added, h) = add_mapped-HasRow self columns mapping row key w m sized has free in
    let later =
      FreshKeys-insert mapping (pk_col_indices self.schema.columns self.schema.primary_key)
        self.pk_index key self.row_count rows (key ∷ seen)
        (λ other h. unfold seen_key in ground arith) rest in
    let (next, done, hs) =
      add_rows-HasRows columns mapping rows (key ∷ seen) (grown self key pushed) h.table m all_sized
        later in
    (next, rw (added, done), HasRows-cons columns row key rows self next pushed h hs)
