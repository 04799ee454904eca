-- ===== src/Table/Insert.antt =====
-- `NodeTable::insert` of src/storage/table.rs: its invariant, and what it does on every branch.
use ruzu.Prelude.{
  ℕ, ◌+◌, ◌<◌, ◌≡◌, refl, sym, ◌∙◌, ap, subst, inl, inr, true, false, none, some, List, arith,
  Result, ok, err, panic, ◌>>=◌, ◌>>◌, if◌then◌else◌, Bool-cases, ltb, ltb→lt, ltb→le,
  constraint_violation, RuzuError, if_intro,
}
use ruzu.Prelude.Names.{lookup, insert, contains_key, contains_key-lookup, lookup-insert}
use ruzu.Types.Value.{Value, same_key, same_key_sound}
use ruzu.Table.{
  ColumnStorage, Row, NodeTable, get, row_key, check_present, check_types, unwrap_all, push_row,
  add_row, add_unique, try_insert, insert_row, settle,
}
use ruzu.Table.Cells.{IsPushed, push_row-IsPushed, row_key-old, row_key-new}
use ruzu.Table.Panics.{NotPanic, check_present-NotPanic, check_types-NotPanic}
use ruzu.Table.Invariant.{key_of, IsTable, HasRow}

-- Why a call is refused: a column is missing, a value has another type or no column, or the key is
-- taken.
pub data Refused (row : Row) (before : NodeTable) (kind : RuzuError) : Type 0 where
  missing : check_present before.schema.columns row ≡ err kind → Refused row before kind
  ill_typed : check_types before.schema.columns row ≡ err kind → Refused row before kind
  duplicate :
      (key : List Value)
      → kind ≡ constraint_violation
      → unwrap_all row before.schema.primary_key ≡ ok key
      → contains_key same_key key before.pk_index ≡ true
      → Refused row before kind

-- How a call ends: with the row in the table, or with an error and the table as it was.
unfoldable pub Inserted : Row → NodeTable → Result (Unit {0}) × NodeTable → Type 0
Inserted row before (ok done, after) = HasRow row before after
Inserted row before (err kind, after) = (after ≡ before) × Refused row before kind
Inserted row before (panic, after) = true ≡ false

module _ (row : Row) (self : NodeTable) (w : IsTable self) where
  module _ (present : check_present self.schema.columns row ≡ ok tt) (columns : List ColumnStorage)
      (pushed : IsPushed self.row_count self.schema.columns row self.columns columns)
      (fresh : contains_key same_key
          (row_key self.schema.columns columns self.row_count self.schema.primary_key)
          self.pk_index
        ≡ false) where
    unfoldable pub new_key : List Value
    new_key = row_key self.schema.columns columns self.row_count self.schema.primary_key

    unfoldable pub after : NodeTable
    unfolding new_key
    after = record self {
      columns = columns;
      pk_index = insert same_key new_key self.row_count self.pk_index;
      row_count = self.row_count + 1;
    }

    old_key : (i : ℕ) → i < self.row_count → key_of after i ≡ key_of self i
    unfolding after
    old_key i below =
        row_key-old self.row_count self.schema.columns row self.columns columns i
          self.schema.primary_key pushed below

    after-lookup :
        (key : List Value)
        → lookup same_key key after.pk_index ≡ (
            if same_key new_key key then some self.row_count else lookup same_key key self.pk_index)
    unfolding after
    after-lookup key =
        lookup-insert same_key same_key_sound new_key key self.row_count self.pk_index

    absent : lookup same_key new_key self.pk_index ≡ none
    unfolding new_key
    absent = (contains_key-lookup same_key new_key self.pk_index).0 fresh

    last_key : key_of after self.row_count ≡ new_key
    unfolding after new_key
    last_key = refl

    after-indexed :
        (key : List Value) (i : ℕ)
        → lookup same_key key after.pk_index ≡ some i
        → (i < self.row_count + 1) × (key_of after i ≡ key)
    after-indexed key i e = elim (Bool-cases (same_key new_key key)) [
      | inl same ↦
          (let last : self.row_count ≡ i = ground (arith, after-lookup key) in
            (
              omega arith,
              ap (key_of after) (sym last) ∙ last_key ∙ same_key_sound new_key key same,
            ))
      | inr differ ↦
          (let old = w.indexed key i (ground (arith, after-lookup key)) in
            (omega (arith, old.0), old_key i old.0 ∙ old.1))
    ]

    old_complete :
        (i : ℕ) (key : List Value)
        → i < self.row_count
        → key_of self i ≡ key
        → same_key key key ≡ true
        → lookup same_key key after.pk_index ≡ some i
    old_complete i key below its self_same =
        let found : lookup same_key key self.pk_index ≡ some i =
          subst (λ k. lookup same_key k self.pk_index ≡ some i) its
            (w.complete i below (subst (λ k. same_key k k ≡ true) (sym its) self_same)) in
        elim (Bool-cases (same_key new_key key)) [
          | inl same ↦
              (let clash =
                  ap (λ k. lookup same_key k self.pk_index) (same_key_sound new_key key same) in
                let nothing = absent in absurd cc)
          | inr differ ↦ rw (after-lookup key, differ, found)
        ]

    after_complete :
        (i : ℕ)
        → i < self.row_count + 1
        → same_key (key_of after i) (key_of after i) ≡ true
        → lookup same_key (key_of after i) after.pk_index ≡ some i
    after_complete i below self_same = elim (Bool-cases (ltb i self.row_count)) [
      | inl old ↦
          (let lt = ltb→lt i self.row_count old in
            old_complete i (key_of after i) lt (sym (old_key i lt)) self_same)
      | inr new ↦
          (let last : self.row_count ≡ i = omega (arith, ltb→le i self.row_count new) in
            let key : key_of after i ≡ new_key = ap (key_of after) (sym last) ∙ last_key in
            let found = after-lookup (key_of after i) in
            let matches : same_key new_key (key_of after i) ≡ true =
              subst (λ k. same_key k (key_of after i) ≡ true) key self_same in
            rw (found, matches, last))
    ]

    pub after-HasRow : HasRow row self after
    unfolding after get
    after-HasRow = record {
      table = record {
        width = pushed.same_width ∙ w.width;
        sizes = pushed.one_more;
        keys_known = w.keys_known;
        indexed = after-indexed;
        complete = after_complete;
      };
      counted = refl;
      old_rows = pushed.old_cells;
      new_row = pushed.new_cells;
    }

  add_row_lem :
      (columns : List ColumnStorage) (pk_values : List Value)
      → push_row self.schema.columns row self.columns ≡ ok columns
      → add_row row pk_values self
        ≡ ok (record self {
          columns = columns;
          pk_index = insert same_key pk_values self.row_count self.pk_index;
          row_count = self.row_count + 1;
        })
  unfolding add_row
  add_row_lem columns pk_values done = rw done

  Settles : Result NodeTable → Type 0
  Settles outcome = Inserted row self (settle self outcome)

  -- The key is the new row's: refused when it is taken, else the row goes in.
  add_unique-Settles :
      check_present self.schema.columns row ≡ ok tt
      → (columns : List ColumnStorage) → push_row self.schema.columns row self.columns ≡ ok columns
      → IsPushed self.row_count self.schema.columns row self.columns columns
      → Settles (
          add_unique row self
            (row_key self.schema.columns columns self.row_count self.schema.primary_key))
  unfolding Settles add_unique Inserted after new_key
  add_unique-Settles present columns done pushed =
      if_intro Settles
        (contains_key same_key
          (row_key self.schema.columns columns self.row_count self.schema.primary_key)
          self.pk_index)
        _ _
        (λ taken. (
          refl,
          duplicate (row_key self.schema.columns columns self.row_count self.schema.primary_key)
              refl
              (row_key-new self.row_count self.schema.columns row self.columns columns
                self.schema.primary_key pushed present w.keys_known)
              taken,
        ))
        (λ fresh.
          subst Settles
            (sym (
              add_row_lem columns
                (row_key self.schema.columns columns self.row_count self.schema.primary_key) done))
            (after-HasRow present columns pushed fresh))

  -- A check comes first.
  >>-Settles :
      (first : Result (Unit {0})) (rest : Result NodeTable)
      → NotPanic first
      → ((kind : RuzuError) → first ≡ err kind → Refused row self kind)
      → (first ≡ ok tt → Settles rest)
      → Settles (first >> rest)
  unfolding Settles Inserted NotPanic
  >>-Settles (ok done) rest h why next = next refl
  >>-Settles (err kind) rest h why next = (refl, why kind refl)
  >>-Settles panic rest h why next = absurd cc

  unwrap_all-Settles :
      check_present self.schema.columns row ≡ ok tt
      → Settles (unwrap_all row self.schema.primary_key >>= add_unique row self)
  unwrap_all-Settles present =
      let (columns, done, pushed) =
        push_row-IsPushed self.row_count self.schema.columns row self.columns w.width w.sizes
          present in
      let keyed =
        row_key-new self.row_count self.schema.columns row self.columns columns
          self.schema.primary_key pushed present w.keys_known in
      subst (λ r. Settles (r >>= add_unique row self)) (sym keyed)
        (add_unique-Settles present columns done pushed)

  -- On a table whose columns have as many values as the table has rows and whose index finds
  -- exactly the rows by their keys, `insert` does not panic. Either it succeeds, and then the table
  -- is again such a table, with one more row, in whose cells the values of the given row are read,
  -- and every older row is read as before; or it fails and leaves the table as it was, because of a
  -- missing column, an ill-typed or unknown one, or a key that the index has.
  pub insert_row-Inserted : Inserted row self (insert_row row self)
  unfolding insert_row try_insert Settles
  insert_row-Inserted =
      >>-Settles (check_present self.schema.columns row) _
        (check_present-NotPanic self.schema.columns row) (λ kind e. missing e)
        (λ present.
          >>-Settles (check_types self.schema.columns row) _
            (check_types-NotPanic self.schema.columns row) (λ kind e. ill_typed e)
            (λ typed. unwrap_all-Settles present))
