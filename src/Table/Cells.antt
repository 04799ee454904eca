-- ===== src/Table/Cells.antt =====
-- What a row that was pushed has in its cells, src/storage/table.rs.
use Prim.Native.String.{String}
use ruzu.Prelude.{
  ℕ, zero, suc, ◌+◌, ◌<◌, ◌≡◌, refl, ap, inl, inr, true, some, List, [], ◌∷◌, length, get_elem?,
  arith, ok, if◌then◌else◌, Bool-cases, Option-cases, length-append,
}
use ruzu.Prelude.Names.{same_name, same_name_iff, same_name_refl, lookup, contains_key-lookup}
use ruzu.Types.Value.{Value}
use ruzu.Catalog.{ColumnDef, get_column_index, any_column}
use ruzu.Table.{ColumnStorage, Row, push, cell, row_key, check_present, unwrap_all, push_row}

-- Every column has `n` values.
unfoldable pub AllHave : ℕ → List ColumnStorage → Type 0
AllHave n [] = Unit {0}
AllHave n (column ∷ columns) = (length column ≡ n) × AllHave n columns

get_elem?-push_old :
    (column : ColumnStorage) (value : Value) (i : ℕ)
    → i < length column
    → get_elem? (push value column) i ≡ get_elem? column i
unfolding push
get_elem?-push_old [] value i h = absurd (omega arith)
get_elem?-push_old (v ∷ column) value zero h = refl
get_elem?-push_old (v ∷ column) value (suc i) h = get_elem?-push_old column value i (omega arith)

get_elem?-push_new :
    (column : ColumnStorage) (value : Value)
    → get_elem? (push value column) (length column) ≡ some value
unfolding push
get_elem?-push_new [] value = refl
get_elem?-push_new (v ∷ column) value = get_elem?-push_new column value

cell-cons :
    (def : ColumnDef) (defs : List ColumnDef) (column : ColumnStorage)
    (columns : List ColumnStorage) (i : ℕ) (name : String)
    → cell (def ∷ defs) (column ∷ columns) i name
      ≡ (if same_name def.name name then get_elem? column i else cell defs columns i name)
unfolding cell get_column_index
cell-cons def defs column columns i name = elim (Bool-cases (same_name def.name name)) [
  | inl e ↦ rw e
  | inr e ↦ elim (Option-cases (get_column_index defs name)) [
    | inl absent ↦ rw (e, absent)
    | inr (idx, found) ↦ rw (e, found)
  ]
]

check_present-lookup :
    (defs : List ColumnDef) (row : Row) (name : String)
    → check_present defs row ≡ ok tt
    → any_column defs name ≡ true
    → (value : Value) × (lookup same_name name row ≡ some value)
unfolding check_present any_column
check_present-lookup [] row name e h = absurd cc
check_present-lookup (def ∷ defs) row name e h = elim (Option-cases (lookup same_name name row)) [
  | inr found ↦ found
  | inl missing ↦ absurd (
      ground (
        arith,
        (contains_key-lookup same_name name row).1,
        (same_name_iff def.name name).0,
        check_present-lookup defs row name,
      ))
]

-- One more value in every column: the old cells are as they were, the new ones the row's.
pub record IsPushed (n : ℕ) (defs : List ColumnDef) (row : Row)
    (columns pushed : List ColumnStorage) : Type 0 where
  pub same_width : length pushed ≡ length columns
  pub one_more : AllHave (n + 1) pushed
  pub old_cells :
      (i : ℕ) (name : String) → i < n → cell defs pushed i name ≡ cell defs columns i name
  pub new_cells :
      (name : String)
      → any_column defs name ≡ true
      → cell defs pushed n name ≡ lookup same_name name row

push_row-step :
    (n : ℕ) (def : ColumnDef) (defs : List ColumnDef) (row : Row) (column : ColumnStorage)
    (columns pushed : List ColumnStorage) (value : Value)
    → length column ≡ n
    → lookup same_name def.name row ≡ some value
    → IsPushed n defs row columns pushed
    → IsPushed n (def ∷ defs) row (column ∷ columns) (push value column ∷ pushed)
unfolding AllHave push any_column
push_row-step n def defs row column columns pushed value size found p = record {
  same_width = ap suc p.same_width;
  one_more = (omega (arith, length-append column (value ∷ []), size), p.one_more);
  old_cells = λ i name below. ground (
    arith,
    cell-cons def defs (push value column) pushed i name,
    cell-cons def defs column columns i name,
    get_elem?-push_old column value i,
    p.old_cells i name below,
  );
  new_cells = λ name known. ground (
    arith,
    cell-cons def defs (push value column) pushed n name,
    get_elem?-push_new column value,
    (same_name_iff def.name name).0,
    p.new_cells name,
  );
}

pub push_row-IsPushed :
    (n : ℕ) (defs : List ColumnDef) (row : Row) (columns : List ColumnStorage)
    → length columns ≡ length defs
    → AllHave n columns
    → check_present defs row ≡ ok tt
    → (pushed : List ColumnStorage) × (push_row defs row columns ≡ ok pushed)
      × IsPushed n defs row columns pushed
unfolding push_row check_present AllHave any_column
push_row-IsPushed n [] row [] width sizes present = (
  [],
  refl,
  record {
    same_width = refl;
    one_more = tt;
    old_cells = λ i name below. refl;
    new_cells = λ name known. absurd cc;
  },
)
push_row-IsPushed n [] row (column ∷ columns) width sizes present = absurd (omega arith)
push_row-IsPushed n (def ∷ defs) row [] width sizes present = absurd (omega arith)
push_row-IsPushed n (def ∷ defs) row (column ∷ columns) width (size, sizes) present =
    let (value, found) =
      check_present-lookup (def ∷ defs) row def.name present
        (ground (arith, same_name_refl def.name)) in
    let (pushed, done, p) =
      push_row-IsPushed n defs row columns (omega (arith, width)) sizes (ground arith) in
    (
      push value column ∷ pushed,
      rw (found, done),
      push_row-step n def defs row column columns pushed value size found p,
    )

-- The names are columns'.
unfoldable pub AllKnown : List ColumnDef → List String → Type 0
AllKnown defs [] = Unit {0}
AllKnown defs (name ∷ names) = (any_column defs name ≡ true) × AllKnown defs names

-- The keys of the rows that were there are as they were.
pub row_key-old :
    (n : ℕ) (defs : List ColumnDef) (row : Row) (columns pushed : List ColumnStorage) (i : ℕ)
    (names : List String)
    → IsPushed n defs row columns pushed
    → i < n
    → row_key defs pushed i names ≡ row_key defs columns i names
unfolding row_key
row_key-old n defs row columns pushed i [] p below = refl
row_key-old n defs row columns pushed i (name ∷ names) p below =
    rw (p.old_cells i name below, row_key-old n defs row columns pushed i names p below)

-- The key that `insert` computes is that of the row it pushes.
pub row_key-new :
    (n : ℕ) (defs : List ColumnDef) (row : Row) (columns pushed : List ColumnStorage)
    (names : List String)
    → IsPushed n defs row columns pushed
    → check_present defs row ≡ ok tt
    → AllKnown defs names
    → unwrap_all row names ≡ ok (row_key defs pushed n names)
unfolding row_key unwrap_all AllKnown
row_key-new n defs row columns pushed [] p present known = refl
row_key-new n defs row columns pushed (name ∷ names) p present (known, all_known) =
    let (value, found) = check_present-lookup defs row name present known in
    rw (
      p.new_cells name known,
      found,
      row_key-new n defs row columns pushed names p present all_known,
    )
