-- ===== src/Catalog/Registry.antt =====
-- The invariant of the registry, src/catalog/schema.rs: names and identifiers are those of one
-- table each, and the ends of every relationship table exist.
pub mod Tables
pub mod RelTables
pub mod Reach
use Prim.Native.String.{String}
use ruzu.Prelude.{
  ℕ, zero, suc, ◌+◌, ◌<◌, ◌≤◌, ◌^◌, ◌≡◌, refl, sym, ◌∙◌, ◌≢◌, ◌⊎◌, inl, inr, Bool, true, false, not,
  Option, none, some, List, [], ◌∷◌, length, arith, ok, err, Result, if◌then◌else◌, Bool-cases,
  if_intro, add_u32,
}
use ruzu.Prelude.Names.{
  same_name, same_name_iff, same_name_refl, lookup, contains_key, insert, contains_key-lookup,
  lookup-insert,
}
use ruzu.Catalog.{
  NodeTableSchema, RelTableSchema, Catalog, create_table, create_rel_table, new_catalog, get_table,
  get_rel_table, table_exists, rel_table_exists, next_id,
}

-- Each key stands in one entry.
unfoldable pub DistinctKeys : {S : Type 0} → List (String × S) → Type 0
DistinctKeys [] = Unit {0}
DistinctKeys ((name, schema) ∷ rest) =
    (contains_key same_name name rest ≡ false) × DistinctKeys rest

abbrev pub either_id : Option NodeTableSchema → Option RelTableSchema → Option ℕ
either_id (some schema) other = some schema.table_id
either_id none (some schema) = some schema.table_id
either_id none none = none

-- The identifier of the table of that name, of either kind.
unfoldable pub id_of : Catalog → String → Option ℕ
id_of self name = either_id (get_table self name) (get_rel_table self name)

-- Identifiers below a bound, each of one name.
pub record IsNumbering (id : String → Option ℕ) (next : ℕ) : Type 0 where
  pub below : (name : String) (i : ℕ) → id name ≡ some i → i < next
  pub unique : (m n : String) (i : ℕ) → id m ≡ some i → id n ≡ some i → m ≡ n

pub record IsWellFormed (self : Catalog) : Type 0 where
  pub tables_distinct : DistinctKeys self.tables
  pub rel_tables_distinct : DistinctKeys self.rel_tables
  pub one_kind :
      (name : String) → table_exists self name ≡ true → rel_table_exists self name ≡ false
  pub numbering : IsNumbering (id_of self) self.next_table_id
  pub table_named :
      (name : String) (schema : NodeTableSchema)
      → get_table self name ≡ some schema
      → schema.name ≡ name
  pub rel_table_named :
      (name : String) (schema : RelTableSchema)
      → get_rel_table self name ≡ some schema
      → schema.name ≡ name
  pub ends_exist :
      (name : String) (schema : RelTableSchema)
      → get_rel_table self name ≡ some schema
      → (table_exists self schema.src_table ≡ true) × (table_exists self schema.dst_table ≡ true)

-- An operation that leaves a well-formed registry, whether it succeeds or fails.
abbrev pub Keeps : Result ℕ × Catalog → Type 0
Keeps (outcome, self) = IsWellFormed self

pub contains_key-insert :
    {S : Type 0} (name other : String) (schema : S) (entries : List (String × S))
    → contains_key same_name other (insert same_name name schema entries)
      ≡ (if same_name name other then true else contains_key same_name other entries)
unfolding contains_key insert
contains_key-insert name other schema [] = refl
contains_key-insert name other schema ((n, s) ∷ rest) = ground (
  arith,
  contains_key-insert name other schema rest,
  (same_name_iff n name).0,
  (same_name_iff n other).0,
  (same_name_iff name other).0,
)

pub insert-DistinctKeys :
    {S : Type 0} (name : String) (schema : S) (entries : List (String × S))
    → DistinctKeys entries
    → DistinctKeys (insert same_name name schema entries)
unfolding insert DistinctKeys contains_key
insert-DistinctKeys name schema [] h = (refl, tt)
insert-DistinctKeys name schema ((n, s) ∷ rest) (fresh, h) =
    if_intro DistinctKeys (same_name n name) ((n, schema) ∷ rest)
      ((n, s) ∷ insert same_name name schema rest) (λ e. (fresh, h))
      (λ e. (
        ground (
          arith,
          contains_key-insert name n schema rest,
          (same_name_iff name n).0,
          same_name_refl n,
        ),
        insert-DistinctKeys name schema rest h,
      ))

-- One more name, with the next number.
pub IsNumbering-suc :
    (id more : String → Option ℕ) (next : ℕ) (name : String)
    → IsNumbering id next
    → next + 1 < 2 ^ 32
    → id name ≡ none
    → ((n : String) → more n ≡ (if same_name name n then some next else id n))
    → IsNumbering more (add_u32 next 1)
IsNumbering-suc id more next name w room fresh step = record {
  below = λ n i e. ground (arith, step n, w.below n i);
  unique = λ m n i e f. ground (
    arith,
    step m,
    step n,
    (same_name_iff name m).0,
    (same_name_iff name n).0,
    w.below m i,
    w.below n i,
    w.unique m n i,
  );
}
