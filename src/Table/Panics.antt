-- ===== src/Table/Panics.antt =====
-- The checks of `insert` in src/storage/table.rs do not panic.
use ruzu.Prelude.{
  ◌≡◌, Bool, true, false, Option, none, some, List, [], ◌∷◌, Result, ok, err, panic, ◌>>=◌,
  schema_error, type_error, RuzuError, guard, or_fail, ◌==◌, if_intro,
}
use ruzu.Prelude.Names.{same_name, contains_key}
use ruzu.Types.{DataType, tag}
use ruzu.Types.Value.{Value, is_null, data_type}
use ruzu.Catalog.{ColumnDef, get_column}
use ruzu.Table.{Row, check_present, check_type, check_types, matches}

unfoldable pub NotPanic : {A : Type 0} → Result A → Type 0
NotPanic (ok a) = Unit {0}
NotPanic (err kind) = Unit {0}
NotPanic panic = true ≡ false

pub >>=-NotPanic :
    {A B : Type 0} (first : Result A) (next : A → Result B)
    → NotPanic first
    → ((a : A) → NotPanic (next a))
    → NotPanic (first >>= next)
unfolding NotPanic
>>=-NotPanic (ok a) next h k = k a
>>=-NotPanic (err kind) next h k = tt
>>=-NotPanic panic next h k = h

pub guard-NotPanic : (b : Bool) (kind : RuzuError) → NotPanic (guard b kind)
unfolding NotPanic
guard-NotPanic true kind = tt
guard-NotPanic false kind = tt

pub check_present-NotPanic : (defs : List ColumnDef) (row : Row) → NotPanic (check_present defs row)
unfolding NotPanic check_present
check_present-NotPanic [] row = tt
check_present-NotPanic (def ∷ defs) row =
    >>=-NotPanic (guard (contains_key same_name def.name row) schema_error)
      (λ done. check_present defs row)
      (guard-NotPanic (contains_key same_name def.name row) schema_error)
      (λ done. check_present-NotPanic defs row)

pub or_fail-NotPanic :
    {A : Type 0} (found : Option A) (kind : RuzuError) → NotPanic (or_fail found kind)
unfolding NotPanic
or_fail-NotPanic none kind = tt
or_fail-NotPanic (some a) kind = tt

matches-NotPanic :
    (actual : Option DataType) (expected : DataType) → NotPanic (matches actual expected)
unfolding NotPanic
matches-NotPanic none expected = tt
matches-NotPanic (some actual) expected = guard-NotPanic (tag actual == tag expected) type_error

check_type-NotPanic : (def : ColumnDef) (value : Value) → NotPanic (check_type def value)
unfolding NotPanic check_type
check_type-NotPanic def value =
    if_intro NotPanic (is_null value) (ok tt) (matches (data_type value) def.data_type) (λ e. tt)
      (λ e. matches-NotPanic (data_type value) def.data_type)

pub check_types-NotPanic : (defs : List ColumnDef) (row : Row) → NotPanic (check_types defs row)
unfolding NotPanic check_types
check_types-NotPanic defs [] = tt
check_types-NotPanic defs ((name, value) ∷ row) =
    >>=-NotPanic (or_fail (get_column defs name) schema_error >>= λ def. check_type def value)
      (λ done. check_types defs row)
      (>>=-NotPanic (or_fail (get_column defs name) schema_error) (λ def. check_type def value)
        (or_fail-NotPanic (get_column defs name) schema_error)
        (λ def. check_type-NotPanic def value))
      (λ done. check_types-NotPanic defs row)
