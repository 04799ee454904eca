-- ===== src/Prelude/Errors.antt =====
-- Fallible code: `Result` of src/error.rs, with a third outcome for a panic (an index out of range,
-- a failed assertion). The texts of the messages are left out; the kinds of error are kept.
use mathlib.Core.Path.{◌≡◌, refl, ap}
use mathlib.Core.Bool.{Bool, true, false}
use mathlib.Core.Option.{Option, none, some}

pub data RuzuError : Type 0 where
  parse_error schema_error type_error constraint_violation execution_error : RuzuError
  storage_error page_error buffer_pool_error wal_error catalog_error checksum_error : RuzuError
  corrupted_database invalid_database_file unsupported_version : RuzuError
  referential_integrity import_error validation_error : RuzuError
  rel_table_load_error rel_table_corrupted : RuzuError
  page_range_overlap page_range_out_of_bounds multi_page_data_corrupted : RuzuError
  bind_error plan_error quoted_newline_in_parallel thread_panic : RuzuError
  memory_limit_exceeded query_timeout invalid_expression unsupported_operation : RuzuError
  division_by_zero null_value : RuzuError

pub data Result {ℓ} (A : Type ℓ) : Type ℓ where
  ok : A → Result A
  err : RuzuError → Result A
  panic : Result A

module _ {ℓ κ} {A : Type ℓ} {B : Type κ} where
  infixl 5 ◌>>=◌
  abbrev pub ◌>>=◌ : Result A → (A → Result B) → Result B
  panic >>= next = panic
  err kind >>= next = err kind
  ok a >>= next = next a

module _ {ℓ} {B : Type ℓ} where
  infixl 5 ◌>>◌
  abbrev pub ◌>>◌ : Result (Unit {0}) → Result B → Result B
  checked >> rest = checked >>= λ done. rest

-- An early return of an error.
abbrev pub guard : Bool → RuzuError → Result (Unit {0})
guard false kind = err kind
guard true kind = ok tt

-- `assert!`
abbrev pub check : Bool → Result (Unit {0})
check true = ok tt
check false = panic

-- An indexing that panics out of range.
abbrev pub or_panic {ℓ} : {A : Type ℓ} → Option A → Result A
or_panic none = panic
or_panic (some a) = ok a

-- `first?`: what follows, or an early return from the state that was reached.
abbrev pub or_return {ℓ} :
    {A B : Type 0} {S : Type ℓ} → S → Result A → (A → Result B × S) → Result B × S
or_return reached (ok a) next = next a
or_return reached (err kind) next = (err kind, reached)
or_return reached panic next = (panic, reached)

abbrev pub or_fail {ℓ} : {A : Type ℓ} → Option A → RuzuError → Result A
or_fail none e = err e
or_fail (some a) e = ok a

module _ {ℓ κ} {A : Type ℓ} {B : Type κ} where
  -- A chain that succeeds has gone through its first call.
  pub >>=-eq-ok :
      (first : Result A) (next : A → Result B) {b : B}
      → (first >>= next) ≡ ok b
      → (a : A) × (first ≡ ok a) × (next a ≡ ok b)
  >>=-eq-ok panic next e = cc
  >>=-eq-ok (err kind) next e = cc
  >>=-eq-ok (ok a) next e = (a, refl, e)

ok_or {ℓ} : {A : Type ℓ} → A → Result A → A
ok_or d (ok a) = a
ok_or d (err e) = d
ok_or d panic = d

pub ok-injective {ℓ} : {A : Type ℓ} (a b : A) → ok a ≡ ok b → a ≡ b
unfolding ok_or
ok-injective a b h = ap (ok_or a) h
