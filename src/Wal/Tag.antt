-- ===== src/Wal/Tag.antt =====
-- src/storage/wal/record.rs: `WalRecordType` as a byte.
use ruzu.Prelude.{ℕ, ◌≡◌, subst, ◌↔◌, refl, arith, some}
use ruzu.Wal.{
  WalRecordType, begin_transaction, commit, abort, table_insertion, node_deletion, node_update,
  rel_deletion, rel_insertion, checkpoint, to_u8, try_from,
}

pub try_from-to_u8 : (t : WalRecordType) → try_from (to_u8 t) ≡ some t
unfolding to_u8 try_from
try_from-to_u8 begin_transaction = refl
try_from-to_u8 commit = refl
try_from-to_u8 abort = refl
try_from-to_u8 table_insertion = refl
try_from-to_u8 node_deletion = refl
try_from-to_u8 node_update = refl
try_from-to_u8 rel_deletion = refl
try_from-to_u8 rel_insertion = refl
try_from-to_u8 checkpoint = refl

to_u8-try_from : (n : ℕ) (t : WalRecordType) → try_from n ≡ some t → to_u8 t ≡ n
unfolding to_u8 try_from
to_u8-try_from n t h = ground arith

-- A byte is read as a record type exactly if it is that type's byte: `TryFrom<u8>` and the
-- discriminants are inverse to each other, and every other number is refused.
pub try_from_iff : (n : ℕ) (t : WalRecordType) → (try_from n ≡ some t) ↔ (to_u8 t ≡ n)
try_from_iff n t = (to_u8-try_from n t, λ e. subst (λ m. try_from m ≡ some t) e (try_from-to_u8 t))
