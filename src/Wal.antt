-- ===== src/Wal.antt =====
-- src/storage/wal: the header of the log, its records, and what the crates behind it promise.
-- A value is of any type `V`; bytes, UUIDs and magics are lists of numbers.
pub mod Writer
pub mod Reader
pub mod Replay
pub mod Recovery
pub mod Tag
pub mod Small
mod Tests
use ruzu.Prelude.{
  ℕ, zero, suc, ◌+◌, ◌^◌, ◌<◌, ◌≡◌, Bool, true, false, Option, none, some, List, [], ◌∷◌, Bytes,
  Result, ok, err, storage_error, ◌>>=◌, ◌>>◌, guard, leb, ◌==◌, if◌then◌else◌, length, ◌&&◌,
}

-- `WAL_MAGIC`, "RUZUWAL" and a zero byte
abbrev pub wal_magic : Bytes
wal_magic = 82 ∷ 85 ∷ 90 ∷ 85 ∷ 87 ∷ 65 ∷ 76 ∷ 0 ∷ []

abbrev pub wal_version : ℕ
wal_version = 1

pub record WalHeader : Type 0 where
  pub magic : Bytes
  pub version : ℕ
  pub database_id : Bytes
  pub enable_checksums : Bool

unfoldable pub new_header : Bytes → Bool → WalHeader
new_header database_id enable_checksums = record {
  magic = wal_magic;
  version = wal_version;
  database_id = database_id;
  enable_checksums = enable_checksums;
}

-- Equality of byte arrays.
unfoldable pub bytes_eq : Bytes → Bytes → Bool
bytes_eq [] [] = true
bytes_eq (a ∷ as') (b ∷ bs) = a == b && bytes_eq as' bs
bytes_eq _ _ = false

unfoldable pub validate_header : WalHeader → Result (Unit {0})
validate_header h = do
  guard (bytes_eq h.magic wal_magic) storage_error
  guard (leb h.version wal_version) storage_error

-- `WalHeader::serialized_size`
abbrev pub header_size : ℕ
header_size = 8 + 4 + 16 + 1

pub data WalRecordType : Type 0 where
  begin_transaction commit abort table_insertion node_deletion : WalRecordType
  node_update rel_deletion rel_insertion checkpoint : WalRecordType

-- The discriminants of `WalRecordType`.
unfoldable pub to_u8 : WalRecordType → ℕ
to_u8 begin_transaction = 1
to_u8 commit = 2
to_u8 abort = 3
to_u8 table_insertion = 30
to_u8 node_deletion = 31
to_u8 node_update = 32
to_u8 rel_deletion = 33
to_u8 rel_insertion = 36
to_u8 checkpoint = 254

-- `TryFrom<u8>`
unfoldable pub try_from : ℕ → Option WalRecordType
try_from value =
    if value == 1
    then some begin_transaction
    else if value == 2
    then some commit
    else if value == 3
    then some abort
    else if value == 30
    then some table_insertion
    else if value == 31
    then some node_deletion
    else if value == 32
    then some node_update
    else if value == 33
    then some rel_deletion
    else if value == 36
    then some rel_insertion
    else if value == 254
    then some checkpoint
    else none

module _ {ℓ} where
  pub data WalPayload (V : Type ℓ) : Type ℓ where
    begin_transaction_payload : ℕ → WalPayload V
    commit_payload : ℕ → WalPayload V
    abort_payload : ℕ → WalPayload V
    table_insertion_payload : ℕ → List (List V) → WalPayload V
    node_deletion_payload : ℕ → ℕ → V → WalPayload V
    node_update_payload : ℕ → ℕ → ℕ → V → WalPayload V
    rel_insertion_payload : ℕ → ℕ → ℕ → List V → WalPayload V
    rel_deletion_payload : ℕ → ℕ → ℕ → ℕ → WalPayload V
    checkpoint_payload : ℕ → WalPayload V

  pub record WalRecord (V : Type ℓ) : Type ℓ where
    pub record_type : WalRecordType
    pub transaction_id : ℕ
    pub lsn : ℕ
    pub payload : WalPayload V

module _ {ℓ} {V : Type ℓ} where
  abbrev pub begin_record : ℕ → ℕ → WalRecord V
  begin_record tx_id lsn = record {
    record_type = begin_transaction;
    transaction_id = tx_id;
    lsn = lsn;
    payload = begin_transaction_payload tx_id;
  }

  abbrev pub commit_record : ℕ → ℕ → WalRecord V
  commit_record tx_id lsn = record {
    record_type = commit;
    transaction_id = tx_id;
    lsn = lsn;
    payload = commit_payload tx_id;
  }

  abbrev pub abort_record : ℕ → ℕ → WalRecord V
  abort_record tx_id lsn = record {
    record_type = abort;
    transaction_id = tx_id;
    lsn = lsn;
    payload = abort_payload tx_id;
  }

  abbrev pub checkpoint_record : ℕ → ℕ → ℕ → WalRecord V
  checkpoint_record tx_id lsn checkpoint_id = record {
    record_type = checkpoint;
    transaction_id = tx_id;
    lsn = lsn;
    payload = checkpoint_payload checkpoint_id;
  }

-- The crates behind the log: `bincode` for the records, `crc32fast` for the checksums.
-- `none` is a failure of the crate.
pub record Codec {ℓ} (V : Type ℓ) : Type ℓ where
  pub encode : WalRecord V → Option Bytes
  pub decode : Bytes → Option (WalRecord V)
  pub crc : Bytes → ℕ

module _ {ℓ} {V : Type ℓ} where
  -- What was encoded is decoded again.
  abbrev pub RoundTrips : Codec V → Type ℓ
  RoundTrips c = (r : WalRecord V) (bs : Bytes) → c.encode r ≡ some bs → c.decode bs ≡ some r

  -- A checksum is a `u32`.
  abbrev pub CrcFits : Codec V → Type 0
  CrcFits c = (bs : Bytes) → c.crc bs < 2 ^ 32
