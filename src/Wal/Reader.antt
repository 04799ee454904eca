-- ===== src/Wal/Reader.antt =====
-- src/storage/wal/reader.rs: `WalReader` over the bytes of a file.
pub mod RoundTrip
pub mod Damage
pub mod Total
use ruzu.Prelude.{
  ℕ, zero, suc, ◌+◌, ◌≡◌, Bool, true, false, not, Option, none, some, List, [], ◌∷◌, ◌++◌, Bytes,
  from_le, read_exact, Result, ok, err, panic, storage_error, ◌>>=◌, ◌>>◌, guard, or_fail, ◌==◌,
  if◌then◌else◌, length, drop, add_u64,
}
use ruzu.Wal.{WalHeader, validate_header, header_size, WalRecord, Codec}

-- `rest` is what is left to read, `file` the whole file, for `reset`.
pub record WalReader : Type 0 where
  pub file : Bytes
  pub rest : Bytes
  pub header : WalHeader
  pub position : ℕ

unfoldable pub read_header : Bytes → Result (WalHeader × Bytes)
read_header file = do
  (magic, r1) ← or_fail (read_exact 8 file) storage_error
  (version_bytes, r2) ← or_fail (read_exact 4 r1) storage_error
  (uuid_bytes, r3) ← or_fail (read_exact 16 r2) storage_error
  (flag, r4) ← or_fail (read_exact 1 r3) storage_error
  ok (
    record {
      magic = magic;
      version = from_le version_bytes;
      database_id = uuid_bytes;
      enable_checksums = not (from_le flag == 0);
    },
    r4,
  )

unfoldable pub open_reader : Bytes → Result WalReader
open_reader file = do
  (header, rest) ← read_header file
  validate_header header
  ok (record { file = file; rest = rest; header = header; position = header_size })

unfoldable pub reset : WalReader → WalReader
reset r = record r { rest = drop header_size r.file; position = header_size }

module _ {ℓ} {V : Type ℓ} (c : Codec V) where
  -- The checksum of the data, if enabled; what is left, and how far the position moves.
  unfoldable pub verify : Bool → Bytes → Bytes → Result (Bytes × ℕ)
  verify false content rest = ok (rest, 0)
  verify true content rest = do
    (checksum_bytes, rest') ← or_fail (read_exact 4 rest) storage_error
    guard (from_le checksum_bytes == c.crc content) storage_error
    ok (rest', 4)

  -- The part of `read_record` behind the length.
  unfoldable pub read_body : WalReader → ℕ → Bytes → Result (WalRecord V × WalReader)
  read_body r len after_len = do
    (content, after_content) ← or_fail (read_exact len after_len) storage_error
    (rest, width) ← verify r.header.enable_checksums content after_content
    decoded ← or_fail (c.decode content) storage_error
    ok (decoded, record r { rest = rest; position = r.position + 4 + len + width })

  -- At the end of the file, or inside a length, there is no next record.
  unfoldable pub read_record : WalReader → Result (Option (WalRecord V × WalReader))
  read_record r = elim (read_exact 4 r.rest) [
    | none ↦ ok none
    | some (len_bytes, after_len) ↦ do
      next ← read_body r (from_le len_bytes) after_len
      ok (some next)
  ]

  -- The loop of `read_all`. Each record takes four bytes at least: more fuel than bytes is enough,
  -- and the panic of spent fuel is never met (`Total.read_all_total`).
  unfoldable pub read_all : ℕ → WalReader → Result (List (WalRecord V))
  read_all zero r = panic
  read_all (suc fuel) r = elim (read_record r) [
    | ok none ↦ ok []
    | ok (some (x, r')) ↦ do xs ← read_all fuel r'; ok (x ∷ xs)
    | err e ↦ err e
    | panic ↦ panic
  ]
