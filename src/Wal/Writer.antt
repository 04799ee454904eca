-- ===== src/Wal/Writer.antt =====
-- src/storage/wal/writer.rs: `WalWriter`. `pending` is what its `BufWriter` holds back, `file` what
-- the file has got. A call of the standard library on the file may fail, behind any number of bytes;
-- a crash is a cut of the file. The place that a failed `seek` leaves is not kept.
pub mod Kept
use ruzu.Prelude.{
  drop, err, guard, or_return, replicate, ◌-◌, ℕ, Bool, true, false, Option, none, some, [], ◌∷◌,
  ◌++◌, Bytes, le_bytes, Result, ok, storage_error, ◌>>=◌, or_fail, if◌then◌else◌, length, take,
  add_u64, as_u32,
}
use ruzu.Wal.{WalHeader, new_header, header_size, WalRecord, Codec}

pub record WalWriter : Type 0 where
  pub file : Bytes
  pub pending : Bytes
  pub enable_checksums : Bool
  pub next_lsn : ℕ
  pub database_id : Bytes

abbrev pub bool_byte : Bool → ℕ
bool_byte true = 1
bool_byte false = 0

-- The bytes that `write_header_internal` writes.
unfoldable pub header_bytes : WalHeader → Bytes
header_bytes h =
    h.magic ++ (le_bytes 4 h.version ++ (h.database_id ++ (bool_byte h.enable_checksums ∷ [])))

-- `WalWriter::new`: `none` is a path with no file. Both branches of the estimate give 1.
-- The writer is that of a call that succeeds.
unfoldable pub open_writer : Option Bytes → Bytes → Bool → WalWriter
open_writer none database_id enable_checksums = record {
  file = header_bytes (new_header database_id enable_checksums);
  pending = [];
  enable_checksums = enable_checksums;
  next_lsn = 1;
  database_id = database_id;
}
open_writer (some file) database_id enable_checksums = record {
  file = file;
  pending = [];
  enable_checksums = enable_checksums;
  next_lsn = 1;
  database_id = database_id;
}

-- `fetch_add`: the number given out, and the writer after it.
unfoldable pub next_lsn : WalWriter → ℕ × WalWriter
next_lsn w = (w.next_lsn, record w { next_lsn = add_u64 w.next_lsn 1 })

-- How writing some bytes ends: with all of them written, or with an error behind so many.
pub data WriteEnd : Type 0 where
  all_written : WriteEnd
  stopped : ℕ → WriteEnd

-- How the calls of the standard library's `BufWriter<File>` end, by the state they are made in: any
-- of them may fail. Bytes that a full buffer sends on early count as pending.
pub record FileCalls : Type 0 where
  pub write_all : WalWriter → Bytes → WriteEnd
  pub flush : WalWriter → WriteEnd
  pub sync_all : WalWriter → Bool
  pub set_len : WalWriter → Bool
  pub seek : WalWriter → Bool

abbrev pub buffered : WriteEnd → Bytes → WalWriter → Result (Unit {0}) × WalWriter
buffered all_written bytes w = (ok tt, record w { pending = w.pending ++ bytes })
buffered (stopped n) bytes w = (err storage_error, record w { pending = w.pending ++ take n bytes })

-- `self.writer.write_all(bytes)`
unfoldable pub write_all : FileCalls → Bytes → WalWriter → Result (Unit {0}) × WalWriter
write_all io bytes w = buffered (io.write_all w bytes) bytes w

-- The bytes of one record on the file: its length, its data and, if enabled, its checksum.
unfoldable pub frame {ℓ} : {V : Type ℓ} → Codec V → Bool → Bytes → Bytes
frame c checksums serialized =
    le_bytes 4 (as_u32 (length serialized))
    ++ (serialized ++ (if checksums then le_bytes 4 (c.crc serialized) else []))

-- The last part of `append`.
unfoldable pub write_checksum {ℓ} :
    {V : Type ℓ} → Codec V → FileCalls → Bytes → WalWriter → Result (Unit {0}) × WalWriter
write_checksum c io serialized w =
    if w.enable_checksums then write_all io (le_bytes 4 (c.crc serialized)) w else (ok tt, w)

-- The record's own number is returned.
unfoldable pub append {ℓ} :
    {V : Type ℓ} → Codec V → FileCalls → WalWriter → WalRecord V → Result ℕ × WalWriter
append c io w r = or_return w (or_fail (c.encode r) storage_error) (λ serialized.
    let (sized, w1) = write_all io (le_bytes 4 (as_u32 (length serialized))) w in
    or_return w1 sized (λ size.
      let (written, w2) = write_all io serialized w1 in
      or_return w2 written (λ body.
        let (summed, w3) = write_checksum c io serialized w2 in
        or_return w3 summed (λ sum. (ok r.lsn, w3)))))

abbrev pub sent : WriteEnd → WalWriter → Result (Unit {0}) × WalWriter
sent all_written w = (ok tt, record w { file = w.file ++ w.pending; pending = [] })
sent (stopped n) w =
    (err storage_error, record w { file = w.file ++ take n w.pending; pending = drop n w.pending })

unfoldable pub flush : FileCalls → WalWriter → Result (Unit {0}) × WalWriter
flush io w = sent (io.flush w) w

-- `sync` flushes and then asks the system to keep the file.
unfoldable pub sync : FileCalls → WalWriter → Result (Unit {0}) × WalWriter
sync io w =
    let (outcome, w1) = flush io w in
    or_return w1 outcome (λ flushed. (guard (io.sync_all w1) storage_error, w1))

-- `File::set_len`: a shorter file is filled up with zeros.
abbrev pub set_len : ℕ → Bytes → Bytes
set_len n file = take n file ++ replicate (n - length file) 0

-- `truncate` behind its flush: a failed `seek` leaves the file cut and the counter as it was.
unfoldable pub cut_file : FileCalls → WalWriter → Result (Unit {0}) × WalWriter
cut_file io w = or_return w (guard (io.set_len w) storage_error) (λ resized.
    let cut : WalWriter = record w { file = set_len header_size w.file } in
    or_return cut (guard (io.seek cut) storage_error)
      (λ sought. (ok tt, record cut { next_lsn = 1 })))

unfoldable pub truncate : FileCalls → WalWriter → Result (Unit {0}) × WalWriter
truncate io w = let (outcome, w1) = flush io w in or_return w1 outcome (λ flushed. cut_file io w1)
