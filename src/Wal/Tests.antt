-- ===== src/Wal/Tests.antt =====
-- The theorems at a small log.
use ruzu.Wal.Small.{Record, codec, sure, codec-RoundTrips, codec-CrcFits, short}
use ruzu.Prelude.{
  ℕ, ◌≡◌, ◌≢◌, ◌↔◌, refl, true, none, some, List, [], ◌∷◌, ◌++◌, arith, take, replicate, Bytes,
  le_bytes, ok, err, panic, ◌>>=◌, storage_error,
}
use ruzu.Prelude.NumSet
use ruzu.Wal.{commit, begin_record, commit_record, to_u8, try_from, new_header}
use ruzu.Wal.Tag.{try_from_iff}
use ruzu.Wal.Writer.{WalWriter, append, open_writer, flush, frame}
use ruzu.Wal.Reader.{WalReader, open_reader, read_all}
use ruzu.Wal.Reader.RoundTrip.{frames}
use ruzu.Wal.Reader.Damage.{read_all_torn, read_all_corrupted}
use ruzu.Wal.Reader.Total.{read_all_total}
use ruzu.Wal.Replay.{WalReplayer, new_replayer, analyze, records_to_apply}
use ruzu.Wal.Replay.Committed.{has_commit, is_open, analyze_lem, records_to_apply_lem}
use ruzu.Wal.Recovery.{append_all, recover-append_all}

-- Transaction 1 commits, transaction 2 does not.
abbrev log : List Record
log = begin_record 1 1 ∷ begin_record 2 2 ∷ commit_record 1 3 ∷ []

abbrev uuid : Bytes
uuid = replicate 16 7

-- The encodings of the records of `log`.
abbrev codes : List Bytes
codes = (1 ∷ 1 ∷ 1 ∷ 0 ∷ 1 ∷ []) ∷ (1 ∷ 2 ∷ 2 ∷ 0 ∷ 2 ∷ []) ∷ (2 ∷ 1 ∷ 3 ∷ 1 ∷ 1 ∷ []) ∷ []

abbrev reader_at : Bytes → WalReader
reader_at rest = record { file = rest; rest = rest; header = new_header uuid true; position = 29 }

try_from_iff_example : (try_from 36 ≡ some commit) ↔ (to_u8 commit ≡ 36)
try_from_iff_example = try_from_iff 36 commit

read_all_torn_example :
    read_all codec 4
      (reader_at (frames codec true codes ++ take 9 (frame codec true (3 ∷ 2 ∷ 4 ∷ 2 ∷ 2 ∷ []))))
    ≡ err storage_error
unfolding to_u8 new_header
read_all_torn_example =
    read_all_torn codec log codes (3 ∷ 2 ∷ 4 ∷ 2 ∷ 2 ∷ []) 9 4
      (reader_at (frames codec true codes ++ take 9 (frame codec true (3 ∷ 2 ∷ 4 ∷ 2 ∷ 2 ∷ []))))
      codec-RoundTrips codec-CrcFits
      (refl, omega arith, (refl, omega arith, (refl, omega arith, tt))) (omega arith)
      (unfold frame in omega arith) refl (omega arith)

read_all_corrupted_example :
    read_all codec 4 (
      reader_at (frames codec true codes ++ (le_bytes 4 2 ++ (7 ∷ 7 ∷ [] ++ (le_bytes 4 5 ++ [])))))
    ≡ err storage_error
unfolding to_u8 new_header
read_all_corrupted_example =
    read_all_corrupted codec log codes (7 ∷ 7 ∷ []) [] 5 4
      (reader_at
        (frames codec true codes ++ (le_bytes 4 2 ++ (7 ∷ 7 ∷ [] ++ (le_bytes 4 5 ++ [])))))
      codec-RoundTrips codec-CrcFits
      (refl, omega arith, (refl, omega arith, (refl, omega arith, tt))) refl (omega arith)
      (omega arith) (λ e. omega (arith, e)) refl (omega arith)

read_all_total_example : read_all codec 6 (reader_at (9 ∷ 9 ∷ 9 ∷ 9 ∷ 9 ∷ [])) ≢ panic
read_all_total_example = read_all_total codec 6 (reader_at (9 ∷ 9 ∷ 9 ∷ 9 ∷ 9 ∷ [])) (omega arith)

log_read : read_all codec 4 (reader_at (frames codec true codes)) ≡ ok log
unfolding read_all to_u8 new_header ruzu.Wal.Reader.read_record ruzu.Prelude.read_exact frame
    ruzu.Wal.Reader.read_body ruzu.Wal.Reader.verify try_from
log_read = refl

analyze_lem_example :
    (p : WalReplayer ℕ) × (analyze codec 4 new_replayer (reader_at (frames codec true codes))
      ≡ ok p)
    × (NumSet.contains 2 p.committed_txs ≡ has_commit 2 log)
    × (NumSet.contains 2 p.active_txs ≡ is_open 2 log)
    × (p.committed_records ≡ log)
analyze_lem_example = analyze_lem codec 4 (reader_at (frames codec true codes)) log 2 refl log_read

records_to_apply_lem_example :
    (p : WalReplayer ℕ) × (analyze codec 4 new_replayer (reader_at (frames codec true codes))
      ≡ ok p)
    × (records_to_apply p ≡ begin_record 1 1 ∷ commit_record 1 3 ∷ [])
records_to_apply_lem_example =
    records_to_apply_lem codec 4 (reader_at (frames codec true codes)) log log_read

-- The writer that has appended `log`.
abbrev written : WalWriter
written = record {
  file = (open_writer none uuid true).file;
  pending = frames codec true codes;
  enable_checksums = true;
  next_lsn = 1;
  database_id = uuid;
}

-- The file behind the flush.
abbrev flushed : WalWriter
flushed = (flush sure written).1

recover-append_all_example :
    (r : WalReader) × (open_reader flushed.file ≡ ok r)
    × (read_all codec 4 r ≡ ok log)
    × (p : WalReplayer ℕ) × (analyze codec 4 new_replayer r ≡ ok p)
    × (records_to_apply p ≡ begin_record 1 1 ∷ commit_record 1 3 ∷ [])
unfolding open_writer append_all append flush frame to_u8 ruzu.Wal.Writer.write_all
    ruzu.Wal.Writer.write_checksum
recover-append_all_example =
    recover-append_all codec sure log uuid true written flushed 4 codec-RoundTrips codec-CrcFits
      (short 1 1 1 0 1, (short 1 2 2 0 2, (short 2 1 3 1 1, tt))) refl refl refl (omega arith)
