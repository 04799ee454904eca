-- ===== src/Checkpoint/Tests.antt =====
-- The theorems at a checkpoint of a small log over a pool of one frame.
use ruzu.Prelude.{
  ◌⊎◌, false, ℕ, ◌≡◌, refl, true, List, [], ◌∷◌, ◌++◌, arith, Bytes, replicate, Result, ok, err,
  storage_error,
}
use ruzu.Pool.{BufferPool, flush_all, flush_each, keys}
use ruzu.Pool.Evict.{IsPool}
use ruzu.Pool.Start.{fresh, fresh-IsPool}
use ruzu.Pool.Flush.All.{Durable}
use ruzu.Wal.{Codec, new_header}
use ruzu.Wal.Writer.Kept.{Extended, Cut}
use ruzu.Wal.Writer.{FileCalls, WalWriter, append, header_bytes}
use ruzu.Wal.Reader.{WalReader, open_reader, read_all}
use ruzu.Pool.Numbers.{numbers, numbers-DiskLaws}
use ruzu.Wal.Small.{codec, codec-RoundTrips, codec-CrcFits, sure}
use ruzu.Checkpoint.{Checkpointer, new, next_id, checkpoint_as, flush_and_truncate, checkpoint}
use ruzu.Checkpoint.Safety.{checkpoint_failed, checkpoint-Checkpointed}

abbrev uuid : Bytes
uuid = replicate 16 7

-- A log with some bytes, a few of them still in the writer.
abbrev wal : WalWriter
wal = record {
  file = header_bytes (new_header uuid true) ++ (1 ∷ 2 ∷ []);
  pending = 3 ∷ [];
  enable_checksums = true;
  next_lsn = 5;
  database_id = uuid;
}

abbrev pool : BufferPool (List ℕ) ℕ
pool = fresh numbers numbers-DiskLaws 0 (10 ∷ 20 ∷ [])

pool-IsPool : IsPool numbers numbers-DiskLaws pool
pool-IsPool = fresh-IsPool numbers numbers-DiskLaws 0 (10 ∷ 20 ∷ []) tt

abbrev made : Result ℕ × Checkpointer × BufferPool (List ℕ) ℕ × WalWriter
made = checkpoint codec sure numbers new pool wal

checkpoint_made : made ≡ (ok 1, made.1, made.2, made.3)
unfolding checkpoint checkpoint_as append flush_and_truncate flush_all flush_each keys next_id
    ruzu.Wal.Writer.write_all ruzu.Wal.Writer.write_checksum ruzu.Wal.Writer.next_lsn
    ruzu.Wal.Writer.sync ruzu.Wal.Writer.flush ruzu.Wal.Writer.truncate ruzu.Wal.Writer.cut_file
checkpoint_made = refl

checkpoint-Checkpointed_example :
    (1 ≡ new.next_checkpoint_id)
    × Durable numbers numbers-DiskLaws pool made.2
    × (made.3.pending ≡ [])
    × (r : WalReader) × (open_reader made.3.file ≡ ok r)
    × (read_all codec 1 r ≡ ok [])
checkpoint-Checkpointed_example =
    checkpoint-Checkpointed codec sure numbers numbers-DiskLaws new made.1 pool made.2 wal made.3 1
      1 uuid true (1 ∷ 2 ∷ []) pool-IsPool codec-RoundTrips codec-CrcFits refl refl (omega arith)
      checkpoint_made

-- A file whose `seek` fails: the log is cut all the same.
abbrev no_seek : FileCalls
no_seek = record sure { seek = λ w. false }

abbrev failed : Result ℕ × Checkpointer × BufferPool (List ℕ) ℕ × WalWriter
failed = checkpoint codec no_seek numbers new pool wal

checkpoint_not_made : failed ≡ (err storage_error, failed.1, failed.2, failed.3)
unfolding checkpoint checkpoint_as append flush_and_truncate flush_all flush_each keys next_id
    ruzu.Wal.Writer.write_all ruzu.Wal.Writer.write_checksum ruzu.Wal.Writer.next_lsn
    ruzu.Wal.Writer.sync ruzu.Wal.Writer.flush ruzu.Wal.Writer.truncate ruzu.Wal.Writer.cut_file
checkpoint_not_made = refl

checkpoint_failed_example :
    Extended wal failed.3 ⊎ (Durable numbers numbers-DiskLaws pool failed.2 × Cut wal failed.3)
checkpoint_failed_example =
    checkpoint_failed codec no_seek numbers numbers-DiskLaws new failed.1 pool failed.2 wal failed.3
      storage_error pool-IsPool checkpoint_not_made
