-- ===== src/Checkpoint.antt =====
-- src/storage/wal/checkpointer.rs: `Checkpointer`, over the log's writer and the buffer pool.
pub mod Safety
mod Tests
use ruzu.Prelude.{ℕ, Result, ok, err, panic, add_u64}
use ruzu.Page.Disk.{Disk}
use ruzu.Pool.{BufferPool, flush_all}
use ruzu.Wal.{Codec, checkpoint_record}
use ruzu.Wal.Writer.{WalWriter, FileCalls, next_lsn, append, sync, truncate}

pub record Checkpointer : Type 0 where
  pub next_checkpoint_id : ℕ

abbrev pub new : Checkpointer
new = record { next_checkpoint_id = 1 }

-- `fetch_add`: the id given out, and the checkpointer after it.
unfoldable pub next_id : Checkpointer → ℕ × Checkpointer
next_id cp =
    (cp.next_checkpoint_id, record cp { next_checkpoint_id = add_u64 cp.next_checkpoint_id 1 })

-- `first?`: what follows, or an early return with the pool and the log that were reached.
abbrev pub or_stop :
    {A D P : Type 0}
    → BufferPool D P
    → WalWriter
    → Result A
    → (A → Result ℕ × BufferPool D P × WalWriter)
    → Result ℕ × BufferPool D P × WalWriter
or_stop pool log (ok a) next = next a
or_stop pool log (err kind) next = (err kind, pool, log)
or_stop pool log panic next = (panic, pool, log)

module _ {ℓ} {V : Type ℓ} {D P : Type 0} (c : Codec V) (io : FileCalls) (k : Disk D P) where
  -- The pages are flushed, and the log is cut only behind that.
  unfoldable pub flush_and_truncate :
      BufferPool D P → WalWriter → ℕ → Result ℕ × BufferPool D P × WalWriter
  flush_and_truncate buffer_pool synced checkpoint_id =
      let (outcome, flushed) = flush_all k buffer_pool in
      or_stop flushed synced outcome (λ durable.
        let (truncated, cut) = truncate io synced in
        or_stop flushed cut truncated (λ restarted. (ok checkpoint_id, flushed, cut)))

  -- `checkpoint` behind `next_id`.
  unfoldable pub checkpoint_as :
      BufferPool D P → WalWriter → ℕ → Result ℕ × BufferPool D P × WalWriter
  checkpoint_as buffer_pool wal_writer checkpoint_id =
      let (lsn, numbered) = next_lsn wal_writer in
      let (appended, w1) = append c io numbered (checkpoint_record 0 lsn checkpoint_id) in
      or_stop buffer_pool w1 appended (λ own_lsn.
        let (synced, w2) = sync io w1 in
        or_stop buffer_pool w2 synced (λ kept. flush_and_truncate buffer_pool w2 checkpoint_id))

  unfoldable pub checkpoint :
      Checkpointer
      → BufferPool D P
      → WalWriter
      → Result ℕ × Checkpointer × BufferPool D P × WalWriter
  checkpoint cp buffer_pool wal_writer =
      let (checkpoint_id, counted) = next_id cp in
      let (r, flushed, written) = checkpoint_as buffer_pool wal_writer checkpoint_id in
      (r, counted, flushed, written)
