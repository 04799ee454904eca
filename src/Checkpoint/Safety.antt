-- ===== src/Checkpoint/Safety.antt =====
-- A checkpoint cuts the log only when every page is on the disk.
use ruzu.Prelude.{
  ◌⊎◌, ℕ, ◌-◌, ◌<◌, ◌≡◌, refl, ap, ap₂, sym, subst, ◌∙◌, append_assoc, append-nil, Bool, inl, inr,
  [], ◌∷◌, ◌++◌, arith, Bytes, length, take, replicate, length-append, take-length-append, Result,
  RuzuError, ok, err, panic,
}
use ruzu.Page.Disk.{Disk, DiskLaws}
use ruzu.Pool.{BufferPool, flush_all}
use ruzu.Pool.Evict.{IsPool}
use ruzu.Pool.Flush.All.{Durable, flush_all-Durable}
use ruzu.Wal.{Codec, RoundTrips, CrcFits, checkpoint_record, new_header, header_size}
use ruzu.Wal.Writer.{
  WalWriter, header_bytes, bool_byte, set_len, FileCalls, next_lsn, append, sync, truncate,
}
use ruzu.Wal.Writer.Kept.{
  Extended, Extended-trans, append-Extended, sync-Extended, Cut, TruncateEnd, truncate-TruncateEnd,
}
use ruzu.Wal.Reader.{WalReader, open_reader, read_all}
use ruzu.Wal.Reader.RoundTrip.{open_reader-header_bytes, read_all-frames}
use ruzu.Checkpoint.{or_stop, Checkpointer, next_id, checkpoint_as, checkpoint, flush_and_truncate}

abbrev head : Bytes → Bool → Bytes
head id flag = header_bytes (new_header id flag)

length-head : (id : Bytes) (flag : Bool) → length id ≡ 16 → length (head id flag) ≡ 29
unfolding header_bytes new_header
length-head id flag sixteen = omega (arith, length-append id (bool_byte flag ∷ []), sixteen)

set_len-head :
    (id : Bytes) (flag : Bool) (rest : Bytes)
    → length id ≡ 16
    → set_len header_size (head id flag ++ rest) ≡ head id flag
set_len-head id flag rest sixteen =
    let size = length-head id flag sixteen in
    let short : 29 - length (head id flag ++ rest) ≡ 0 =
      omega (arith, size, length-append (head id flag) rest) in
    ap₂ ◌++◌
      (subst (λ n. take n (head id flag ++ rest) ≡ head id flag) size
        (take-length-append (head id flag) rest))
      (ap (λ n. replicate n 0) short)
    ∙ append-nil (head id flag)

module _ {ℓ} {V : Type ℓ} {D P : Type 0} (c : Codec V) (io : FileCalls) (k : Disk D P)
    (laws : DiskLaws k) where
  -- How a checkpoint ends: every page is on disk as it was seen and the log is a header; or it
  -- failed, and the log is whole, or it was cut with every page on disk as it was seen.
  abbrev pub Outcome :
      BufferPool D P → WalWriter → ℕ → Result ℕ × BufferPool D P × WalWriter → Type 0
  Outcome p w id (ok n, p', w') = (n ≡ id) × Durable k laws p p' × Cut w w' × (w'.next_lsn ≡ 1)
  Outcome p w id (err e, p', w') = Extended w w' ⊎ (Durable k laws p p' × Cut w w')
  Outcome p w id (panic, p', w') = Extended w w' ⊎ (Durable k laws p p' × Cut w w')

  or_stop-Outcome :
      {A : Type 0} (p : BufferPool D P) (w : WalWriter) (id : ℕ) (p1 : BufferPool D P)
      (w1 : WalWriter) (first : Result A) (next : A → Result ℕ × BufferPool D P × WalWriter)
      → Extended w w1
      → ((a : A) → first ≡ ok a → Outcome p w id (next a))
      → Outcome p w id (or_stop p1 w1 first next)
  or_stop-Outcome p w id p1 w1 (ok a) next x then_next = then_next a refl
  or_stop-Outcome p w id p1 w1 (err kind) next x then_next = inl x
  or_stop-Outcome p w id p1 w1 panic next x then_next = inl x

  truncated-Outcome :
      (p p' : BufferPool D P) (w : WalWriter) (id : ℕ) (m : Result (Unit {0}) × WalWriter)
      → Durable k laws p p'
      → TruncateEnd w m
      → Outcome p w id (or_stop p' m.1 m.0 (λ restarted. (ok id, p', m.1)))
  truncated-Outcome p p' w id (ok done, w') d (cut, restarted) = (refl, d, cut, restarted)
  truncated-Outcome p p' w id (err kind, w') d (inl x) = inl x
  truncated-Outcome p p' w id (err kind, w') d (inr cut) = inr (d, cut)
  truncated-Outcome p p' w id (panic, w') d (inl x) = inl x
  truncated-Outcome p p' w id (panic, w') d (inr cut) = inr (d, cut)

  flush_and_truncate-Outcome :
      (p : BufferPool D P) (w w1 : WalWriter) (id : ℕ)
      → IsPool k laws p
      → Extended w w1
      → Outcome p w id (flush_and_truncate c io k p w1 id)
  unfolding flush_and_truncate
  flush_and_truncate-Outcome p w w1 id v x =
      or_stop-Outcome p w id (flush_all k p).1 w1 (flush_all k p).0 _ x (λ done e.
        truncated-Outcome p (flush_all k p).1 w id (truncate io w1)
          (flush_all-Durable k laws p (flush_all k p).1 v (ap (λ o. (o, (flush_all k p).1)) e))
          (truncate-TruncateEnd io w w1 x))

  checkpoint_as-Outcome :
      (p : BufferPool D P) (w : WalWriter) (id : ℕ)
      → IsPool k laws p
      → Outcome p w id (checkpoint_as c io k p w id)
  unfolding checkpoint_as next_lsn
  checkpoint_as-Outcome p w id v =
      let (lsn, numbered) = next_lsn w in
      let r = checkpoint_record {V = V} 0 lsn id in
      let w1 = (append c io numbered r).1 in
      let start : Extended w numbered = record {
        more = [];
        all = sym (append-nil (w.file ++ w.pending));
      } in
      let x1 = Extended-trans w numbered w1 start (append-Extended c io numbered r) in
      or_stop-Outcome p w id p w1 (append c io numbered r).0 _ x1 (λ own_lsn e.
        let x2 = Extended-trans w w1 (sync io w1).1 x1 (sync-Extended io w1) in
        or_stop-Outcome p w id p (sync io w1).1 (sync io w1).0 _ x2
          (λ kept e2. flush_and_truncate-Outcome p w (sync io w1).1 id v x2))

  abbrev CheckpointOutcome :
      Checkpointer
      → BufferPool D P
      → WalWriter
      → Result ℕ × Checkpointer × BufferPool D P × WalWriter
      → Type 0
  CheckpointOutcome cp p w (r, cp', p', w') = Outcome p w cp.next_checkpoint_id (r, p', w')

  checkpoint-CheckpointOutcome :
      (cp : Checkpointer) (p : BufferPool D P) (w : WalWriter)
      → IsPool k laws p
      → CheckpointOutcome cp p w (checkpoint c io k cp p w)
  unfolding checkpoint next_id
  checkpoint-CheckpointOutcome cp p w v = checkpoint_as-Outcome p w cp.next_checkpoint_id v

  -- Let the pool satisfy its invariant, and let any of the calls on the log's file fail, a write
  -- behind any number of its bytes. If `checkpoint` ends with an error, then either the bytes of
  -- the log, written and pending, are all there still, in their order, with perhaps more behind
  -- them; or the error came behind the cut of the file, and then every page that the disk had is on
  -- the disk as it was seen, the file is cut to the size of its header, and nothing is pending: the
  -- log is never cut before the pages are on the disk.
  pub checkpoint_failed :
      (cp cp' : Checkpointer) (p p' : BufferPool D P) (w w' : WalWriter) (e : RuzuError)
      → IsPool k laws p
      → checkpoint c io k cp p w ≡ (err e, cp', p', w')
      → Extended w w' ⊎ (Durable k laws p p' × Cut w w')
  checkpoint_failed cp cp' p p' w w' e v done =
      subst (CheckpointOutcome cp p w) done (checkpoint-CheckpointOutcome cp p w v)

  -- Let the pool satisfy its invariant, let the log's file start with a header with a database id
  -- of 16 bytes, let the crates decode what they encode, let a checksum be a `u32`, and let there
  -- be some fuel. If `checkpoint` succeeds, it returns the id that was next; every page that the
  -- disk had is on the disk as it was seen; nothing is pending in the log; and a reader opens the
  -- log's file and reads no record.
  pub checkpoint-Checkpointed :
      (cp cp' : Checkpointer) (p p' : BufferPool D P) (w w' : WalWriter) (n fuel : ℕ) (id : Bytes)
      (flag : Bool) (rest : Bytes)
      → IsPool k laws p
      → RoundTrips c
      → CrcFits c
      → w.file ≡ head id flag ++ rest
      → length id ≡ 16
      → 0 < fuel
      → checkpoint c io k cp p w ≡ (ok n, cp', p', w')
      → (n ≡ cp.next_checkpoint_id)
        × Durable k laws p p'
        × (w'.pending ≡ [])
        × (r : WalReader) × (open_reader w'.file ≡ ok r)
        × (read_all c fuel r ≡ ok [])
  checkpoint-Checkpointed cp cp' p p' w w' n fuel id flag rest v rt cf starts sixteen some_fuel
        done =
      let (same, durable, made, restarted) : Outcome p w cp.next_checkpoint_id (ok n, p', w') =
        subst (CheckpointOutcome cp p w) done (checkpoint-CheckpointOutcome cp p w v) in
      let more = made.more in
      let whole : (w.file ++ w.pending) ++ more ≡ head id flag ++ (rest ++ (w.pending ++ more)) =
        append_assoc w.file w.pending more
        ∙ (ap (λ f. f ++ (w.pending ++ more)) starts
            ∙ append_assoc (head id flag) rest (w.pending ++ more)) in
      let left : w'.file ≡ head id flag ++ [] =
        made.cut
        ∙ (ap (set_len header_size) whole
            ∙ (set_len-head id flag (rest ++ (w.pending ++ more)) sixteen
                ∙ sym (append-nil (head id flag)))) in
      let r : WalReader = record {
        file = head id flag ++ [];
        rest = [];
        header = new_header id flag;
        position = header_size;
      } in
      (
        same,
        durable,
        made.none_pending,
        r,
        ap open_reader left ∙ open_reader-header_bytes id flag [] sixteen,
        read_all-frames c [] [] [] fuel r rt cf tt refl (omega arith) some_fuel,
      )
