-- ===== src/Wal/Replay/Committed.antt =====
-- What the replayer knows after a log, against descriptions that read the log alone.
use ruzu.Prelude.{
  ℕ, zero, suc, ◌≡◌, refl, ap, sym, ◌∙◌, append_assoc, append-nil, Bool, true, false, not, ◌&&◌,
  ◌||◌, Option, none, some, List, [], ◌∷◌, ◌++◌, arith, Result, ok, err, panic, ◌>>=◌, ◌==◌,
  if◌then◌else◌,
}
use ruzu.Prelude.NumSet
use ruzu.Prelude.NumSet.{NumSet, contains-insert, contains-remove}
use ruzu.Wal.{WalRecordType, begin_transaction, commit, abort, checkpoint, WalRecord, Codec}
use ruzu.Wal.Reader.{WalReader, read_record, read_all}
use ruzu.Wal.Replay.{
  WalReplayer, new_replayer, track, analyze_record, analyze, filter_committed, records_to_apply,
}

-- Does a record of this type, by transaction `tx`, begin, commit or end transaction `x`?
abbrev pub begins : ℕ → WalRecordType → ℕ → Bool
begins x begin_transaction tx = tx == x
begins x _ tx = false

abbrev pub commits : ℕ → WalRecordType → ℕ → Bool
commits x commit tx = tx == x
commits x _ tx = false

abbrev pub is_checkpoint : WalRecordType → Bool
is_checkpoint checkpoint = true
is_checkpoint _ = false

abbrev pub ends : ℕ → WalRecordType → ℕ → Bool
ends x commit tx = tx == x
ends x abort tx = tx == x
ends x _ tx = false

module _ {ℓ} {V : Type ℓ} where
  -- Some record of the log is a checkpoint.
  abbrev pub has_checkpoint : List (WalRecord V) → Bool
  has_checkpoint [] = false
  has_checkpoint (r ∷ rs) = is_checkpoint r.record_type || has_checkpoint rs

  -- Some record of the log commits `x`.
  abbrev pub has_commit : ℕ → List (WalRecord V) → Bool
  has_commit x [] = false
  has_commit x (r ∷ rs) = commits x r.record_type r.transaction_id || has_commit x rs

  -- Some record of the log commits or aborts `x`.
  abbrev pub has_end : ℕ → List (WalRecord V) → Bool
  has_end x [] = false
  has_end x (r ∷ rs) = ends x r.record_type r.transaction_id || has_end x rs

  -- Some record begins `x`, and none behind it ends `x`.
  abbrev pub is_open : ℕ → List (WalRecord V) → Bool
  is_open x [] = false
  is_open x (r ∷ rs) =
      (begins x r.record_type r.transaction_id && not (has_end x rs)) || is_open x rs

  abbrev pub keep_committed : List (WalRecord V) → List (WalRecord V) → List (WalRecord V)
  keep_committed log [] = []
  keep_committed log (r ∷ rs) =
      let rest = keep_committed log rs in if has_commit r.transaction_id log then r ∷ rest else rest

  -- The replayer after a list of records.
  unfoldable after_records : WalReplayer V → List (WalRecord V) → WalReplayer V
  after_records p [] = p
  after_records p (r ∷ rs) = after_records (analyze_record p r) rs

  track-committed :
      (x : ℕ) (t : WalRecordType) (tx : ℕ) (p : WalReplayer V)
      → NumSet.contains x (track t tx p).committed_txs
        ≡ NumSet.contains x p.committed_txs || commits x t tx
  unfolding track
  track-committed x commit tx p = ground (arith, contains-insert tx x p.committed_txs)
  track-committed x t tx p = ground arith

  track-active :
      (x : ℕ) (t : WalRecordType) (tx : ℕ) (p : WalReplayer V)
      → NumSet.contains x (track t tx p).active_txs
        ≡ (NumSet.contains x p.active_txs && not (ends x t tx)) || begins x t tx
  unfolding track
  track-active x begin_transaction tx p = ground (arith, contains-insert tx x p.active_txs)
  track-active x commit tx p = ground (arith, contains-remove tx x p.active_txs)
  track-active x abort tx p = ground (arith, contains-remove tx x p.active_txs)
  track-active x t tx p = ground arith

  -- After any log, from any state: who is committed, who is active, and which records are kept.
  committed-after_records :
      (x : ℕ) (rs : List (WalRecord V)) (p : WalReplayer V)
      → NumSet.contains x (after_records p rs).committed_txs
        ≡ NumSet.contains x p.committed_txs || has_commit x rs
  unfolding after_records analyze_record
  committed-after_records x [] p = ground arith
  committed-after_records x (r ∷ rs) p = ground (
    arith,
    committed-after_records x rs (analyze_record p r),
    track-committed x r.record_type r.transaction_id p,
  )

  active-after_records :
      (x : ℕ) (rs : List (WalRecord V)) (p : WalReplayer V)
      → NumSet.contains x (after_records p rs).active_txs
        ≡ (NumSet.contains x p.active_txs && not (has_end x rs)) || is_open x rs
  unfolding after_records analyze_record
  active-after_records x [] p = ground arith
  active-after_records x (r ∷ rs) p = ground (
    arith,
    active-after_records x rs (analyze_record p r),
    track-active x r.record_type r.transaction_id p,
  )

  track-records :
      (t : WalRecordType) (tx : ℕ) (p : WalReplayer V)
      → (track t tx p).committed_records ≡ p.committed_records
  unfolding track
  track-records commit tx p = refl
  track-records t tx p = refl

  records-after_records :
      (rs : List (WalRecord V)) (p : WalReplayer V)
      → (after_records p rs).committed_records ≡ p.committed_records ++ rs
  unfolding after_records analyze_record
  records-after_records [] p = sym (append-nil p.committed_records)
  records-after_records (r ∷ rs) p =
      records-after_records rs (analyze_record p r)
      ∙ (ap (λ t. (t ++ (r ∷ [])) ++ rs) (track-records r.record_type r.transaction_id p)
          ∙ append_assoc p.committed_records (r ∷ []) rs)

  filter-keep :
      (txs : NumSet) (log rs : List (WalRecord V))
      → ((x : ℕ) → NumSet.contains x txs ≡ has_commit x log)
      → filter_committed txs rs ≡ keep_committed log rs
  unfolding filter_committed
  filter-keep txs log [] h = refl
  filter-keep txs log (r ∷ rs) h = rw (h r.transaction_id, filter-keep txs log rs h)

  -- Reading and tracking in turn, against reading the whole log first.
  analyze-read_all :
      (c : Codec V) (fuel : ℕ) (p : WalReplayer V) (r : WalReader)
      → analyze c fuel p r ≡ (read_all c fuel r >>= λ rs. ok (after_records p rs))
  unfolding analyze read_all after_records
  analyze-read_all c zero p r = refl
  analyze-read_all c (suc fuel) p r =
      step (read_record c r) (λ x r'. analyze-read_all c fuel (analyze_record p x) r')
    where
      step :
          (m : Result (Option (WalRecord V × WalReader)))
          → ((x : WalRecord V) (r' : WalReader)
              → analyze c fuel (analyze_record p x) r'
                ≡ (read_all c fuel r' >>= λ rs. ok (after_records (analyze_record p x) rs)))
          → (elim m as (λ _. Result (WalReplayer V)) [
            | ok none ↦ ok p
            | ok (some (x, r')) ↦ analyze c fuel (analyze_record p x) r'
            | err e ↦ err e
            | panic ↦ panic
          ])
            ≡ ((elim m as (λ _. Result (List (WalRecord V))) [
              | ok none ↦ ok []
              | ok (some (x, r')) ↦ read_all c fuel r' >>= λ xs. ok (x ∷ xs)
              | err e ↦ err e
              | panic ↦ panic
            ])
                >>= λ rs. ok (after_records p rs))
      step (ok none) h = refl
      step (ok (some (x, r'))) h = h x r' ∙ assoc (read_all c fuel r') x
        where
          assoc :
              (m : Result (List (WalRecord V))) (x : WalRecord V)
              → (m >>= λ rs. ok (after_records (analyze_record p x) rs))
                ≡ ((m >>= λ xs. ok (x ∷ xs)) >>= λ rs. ok (after_records p rs))
          assoc (ok xs) x = refl
          assoc (err e) x = refl
          assoc panic x = refl
      step (err e) h = refl
      step panic h = refl

  read_all-analyze :
      (c : Codec V) (fuel : ℕ) (r : WalReader) (rs : List (WalRecord V))
      → read_all c fuel r ≡ ok rs
      → analyze c fuel new_replayer r ≡ ok (after_records new_replayer rs)
  read_all-analyze c fuel r rs reads =
      analyze-read_all c fuel new_replayer r
      ∙ ap (λ m. m >>= λ xs. ok (after_records new_replayer xs)) reads

  -- If reading a log gives records of which none is a checkpoint, then `analyze` succeeds on it
  -- with the same fuel, and a transaction is in the committed set exactly if some record of the log
  -- commits it, and in the active set (to be rolled back) exactly if some record begins it that no
  -- later commit or abort of it follows; and all the records are kept, in order.
  pub analyze_lem :
      (c : Codec V) (fuel : ℕ) (r : WalReader) (rs : List (WalRecord V)) (x : ℕ)
      → has_checkpoint rs ≡ false
      → read_all c fuel r ≡ ok rs
      → (p : WalReplayer V) × (analyze c fuel new_replayer r ≡ ok p)
        × (NumSet.contains x p.committed_txs ≡ has_commit x rs)
        × (NumSet.contains x p.active_txs ≡ is_open x rs)
        × (p.committed_records ≡ rs)
  unfolding new_replayer NumSet.contains
  analyze_lem c fuel r rs x plain reads = (
    after_records new_replayer rs,
    read_all-analyze c fuel r rs reads,
    committed-after_records x rs new_replayer,
    active-after_records x rs new_replayer,
    records-after_records rs new_replayer,
  )

  -- If reading a log gives some records, then `analyze` succeeds on it with the same fuel, and the
  -- records to apply are those of the log whose transaction some record of it commits, before or
  -- behind them, in the order of the log.
  pub records_to_apply_lem :
      (c : Codec V) (fuel : ℕ) (r : WalReader) (rs : List (WalRecord V))
      → read_all c fuel r ≡ ok rs
      → (p : WalReplayer V) × (analyze c fuel new_replayer r ≡ ok p)
        × (records_to_apply p ≡ keep_committed rs rs)
  unfolding records_to_apply new_replayer NumSet.contains
  records_to_apply_lem c fuel r rs reads =
      let p = after_records (new_replayer {V = V}) rs in
      (
        p,
        read_all-analyze c fuel r rs reads,
        ap (filter_committed p.committed_txs) (records-after_records rs new_replayer)
            ∙ filter-keep p.committed_txs rs rs (λ x. committed-after_records x rs new_replayer),
      )
