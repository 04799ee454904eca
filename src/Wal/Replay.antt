-- ===== src/Wal/Replay.antt =====
-- src/storage/wal/reader.rs: `WalReplayer`, which finds the committed transactions of a log.
pub mod Committed
use ruzu.Prelude.{
  ℕ, zero, suc, ◌≡◌, Bool, true, false, Option, none, some, List, [], ◌∷◌, ◌++◌, Result, ok, err,
  panic, ◌>>=◌, if◌then◌else◌, length,
}
use ruzu.Prelude.NumSet
use ruzu.Prelude.NumSet.{NumSet}
use ruzu.Wal.{WalRecordType, begin_transaction, commit, abort, WalRecord, Codec}
use ruzu.Wal.Reader.{WalReader, read_record}

pub record WalReplayer {ℓ} (V : Type ℓ) : Type ℓ where
  pub active_txs : NumSet
  pub committed_txs : NumSet
  pub committed_records : List (WalRecord V)

pub record ReplayResult : Type 0 where
  pub records_replayed : ℕ
  pub transactions_committed : ℕ
  pub transactions_rolled_back : ℕ
  pub committed : NumSet

module _ {ℓ} {V : Type ℓ} where
  unfoldable pub new_replayer : WalReplayer V
  new_replayer = record { active_txs = []; committed_txs = []; committed_records = [] }

  -- The `match` on the type of one record.
  unfoldable pub track : WalRecordType → ℕ → WalReplayer V → WalReplayer V
  track begin_transaction tx p = record p { active_txs = NumSet.insert tx p.active_txs }
  track commit tx p = record p {
    active_txs = NumSet.remove tx p.active_txs;
    committed_txs = NumSet.insert tx p.committed_txs;
  }
  track abort tx p = record p { active_txs = NumSet.remove tx p.active_txs }
  track _ tx p = p

  -- One round of the loop of `analyze`.
  unfoldable pub analyze_record : WalReplayer V → WalRecord V → WalReplayer V
  analyze_record p r =
      let p' = track r.record_type r.transaction_id p in
      record p' { committed_records = p'.committed_records ++ (r ∷ []) }

  -- `analyze` reads and tracks in turn. The fuel is that of `read_all`.
  unfoldable pub analyze : Codec V → ℕ → WalReplayer V → WalReader → Result (WalReplayer V)
  analyze c zero p r = panic
  analyze c (suc fuel) p r = elim (read_record c r) [
    | ok none ↦ ok p
    | ok (some (x, r')) ↦ analyze c fuel (analyze_record p x) r'
    | err e ↦ err e
    | panic ↦ panic
  ]

  unfoldable pub result : WalReplayer V → ReplayResult
  result p = record {
    records_replayed = length p.committed_records;
    transactions_committed = length p.committed_txs;
    transactions_rolled_back = length p.active_txs;
    committed = p.committed_txs;
  }

  unfoldable pub filter_committed : NumSet → List (WalRecord V) → List (WalRecord V)
  filter_committed txs [] = []
  filter_committed txs (r ∷ rs) =
      let rest = filter_committed txs rs in
      if NumSet.contains r.transaction_id txs then r ∷ rest else rest

  unfoldable pub records_to_apply : WalReplayer V → List (WalRecord V)
  records_to_apply p = filter_committed p.committed_txs p.committed_records
