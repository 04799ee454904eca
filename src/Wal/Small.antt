-- ===== src/Wal/Small.antt =====
-- A small codec in place of bincode and crc32fast: what is relied on can be had.
use ruzu.Wal.Writer.{FileCalls, all_written}
use ruzu.Prelude.{
  true, ℕ, zero, suc, ◌+◌, ◌*◌, ◌%◌, ◌<◌, ◌^◌, ◌≡◌, Option, none, some, [], ◌∷◌, arith, length,
  Bytes,
}
use mathlib.Core.Option.{some-injective}
use ruzu.Wal.{
  WalRecordType, WalRecord, WalPayload, begin_transaction_payload, commit_payload, abort_payload,
  checkpoint_payload, to_u8, try_from, Codec, RoundTrips, CrcFits,
}
use ruzu.Wal.Tag.{try_from-to_u8}

abbrev pub Record : Type 0
Record = WalRecord ℕ

-- The codec knows the records of transactions and checkpoints alone: it fails on the others.
abbrev pub encode_record : Record → Option Bytes
encode_record r = elim r.payload [
  | begin_transaction_payload t ↦ some (to_u8 r.record_type ∷ r.transaction_id ∷ r.lsn ∷ 0 ∷ t ∷ [])
  | commit_payload t ↦ some (to_u8 r.record_type ∷ r.transaction_id ∷ r.lsn ∷ 1 ∷ t ∷ [])
  | abort_payload t ↦ some (to_u8 r.record_type ∷ r.transaction_id ∷ r.lsn ∷ 2 ∷ t ∷ [])
  | checkpoint_payload t ↦ some (to_u8 r.record_type ∷ r.transaction_id ∷ r.lsn ∷ 3 ∷ t ∷ [])
  | _ ↦ none
]

abbrev pub payload_of : ℕ → ℕ → Option (WalPayload ℕ)
payload_of zero t = some (begin_transaction_payload t)
payload_of (suc zero) t = some (commit_payload t)
payload_of (suc (suc zero)) t = some (abort_payload t)
payload_of (suc (suc (suc k))) t = some (checkpoint_payload t)

abbrev pub record_of : ℕ → ℕ → Option WalRecordType → Option (WalPayload ℕ) → Option Record
record_of tx lsn (some t) (some p) =
    some (record { record_type = t; transaction_id = tx; lsn = lsn; payload = p })
record_of tx lsn _ _ = none

abbrev pub decode_record : Bytes → Option Record
decode_record (ty ∷ tx ∷ lsn ∷ k ∷ t ∷ []) = record_of tx lsn (try_from ty) (payload_of k t)
decode_record _ = none

abbrev pub checksum : Bytes → ℕ
checksum [] = 0
checksum (b ∷ bs) = (b + 31 * checksum bs) % 2 ^ 32

abbrev pub codec : Codec ℕ
codec = record { encode = encode_record; decode = decode_record; crc = checksum }

decode-encode :
    (r : Record) (p : WalPayload ℕ) (bs : Bytes)
    → encode_record (record r { payload = p }) ≡ some bs
    → decode_record bs ≡ some (record r { payload = p })
decode-encode r (begin_transaction_payload t) bs e =
    rw (← some-injective (to_u8 r.record_type ∷ r.transaction_id ∷ r.lsn ∷ 0 ∷ t ∷ []) bs e)
      (rw (try_from-to_u8 r.record_type))
decode-encode r (commit_payload t) bs e =
    rw (← some-injective (to_u8 r.record_type ∷ r.transaction_id ∷ r.lsn ∷ 1 ∷ t ∷ []) bs e)
      (rw (try_from-to_u8 r.record_type))
decode-encode r (abort_payload t) bs e =
    rw (← some-injective (to_u8 r.record_type ∷ r.transaction_id ∷ r.lsn ∷ 2 ∷ t ∷ []) bs e)
      (rw (try_from-to_u8 r.record_type))
decode-encode r (checkpoint_payload t) bs e =
    rw (← some-injective (to_u8 r.record_type ∷ r.transaction_id ∷ r.lsn ∷ 3 ∷ t ∷ []) bs e)
      (rw (try_from-to_u8 r.record_type))
decode-encode r _ bs e = cc

pub codec-RoundTrips : RoundTrips codec
codec-RoundTrips r bs e = decode-encode r r.payload bs e

pub codec-CrcFits : CrcFits codec
codec-CrcFits [] = omega arith
codec-CrcFits (b ∷ bs) = omega arith

pub short :
    (a b c d e : ℕ) (bs : Bytes) → some (a ∷ b ∷ c ∷ d ∷ e ∷ []) ≡ some bs → length bs < 2 ^ 32
short a b c d e bs same = rw (← some-injective (a ∷ b ∷ c ∷ d ∷ e ∷ []) bs same) (omega arith)

-- A file on which every call succeeds.
abbrev pub sure : FileCalls
sure = record {
  write_all = λ w bytes. all_written;
  flush = λ w. all_written;
  sync_all = λ w. true;
  set_len = λ w. true;
  seek = λ w. true;
}
