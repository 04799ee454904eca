-- ===== src/Wal/Recovery.antt =====
-- A log from its first byte to its recovery: what a client appends to a new log and flushes is what
-- a reader of the file reads, and what the replayer sorts into transactions.
use ruzu.Prelude.{
  panic, or_return, refl, subst, ℕ, ◌^◌, ◌<◌, ◌≡◌, ap, ap₂, sym, ◌∙◌, append_assoc, append-nil,
  Bool, none, some, List, [], ◌∷◌, ◌++◌, arith, Bytes, Result, ok, err, length,
}
use ruzu.Wal.{new_header, header_size, WalRecord, Codec, RoundTrips, CrcFits}
use ruzu.Wal.Writer.{WalWriter, FileCalls, header_bytes, frame, append, flush, open_writer}
use ruzu.Wal.Writer.Kept.{AppendEnd, append-AppendEnd, flush-ok}
use ruzu.Wal.Reader.{WalReader, open_reader, read_all}
use ruzu.Wal.Reader.RoundTrip.{frames, AllEncode, open_reader-header_bytes, read_all-frames}
use ruzu.Wal.Replay.{WalReplayer, new_replayer, analyze, records_to_apply}
use ruzu.Wal.Replay.Committed.{keep_committed, records_to_apply_lem}

module _ {ℓ} {V : Type ℓ} (c : Codec V) (io : FileCalls) where
  -- A client that appends records one after the other.
  unfoldable pub append_all : WalWriter → List (WalRecord V) → Result (Unit {0}) × WalWriter
  append_all w [] = (ok tt, w)
  append_all w (r ∷ rs) =
      let (appended, w') = append c io w r in or_return w' appended (λ lsn. append_all w' rs)

  -- The encodings of these records are short enough for their lengths.
  abbrev pub AllSmall : List (WalRecord V) → Type 0
  AllSmall [] = Unit
  AllSmall (r ∷ rs) = ((bs : Bytes) → c.encode r ≡ some bs → length bs < 2 ^ 32) × AllSmall rs

  -- What the appended records have added to the pending bytes.
  record Appended (w : WalWriter) (rs : List (WalRecord V)) (w' : WalWriter) : Type ℓ where
    codes : List Bytes
    encoded : AllEncode c rs codes
    same_file : w'.file ≡ w.file
    grown : w'.pending ≡ w.pending ++ frames c w.enable_checksums codes

  -- A chain that succeeds has gone through its first call.
  or_return-ok :
      (reached w' : WalWriter) (first : Result ℕ) (next : ℕ → Result (Unit {0}) × WalWriter)
      → or_return reached first next ≡ (ok tt, w')
      → (n : ℕ) × (first ≡ ok n) × (next n ≡ (ok tt, w'))
  or_return-ok reached w' (ok n) next e = (n, refl, e)
  or_return-ok reached w' (err kind) next e = let bad = ap (λ r. r.0) e in absurd cc
  or_return-ok reached w' panic next e = let bad = ap (λ r. r.0) e in absurd cc

  append-ok :
      (w : WalWriter) (r : WalRecord V) (n : ℕ)
      → (append c io w r).0 ≡ ok n
      → (bs : Bytes) × (c.encode r ≡ some bs)
        × ((append c io w r).1 ≡ record w { pending = w.pending ++ frame c w.enable_checksums bs })
  unfolding AppendEnd
  append-ok w r n e =
      subst (λ o. AppendEnd c io w r (o, (append c io w r).1)) e (append-AppendEnd c io w r)

  append_all-Appended :
      (rs : List (WalRecord V)) (w w' : WalWriter)
      → AllSmall rs
      → append_all w rs ≡ (ok tt, w')
      → Appended w rs w'
  unfolding append_all
  append_all-Appended [] w w' small e =
      let same : w ≡ w' = ap (λ r. r.1) e in
      record {
        codes = [];
        encoded = tt;
        same_file = ap (λ v. v.file) (sym same);
        grown = ap (λ v. v.pending) (sym same) ∙ sym (append-nil w.pending);
      }
  append_all-Appended (r ∷ rs) w w' (small, smalls) e =
      let (n, fine, later) =
        or_return-ok (append c io w r).1 w' (append c io w r).0
          (λ lsn. append_all (append c io w r).1 rs) e in
      let (bs, out, is) = append-ok w r n fine in
      let w1 : WalWriter = record w { pending = w.pending ++ frame c w.enable_checksums bs } in
      let rest : Appended w1 rs w' =
        append_all-Appended rs w1 w' smalls (subst (λ v. append_all v rs ≡ (ok tt, w')) is later) in
      record {
        codes = bs ∷ rest.codes;
        encoded = (out, small bs out, rest.encoded);
        same_file = rest.same_file;
        grown =
            rest.grown
            ∙ append_assoc w.pending (frame c w.enable_checksums bs)
                (frames c w.enable_checksums rest.codes);
      }

  -- Let a client append records to a new log and flush it, however the calls on the file end, but
  -- so that every `append` and the flush succeed; let the database id have 16 bytes and each
  -- encoding fewer than `2 ^ 32`, and let there be more fuel than records; let the crates decode
  -- what they encode, and let a checksum be a `u32`. Then a reader opens the file and reads all the
  -- records back, in order, and the replayer offers those whose transaction the log commits.
  pub recover-append_all :
      (rs : List (WalRecord V)) (id : Bytes) (flag : Bool) (w w' : WalWriter) (fuel : ℕ)
      → RoundTrips c
      → CrcFits c
      → AllSmall rs
      → length id ≡ 16
      → append_all (open_writer none id flag) rs ≡ (ok tt, w)
      → flush io w ≡ (ok tt, w')
      → length rs < fuel
      → (r : WalReader) × (open_reader w'.file ≡ ok r)
        × (read_all c fuel r ≡ ok rs)
        × (p : WalReplayer V) × (analyze c fuel new_replayer r ≡ ok p)
        × (records_to_apply p ≡ keep_committed rs rs)
  unfolding open_writer
  recover-append_all rs id flag w w' fuel rt cf small sixteen e sent more =
      let a = append_all-Appended rs (open_writer none id flag) w small e in
      let head = header_bytes (new_header id flag) in
      let body = frames c flag a.codes in
      let file : w'.file ≡ head ++ body =
        ap (λ v. v.file) (flush-ok io w w' sent) ∙ ap₂ ◌++◌ a.same_file a.grown in
      let r : WalReader = record {
        file = head ++ body;
        rest = body;
        header = new_header id flag;
        position = header_size;
      } in
      let reads : read_all c fuel r ≡ ok rs =
        unfold new_header in
        read_all-frames c rs a.codes [] fuel r rt cf a.encoded (sym (append-nil body)) (omega arith)
          more in
      let (p, found, applied) = records_to_apply_lem c fuel r rs reads in
      (
        r,
        ap open_reader file ∙ open_reader-header_bytes id flag body sixteen,
        reads,
        p,
        found,
        applied,
      )
