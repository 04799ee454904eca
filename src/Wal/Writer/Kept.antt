-- ===== src/Wal/Writer/Kept.antt =====
-- What the operations of src/storage/wal/writer.rs keep of the log, however the calls on the file end.
use ruzu.Prelude.{
  ℕ, ◌≡◌, refl, sym, subst, ◌∙◌, ap, append_assoc, append-nil, Bool, true, false, inl, inr, ◌⊎◌,
  some, Option-cases, [], ◌++◌, Bytes, le_bytes, Result, ok, err, panic, storage_error, or_return,
  guard, if◌then◌else◌, length, take, drop, append-take-drop, as_u32,
}
use ruzu.Wal.{header_size, WalRecord, Codec}
use ruzu.Wal.Writer.{
  WalWriter, WriteEnd, all_written, stopped, FileCalls, buffered, sent, write_all, frame,
  write_checksum, append, flush, sync, set_len, cut_file, truncate,
}

-- The log of `w'` is that of `w` and perhaps more: nothing was lost.
pub record Extended (w w' : WalWriter) : Type 0 where
  pub more : Bytes
  pub all : w'.file ++ w'.pending ≡ (w.file ++ w.pending) ++ more

pub Extended-refl : (w : WalWriter) → Extended w w
Extended-refl w = record { more = []; all = sym (append-nil (w.file ++ w.pending)) }

pub Extended-trans : (u v w : WalWriter) → Extended u v → Extended v w → Extended u w
Extended-trans u v w x y = record {
  more = x.more ++ y.more;
  all = y.all ∙ (ap (λ s. s ++ y.more) x.all ∙ append_assoc (u.file ++ u.pending) x.more y.more);
}

-- A part of a chain of calls, and what follows where it succeeds.
or_return-Extended :
    {A B : Type 0} (w reached : WalWriter) (first : Result A) (next : A → Result B × WalWriter)
    → Extended w reached
    → ((a : A) → first ≡ ok a → Extended w (next a).1)
    → Extended w (or_return reached first next).1
or_return-Extended w reached (ok a) next x then_next = then_next a refl
or_return-Extended w reached (err kind) next x then_next = x
or_return-Extended w reached panic next x then_next = x

sent-Extended : (e : WriteEnd) (w : WalWriter) → Extended w (sent e w).1
sent-Extended all_written w = record { more = []; all = refl }
sent-Extended (stopped n) w = record {
  more = [];
  all =
      append_assoc w.file (take n w.pending) (drop n w.pending)
      ∙ (ap (λ p. w.file ++ p) (append-take-drop n w.pending)
          ∙ sym (append-nil (w.file ++ w.pending)));
}

sent-ok :
    (e : WriteEnd) (w w' : WalWriter)
    → sent e w ≡ (ok tt, w')
    → w' ≡ record w { file = w.file ++ w.pending; pending = [] }
sent-ok all_written w w' same = sym (ap (λ r. r.1) same)
sent-ok (stopped n) w w' same = let bad = ap (λ r. r.0) same in absurd cc

module _ (io : FileCalls) where
  flush-Extended : (w : WalWriter) → Extended w (flush io w).1
  unfolding flush
  flush-Extended w = sent-Extended (io.flush w) w

  pub sync-Extended : (w : WalWriter) → Extended w (sync io w).1
  unfolding sync
  sync-Extended w =
      or_return-Extended w (flush io w).1 (flush io w).0
        (λ flushed. (guard (io.sync_all (flush io w).1) storage_error, (flush io w).1))
        (flush-Extended w) (λ a e. flush-Extended w)

  -- A flush that succeeds.
  pub flush-ok :
      (w w' : WalWriter)
      → flush io w ≡ (ok tt, w')
      → w' ≡ record w { file = w.file ++ w.pending; pending = [] }
  unfolding flush
  flush-ok w w' = sent-ok (io.flush w) w w'

abbrev added : WalWriter → Bytes → WalWriter
added w bytes = record w { pending = w.pending ++ bytes }

added-Extended : (w : WalWriter) (bytes : Bytes) → Extended w (added w bytes)
added-Extended w bytes = record { more = bytes; all = sym (append_assoc w.file w.pending bytes) }

framed : (p a b s : Bytes) → ((p ++ a) ++ b) ++ s ≡ p ++ (a ++ (b ++ s))
framed p a b s = append_assoc (p ++ a) b s ∙ append_assoc p a (b ++ s)

-- A write adds the bytes, or fails and has lost nothing.
Writes : WalWriter → Bytes → Result (Unit {0}) × WalWriter → Type 0
Writes w bytes r =
    (r ≡ (ok tt, added w bytes))
    ⊎ ((w' : WalWriter) × (r ≡ (err storage_error, w')) × Extended w w')

buffered-Writes :
    (e : WriteEnd) (bytes : Bytes) (w : WalWriter) → Writes w bytes (buffered e bytes w)
unfolding Writes
buffered-Writes all_written bytes w = inl refl
buffered-Writes (stopped n) bytes w =
    inr (added w (take n bytes), refl, added-Extended w (take n bytes))

write_all-Writes :
    (io : FileCalls) (bytes : Bytes) (w : WalWriter) → Writes w bytes (write_all io bytes w)
unfolding write_all
write_all-Writes io bytes w = buffered-Writes (io.write_all w bytes) bytes w

module _ {ℓ} {V : Type ℓ} (c : Codec V) (io : FileCalls) where
  sum-Writes :
      (flag : Bool) (sum : ℕ) (w : WalWriter)
      → Writes w
          (if flag then le_bytes 4 sum else [])
          (if flag then write_all io (le_bytes 4 sum) w else (ok tt, w))
  unfolding Writes
  sum-Writes true sum w = write_all-Writes io (le_bytes 4 sum) w
  sum-Writes false sum w =
      inl (ap (λ p. (ok tt, record w { pending = p })) (sym (append-nil w.pending)))

  write_checksum-Writes :
      (bs : Bytes) (w : WalWriter)
      → Writes w
          (if w.enable_checksums then le_bytes 4 (c.crc bs) else [])
          (write_checksum c io bs w)
  unfolding write_checksum Writes write_all
  write_checksum-Writes bs w = sum-Writes w.enable_checksums (c.crc bs) w

  -- How `append` ends: with a whole frame behind the pending bytes, or with an error, and with
  -- perhaps a part of a frame.
  unfoldable pub AppendEnd : WalWriter → WalRecord V → Result ℕ × WalWriter → Type 0
  AppendEnd w r (ok lsn, w') =
      (bs : Bytes) × (c.encode r ≡ some bs)
      × (w' ≡ record w { pending = w.pending ++ frame c w.enable_checksums bs })
  AppendEnd w r (err kind, w') = Extended w w'
  AppendEnd w r (panic, w') = Extended w w'

  end-Extended :
      (w : WalWriter) (r : WalRecord V) (m : Result ℕ × WalWriter)
      → AppendEnd w r m
      → Extended w m.1
  unfolding AppendEnd
  end-Extended w r (ok n, w') (bs, e, same) =
      subst (Extended w) (sym same) (added-Extended w (frame c w.enable_checksums bs))
  end-Extended w r (err kind, w') x = x
  end-Extended w r (panic, w') x = x

  pub append-AppendEnd : (w : WalWriter) (r : WalRecord V) → AppendEnd w r (append c io w r)
  unfolding append AppendEnd frame Writes
  append-AppendEnd w r = elim (Option-cases (c.encode r)) [
    | inl e ↦ rw (e, append) (Extended-refl w)
    | inr (bs, e) ↦
        let size = le_bytes 4 (as_u32 (length bs)) in
        let w1 = added w size in
        let w2 = added w1 bs in
        elim (write_all-Writes io size w) [
          | inr (v, e1, x) ↦ rw (e, append, e1) x
          | inl e1 ↦ elim (write_all-Writes io bs w1) [
            | inr (v, e2, x) ↦
                rw (e, append, e1, e2) (Extended-trans w w1 v (added-Extended w size) x)
            | inl e2 ↦ elim (write_checksum-Writes bs w2) [
              | inr (v, e3, x) ↦
                  rw (e, append, e1, e2, e3)
                    (Extended-trans w w1 v (added-Extended w size)
                      (Extended-trans w1 w2 v (added-Extended w1 bs) x))
              | inl e3 ↦
                  rw (e, append, e1, e2, e3)
                    (bs, e, ap (λ p. record w { pending = p }) (framed w.pending size bs _))
            ]
          ]
        ]
  ]

  pub append-Extended : (w : WalWriter) (r : WalRecord V) → Extended w (append c io w r).1
  append-Extended w r = end-Extended w r (append c io w r) (append-AppendEnd w r)

-- The file of `w'` is the header of the log of `w`, and nothing is pending.
pub record Cut (w w' : WalWriter) : Type 0 where
  pub more : Bytes
  pub cut : w'.file ≡ set_len header_size ((w.file ++ w.pending) ++ more)
  pub none_pending : w'.pending ≡ []

-- How `truncate` ends: an error leaves the log whole or cut.
abbrev pub TruncateEnd : WalWriter → Result (Unit {0}) × WalWriter → Type 0
TruncateEnd w (ok done, w') = Cut w w' × (w'.next_lsn ≡ 1)
TruncateEnd w (err kind, w') = Extended w w' ⊎ Cut w w'
TruncateEnd w (panic, w') = Extended w w' ⊎ Cut w w'

module _ (io : FileCalls) where
  cut_file-TruncateEnd :
      (w w1 : WalWriter) → Extended w w1 → w1.pending ≡ [] → TruncateEnd w (cut_file io w1)
  unfolding cut_file
  cut_file-TruncateEnd w w1 x nothing =
      let whole : w1.file ≡ (w.file ++ w.pending) ++ x.more =
        sym (append-nil w1.file) ∙ (ap (λ p. w1.file ++ p) (sym nothing) ∙ x.all) in
      by_calls (io.set_len w1) (io.seek (record w1 { file = set_len header_size w1.file }))
        (record { more = x.more; cut = ap (set_len header_size) whole; none_pending = nothing })
    where
      by_calls :
          (resized sought : Bool)
          → Cut w (record w1 { file = set_len header_size w1.file })
          → TruncateEnd w (
              or_return w1 (guard resized storage_error) (λ a.
                or_return
                  (record w1 { file = set_len header_size w1.file })
                  (guard sought storage_error)
                  (λ b. (ok tt, record w1 { file = set_len header_size w1.file; next_lsn = 1 }))))
      by_calls false sought c = inl x
      by_calls true false c = inr c
      by_calls true true c =
          (record { more = c.more; cut = c.cut; none_pending = c.none_pending }, refl)

  pub truncate-TruncateEnd : (w w1 : WalWriter) → Extended w w1 → TruncateEnd w (truncate io w1)
  unfolding truncate flush
  truncate-TruncateEnd w w1 x = by_end (io.flush w1)
    where
      by_end :
          (e : WriteEnd)
          → TruncateEnd w
              (or_return (sent e w1).1 (sent e w1).0 (λ flushed. cut_file io (sent e w1).1))
      by_end all_written =
          cut_file-TruncateEnd w (sent all_written w1).1
            (Extended-trans w w1 (sent all_written w1).1 x (sent-Extended all_written w1)) refl
      by_end (stopped n) =
          inl (Extended-trans w w1 (sent (stopped n) w1).1 x (sent-Extended (stopped n) w1))
