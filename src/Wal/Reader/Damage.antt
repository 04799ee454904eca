-- ===== src/Wal/Reader/Damage.antt =====
-- Logs that a crash has cut, or that were damaged: what the reader makes of them.
use ruzu.Prelude.{
  ℕ, zero, suc, ◌+◌, ◌-◌, ◌^◌, ◌<◌, ◌≤◌, ◌≡◌, ◌≢◌, refl, ap, sym, ◌∙◌, Bool, true, false,
  Bool-cases, inl, inr, none, some, List, [], ◌∷◌, ◌++◌, arith, as_u32, Bytes, le_bytes, from_le,
  from_le-le_bytes_u32, read_exact, read_exact-append, read_exact_short, ok, err, storage_error,
  ◌==◌, ne→==_false, ltb, ltb→lt, ltb→le, if◌then◌else◌, length, take, length-take, length-append,
}
use ruzu.Wal.{WalRecord, Codec, RoundTrips, CrcFits}
use ruzu.Wal.Writer.{frame}
use ruzu.Wal.Reader.{WalReader, verify, read_body, read_record, read_all}
use ruzu.Wal.Reader.RoundTrip.{
  frames, AllEncode, checksum_part, after, after-ok, read_all-ReadsPast,
}

take-append {ℓ} :
    {A : Type ℓ} (n : ℕ) (xs ys : List A)
    → length xs ≤ n
    → take n (xs ++ ys) ≡ xs ++ take (n - length xs) ys
take-append n [] ys h = ap (λ k. take k ys) (omega arith)
take-append zero (x ∷ xs) ys h = absurd (omega arith)
take-append (suc n) (x ∷ xs) ys h =
    ap (λ t. x ∷ t) (take-append n xs ys (omega arith) ∙ ap (λ k. xs ++ take k ys) (omega arith))

module _ {ℓ} {V : Type ℓ} (c : Codec V) where
  verify_cut :
      (flag : Bool) (bs : Bytes) (k : ℕ)
      → k < length (checksum_part c flag bs)
      → verify c flag bs (take k (checksum_part c flag bs)) ≡ err storage_error
  unfolding verify
  verify_cut false bs k h = absurd (omega arith)
  verify_cut true bs k h = rw (
      read_exact_short 4 (take k (le_bytes 4 (c.crc bs)))
        (omega (arith, length-take k (le_bytes 4 (c.crc bs)))))

  -- `read_body` at a cut of the data and the checksum.
  read_body_cut :
      (r : WalReader) (bs : Bytes) (k : ℕ)
      → k < length bs + length (checksum_part c r.header.enable_checksums bs)
      → read_body c r (length bs) (take k (bs ++ checksum_part c r.header.enable_checksums bs))
        ≡ err storage_error
  unfolding read_body
  read_body_cut r bs k cut = elim (Bool-cases (ltb k (length bs))) [
    | inl inside ↦ rw (
        read_exact_short (length bs) (take k (bs ++ checksum_part c r.header.enable_checksums bs)) (
          omega (
            arith,
            ltb→lt k (length bs) inside,
            length-take k (bs ++ checksum_part c r.header.enable_checksums bs),
          )))
    | inr behind ↦
        let le = ltb→le k (length bs) behind in
        rw
          (
            take-append k bs (checksum_part c r.header.enable_checksums bs) le,
            read_exact-append bs
                (take (k - length bs) (checksum_part c r.header.enable_checksums bs)) (length bs)
                refl,
          )
          (rw (verify_cut r.header.enable_checksums bs (k - length bs) (omega arith)))
  ]

  frame-parts :
      (flag : Bool) (bs : Bytes)
      → length bs < 2 ^ 32
      → frame c flag bs ≡ le_bytes 4 (length bs) ++ (bs ++ checksum_part c flag bs)
  unfolding frame
  frame-parts flag bs small = let e : as_u32 (length bs) ≡ length bs = omega arith in rw e

  -- A reader at a cut frame: nothing to read within the length, an error behind it.
  read_record_cut :
      (r : WalReader) (bs : Bytes) (k : ℕ)
      → length bs < 2 ^ 32
      → r.rest ≡ take k (frame c r.header.enable_checksums bs)
      → k < length (frame c r.header.enable_checksums bs)
      → read_record c r ≡ (if ltb k 4 then ok none else err storage_error)
  unfolding read_record
  read_record_cut r bs k small at cut = elim (Bool-cases (ltb k 4)) [
    | inl within ↦ rw (
      within,
      read_exact_short 4 r.rest (
          rw at (
            omega
              (arith, ltb→lt k 4 within, length-take k (frame c r.header.enable_checksums bs)))),
      read_record,
    )
    | inr behind ↦
        let flag = r.header.enable_checksums in
        let body = bs ++ checksum_part c flag bs in
        let parts = frame-parts flag bs small in
        let le = ltb→le k 4 behind in
        let at' : r.rest ≡ le_bytes 4 (length bs) ++ take (k - 4) body =
          at ∙ (ap (take k) parts ∙ take-append k (le_bytes 4 (length bs)) body le) in
        let len : read_exact 4 r.rest ≡ some (le_bytes 4 (length bs), take (k - 4) body) =
          ap (read_exact 4) at'
          ∙ read_exact-append (le_bytes 4 (length bs)) (take (k - 4) body) 4 refl in
        let size : from_le (le_bytes 4 (length bs)) ≡ length bs =
          from_le-le_bytes_u32 (length bs) small in
        let room : k - 4 < length bs + length (checksum_part c flag bs) = omega (
          arith,
          ap length parts,
          length-append (le_bytes 4 (length bs)) body,
          length-append bs (checksum_part c flag bs),
        ) in
        rw (behind, len, read_record, size, read_body_cut r bs (k - 4) room)
  ]

  read_all_stop :
      (fuel : ℕ) (r : WalReader) (b : Bool)
      → 0 < fuel
      → read_record c r ≡ (if b then ok none else err storage_error)
      → read_all c fuel r ≡ (if b then ok [] else err storage_error)
  unfolding read_all
  read_all_stop zero r b h e = absurd (omega arith)
  read_all_stop (suc fuel) r true h e = rw (e, read_all)
  read_all_stop (suc fuel) r false h e = rw (e, read_all)

  after-err : (xs : List (WalRecord V)) → after c xs (err storage_error) ≡ err storage_error
  after-err [] = refl
  after-err (x ∷ xs) = rw (after-err xs)

  after_stop :
      (xs : List (WalRecord V)) (b : Bool)
      → after c xs (if b then ok [] else err storage_error)
        ≡ (if b then ok xs else err storage_error)
  after_stop xs true = after-ok c xs
  after_stop xs false = after-err xs

  -- Let a log be the frames of some records, each encoded in fewer than `2 ^ 32` bytes, with a last
  -- frame behind them that a crash has cut; let the crates decode what they encode, let a checksum
  -- be a `u32`, and let there be more fuel than records. Cut within the four bytes of its length,
  -- the log reads as the records before it; cut further on, reading the log is an error.
  pub read_all_torn :
      (xs : List (WalRecord V)) (bss : List Bytes) (bs : Bytes) (k fuel : ℕ) (r : WalReader)
      → RoundTrips c
      → CrcFits c
      → AllEncode c xs bss
      → length bs < 2 ^ 32
      → k < length (frame c r.header.enable_checksums bs)
      → r.rest
        ≡ frames c r.header.enable_checksums bss ++ take k (frame c r.header.enable_checksums bs)
      → length xs < fuel
      → read_all c fuel r ≡ (if ltb k 4 then ok xs else err storage_error)
  read_all_torn xs bss bs k fuel r rt cf enc small cut at more =
      let flag = r.header.enable_checksums in
      let p = read_all-ReadsPast c xs bss (take k (frame c flag bs)) fuel r rt cf enc at more in
      let same : p.reader.header.enable_checksums ≡ flag =
        ap (λ h. h.enable_checksums) p.same_header in
      let got : read_record c p.reader ≡ (if ltb k 4 then ok none else err storage_error) =
        read_record_cut p.reader bs k small (rw same p.at_tail) (rw same cut) in
      p.reads
      ∙ (ap (after c xs) (read_all_stop p.left p.reader (ltb k 4) p.some_left got)
          ∙ after_stop xs (ltb k 4))

  read_record_corrupted :
      (r : WalReader) (bad more : Bytes) (sum : ℕ)
      → r.header.enable_checksums ≡ true
      → length bad < 2 ^ 32
      → sum < 2 ^ 32
      → c.crc bad ≢ sum
      → r.rest ≡ le_bytes 4 (length bad) ++ (bad ++ (le_bytes 4 sum ++ more))
      → read_record c r ≡ err storage_error
  unfolding read_record read_body verify
  read_record_corrupted r bad more sum on small fits differ at =
      let rest = bad ++ (le_bytes 4 sum ++ more) in
      let len : read_exact 4 r.rest ≡ some (le_bytes 4 (length bad), rest) =
        ap (read_exact 4) at ∙ read_exact-append (le_bytes 4 (length bad)) rest 4 refl in
      let wrong : (sum == c.crc bad) ≡ false = ne→==_false sum (c.crc bad) (λ e. differ (sym e)) in
      rw (
        len,
        read_record,
        from_le-le_bytes_u32 (length bad) small,
        read_exact-append bad (le_bytes 4 sum ++ more) (length bad) refl,
        on,
        read_exact-append (le_bytes 4 sum) more 4 refl,
        from_le-le_bytes_u32 sum fits,
        wrong,
      )

  -- Let checksums be on, and let a log be the frames of some records, each encoded in fewer than `2
  -- ^ 32` bytes, and behind them a length, as many bytes of data (fewer than `2 ^ 32`) and a stored
  -- `u32` that is not the checksum of the data; let the crates decode what they encode, let a
  -- checksum be a `u32`, and let there be more fuel than records. Then reading the log is an error,
  -- whatever follows.
  pub read_all_corrupted :
      (xs : List (WalRecord V)) (bss : List Bytes) (bad more : Bytes) (sum fuel : ℕ) (r : WalReader)
      → RoundTrips c
      → CrcFits c
      → AllEncode c xs bss
      → r.header.enable_checksums ≡ true
      → length bad < 2 ^ 32
      → sum < 2 ^ 32
      → c.crc bad ≢ sum
      → r.rest
        ≡ frames c r.header.enable_checksums bss
          ++ (le_bytes 4 (length bad) ++ (bad ++ (le_bytes 4 sum ++ more)))
      → length xs < fuel
      → read_all c fuel r ≡ err storage_error
  read_all_corrupted xs bss bad more sum fuel r rt cf enc on small fits differ at enough =
      let tail = le_bytes 4 (length bad) ++ (bad ++ (le_bytes 4 sum ++ more)) in
      let p = read_all-ReadsPast c xs bss tail fuel r rt cf enc at enough in
      let on' : p.reader.header.enable_checksums ≡ true =
        ap (λ h. h.enable_checksums) p.same_header ∙ on in
      let got : read_record c p.reader ≡ err storage_error =
        read_record_corrupted p.reader bad more sum on' small fits differ p.at_tail in
      p.reads
      ∙ (ap (after c xs) (read_all_stop p.left p.reader false p.some_left got) ∙ after-err xs)
