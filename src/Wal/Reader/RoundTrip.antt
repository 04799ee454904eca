-- ===== src/Wal/Reader/RoundTrip.antt =====
-- What a writer has written a reader reads back: the header, each record, and the whole log.
use ruzu.Prelude.{
  ℕ, zero, suc, ◌+◌, ◌^◌, ◌<◌, ◌≡◌, refl, ap, ◌∙◌, append_assoc, Bool, not, true, false, some, List,
  [], ◌∷◌, ◌++◌, arith, Bytes, le_bytes, from_le, from_le-le_bytes_u32, read_exact,
  read_exact-append, read_exact_short, Result, ok, ◌>>=◌, ◌==◌, ==_refl, if◌then◌else◌, length,
  as_u32,
}
use ruzu.Wal.{
  new_header, validate_header, bytes_eq, wal_magic, header_size, WalRecord, Codec, RoundTrips,
  CrcFits,
}
use ruzu.Wal.Writer.{header_bytes, bool_byte, frame}
use ruzu.Wal.Reader.{WalReader, read_header, open_reader, verify, read_body, read_record, read_all}

flag_of-bool_byte : (b : Bool) → not (from_le (bool_byte b ∷ []) == 0) ≡ b
flag_of-bool_byte true = refl
flag_of-bool_byte false = refl

module _ (id : Bytes) (flag : Bool) (rest : Bytes) (sixteen : length id ≡ 16) where
  -- A new header is read back, and the reader stands behind it.
  pub open_reader-header_bytes :
      open_reader (header_bytes (new_header id flag) ++ rest)
      ≡ ok (record {
        file = header_bytes (new_header id flag) ++ rest;
        rest = rest;
        header = new_header id flag;
        position = header_size;
      })
  unfolding open_reader read_header header_bytes new_header validate_header bytes_eq
  open_reader-header_bytes =
      rw
        (read_exact-append wal_magic (le_bytes 4 1 ++ ((id ++ (bool_byte flag ∷ [])) ++ rest)) 8
          refl)
        (rw (
          append_assoc id (bool_byte flag ∷ []) rest,
          read_exact-append (le_bytes 4 1) (id ++ (bool_byte flag ∷ rest)) 4 refl,
          read_exact-append id (bool_byte flag ∷ rest) 16 sixteen,
          read_exact-append (bool_byte flag ∷ []) rest 1 refl,
          flag_of-bool_byte flag,
        ))

module _ {ℓ} {V : Type ℓ} (c : Codec V) where
  abbrev pub checksum_part : Bool → Bytes → Bytes
  checksum_part flag bs = if flag then le_bytes 4 (c.crc bs) else []

  verify-checksum_part :
      (flag : Bool) (bs rest : Bytes)
      → CrcFits c
      → (n : ℕ) × (verify c flag bs (checksum_part flag bs ++ rest) ≡ ok (rest, n))
  unfolding verify
  verify-checksum_part false bs rest fits = (0, refl)
  verify-checksum_part true bs rest fits = (
    4,
    rw (
      read_exact-append (le_bytes 4 (c.crc bs)) rest 4 refl,
      from_le-le_bytes_u32 (c.crc bs) (fits bs),
      ==_refl (c.crc bs),
    ),
  )

  pub frame-split :
      (flag : Bool) (bs more : Bytes)
      → length bs < 2 ^ 32
      → frame c flag bs ++ more ≡ le_bytes 4 (length bs) ++ (bs ++ (checksum_part flag bs ++ more))
  unfolding frame
  frame-split flag bs more small =
      let e : as_u32 (length bs) ≡ length bs = omega arith in rw e (simp append_assoc)

  -- A reader at a frame reads the record, and stands behind the frame.
  pub read_record-frame :
      (r : WalReader) (x : WalRecord V) (bs more : Bytes)
      → RoundTrips c
      → CrcFits c
      → c.encode x ≡ some bs
      → length bs < 2 ^ 32
      → r.rest ≡ frame c r.header.enable_checksums bs ++ more
      → (n : ℕ) × (read_record c r ≡ ok (some (x, record r { rest = more; position = n })))
  unfolding read_record read_body
  read_record-frame r x bs more rt cf enc small at =
      let flag = r.header.enable_checksums in
      let (n, checked) = verify-checksum_part flag bs more cf in
      let at' : r.rest ≡ le_bytes 4 (length bs) ++ (bs ++ (checksum_part flag bs ++ more)) =
        at ∙ frame-split flag bs more small in
      let len : read_exact 4 r.rest
          ≡ some (le_bytes 4 (length bs), bs ++ (checksum_part flag bs ++ more)) =
        ap (read_exact 4) at'
        ∙ read_exact-append (le_bytes 4 (length bs)) (bs ++ (checksum_part flag bs ++ more)) 4
            refl in
      let size : from_le (le_bytes 4 (length bs)) ≡ length bs =
        from_le-le_bytes_u32 (length bs) small in
      let content = read_exact-append bs (checksum_part flag bs ++ more) (length bs) refl in
      (r.position + 4 + length bs + n, rw (len, read_record, size, content, checked, rt x bs enc))

  -- The frames of a list of encodings, one behind the other.
  abbrev pub frames : Bool → List Bytes → Bytes
  frames flag [] = []
  frames flag (bs ∷ bss) = frame c flag bs ++ frames flag bss

  abbrev pub AllEncode : List (WalRecord V) → List Bytes → Type 0
  AllEncode [] [] = Unit
  AllEncode (x ∷ xs) (bs ∷ bss) = (c.encode x ≡ some bs) × (length bs < 2 ^ 32) × AllEncode xs bss
  AllEncode _ _ = ⊥

  abbrev pub after : List (WalRecord V) → Result (List (WalRecord V)) → Result (List (WalRecord V))
  after [] m = m
  after (x ∷ xs) m = do ys ← after xs m; ok (x ∷ ys)

  -- Reading goes through the frames, and then on with what comes behind them.
  pub record ReadsPast (xs : List (WalRecord V)) (tail : Bytes) (fuel : ℕ) (r : WalReader)
      : Type ℓ where
    pub left : ℕ
    pub some_left : 0 < left
    pub reader : WalReader
    pub at_tail : reader.rest ≡ tail
    pub same_header : reader.header ≡ r.header
    pub reads : read_all c fuel r ≡ after xs (read_all c left reader)

  pub read_all-ReadsPast :
      (xs : List (WalRecord V)) (bss : List Bytes) (tail : Bytes) (fuel : ℕ) (r : WalReader)
      → RoundTrips c
      → CrcFits c
      → AllEncode xs bss
      → r.rest ≡ frames r.header.enable_checksums bss ++ tail
      → length xs < fuel
      → ReadsPast xs tail fuel r
  unfolding read_all
  read_all-ReadsPast [] [] tail fuel r rt cf enc at more = record {
    left = fuel;
    some_left = omega arith;
    reader = r;
    at_tail = at;
    same_header = refl;
    reads = refl;
  }
  read_all-ReadsPast [] (bs ∷ bss) tail fuel r rt cf enc at more = absurd enc
  read_all-ReadsPast (x ∷ xs) [] tail fuel r rt cf enc at more = absurd enc
  read_all-ReadsPast (x ∷ xs) (bs ∷ bss) tail zero r rt cf enc at more = absurd (omega arith)
  read_all-ReadsPast (x ∷ xs) (bs ∷ bss) tail (suc fuel) r rt cf (enc, small, encs) at more =
      let flag = r.header.enable_checksums in
      let (n, got) =
        read_record-frame r x bs (frames flag bss ++ tail) rt cf enc small
          (at ∙ append_assoc (frame c flag bs) (frames flag bss) tail) in
      let r' : WalReader = record r { rest = frames flag bss ++ tail; position = n } in
      let rest : ReadsPast xs tail fuel r' =
        read_all-ReadsPast xs bss tail fuel r' rt cf encs refl (omega arith) in
      record {
        left = rest.left;
        some_left = rest.some_left;
        reader = rest.reader;
        at_tail = rest.at_tail;
        same_header = rest.same_header;
        reads = rw (got, read_all, rest.reads);
      }

  pub after-ok : (xs : List (WalRecord V)) → after xs (ok []) ≡ ok xs
  after-ok [] = refl
  after-ok (x ∷ xs) = rw (after-ok xs)

  -- A record is missing where fewer than four bytes are left.
  read_all_end :
      (fuel : ℕ) (r : WalReader) → 0 < fuel → length r.rest < 4 → read_all c fuel r ≡ ok []
  unfolding read_all read_record
  read_all_end zero r h short = absurd (omega arith)
  read_all_end (suc fuel) r h short = rw (read_all, read_record, read_exact_short 4 r.rest short)

  pub read_all-frames :
      (xs : List (WalRecord V)) (bss : List Bytes) (tail : Bytes) (fuel : ℕ) (r : WalReader)
      → RoundTrips c
      → CrcFits c
      → AllEncode xs bss
      → r.rest ≡ frames r.header.enable_checksums bss ++ tail
      → length tail < 4
      → length xs < fuel
      → read_all c fuel r ≡ ok xs
  read_all-frames xs bss tail fuel r rt cf enc at short more =
      let p = read_all-ReadsPast xs bss tail fuel r rt cf enc at more in
      p.reads
      ∙ (ap (after xs) (read_all_end p.left p.reader p.some_left (rw p.at_tail short))
          ∙ after-ok xs)
