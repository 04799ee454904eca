-- ===== src/Header/Small.antt =====
-- A codec of headers with the laws that the theorems ask for: every field but the version is one
-- entry or a run of entries as it is.
use ruzu.Prelude.{
  ℕ, ◌^◌, ◌<◌, ◌≡◌, ap, ◌∙◌, Option, none, some, ◌∷◌, ◌++◌, Bytes, length, take, drop, le_bytes,
  from_le, from_le-le_bytes_u32, length-append, take-length-append, drop-length-append, arith, ltb,
  ◌==◌, if◌then◌else◌,
}
use ruzu.Header.{DatabaseHeader, DatabaseHeaderV1, HeaderCodec, new_range}
use ruzu.Header.Migration.{HeaderLaws}

fields : DatabaseHeader → Bytes
fields h =
    h.catalog_range.start_page ∷ h.catalog_range.num_pages ∷ h.metadata_range.start_page
    ∷ h.metadata_range.num_pages ∷ h.rel_metadata_range.start_page ∷ h.rel_metadata_range.num_pages
    ∷ h.checksum ∷ h.database_id

unfoldable pub encode : DatabaseHeader → Option Bytes
unfolding fields
encode h =
    if length h.magic == 8
    then (if ltb h.version (2 ^ 32)
        then some (h.magic ++ (le_bytes 4 h.version ++ fields h))
        else none)
    else none

rebuild : Bytes → ℕ → Bytes → Option DatabaseHeader
unfolding new_range
rebuild magic version (a ∷ b ∷ c ∷ d ∷ e ∷ f ∷ checksum ∷ id) = some (record {
  magic = magic;
  version = version;
  database_id = id;
  catalog_range = new_range a b;
  metadata_range = new_range c d;
  rel_metadata_range = new_range e f;
  checksum = checksum;
})
rebuild magic version rest = none

unfoldable pub decode : Bytes → Option DatabaseHeader
unfolding rebuild
decode bytes = rebuild (take 8 bytes) (from_le (take 4 (drop 8 bytes))) (drop 4 (drop 8 bytes))

rebuild_v1 : Bytes → ℕ → Bytes → Option DatabaseHeaderV1
unfolding new_range
rebuild_v1 magic version (a ∷ b ∷ c ∷ d ∷ checksum ∷ id) = some (record {
  magic = magic;
  version = version;
  database_id = id;
  catalog_range = new_range a b;
  metadata_range = new_range c d;
  checksum = checksum;
})
rebuild_v1 magic version rest = none

unfoldable pub decode_v1 : Bytes → Option DatabaseHeaderV1
unfolding rebuild_v1
decode_v1 bytes =
    rebuild_v1 (take 8 bytes) (from_le (take 4 (drop 8 bytes))) (drop 4 (drop 8 bytes))

unfoldable pub codec : HeaderCodec
unfolding encode decode decode_v1
codec = record { encode = encode; decode = decode; decode_v1 = decode_v1; hash = length }

rebuild-version :
    (magic : Bytes) (version : ℕ) (rest : Bytes) (h : DatabaseHeader)
    → rebuild magic version rest ≡ some h
    → h.version ≡ version
unfolding rebuild
rebuild-version magic version rest h e = ground arith

module _ (h : DatabaseHeader) (bytes : Bytes) (e : encode h ≡ some bytes) where
  encoded :
      (length h.magic ≡ 8)
      × (h.version < 2 ^ 32)
      × (bytes ≡ h.magic ++ (le_bytes 4 h.version ++ fields h))
  unfolding encode
  encoded = ground arith

take_magic : (magic rest : Bytes) → length magic ≡ 8 → take 8 (magic ++ rest) ≡ magic
take_magic magic rest e = rw (← e, take-length-append magic rest)

drop_magic : (magic rest : Bytes) → length magic ≡ 8 → drop 8 (magic ++ rest) ≡ rest
drop_magic magic rest e = rw (← e, drop-length-append magic rest)

module _ (h : DatabaseHeader) (bytes : Bytes) (written : encode h ≡ some bytes) where
  version_written : from_le (take 4 (drop 8 bytes)) ≡ h.version
  version_written =
      let (magic, small, shape) = encoded h bytes written in
      let tail = drop_magic h.magic (le_bytes 4 h.version ++ fields h) magic in
      ap (λ all. from_le (take 4 all)) (ap (drop 8) shape ∙ tail)
      ∙ from_le-le_bytes_u32 h.version small

  encode-decode : decode bytes ≡ some h
  unfolding decode fields
  encode-decode =
      let (magic, small, shape) = encoded h bytes written in
      rw (
        decode,
        version_written,
        shape,
        take_magic h.magic (le_bytes 4 h.version ++ fields h) magic,
        drop_magic h.magic (le_bytes 4 h.version ++ fields h) magic,
      )

pub codec-HeaderLaws : HeaderLaws codec
unfolding codec encode decode
codec-HeaderLaws = record {
  round_trip = encode-decode;
  encoded_version = λ h bytes e. (
    let (magic, small, shape) = encoded h bytes e in
        omega
          (arith, ap length shape, length-append h.magic (le_bytes 4 h.version ++ fields h), magic),
    version_written h bytes e,
  );
  decoded_version = λ h bytes e.
      rebuild-version (take 8 bytes) (from_le (take 4 (drop 8 bytes))) (drop 4 (drop 8 bytes)) h e;
}
