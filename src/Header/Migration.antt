-- ===== src/Header/Migration.antt =====
-- Opening the header of an older version, `deserialize_with_migration_flag` of src/storage/mod.rs.
use ruzu.Prelude.{
  ◌≤◌, ◌≡◌, refl, ◌∙◌, ◌⊎◌, inl, inr, Bool, true, false, Option, none, some, Bytes, length, Result,
  ok, err, panic, storage_error, ltb, if◌then◌else◌, ◌==◌, or_fail, ◌>>=◌, ==_refl, ==→eq, subst,
  le→ltb,
}
use ruzu.Header.{
  DatabaseHeader, DatabaseHeaderV1, HeaderCodec, current_version, version_of,
  deserialize_with_migration_flag, verify_checksum, update_checksum, compute_checksum, from_v1,
}

-- What bincode promises: an encoding is read back, and the version is the four bytes after the
-- eight of the magic, in what is written and in what is read.
pub record HeaderLaws (codec : HeaderCodec) : Type 0 where
  pub round_trip :
      (header : DatabaseHeader) (bytes : Bytes)
      → codec.encode header ≡ some bytes
      → codec.decode bytes ≡ some header
  pub encoded_version :
      (header : DatabaseHeader) (bytes : Bytes)
      → codec.encode header ≡ some bytes
      → (12 ≤ length bytes) × (version_of codec bytes ≡ header.version)
  pub decoded_version :
      (header : DatabaseHeader) (bytes : Bytes)
      → codec.decode bytes ≡ some header
      → header.version ≡ version_of codec bytes

-- A header that was opened: of the current version, and with the checksum of its fields when it
-- was migrated.
pub Opened : HeaderCodec → Result (DatabaseHeader × Bool) → Type 0
Opened codec (ok (header, migrated)) =
    (header.version ≡ current_version)
    × ((migrated ≡ false) ⊎ (verify_checksum codec header ≡ true))
Opened codec (err kind) = kind ≡ storage_error
Opened codec panic = true ≡ false

pub update-verify_checksum :
    (codec : HeaderCodec) (header : DatabaseHeader)
    → verify_checksum codec (update_checksum codec header) ≡ true
unfolding verify_checksum update_checksum compute_checksum
update-verify_checksum codec header = ==_refl (compute_checksum codec header)

module _ (codec : HeaderCodec) (laws : HeaderLaws codec) where
  Opened-v1 :
      (v1 : Option DatabaseHeaderV1)
      → Opened codec (
          or_fail v1 storage_error >>= λ v1.
          ok (update_checksum codec (record (from_v1 v1) { version = current_version }), true))
  unfolding update_checksum Opened
  Opened-v1 none = refl
  Opened-v1 (some v1) =
      (refl, inr (update-verify_checksum codec (record (from_v1 v1) { version = current_version })))

  Opened-v2 :
      (read : Option DatabaseHeader)
      → Opened codec (
          or_fail read storage_error >>= λ header.
          ok (update_checksum codec (record header { version = current_version }), true))
  unfolding update_checksum Opened
  Opened-v2 none = refl
  Opened-v2 (some header) =
      (refl, inr (update-verify_checksum codec (record header { version = current_version })))

  Opened-current :
      (bytes : Bytes) (read : Option DatabaseHeader)
      → codec.decode bytes ≡ read
      → version_of codec bytes ≡ current_version
      → Opened codec (or_fail read storage_error >>= λ header. ok (header, false))
  unfolding Opened
  Opened-current bytes none e v = refl
  Opened-current bytes (some header) e v = (laws.decoded_version header bytes e ∙ v, inl refl)

  by_version :
      (bytes : Bytes) (short first second current : Bool)
      → (version_of codec bytes == current_version) ≡ current
      → Opened codec (
          if short
          then err storage_error
          else if first
          then (or_fail (codec.decode_v1 bytes) storage_error >>= λ v1.
              ok (update_checksum codec (record (from_v1 v1) { version = current_version }), true))
          else if second
          then (or_fail (codec.decode bytes) storage_error >>= λ header.
              ok (update_checksum codec (record header { version = current_version }), true))
          else if current
          then (or_fail (codec.decode bytes) storage_error >>= λ header. ok (header, false))
          else err storage_error)
  unfolding Opened
  by_version bytes true first second current e = refl
  by_version bytes false true second current e = Opened-v1 (codec.decode_v1 bytes)
  by_version bytes false false true current e = Opened-v2 (codec.decode bytes)
  by_version bytes false false false true e =
      Opened-current bytes (codec.decode bytes) refl (==→eq (version_of codec bytes) 3 e)
  by_version bytes false false false false e = refl

  pub deserialize_with_migration_flag-Opened :
      (bytes : Bytes) → Opened codec (deserialize_with_migration_flag codec bytes)
  unfolding deserialize_with_migration_flag
  deserialize_with_migration_flag-Opened bytes =
      by_version bytes (ltb (length bytes) 12) (version_of codec bytes == 1)
        (version_of codec bytes == 2) (version_of codec bytes == current_version) refl

  -- With an encoding that is read back and has the version after the magic, a header that was
  -- opened from any version and written is opened again as it is, as one of the current version: a
  -- migration happens once.
  pub reopen_migrated :
      (old bytes : Bytes) (header : DatabaseHeader) (migrated : Bool)
      → deserialize_with_migration_flag codec old ≡ ok (header, migrated)
      → codec.encode header ≡ some bytes
      → deserialize_with_migration_flag codec bytes ≡ ok (header, false)
  unfolding Opened deserialize_with_migration_flag
  reopen_migrated old bytes header migrated opened written =
      let current = subst (Opened codec) opened (deserialize_with_migration_flag-Opened old) in
      let layout = laws.encoded_version header bytes written in
      rw (
        deserialize_with_migration_flag,
        laws.round_trip header bytes written,
        layout.1,
        current.0,
        le→ltb (length bytes) 12 layout.0,
      )
