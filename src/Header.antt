-- ===== src/Header.antt =====
-- src/storage/mod.rs: page ranges and the header of a database file, in page 0. The encoding
-- (bincode) and the hash (CRC32) are parameters. `PAGE_SIZE` is 4096.
pub mod Ranges
pub mod Migration
mod Small
mod Tests
use ruzu.Prelude.{
  ℕ, ◌+◌, ◌*◌, ◌≡◌, Bool, true, false, ◌&&◌, Option, none, some, List, [], ◌∷◌, Bytes, length, take,
  drop, from_le, ltb, leb, ◌==◌, if◌then◌else◌, add_u32, Result, ok, err, ◌>>◌, ◌>>=◌, guard,
  or_fail, storage_error, page_range_overlap,
}

-- `MAGIC_BYTES`: RUZUDB and two zero bytes.
abbrev pub magic_bytes : Bytes
magic_bytes = 82 ∷ 85 ∷ 90 ∷ 85 ∷ 68 ∷ 66 ∷ 0 ∷ 0 ∷ []

abbrev pub current_version : ℕ
current_version = 3

pub record PageRange : Type 0 where
  pub start_page : ℕ
  pub num_pages : ℕ

unfoldable pub new_range : ℕ → ℕ → PageRange
new_range start_page num_pages = record { start_page = start_page; num_pages = num_pages }

unfoldable pub end_page : PageRange → ℕ
end_page self = add_u32 self.start_page self.num_pages

unfoldable pub is_empty : PageRange → Bool
is_empty self = self.num_pages == 0

unfoldable pub byte_capacity : PageRange → ℕ
byte_capacity self = self.num_pages * 4096

unfoldable pub overlaps : PageRange → PageRange → Bool
overlaps self other =
    if self.num_pages == 0
    then false
    else if other.num_pages == 0
    then false
    else ltb self.start_page (end_page other) && ltb other.start_page (end_page self)

unfoldable pub contains_page : PageRange → ℕ → Bool
contains_page self page_idx =
    if self.num_pages == 0
    then false
    else leb self.start_page page_idx && ltb page_idx (end_page self)

pub record DatabaseHeader : Type 0 where
  pub magic : Bytes
  pub version : ℕ
  pub database_id : Bytes
  pub catalog_range : PageRange
  pub metadata_range : PageRange
  pub rel_metadata_range : PageRange
  pub checksum : ℕ

pub record DatabaseHeaderV1 : Type 0 where
  pub magic : Bytes
  pub version : ℕ
  pub database_id : Bytes
  pub catalog_range : PageRange
  pub metadata_range : PageRange
  pub checksum : ℕ

unfoldable pub new_database : Bytes → DatabaseHeader
new_database database_id = record {
  magic = magic_bytes;
  version = current_version;
  database_id = database_id;
  catalog_range = new_range 1 0;
  metadata_range = new_range 0 0;
  rel_metadata_range = new_range 0 0;
  checksum = 0;
}

abbrev pub same_bytes : Bytes → Bytes → Bool
same_bytes [] [] = true
same_bytes [] (c ∷ cs) = false
same_bytes (b ∷ bs) [] = false
same_bytes (b ∷ bs) (c ∷ cs) = b == c && same_bytes bs cs

unfoldable pub validate : DatabaseHeader → Result (Unit {0})
validate self =
    guard (same_bytes self.magic magic_bytes) storage_error
    >> guard (leb self.version current_version) storage_error

-- One turn of the first loop of `validate_ranges`.
unfoldable pub check_header_page : PageRange → Result (Unit {0})
check_header_page range =
    if is_empty range
    then ok tt
    else if range.start_page == 0
    then err page_range_overlap
    else if overlaps range (new_range 0 1)
    then err page_range_overlap
    else ok tt

-- The first loop.
unfoldable pub check_header_pages : List PageRange → Result (Unit {0})
check_header_pages [] = ok tt
check_header_pages (range ∷ ranges) = check_header_page range >> check_header_pages ranges

-- The inner loop over `j`.
unfoldable pub check_overlaps : PageRange → List PageRange → Result (Unit {0})
check_overlaps range_a [] = ok tt
check_overlaps range_a (range_b ∷ ranges) =
    if overlaps range_a range_b then err page_range_overlap else check_overlaps range_a ranges

-- The loop over `i`.
unfoldable pub check_pairs : List PageRange → Result (Unit {0})
check_pairs [] = ok tt
check_pairs (range ∷ ranges) = check_overlaps range ranges >> check_pairs ranges

abbrev pub ranges : DatabaseHeader → List PageRange
ranges self = self.catalog_range ∷ self.metadata_range ∷ self.rel_metadata_range ∷ []

unfoldable pub validate_ranges : DatabaseHeader → Result (Unit {0})
validate_ranges self = check_header_pages (ranges self) >> check_pairs (ranges self)

unfoldable pub from_v1 : DatabaseHeaderV1 → DatabaseHeader
from_v1 v1 = record {
  magic = v1.magic;
  version = current_version;
  database_id = v1.database_id;
  catalog_range = v1.catalog_range;
  metadata_range = v1.metadata_range;
  rel_metadata_range = new_range 3 1;
  checksum = 0;
}

-- What the header code calls: `bincode` on both layouts and `crc32fast::hash`.
pub record HeaderCodec : Type 0 where
  pub encode : DatabaseHeader → Option Bytes
  pub decode : Bytes → Option DatabaseHeader
  pub decode_v1 : Bytes → Option DatabaseHeaderV1
  pub hash : Bytes → ℕ

module _ (codec : HeaderCodec) where
  hash_or_zero : Option Bytes → ℕ
  hash_or_zero none = 0
  hash_or_zero (some bytes) = codec.hash bytes

  unfoldable pub compute_checksum : DatabaseHeader → ℕ
  unfolding hash_or_zero
  compute_checksum self = hash_or_zero (codec.encode (record self { checksum = 0 }))

  unfoldable pub update_checksum : DatabaseHeader → DatabaseHeader
  update_checksum self = record self { checksum = compute_checksum self }

  unfoldable pub verify_checksum : DatabaseHeader → Bool
  verify_checksum self = self.checksum == compute_checksum self

  unfoldable pub serialize : DatabaseHeader → Result Bytes
  serialize self = or_fail (codec.encode self) storage_error

  -- The current layout if it was read, else version 1's, migrated.
  or_migrate : Option DatabaseHeader → Bytes → Result DatabaseHeader
  or_migrate (some header) bytes = ok header
  or_migrate none bytes =
      or_fail (codec.decode_v1 bytes) storage_error >>= λ v1. ok (update_checksum (from_v1 v1))

  unfoldable pub deserialize : Bytes → Result DatabaseHeader
  unfolding or_migrate
  deserialize bytes = or_migrate (codec.decode bytes) bytes

  -- The version field of an encoded header.
  abbrev pub version_of : Bytes → ℕ
  version_of bytes = from_le (take 4 (drop 8 bytes))

  unfoldable pub deserialize_with_migration_flag : Bytes → Result (DatabaseHeader × Bool)
  deserialize_with_migration_flag bytes =
      if ltb (length bytes) 12
      then err storage_error
      else if version_of bytes == 1
      then (or_fail (codec.decode_v1 bytes) storage_error >>= λ v1.
          ok (update_checksum (record (from_v1 v1) { version = current_version }), true))
      else if version_of bytes == 2
      then (or_fail (codec.decode bytes) storage_error >>= λ header.
          ok (update_checksum (record header { version = current_version }), true))
      else if version_of bytes == current_version
      then (or_fail (codec.decode bytes) storage_error >>= λ header. ok (header, false))
      else err storage_error
