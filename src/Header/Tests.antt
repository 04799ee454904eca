-- ===== src/Header/Tests.antt =====
-- The theorems at the header of a small database.
use ruzu.Header.Small.{codec, codec-HeaderLaws}
use ruzu.Prelude.{
  Decides, page_range_overlap, ℕ, ◌≡◌, ◌↔◌, refl, true, false, [], ◌∷◌, ◌++◌, arith, Bytes,
  le_bytes, ok,
}
use ruzu.Header.{
  PageRange, DatabaseHeader, magic_bytes, new_range, overlaps, contains_page, from_v1, ranges,
  validate_ranges, deserialize_with_migration_flag,
}
use ruzu.Header.Ranges.{
  Fits, AllFit, overlaps_iff, WithoutHeaderPage, PairwiseApart, validate_ranges-Decides,
}
use ruzu.Header.Migration.{reopen_migrated}

touching : (overlaps (new_range 1 3) (new_range 3 2) ≡ true) ↔ (
    (page : ℕ) × (contains_page (new_range 1 3) page ≡ true)
    × (contains_page (new_range 3 2) page ≡ true))
unfolding Fits new_range
touching = overlaps_iff (new_range 1 3) (new_range 3 2) (omega arith) (omega arith)

-- Catalog in page 1, nodes in pages 2 to 4, relationships in page 5.
abbrev header : DatabaseHeader
header = record {
  magic = magic_bytes;
  version = 3;
  database_id = 7 ∷ 7 ∷ [];
  catalog_range = new_range 1 1;
  metadata_range = new_range 2 3;
  rel_metadata_range = new_range 5 1;
  checksum = 0;
}

validate_ranges-Decides_example :
    Decides page_range_overlap
      (validate_ranges header)
      (WithoutHeaderPage (ranges header) × PairwiseApart (ranges header))
unfolding Fits AllFit new_range
validate_ranges-Decides_example =
    validate_ranges-Decides header (omega arith, (omega arith, (omega arith, tt)))

-- A file of version 1, and the header that it opens to.
abbrev old : Bytes
old = magic_bytes ++ (le_bytes 4 1 ++ (1 ∷ 1 ∷ 2 ∷ 1 ∷ 0 ∷ 7 ∷ 7 ∷ []))

abbrev migrated : DatabaseHeader
migrated = record header {
  metadata_range = new_range 2 1;
  rel_metadata_range = new_range 3 1;
  checksum = 21;
}

abbrev new : Bytes
new = magic_bytes ++ (le_bytes 4 3 ++ (1 ∷ 1 ∷ 2 ∷ 1 ∷ 3 ∷ 1 ∷ 21 ∷ 7 ∷ 7 ∷ []))

reopen_migrated_example : deserialize_with_migration_flag codec new ≡ ok (migrated, false)
unfolding deserialize_with_migration_flag codec ruzu.Header.update_checksum from_v1
    ruzu.Header.compute_checksum
reopen_migrated_example = reopen_migrated codec codec-HeaderLaws old new migrated true refl refl
