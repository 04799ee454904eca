-- ===== src/Page.antt =====
-- src/storage/page: page identifiers, and the hash map keyed by them.
pub mod Table
pub mod Disk
use ruzu.Prelude.{
  ℕ, ◌+◌, ◌*◌, ◌≡◌, ◌↔◌, refl, ap₂, Bool, true, false, ◌&&◌, arith, ◌==◌, ==→eq, ==_refl, add_u32,
}

-- `PAGE_SIZE`
abbrev pub page_size : ℕ
page_size = 4096

pub record PageId : Type 0 where
  pub file_id : ℕ
  pub page_idx : ℕ

-- `PageId::main`
abbrev pub main : ℕ → PageId
main page_idx = record { file_id = 0; page_idx = page_idx }

-- The file id plays no part in the offset.
unfoldable pub offset : PageId → ℕ
offset id = id.page_idx * page_size

unfoldable pub next : PageId → PageId
next id = record id { page_idx = add_u32 id.page_idx 1 }

unfoldable pub is_header : PageId → Bool
is_header id = id.page_idx == 0

-- The derived `PartialEq`.
unfoldable pub page_eq : PageId → PageId → Bool
page_eq a b = a.file_id == b.file_id && a.page_idx == b.page_idx

pub page_eq→eq : (a b : PageId) → page_eq a b ≡ true → a ≡ b
unfolding page_eq
page_eq→eq a b h = ap₂ (λ f i. record { file_id = f; page_idx = i }) (ground arith) (ground arith)

pub page_eq_refl : (a : PageId) → page_eq a a ≡ true
unfolding page_eq
page_eq_refl a = rw (==_refl a.file_id, ==_refl a.page_idx)
