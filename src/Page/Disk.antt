-- ===== src/Page/Disk.antt =====
-- The disk as the buffer pool uses it: an interface, in the place of `DiskManager`.
use ruzu.Prelude.{◌≡◌, Result, ok, if◌then◌else◌}
use ruzu.Page.{PageId, page_eq}

-- `D` is the state of the disk and `P` the contents of a page. A failed call may leave any disk.
pub record Disk (D P : Type 0) : Type 0 where
  pub read : D → PageId → Result P
  pub write : D → PageId → P → Result (Unit {0}) × D
  pub allocate : D → Result PageId × D
  -- a page of zeros
  pub blank : P

-- What the pool relies on: of a disk in a `Sound` state, of the pages that it `Has`, and, for a new
-- page, of a disk that `HasRoom`: `DiskManager` numbers its pages by a `u32` that wraps.
pub record DiskLaws {D P : Type 0} (k : Disk D P) : Type 1 where
  pub Sound : D → Type 0
  pub Has : D → PageId → Type 0
  pub HasRoom : D → Type 0
  pub written :
      (d d' : D) (i : PageId) (p : P)
      → Sound d
      → Has d i
      → k.write d i p ≡ (ok tt, d')
      → Sound d'
        × ((j : PageId)
            → Has d j
            → Has d' j × (k.read d' j ≡ (if page_eq i j then ok p else k.read d j)))
  pub room_kept :
      (d d' : D) (i : PageId) (p : P) → HasRoom d → k.write d i p ≡ (ok tt, d') → HasRoom d'
  pub allocated :
      (d d' : D) (i : PageId)
      → Sound d
      → HasRoom d
      → k.allocate d ≡ (ok i, d')
      → Sound d'
        × Has d' i
        × (¬ (Has d i))
        × ((j : PageId) → Has d j → Has d' j × (k.read d' j ≡ k.read d j))
