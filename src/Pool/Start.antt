-- ===== src/Pool/Start.antt =====
-- The pool that `BufferPool::new` makes.
use ruzu.Prelude.{
  ℕ, zero, suc, ◌+◌, ◌≡◌, refl, ap, sym, ◌∙◌, none, some, [], ok, err, storage_error, length,
  get_elem?,
}
use mathlib.Core.Option.{some-injective}
use ruzu.Page.{PageId}
use ruzu.Page.Table
use ruzu.Page.Disk.{Disk, DiskLaws}
use ruzu.Pool.{BufferFrame, BufferPool, new_frame, new_frames, new}
use ruzu.Pool.Evict.{IsPool, see}

module _ {D P : Type 0} (k : Disk D P) (laws : DiskLaws k) where
  no_page :
      (n i j : ℕ) (f : BufferFrame P) → get_elem? (new_frames k i n) j ≡ some f → f.page_id ≡ none
  unfolding new_frames new_frame
  no_page zero i j f e = cc
  no_page (suc n) i zero f e = rw (sym (some-injective (new_frame k.blank i) f e))
  no_page (suc n) i (suc j) f e = no_page n (i + 1) j f e

  length-new_frames : (n i : ℕ) → length (new_frames k i n) ≡ n
  unfolding new_frames
  length-new_frames zero i = refl
  length-new_frames (suc n) i = ap suc (length-new_frames n (i + 1))

  pub record Started (capacity : ℕ) (disk : D) (p : BufferPool D P) : Type 0 where
    pub valid : IsPool k laws p
    pub frames : length p.frames ≡ capacity
    pub same : (id : PageId) → see k laws p id ≡ k.read disk id
    pub served : p.disk_manager ≡ disk

  -- The pool of `n` more frames than one.
  abbrev pub fresh : ℕ → D → BufferPool D P
  fresh n disk = record {
    frames = new_frames k 0 (suc n);
    page_table = [];
    eviction_queue = record { queue = []; capacity = suc n };
    capacity = suc n;
    disk_manager = disk;
    access_counter = 0;
    cache_hits = 0;
    cache_misses = 0;
    evictions = 0;
  }

  pub fresh-IsPool : (n : ℕ) (disk : D) → laws.Sound disk → IsPool k laws (fresh n disk)
  unfolding Table.lookup
  fresh-IsPool n disk sound = record {
    cache = record {
      framed = λ id i e. cc (e);
      tabled = λ i f id at holds.
          let bad : none ≡ some id = sym (no_page (suc n) 0 i f at) ∙ holds in cc (bad);
      clean = λ i f id at holds c.
          let bad : none ≡ some id = sym (no_page (suc n) 0 i f at) ∙ holds in cc (bad);
      known = λ i f id at holds.
          let bad : none ≡ some id = sym (no_page (suc n) 0 i f at) ∙ holds in cc (bad);
      sound = sound;
    };
    queued = tt;
  }

  -- On a sound disk a pool of at least one frame is made: it satisfies the invariant, has as many
  -- frames as asked for, and every page is seen as it is on the disk. A pool of none is a storage
  -- error.
  pub new-Started :
      (n : ℕ) (disk : D)
      → laws.Sound disk
      → (new k 0 disk ≡ err storage_error)
        × (p : BufferPool D P) × (new k (suc n) disk ≡ ok p)
        × Started (suc n) disk p
  unfolding new Table.lookup
  new-Started n disk sound = (
    refl,
    fresh n disk,
    refl,
    record {
      valid = fresh-IsPool n disk sound;
      frames = length-new_frames (suc n) 0;
      same = λ id. refl;
      served = refl;
    },
  )
