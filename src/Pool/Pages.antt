-- ===== src/Pool/Pages.antt =====
-- Pinning, writing and unpinning pages: what a client sees of them.
use ruzu.Prelude.{
  ℕ, ◌<◌, ◌≡◌, refl, ap, sym, subst, ◌∙◌, Bool, true, false, none, some, arith, Result, ok, err,
  panic, if◌then◌else◌, length, get_elem?, set, length-set, get_elem?-set_self, get_elem?-some_lt,
}
use ruzu.Page.{PageId, page_eq, page_eq→eq}
use ruzu.Page.Table
use ruzu.Page.Disk.{Disk, DiskLaws}
use ruzu.Pool.{BufferFrame, BufferPool, PageHandle, pin_frame, install, pin_hit, handle_data}
use ruzu.Pool.Cache.{contents, keep-IsCache, keep-contents, take-IsCache, take-contents}
use ruzu.Pool.Evict.{IsPool, see, AllBelow}

module _ {D P : Type 0} (k : Disk D P) (laws : DiskLaws k) where
  -- The frame of a handle holds the page, pinned, with these contents.
  pub record IsPinned (p : BufferPool D P) (h : PageHandle) (page : P) : Type 0 where
    pub frame : BufferFrame P
    pub at : get_elem? p.frames h.frame_idx ≡ some frame
    pub holds : frame.page_id ≡ some h.page_id
    pub bytes : frame.page_data ≡ page
    pub counted : 0 < frame.pin_count

  -- A pinned page is read through its handle.
  pub IsPinned-handle_data :
      (p : BufferPool D P) (h : PageHandle) (page : P)
      → IsPinned p h page
      → handle_data p h ≡ ok page
  unfolding handle_data
  IsPinned-handle_data p h page q = rw (q.at, handle_data) (ap ok q.bytes)

  pub set_queued :
      (p : BufferPool D P) (i : ℕ) (f : BufferFrame P)
      → AllBelow (length p.frames) p.eviction_queue.queue
      → AllBelow (length (set p.frames i f)) p.eviction_queue.queue
  set_queued p i f h =
      subst (λ n. AllBelow n p.eviction_queue.queue) (sym (length-set p.frames i f)) h

  pin_frame_counted : (f : BufferFrame P) → 0 < (pin_frame f).pin_count
  unfolding pin_frame
  pin_frame_counted f = ground arith

  pub see_framed :
      (p : BufferPool D P) (i : ℕ) (f : BufferFrame P) (id : PageId)
      → IsPool k laws p
      → get_elem? p.frames i ≡ some f
      → f.page_id ≡ some id
      → see k laws p id ≡ ok f.page_data
  see_framed p i f id v at holds = rw (v.cache.tabled i f id at holds, contents, at)

  -- `p'` is `p` with page `id` pinned under `h`, and the same pages.
  pub record Pinned (p : BufferPool D P) (id : PageId) (h : PageHandle) (p' : BufferPool D P)
      : Type 0 where
    pub valid : IsPool k laws p'
    pub keeps : (j : PageId) → laws.Has p.disk_manager j → laws.Has p'.disk_manager j
    pub same : (j : PageId) → laws.Has p.disk_manager j → see k laws p' j ≡ see k laws p j
    pub handle : h.page_id ≡ id
    pub page : P
    pub seen : see k laws p id ≡ ok page
    pub pinned : IsPinned p' h page

  abbrev pub PinnedIfOk : BufferPool D P → PageId → Result PageHandle × BufferPool D P → Type 0
  PinnedIfOk p id (ok h, p') = Pinned p id h p'
  PinnedIfOk p id (err e, p') = Unit
  PinnedIfOk p id (panic, p') = Unit

  pub if_same {ℓ} :
      {A : Type ℓ} (b : Bool) (x y : A) → (b ≡ true → x ≡ y) → (if b then x else y) ≡ y
  if_same true x y h = h refl
  if_same false x y h = refl

  pub pin_hit-PinnedIfOk :
      (p : BufferPool D P) (id : PageId) (i : ℕ)
      → IsPool k laws p
      → Table.lookup id p.page_table ≡ some i
      → PinnedIfOk p id (pin_hit k p id i)
  unfolding pin_hit pin_frame
  pin_hit-PinnedIfOk p id i v e =
      let (f, at, holds) = v.cache.framed id i e in
      let f' : BufferFrame P = record (pin_frame f) { last_access = p.access_counter } in
      rw (at, pin_hit)
        (record {
          valid = record {
            cache =
                keep-IsCache k laws p.frames p.page_table p.disk_manager v.cache i f at id holds f'
                  holds (v.cache.clean i f id at holds);
            queued = set_queued p i f' v.queued;
          };
          keeps = λ j has. has;
          same = λ j has.
              keep-contents k laws p.frames p.page_table p.disk_manager v.cache i f at id holds f' j
              ∙ if_same (page_eq id j) (ok f.page_data) (see k laws p j) (λ eq.
                sym (see_framed p i f id v at holds) ∙ ap (see k laws p) (page_eq→eq id j eq));
          handle = refl;
          page = f.page_data;
          seen = see_framed p i f id v at holds;
          pinned = record {
            frame = f';
            at = get_elem?-set_self p.frames i f' (get_elem?-some_lt p.frames i f at);
            holds = holds;
            bytes = refl;
            counted = pin_frame_counted f;
          };
        })

  -- A free frame takes a page that is in no frame, and the other pages are the same.
  pub record Installed (p : BufferPool D P) (id : PageId) (page : P) (h : PageHandle)
      (p' : BufferPool D P) : Type 0 where
    pub valid : IsPool k laws p'
    pub same_disk : p'.disk_manager ≡ p.disk_manager
    pub sees : (j : PageId) → see k laws p' j ≡ (if page_eq id j then ok page else see k laws p j)
    pub handle : h.page_id ≡ id
    pub pinned : IsPinned p' h page

  abbrev pub InstalledIfOk :
      BufferPool D P → PageId → P → Result PageHandle × BufferPool D P → Type 0
  InstalledIfOk p id page (ok h, p') = Installed p id page h p'
  InstalledIfOk p id page (err e, p') = Unit
  InstalledIfOk p id page (panic, p') = Unit

  pub install-InstalledIfOk :
      (p : BufferPool D P) (i : ℕ) (f : BufferFrame P) (id : PageId) (page : P) (dirty : Bool)
      → IsPool k laws p
      → get_elem? p.frames i ≡ some f
      → f.page_id ≡ none
      → Table.lookup id p.page_table ≡ none
      → (dirty ≡ false → k.read p.disk_manager id ≡ ok page)
      → laws.Has p.disk_manager id
      → InstalledIfOk p id page (install k p i id page dirty)
  unfolding install pin_frame
  install-InstalledIfOk p i f id page dirty v at empty absent fresh has =
      let f' : BufferFrame P = record (pin_frame f) {
        page_id = some id;
        page_data = page;
        dirty = dirty;
        last_access = p.access_counter;
      } in
      rw (at, install)
        (record {
          valid = record {
            cache =
                take-IsCache k laws p.frames p.page_table p.disk_manager v.cache i f at empty id
                  absent f' refl fresh has;
            queued = set_queued p i f' v.queued;
          };
          same_disk = refl;
          sees = λ j.
              take-contents k laws p.frames p.page_table p.disk_manager v.cache i f at empty id
                absent f' refl fresh has j;
          handle = refl;
          pinned = record {
            frame = f';
            at = get_elem?-set_self p.frames i f' (get_elem?-some_lt p.frames i f at);
            holds = refl;
            bytes = refl;
            counted = pin_frame_counted f;
          };
        })
