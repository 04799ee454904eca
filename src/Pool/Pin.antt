-- ===== src/Pool/Pin.antt =====
-- `BufferPool::pin` on every pool that satisfies the invariant.
use ruzu.Prelude.{
  ℕ, ◌≡◌, refl, ap, sym, subst, ◌∙◌, false, inl, inr, Option-cases, none, Result, ok, err, panic,
  add_u64,
}
use ruzu.Page.{PageId, page_eq, page_eq→eq}
use ruzu.Page.Table
use ruzu.Page.Disk.{Disk, DiskLaws}
use ruzu.Pool.{BufferPool, PageHandle, find_or_evict_frame, install, pin_miss, pin}
use ruzu.Pool.Cache.{contents}
use ruzu.Pool.Evict.{IsPool, see, Freed, FreedIfOk, find_or_evict_frame-FreedIfOk}
use ruzu.Pool.Pages.{
  Pinned, PinnedIfOk, Installed, InstalledIfOk, install-InstalledIfOk, pin_hit-PinnedIfOk, if_same,
}

module _ {D P : Type 0} (k : Disk D P) (laws : DiskLaws k) where
  -- A page in no frame is seen on the disk.
  see_absent :
      (p : BufferPool D P) (id : PageId)
      → Table.lookup id p.page_table ≡ none
      → see k laws p id ≡ k.read p.disk_manager id
  see_absent p id e = rw (e, contents)

  module _ (p : BufferPool D P) (id : PageId) (has : laws.Has p.disk_manager id)
      (absent : Table.lookup id p.page_table ≡ none) where
    Pinned-Installed :
        (p1 p2 : BufferPool D P) (i : ℕ) (page : P) (h : PageHandle)
        → Freed k laws p i p1
        → k.read p1.disk_manager id ≡ ok page
        → Installed k laws p1 id page h p2
        → Pinned k laws p id h p2
    Pinned-Installed p1 p2 i page h f got n =
        let seen1 : see k laws p1 id ≡ ok page = see_absent p1 id (f.absent id absent) ∙ got in
        record {
          valid = n.valid;
          keeps = λ j has'. subst (λ d. laws.Has d j) (sym n.same_disk) (f.keeps j has');
          same = λ j has'.
              (n.sees j
                ∙ if_same k laws (page_eq id j) (ok page) (see k laws p1 j)
                    (λ eq. sym seen1 ∙ ap (see k laws p1) (page_eq→eq id j eq)))
              ∙ f.same j has';
          handle = n.handle;
          page = page;
          seen = sym (f.same id has) ∙ seen1;
          pinned = n.pinned;
        }

    after_install :
        (p1 : BufferPool D P) (i : ℕ) (page : P) (r : Result PageHandle × BufferPool D P)
        → Freed k laws p i p1
        → k.read p1.disk_manager id ≡ ok page
        → InstalledIfOk k laws p1 id page r
        → PinnedIfOk k laws p id r
    after_install p1 i page (ok h, p2) f got n = Pinned-Installed p1 p2 i page h f got n
    after_install p1 i page (err e, p2) f got n = tt
    after_install p1 i page (panic, p2) f got n = tt

    after_read :
        (p1 : BufferPool D P) (i : ℕ) (m : Result P)
        → Freed k laws p i p1
        → k.read p1.disk_manager id ≡ m
        → PinnedIfOk k laws p id (elim m as (λ _. Result PageHandle × BufferPool D P) [
          | ok page ↦ install k p1 i id page false
          | err e ↦ (err e, p1)
          | panic ↦ (panic, p1)
        ])
    after_read p1 i (ok page) f got = after_install p1 i page (install k p1 i id page false) f got (
        install-InstalledIfOk k laws p1 i f.frame id page false f.valid f.at f.empty
          (f.absent id absent) (λ _. got) (f.keeps id has))
    after_read p1 i (err e) f got = tt
    after_read p1 i panic f got = tt

    after_frame :
        (r : Result ℕ × BufferPool D P)
        → FreedIfOk k laws p r
        → PinnedIfOk k laws p id (elim r.0 as (λ _. Result PageHandle × BufferPool D P) [
          | ok i ↦ elim (k.read r.1.disk_manager id) as (λ _. Result PageHandle × BufferPool D P) [
            | ok page ↦ install k r.1 i id page false
            | err e ↦ (err e, r.1)
            | panic ↦ (panic, r.1)
          ]
          | err e ↦ (err e, r.1)
          | panic ↦ (panic, r.1)
        ])
    after_frame (ok i, p1) f = after_read p1 i (k.read p1.disk_manager id) f refl
    after_frame (err e, p1) f = tt
    after_frame (panic, p1) f = tt

  -- The counter of misses is nothing to what was freed.
  FreedIfOk-misses :
      (p : BufferPool D P) (n : ℕ) (r : Result ℕ × BufferPool D P)
      → FreedIfOk k laws (record p { cache_misses = n }) r
      → FreedIfOk k laws p r
  FreedIfOk-misses p n (ok i, p') h = record {
    valid = h.valid;
    keeps = h.keeps;
    same = h.same;
    room = h.room;
    frame = h.frame;
    at = h.at;
    empty = h.empty;
    absent = h.absent;
  }
  FreedIfOk-misses p n (err e, p') h = tt
  FreedIfOk-misses p n (panic, p') h = tt

  pin-PinnedIfOk :
      (p : BufferPool D P) (id : PageId)
      → IsPool k laws p
      → laws.Has p.disk_manager id
      → PinnedIfOk k laws p id (pin k p id)
  unfolding pin pin_miss
  pin-PinnedIfOk p id v has = elim (Option-cases (Table.lookup id p.page_table)) [
    | inl e ↦
        let missed : BufferPool D P = record p { cache_misses = add_u64 p.cache_misses 1 } in
        rw (e, pin)
          (after_frame p id has e (find_or_evict_frame k missed) (
            FreedIfOk-misses p (add_u64 p.cache_misses 1) (find_or_evict_frame k missed) (
              find_or_evict_frame-FreedIfOk k laws missed
                (record { cache = v.cache; queued = v.queued }))))
    | inr (i, e) ↦ rw (e, pin) (pin_hit-PinnedIfOk k laws p id i v e)
  ]

  -- Let a pool satisfy the invariant, and let the disk have the page. If `pin` gives a handle, then
  -- the invariant holds again; every page that the disk had is there and is seen with the contents
  -- it had, whichever page was evicted and written back; and the handle's frame holds the page that
  -- was asked for, pinned, with the contents that were seen before.
  pub pin-Pinned :
      (p : BufferPool D P) (id : PageId) (h : PageHandle) (p' : BufferPool D P)
      → IsPool k laws p
      → laws.Has p.disk_manager id
      → pin k p id ≡ (ok h, p')
      → Pinned k laws p id h p'
  pin-Pinned p id h p' v has e = subst (PinnedIfOk k laws p id) e (pin-PinnedIfOk p id v has)
