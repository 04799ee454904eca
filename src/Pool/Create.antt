-- ===== src/Pool/Create.antt =====
-- `BufferPool::new_page` on every pool that satisfies the invariant.
use ruzu.Prelude.{
  ℕ, ◌≡◌, refl, sym, subst, ◌∙◌, true, Bool-cases, inl, inr, Option-cases, none, Result, ok, err,
  panic,
}
use ruzu.Page.{PageId, page_eq, page_eq→eq, page_eq_refl}
use ruzu.Page.Table
use ruzu.Page.Disk.{Disk, DiskLaws}
use ruzu.Pool.{BufferPool, PageHandle, find_or_evict_frame, install, new_page}
use ruzu.Pool.Cache.{contents}
use ruzu.Pool.Evict.{IsPool, see, Freed, FreedIfOk, find_or_evict_frame-FreedIfOk}
use ruzu.Pool.Pages.{IsPinned, Installed, InstalledIfOk, install-InstalledIfOk}

module _ {D P : Type 0} (k : Disk D P) (laws : DiskLaws k) where
  -- `p'` is `p` with a new page of zeros, pinned under `h`, and the same pages otherwise.
  pub record Created (p : BufferPool D P) (h : PageHandle) (p' : BufferPool D P) : Type 0 where
    pub valid : IsPool k laws p'
    pub keeps : (j : PageId) → laws.Has p.disk_manager j → laws.Has p'.disk_manager j
    pub same : (j : PageId) → laws.Has p.disk_manager j → see k laws p' j ≡ see k laws p j
    pub has : laws.Has p'.disk_manager h.page_id
    pub fresh : ¬ (laws.Has p.disk_manager h.page_id)
    pub zeros : see k laws p' h.page_id ≡ ok k.blank
    pub pinned : IsPinned k laws p' h k.blank

  abbrev CreatedIfOk : BufferPool D P → Result PageHandle × BufferPool D P → Type 0
  CreatedIfOk p (ok h, p') = Created p h p'
  CreatedIfOk p (err e, p') = Unit
  CreatedIfOk p (panic, p') = Unit

  -- The invariant reads nothing of the disk but its pages.
  other_disk-IsPool :
      (p : BufferPool D P) (disk : D)
      → IsPool k laws p
      → laws.Sound disk
      → ((j : PageId)
          → laws.Has p.disk_manager j
          → laws.Has disk j × (k.read disk j ≡ k.read p.disk_manager j))
      → IsPool k laws (record p { disk_manager = disk })
  other_disk-IsPool p disk v sound kept = record {
    cache = record {
      framed = v.cache.framed;
      tabled = v.cache.tabled;
      clean = λ i f id at holds c.
          (kept id (v.cache.known i f id at holds)).1 ∙ v.cache.clean i f id at holds c;
      known = λ i f id at holds. (kept id (v.cache.known i f id at holds)).0;
      sound = sound;
    };
    queued = v.queued;
  }

  other_disk-see :
      (p : BufferPool D P) (disk : D) (j : PageId)
      → k.read disk j ≡ k.read p.disk_manager j
      → see k laws (record p { disk_manager = disk }) j ≡ see k laws p j
  other_disk-see p disk j same = elim (Option-cases (Table.lookup j p.page_table)) [
    | inl e ↦ rw (e, contents) same
    | inr (n, e) ↦ rw (e, contents)
  ]

  -- A page that the disk has not got is in no frame.
  not_there :
      (p : BufferPool D P) (id : PageId)
      → IsPool k laws p
      → ¬ (laws.Has p.disk_manager id)
      → Table.lookup id p.page_table ≡ none
  not_there p id v lacks = elim (Option-cases (Table.lookup id p.page_table)) [
    | inl e ↦ e
    | inr (n, e) ↦
        let (f, at, holds) = v.cache.framed id n e in absurd (lacks (v.cache.known n f id at holds))
  ]

  module _ (p p1 : BufferPool D P) (i : ℕ) (f : Freed k laws p i p1) (disk : D) (id : PageId)
      (got : k.allocate p1.disk_manager ≡ (ok id, disk)) (room : laws.HasRoom p.disk_manager) where
    abbrev p2 : BufferPool D P
    p2 = record p1 { disk_manager = disk }

    abbrev promised :
        laws.Sound disk
        × laws.Has disk id
        × (¬ (laws.Has p1.disk_manager id))
        × ((j : PageId)
            → laws.Has p1.disk_manager j
            → laws.Has disk j × (k.read disk j ≡ k.read p1.disk_manager j))
    promised = laws.allocated p1.disk_manager disk id f.valid.cache.sound (f.room room) got

    Created-Installed :
        (h : PageHandle) (p3 : BufferPool D P)
        → Installed k laws p2 id k.blank h p3
        → Created p h p3
    Created-Installed h p3 n =
        let (sound, has, fresh, kept) = promised in
        let fresh' : ¬ (laws.Has p.disk_manager id) = λ b. fresh (f.keeps id b) in
        record {
          valid = n.valid;
          keeps = λ j b. subst (λ d. laws.Has d j) (sym n.same_disk) (kept j (f.keeps j b)).0;
          same = λ j b. elim (Bool-cases (page_eq id j)) [
            | inl eq ↦
                absurd (fresh' (subst (laws.Has p.disk_manager) (sym (page_eq→eq id j eq)) b))
            | inr ne ↦
                ((n.sees j ∙ rw ne) ∙ other_disk-see p1 disk j (kept j (f.keeps j b)).1)
                ∙ f.same j b
          ];
          has =
              subst (λ d. laws.Has d h.page_id) (sym n.same_disk)
                (subst (laws.Has disk) (sym n.handle) has);
          fresh = λ b. fresh' (subst (laws.Has p.disk_manager) n.handle b);
          zeros = n.sees h.page_id ∙ rw (n.handle, page_eq_refl id);
          pinned = n.pinned;
        }

    after_install :
        (r : Result PageHandle × BufferPool D P)
        → InstalledIfOk k laws p2 id k.blank r
        → CreatedIfOk p r
    after_install (ok h, p3) n = Created-Installed h p3 n
    after_install (err e, p3) n = tt
    after_install (panic, p3) n = tt

    after_allocate : CreatedIfOk p (install k p2 i id k.blank true)
    after_allocate =
        let (sound, has, fresh, kept) = promised in
        after_install (install k p2 i id k.blank true) (
          install-InstalledIfOk k laws p2 i f.frame id k.blank true
            (other_disk-IsPool p1 disk f.valid sound kept) f.at f.empty
            (not_there p1 id f.valid fresh) (λ c. cc) has)

  after_frame :
      (p : BufferPool D P) (r : Result ℕ × BufferPool D P)
      → FreedIfOk k laws p r
      → laws.HasRoom p.disk_manager
      → CreatedIfOk p (elim r.0 as (λ _. Result PageHandle × BufferPool D P) [
        | ok i ↦ elim (k.allocate r.1.disk_manager).0 as (λ _. Result PageHandle × BufferPool D P) [
          | ok id ↦
              install k
                (record r.1 { disk_manager = (k.allocate r.1.disk_manager).1 })
                i
                id
                k.blank
                true
          | err e ↦ (err e, record r.1 { disk_manager = (k.allocate r.1.disk_manager).1 })
          | panic ↦ (panic, record r.1 { disk_manager = (k.allocate r.1.disk_manager).1 })
        ]
        | err e ↦ (err e, r.1)
        | panic ↦ (panic, r.1)
      ])
  after_frame p (ok i, p1) f room = step (k.allocate p1.disk_manager) refl
    where
      step :
          (m : Result PageId × D)
          → k.allocate p1.disk_manager ≡ m
          → CreatedIfOk p (elim m.0 as (λ _. Result PageHandle × BufferPool D P) [
            | ok id ↦ install k (record p1 { disk_manager = m.1 }) i id k.blank true
            | err e ↦ (err e, record p1 { disk_manager = m.1 })
            | panic ↦ (panic, record p1 { disk_manager = m.1 })
          ])
      step (ok id, disk) e = after_allocate p p1 i f disk id e room
      step (err x, disk) e = tt
      step (panic, disk) e = tt
  after_frame p (err e, p1) f room = tt
  after_frame p (panic, p1) f room = tt

  -- Let a pool satisfy the invariant, and let the disk have room for a page, below the range of its
  -- page numbers. If `new_page` gives a handle, then the invariant holds again; every page that the
  -- disk had is there and is seen with the contents it had; and the handle pins a page that the
  -- disk did not have, which the disk now has and which is seen as zeros.
  pub new_page-Created :
      (p : BufferPool D P) (h : PageHandle) (p' : BufferPool D P)
      → IsPool k laws p
      → laws.HasRoom p.disk_manager
      → new_page k p ≡ (ok h, p')
      → Created p h p'
  unfolding new_page
  new_page-Created p h p' v room e =
      subst (CreatedIfOk p) e
        (after_frame p (find_or_evict_frame k p) (find_or_evict_frame-FreedIfOk k laws p v) room)
