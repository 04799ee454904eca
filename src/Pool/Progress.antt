-- ===== src/Pool/Progress.antt =====
-- When `pin` succeeds, and when the pool is full.
use ruzu.Prelude.{
  ℕ, ◌+◌, ◌≡◌, refl, ap, sym, ◌∙◌, Bool, true, false, Bool-cases, inl, inr, ◌||◌, Option,
  Option-cases, none, some, List, [], ◌∷◌, arith, Result, ok, err, panic, storage_error, ltb, ◌==◌,
  length, get_elem?, get_elem?_in_range, add_u64,
}
use ruzu.Page.{PageId}
use ruzu.Page.Table
use ruzu.Page.Disk.{Disk, DiskLaws}
use ruzu.Pool.{
  BufferFrame, BufferPool, PageHandle, LruEvictionQueue, find_empty, evict_at, evict_from,
  evict_frame, find_or_evict_frame, install, pin_hit, pin_miss, pin,
}
use ruzu.Pool.Evict.{IsPool, AllBelow, FreedIfOk, find_or_evict_frame-FreedIfOk}
use ruzu.Pool.Pages.{Pinned}
use ruzu.Pool.Pin.{pin-Pinned}

module _ {P : Type 0} where
  abbrev is_empty : BufferFrame P → Bool
  is_empty f = elim f.page_id [ none ↦ true | some id ↦ false ]

  -- Some frame is empty.
  abbrev pub some_empty : List (BufferFrame P) → Bool
  some_empty [] = false
  some_empty (f ∷ fs) = is_empty f || some_empty fs

  abbrev unpinned : Option (BufferFrame P) → Bool
  unpinned none = false
  unpinned (some f) = f.pin_count == 0

  -- Some frame of the queue is not pinned.
  abbrev pub some_unpinned : List (BufferFrame P) → List ℕ → Bool
  some_unpinned fs [] = false
  some_unpinned fs (i ∷ is) = unpinned (get_elem? fs i) || some_unpinned fs is

  find_empty-some :
      (n : ℕ) (fs : List (BufferFrame P))
      → some_empty fs ≡ true
      → (i : ℕ) × (find_empty n fs ≡ some i)
  unfolding find_empty
  find_empty-some n [] h = cc
  find_empty-some n (f ∷ fs) h = elim (Option-cases f.page_id) [
    | inl e ↦ (n, rw (e, find_empty))
    | inr (id, e) ↦
        let later : some_empty (f ∷ fs) ≡ some_empty fs = rw (e, some_empty) in
        let (i, found) = find_empty-some (n + 1) fs (sym later ∙ h) in (i, rw (e, find_empty) found)
  ]

  find_empty-none :
      (n : ℕ) (fs : List (BufferFrame P)) → some_empty fs ≡ false → find_empty n fs ≡ none
  unfolding find_empty
  find_empty-none n [] h = refl
  find_empty-none n (f ∷ fs) h = elim (Option-cases f.page_id) [
    | inl e ↦
        let here : some_empty (f ∷ fs) ≡ true = rw (e, some_empty) in
        let bad : true ≡ false = sym here ∙ h in cc (bad)
    | inr (id, e) ↦
        let later : some_empty (f ∷ fs) ≡ some_empty fs = rw (e, some_empty) in
        rw (e, find_empty) (find_empty-none (n + 1) fs (sym later ∙ h))
  ]

module _ {D P : Type 0} (k : Disk D P) (laws : DiskLaws k) where
  -- The disk does what it is asked for a page that it has.
  pub record Serves : Type 0 where
    pub reads :
        (d : D) (j : PageId) → laws.Sound d → laws.Has d j → (page : P) × (k.read d j ≡ ok page)
    pub writes :
        (d : D) (j : PageId) (page : P)
        → laws.Sound d
        → laws.Has d j
        → (d' : D) × (k.write d j page ≡ (ok tt, d'))

  module _ (serves : Serves) where
    evict_at_ok :
        (p : BufferPool D P) (i : ℕ) (f : BufferFrame P)
        → IsPool k laws p
        → get_elem? p.frames i ≡ some f
        → (evict_at k p i f).0 ≡ ok i
    unfolding evict_at
    evict_at_ok p i f v at = elim (Option-cases f.page_id) [
      | inl e ↦ rw (e, evict_at)
      | inr (id, e) ↦ elim (Bool-cases f.dirty) [
        | inl d ↦
            let (disk, w) =
              serves.writes p.disk_manager id f.page_data v.cache.sound
                (v.cache.known i f id at e) in
            rw (e, evict_at, d, w)
        | inr c ↦ rw (e, evict_at, c)
      ]
    ]

    evict_from_ok :
        (is : List ℕ) (p : BufferPool D P)
        → IsPool k laws p
        → AllBelow (length p.frames) is
        → some_unpinned p.frames is ≡ true
        → (i : ℕ) × ((evict_from k is p).0 ≡ ok i)
    unfolding evict_from
    evict_from_ok [] p v below h = cc
    evict_from_ok (i ∷ is) p v (in_range, below) h =
        let (f, at) = get_elem?_in_range p.frames i in_range in
        let popped : LruEvictionQueue = record p.eviction_queue { queue = is } in
        elim (Bool-cases (f.pin_count == 0)) [
          | inl free ↦
              let no_pin : ltb 0 f.pin_count ≡ false = ground (arith, free) in
              (
                i,
                rw (at, evict_from, no_pin)
                    (evict_at_ok (record p { eviction_queue = popped }) i f
                      (record { cache = v.cache; queued = below }) at),
              )
          | inr held ↦
              let pins : ltb 0 f.pin_count ≡ true = ground (arith, held) in
              let later : some_unpinned p.frames (i ∷ is) ≡ some_unpinned p.frames is =
                rw (at, some_unpinned, held) in
              let (j, done) = evict_from_ok is p v below (sym later ∙ h) in
              (j, rw (at, evict_from, pins) done)
        ]

    find_ok :
        (p : BufferPool D P)
        → IsPool k laws p
        → some_empty p.frames || some_unpinned p.frames p.eviction_queue.queue ≡ true
        → (i : ℕ) × ((find_or_evict_frame k p).0 ≡ ok i)
    unfolding find_or_evict_frame evict_frame
    find_ok p v h = elim (Bool-cases (some_empty p.frames)) [
      | inl some_there ↦
          let (i, found) = find_empty-some 0 p.frames some_there in
          (i, rw (found, find_or_evict_frame))
      | inr full ↦
          let found = find_empty-none 0 p.frames full in
          let (i, done) = evict_from_ok p.eviction_queue.queue p v v.queued (sym (rw full) ∙ h) in
          (i, rw (found, find_or_evict_frame) done)
    ]

    hit_ok :
        (p : BufferPool D P) (id : PageId) (i : ℕ) (f : BufferFrame P)
        → get_elem? p.frames i ≡ some f
        → (h : PageHandle) × ((pin_hit k p id i).0 ≡ ok h)
    unfolding pin_hit
    hit_ok p id i f at = (record { frame_idx = i; page_id = id }, rw (at, pin_hit))

    install_ok :
        (p : BufferPool D P) (i : ℕ) (f : BufferFrame P) (id : PageId) (page : P)
        → get_elem? p.frames i ≡ some f
        → (h : PageHandle) × ((install k p i id page false).0 ≡ ok h)
    unfolding install
    install_ok p i f id page at = (record { frame_idx = i; page_id = id }, rw (at, install))

    after_frame_ok :
        (p : BufferPool D P) (id : PageId) (r : Result ℕ × BufferPool D P) (i : ℕ)
        → laws.Has p.disk_manager id
        → FreedIfOk k laws p r
        → r.0 ≡ ok i
        → (h : PageHandle) × ((elim r.0 as (λ _. Result PageHandle × BufferPool D P) [
          | ok i ↦ elim (k.read r.1.disk_manager id) as (λ _. Result PageHandle × BufferPool D P) [
            | ok page ↦ install k r.1 i id page false
            | err e ↦ (err e, r.1)
            | panic ↦ (panic, r.1)
          ]
          | err e ↦ (err e, r.1)
          | panic ↦ (panic, r.1)
        ]).0
            ≡ ok h)
    after_frame_ok p id (ok j, p1) i has f e =
        let (page, got) = serves.reads p1.disk_manager id f.valid.cache.sound (f.keeps id has) in
        let (h, done) = install_ok p1 j f.frame id page f.at in (h, rw got done)
    after_frame_ok p id (err x, p1) i has f e = cc
    after_frame_ok p id (panic, p1) i has f e = cc

    -- There is a place for the page: its own frame, an empty one, or an unpinned one of the queue.
    abbrev pub has_place : BufferPool D P → PageId → Bool
    has_place p id = elim (Table.lookup id p.page_table) [
      | some i ↦ true
      | none ↦ some_empty p.frames || some_unpinned p.frames p.eviction_queue.queue
    ]

    pin_ok :
        (p : BufferPool D P) (id : PageId)
        → IsPool k laws p
        → laws.Has p.disk_manager id
        → has_place p id ≡ true
        → (h : PageHandle) × ((pin k p id).0 ≡ ok h)
    unfolding pin pin_miss
    pin_ok p id v has place = elim (Option-cases (Table.lookup id p.page_table)) [
      | inl e ↦
          let missed : BufferPool D P = record p { cache_misses = add_u64 p.cache_misses 1 } in
          let v' : IsPool k laws missed = record { cache = v.cache; queued = v.queued } in
          let (i, found) = find_ok missed v' (sym (rw (e, has_place)) ∙ place) in
          let (h, done) =
            after_frame_ok missed id (find_or_evict_frame k missed) i has
              (find_or_evict_frame-FreedIfOk k laws missed v') found in
          (h, rw (e, pin) done)
      | inr (i, e) ↦
          let (f, at, holds) = v.cache.framed id i e in
          let (h, done) = hit_ok p id i f at in (h, rw (e, pin) done)
    ]

    -- Let a pool satisfy the invariant, let the disk have the page, and let it read and write the
    -- pages that it has. If the page is in a frame, or some frame is empty, or some frame of the
    -- eviction queue is not pinned, then `pin` succeeds: the invariant holds again, every page of
    -- the disk is there and seen as before, and the handle's frame holds the page asked for,
    -- pinned, with the contents that were seen.
    pub pin_progress :
        (p : BufferPool D P) (id : PageId)
        → IsPool k laws p
        → laws.Has p.disk_manager id
        → has_place p id ≡ true
        → (h : PageHandle) × (p' : BufferPool D P) × (pin k p id ≡ (ok h, p'))
          × Pinned k laws p id h p'
    pin_progress p id v has place =
        let (h, done) = pin_ok p id v has place in
        let whole : pin k p id ≡ (ok h, (pin k p id).1) = ap (λ r. (r, (pin k p id).1)) done in
        (h, (pin k p id).1, whole, pin-Pinned k laws p id h (pin k p id).1 v has whole)

  evict_from_full :
      (is : List ℕ) (p : BufferPool D P)
      → AllBelow (length p.frames) is
      → some_unpinned p.frames is ≡ false
      → evict_from k is p
        ≡ (err storage_error, record p { eviction_queue = record p.eviction_queue { queue = [] } })
  unfolding evict_from
  evict_from_full [] p below h = refl
  evict_from_full (i ∷ is) p (in_range, below) h =
      let (f, at) = get_elem?_in_range p.frames i in_range in
      elim (Bool-cases (f.pin_count == 0)) [
        | inl free ↦
            let here : some_unpinned p.frames (i ∷ is) ≡ true = rw (at, some_unpinned, free) in
            let bad : true ≡ false = sym here ∙ h in cc (bad)
        | inr held ↦
            let pins : ltb 0 f.pin_count ≡ true = ground (arith, held) in
            let later : some_unpinned p.frames (i ∷ is) ≡ some_unpinned p.frames is =
              rw (at, some_unpinned, held) in
            rw (at, evict_from, pins) (evict_from_full is p below (sym later ∙ h))
      ]

  -- Let a pool satisfy the invariant. If the page is in no frame, no frame is empty and every frame
  -- of the eviction queue is pinned, then `pin` is a storage error. No frame, no page and not the
  -- disk has changed, and one more miss is counted; but the eviction queue is left empty.
  pub pin_full :
      (p : BufferPool D P) (id : PageId)
      → IsPool k laws p
      → Table.lookup id p.page_table ≡ none
      → some_empty p.frames ≡ false
      → some_unpinned p.frames p.eviction_queue.queue ≡ false
      → pin k p id ≡ (
        err storage_error,
        record p {
          cache_misses = add_u64 p.cache_misses 1;
          eviction_queue = record p.eviction_queue { queue = [] };
        },
      )
  unfolding pin pin_miss find_or_evict_frame evict_frame
  pin_full p id v absent full held =
      let missed : BufferPool D P = record p { cache_misses = add_u64 p.cache_misses 1 } in
      let found = find_empty-none 0 p.frames full in
      let none_found : find_or_evict_frame k missed ≡ (
        err storage_error,
        record missed { eviction_queue = record p.eviction_queue { queue = [] } },
      ) =
        rw (found, find_or_evict_frame)
          (evict_from_full p.eviction_queue.queue missed v.queued held) in
      rw (absent, pin) (rw (none_found, pin_miss) (ap (λ r. (err storage_error, r.1)) none_found))
