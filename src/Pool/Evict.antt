-- ===== src/Pool/Evict.antt =====
-- Eviction: a frame is freed, and no page that a client can see changes.
use ruzu.Prelude.{
  ℕ, suc, ◌+◌, ◌<◌, ◌≡◌, refl, ap, sym, subst, ◌∙◌, false, Bool-cases, inl, inr, Option-cases, none,
  some, List, [], ◌∷◌, arith, Result, ok, err, panic, if◌then◌else◌, ltb, length, get_elem?, set,
  length-set, get_elem?-set_self, get_elem?-some_lt, get_elem?_in_range,
}
use mathlib.Core.Option.{some-injective}
use ruzu.Page.{PageId, page_eq, page_eq→eq}
use ruzu.Page.Table
use ruzu.Page.Table.{Table, lookup-remove}
use ruzu.Page.Disk.{Disk, DiskLaws}
use ruzu.Pool.{
  BufferFrame, BufferPool, LruEvictionQueue, emptied, drop_page, evict_at, evict_from, evict_frame,
  find_empty, find_or_evict_frame,
}
use ruzu.Pool.Cache.{
  IsCache, contents, give_up-IsCache, give_up-contents, idle-IsCache, idle-contents,
}

abbrev pub AllBelow : ℕ → List ℕ → Type 0
AllBelow n [] = Unit
AllBelow n (i ∷ is) = (i < n) × AllBelow n is

module _ {D P : Type 0} (k : Disk D P) (laws : DiskLaws k) where
  -- The invariant: the frames, the page table and the disk agree, and the queue is of frames.
  pub record IsPool (p : BufferPool D P) : Type 0 where
    pub cache : IsCache k laws p.frames p.page_table p.disk_manager
    pub queued : AllBelow (length p.frames) p.eviction_queue.queue

  -- What a client sees of a page: its frame if it has one, or else the disk.
  abbrev pub see : BufferPool D P → PageId → Result P
  see p id = contents k laws p.frames p.page_table p.disk_manager id

  -- `p'` is `p` with frame `i` free, and the same pages.
  pub record Freed (p : BufferPool D P) (i : ℕ) (p' : BufferPool D P) : Type 0 where
    pub valid : IsPool p'
    pub keeps : (id : PageId) → laws.Has p.disk_manager id → laws.Has p'.disk_manager id
    pub same : (id : PageId) → laws.Has p.disk_manager id → see p' id ≡ see p id
    pub room : laws.HasRoom p.disk_manager → laws.HasRoom p'.disk_manager
    pub frame : BufferFrame P
    pub at : get_elem? p'.frames i ≡ some frame
    pub empty : frame.page_id ≡ none
    pub absent :
        (id : PageId) → Table.lookup id p.page_table ≡ none → Table.lookup id p'.page_table ≡ none

  abbrev pub FreedIfOk : BufferPool D P → Result ℕ × BufferPool D P → Type 0
  FreedIfOk p (ok i, p') = Freed p i p'
  FreedIfOk p (err e, p') = Unit
  FreedIfOk p (panic, p') = Unit

  AllBelow-cong : (m n : ℕ) (is : List ℕ) → m ≡ n → AllBelow n is → AllBelow m is
  AllBelow-cong m n is e h = subst (λ x. AllBelow x is) (sym e) h

  absent-remove :
      (id j : PageId) (t : Table)
      → Table.lookup j t ≡ none
      → Table.lookup j (Table.remove id t) ≡ none
  absent-remove id j t e = elim (Bool-cases (page_eq id j)) [
    | inl eq ↦ lookup-remove id j t ∙ rw eq
    | inr ne ↦ (lookup-remove id j t ∙ rw ne) ∙ e
  ]

  module _ (p : BufferPool D P) (i : ℕ) (f : BufferFrame P) (v : IsPool p)
      (at : get_elem? p.frames i ≡ some f) where
    in_frames : i < length p.frames
    in_frames = get_elem?-some_lt p.frames i f at

    drop_page-Freed :
        (id : PageId) (disk : D)
        → f.page_id ≡ some id
        → laws.Sound disk
        → ((j : PageId)
            → laws.Has p.disk_manager j
            → laws.Has disk j
              × (k.read disk j
                  ≡ (if page_eq id j then ok f.page_data else k.read p.disk_manager j)))
        → (laws.HasRoom p.disk_manager → laws.HasRoom disk)
        → Freed p i (drop_page k (record p { disk_manager = disk }) i f id)
    unfolding drop_page
    drop_page-Freed id disk holds sound kept room = record {
      valid = record {
        cache =
            give_up-IsCache k laws p.frames p.page_table p.disk_manager v.cache i f at id holds disk
              sound kept (emptied k f) refl;
        queued =
            AllBelow-cong (length (set p.frames i (emptied k f))) (length p.frames)
              p.eviction_queue.queue (length-set p.frames i (emptied k f)) v.queued;
      };
      keeps = λ j has. (kept j has).0;
      same = λ j has.
          give_up-contents k laws p.frames p.page_table p.disk_manager v.cache i f at id holds disk
            sound kept (emptied k f) refl j has;
      room = room;
      frame = emptied k f;
      at = get_elem?-set_self p.frames i (emptied k f) in_frames;
      empty = refl;
      absent = λ j e. absent-remove id j p.page_table e;
    }

    idle-Freed : f.page_id ≡ none → Freed p i (record p { frames = set p.frames i (emptied k f) })
    idle-Freed none_there = record {
      valid = record {
        cache =
            idle-IsCache k laws p.frames p.page_table p.disk_manager v.cache i f at none_there
              (emptied k f) refl;
        queued =
            AllBelow-cong (length (set p.frames i (emptied k f))) (length p.frames)
              p.eviction_queue.queue (length-set p.frames i (emptied k f)) v.queued;
      };
      keeps = λ j has. has;
      same = λ j has.
          idle-contents k laws p.frames p.page_table p.disk_manager v.cache i f at none_there
            (emptied k f) refl j;
      room = λ room. room;
      frame = emptied k f;
      at = get_elem?-set_self p.frames i (emptied k f) in_frames;
      empty = refl;
      absent = λ j e. e;
    }

    -- The write-back: a failed one frees nothing.
    write_back-FreedIfOk :
        (id : PageId) (m : Result (Unit {0}) × D)
        → f.page_id ≡ some id
        → k.write p.disk_manager id f.page_data ≡ m
        → FreedIfOk p (elim m.0 as (λ _. Result ℕ × BufferPool D P) [
          | ok done ↦ (ok i, drop_page k (record p { disk_manager = m.1 }) i f id)
          | err e ↦ (err e, record p { disk_manager = m.1 })
          | panic ↦ (panic, record p { disk_manager = m.1 })
        ])
    write_back-FreedIfOk id (ok tt, disk) holds e =
        let (sound, kept) =
          laws.written p.disk_manager disk id f.page_data v.cache.sound
            (v.cache.known i f id at holds) e in
        drop_page-Freed id disk holds sound kept
          (λ room. laws.room_kept p.disk_manager disk id f.page_data room e)
    write_back-FreedIfOk id (err x, disk) holds e = tt
    write_back-FreedIfOk id (panic, disk) holds e = tt

    clean_kept :
        (id : PageId)
        → f.page_id ≡ some id
        → f.dirty ≡ false
        → (j : PageId) → laws.Has p.disk_manager j
        → laws.Has p.disk_manager j
          × (k.read p.disk_manager j
              ≡ (if page_eq id j then ok f.page_data else k.read p.disk_manager j))
    clean_kept id holds c j has = elim (Bool-cases (page_eq id j)) [
      | inl eq ↦ (
        has,
        rw eq (
            ap (k.read p.disk_manager) (sym (page_eq→eq id j eq))
            ∙ v.cache.clean i f id at holds c),
      )
      | inr ne ↦ (has, rw ne)
    ]

    pub evict_at-FreedIfOk : FreedIfOk p (evict_at k p i f)
    unfolding evict_at drop_page
    evict_at-FreedIfOk = elim (Option-cases f.page_id) [
      | inl e ↦ rw (e, evict_at) (idle-Freed e)
      | inr (id, e) ↦ elim (Bool-cases f.dirty) [
        | inl d ↦
            rw (e, evict_at, d)
              (write_back-FreedIfOk id (k.write p.disk_manager id f.page_data) e refl)
        | inr c ↦
            rw (e, evict_at, c)
              (drop_page-Freed id p.disk_manager e v.cache.sound (clean_kept id e c) (λ room. room))
      ]
    ]

  -- Another queue is nothing to what was freed.
  FreedIfOk-queue :
      (p : BufferPool D P) (q : LruEvictionQueue) (r : Result ℕ × BufferPool D P)
      → FreedIfOk (record p { eviction_queue = q }) r
      → FreedIfOk p r
  FreedIfOk-queue p q (ok i, p') h = record {
    valid = h.valid;
    keeps = h.keeps;
    same = h.same;
    room = h.room;
    frame = h.frame;
    at = h.at;
    empty = h.empty;
    absent = h.absent;
  }
  FreedIfOk-queue p q (err e, p') h = tt
  FreedIfOk-queue p q (panic, p') h = tt

  evict_from-FreedIfOk :
      (is : List ℕ) (p : BufferPool D P)
      → IsPool p
      → AllBelow (length p.frames) is
      → FreedIfOk p (evict_from k is p)
  unfolding evict_from
  evict_from-FreedIfOk [] p v below = tt
  evict_from-FreedIfOk (i ∷ is) p v (in_range, below) =
      let (f, at) = get_elem?_in_range p.frames i in_range in
      let popped : LruEvictionQueue = record p.eviction_queue { queue = is } in
      elim (Bool-cases (ltb 0 f.pin_count)) [
        | inl pinned ↦ rw (at, evict_from, pinned) (evict_from-FreedIfOk is p v below)
        | inr free ↦
            rw (at, evict_from, free)
              (FreedIfOk-queue p popped (evict_at k (record p { eviction_queue = popped }) i f) (
                evict_at-FreedIfOk (record p { eviction_queue = popped }) i f
                  (record { cache = v.cache; queued = below }) at))
      ]

  find_empty_lem :
      (n i : ℕ) (fs : List (BufferFrame P))
      → find_empty n fs ≡ some i
      → (j : ℕ) × (i ≡ n + j) × (f : BufferFrame P) × (get_elem? fs j ≡ some f) × (f.page_id ≡ none)
  unfolding find_empty
  find_empty_lem n i [] h = cc
  find_empty_lem n i (f ∷ fs) h = elim (Option-cases f.page_id) [
    | inl e ↦
        let here : find_empty n (f ∷ fs) ≡ some n = rw (e, find_empty) in
        (0, omega (arith, some-injective i n (sym h ∙ here)), f, refl, e)
    | inr (id, e) ↦
        let past : find_empty n (f ∷ fs) ≡ find_empty (n + 1) fs = rw (e, find_empty) in
        let (j, same, g, at, empty) = find_empty_lem (n + 1) i fs (sym past ∙ h) in
        (suc j, omega (arith, same), g, at, empty)
  ]

  -- Finding a frame: the first empty one, or one that is evicted.
  pub find_or_evict_frame-FreedIfOk :
      (p : BufferPool D P) → IsPool p → FreedIfOk p (find_or_evict_frame k p)
  unfolding find_or_evict_frame evict_frame
  find_or_evict_frame-FreedIfOk p v = elim (Option-cases (find_empty 0 p.frames)) [
    | inl e ↦ rw (e, find_or_evict_frame) (evict_from-FreedIfOk p.eviction_queue.queue p v v.queued)
    | inr (i, e) ↦
        let (j, same, f, at, empty) = find_empty_lem 0 i p.frames e in
        rw (e, find_or_evict_frame)
          (record {
            valid = v;
            keeps = λ id has. has;
            same = λ id has. refl;
            room = λ room. room;
            frame = f;
            at = subst (λ n. get_elem? p.frames n ≡ some f) (omega (arith, same)) at;
            empty = empty;
            absent = λ id gone. gone;
          })
  ]
