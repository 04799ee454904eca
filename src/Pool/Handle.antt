-- ===== src/Pool/Handle.antt =====
-- `PageHandle` and `BufferPool::unpin`: a client that writes a page and lets it go.
use ruzu.Prelude.{
  ℕ, ◌+◌, ◌<◌, ◌≡◌, refl, ap, sym, subst, ◌∙◌, true, Bool-cases, inl, inr, some, List, [], ◌∷◌,
  ◌++◌, arith, ok, if◌then◌else◌, ltb, ◌==◌, length, get_elem?, set, length-set, get_elem?-set_self,
  get_elem?-some_lt,
}
use ruzu.Page.{PageId, page_eq, page_eq→eq}
use ruzu.Page.Disk.{Disk, DiskLaws}
use ruzu.Pool.{
  BufferFrame, BufferPool, PageHandle, LruEvictionQueue, unpin_frame, handle_write, unpin,
  drop_handle, push, retain_others, trim,
}
use ruzu.Pool.Cache.{keep-IsCache, keep-contents}
use ruzu.Pool.Evict.{IsPool, see, AllBelow}
use ruzu.Pool.Pages.{IsPinned, set_queued, see_framed, if_same}

module _ {D P : Type 0} (k : Disk D P) (laws : DiskLaws k) where
  -- `p'` is `p` with `page` in the place of what was seen of the page of `h`.
  pub record Written (p : BufferPool D P) (h : PageHandle) (page : P) (p' : BufferPool D P)
      : Type 0 where
    pub valid : IsPool k laws p'
    pub disk : p'.disk_manager ≡ p.disk_manager
    pub sees :
        (j : PageId) → see k laws p' j ≡ (if page_eq h.page_id j then ok page else see k laws p j)
    pub pinned : IsPinned k laws p' h page

  -- On a pool that satisfies the invariant, a write through a handle of a pinned page succeeds. The
  -- invariant holds again, the page is seen with the new contents, every other page as before, and
  -- the handle still pins the page. The disk is not touched.
  pub handle_write-Written :
      (p : BufferPool D P) (h : PageHandle) (old page : P)
      → IsPool k laws p
      → IsPinned k laws p h old
      → (p' : BufferPool D P) × (handle_write p h page ≡ (ok tt, p')) × Written p h page p'
  unfolding handle_write
  handle_write-Written p h old page v q =
      let f' : BufferFrame P = record q.frame { dirty = true; page_data = page } in
      (
        record p { frames = set p.frames h.frame_idx f' },
        rw (q.at, handle_write),
        record {
          valid = record {
            cache =
                keep-IsCache k laws p.frames p.page_table p.disk_manager v.cache h.frame_idx q.frame
                  q.at h.page_id q.holds f' q.holds (λ c. cc);
            queued = set_queued k laws p h.frame_idx f' v.queued;
          };
          disk = refl;
          sees = λ j.
              keep-contents k laws p.frames p.page_table p.disk_manager v.cache h.frame_idx q.frame
                q.at h.page_id q.holds f' j;
          pinned = record {
            frame = f';
            at =
                get_elem?-set_self p.frames h.frame_idx f'
                  (get_elem?-some_lt p.frames h.frame_idx q.frame q.at);
            holds = q.holds;
            bytes = refl;
            counted = q.counted;
          };
        },
      )

  AllBelow-append : (n : ℕ) (is js : List ℕ) → AllBelow n is → AllBelow n js → AllBelow n (is ++ js)
  AllBelow-append n [] js a b = b
  AllBelow-append n (i ∷ is) js (lt, a) b = (lt, AllBelow-append n is js a b)

  AllBelow-retain_others : (n i : ℕ) (js : List ℕ) → AllBelow n js → AllBelow n (retain_others i js)
  unfolding retain_others
  AllBelow-retain_others n i [] a = tt
  AllBelow-retain_others n i (j ∷ js) (lt, a) = elim (Bool-cases (j == i)) [
    | inl e ↦ rw e (AllBelow-retain_others n i js a)
    | inr e ↦ rw e (lt, AllBelow-retain_others n i js a)
  ]

  AllBelow-trim : (n c : ℕ) (js : List ℕ) → AllBelow n js → AllBelow n (trim c js)
  unfolding trim
  AllBelow-trim n c [] a = tt
  AllBelow-trim n c (j ∷ js) (lt, a) = elim (Bool-cases (ltb c (length (j ∷ js)))) [
    | inl e ↦ rw e (AllBelow-trim n c js a)
    | inr e ↦ rw e (lt, a)
  ]

  AllBelow-push :
      (n i : ℕ) (q : LruEvictionQueue) → i < n → AllBelow n q.queue → AllBelow n (push i q).queue
  unfolding push
  AllBelow-push n i q lt a = AllBelow-trim n q.capacity (retain_others i q.queue ++ (i ∷ [])) (
      AllBelow-append n (retain_others i q.queue) (i ∷ []) (AllBelow-retain_others n i q.queue a)
        (lt, tt))

  -- `p'` is `p` with one pin less on a frame, and the same pages.
  pub record Unpinned (p : BufferPool D P) (h : PageHandle) (p' : BufferPool D P) : Type 0 where
    pub valid : IsPool k laws p'
    pub disk : p'.disk_manager ≡ p.disk_manager
    pub same : (j : PageId) → see k laws p' j ≡ see k laws p j
    pub before : BufferFrame P
    pub at_before : get_elem? p.frames h.frame_idx ≡ some before
    pub frame : BufferFrame P
    pub at : get_elem? p'.frames h.frame_idx ≡ some frame
    pub counted : frame.pin_count + 1 ≡ before.pin_count
    pub still_dirty : frame.dirty ≡ before.dirty
    pub queue :
        p'.eviction_queue
        ≡ (if frame.pin_count == 0 then push h.frame_idx p.eviction_queue else p.eviction_queue)

  -- On a pool that satisfies the invariant, dropping a handle of a pinned page succeeds, keeps the
  -- invariant, takes one from the frame's pin count and nothing from what is seen of any page. The
  -- frame stays dirty if it was. It is pushed on the eviction queue if no pin is left, and only
  -- then. The disk is not touched.
  pub drop_handle-Unpinned :
      (p : BufferPool D P) (h : PageHandle) (page : P)
      → IsPool k laws p
      → IsPinned k laws p h page
      → (p' : BufferPool D P) × (drop_handle p h ≡ (ok tt, p')) × Unpinned p h p'
  unfolding drop_handle unpin unpin_frame
  drop_handle-Unpinned p h page v q =
      let f = q.frame in
      let f' : BufferFrame P = unpin_frame f in
      let in_range = get_elem?-some_lt p.frames h.frame_idx f q.at in
      let queue' =
        if f'.pin_count == 0 then push h.frame_idx p.eviction_queue else p.eviction_queue in
      let below : AllBelow (length (set p.frames h.frame_idx f')) queue'.queue =
        subst (λ n. AllBelow n queue'.queue) (sym (length-set p.frames h.frame_idx f'))
          (elim (Bool-cases (f'.pin_count == 0)) [
            | inl e ↦
                rw e
                  (AllBelow-push (length p.frames) h.frame_idx p.eviction_queue in_range v.queued)
            | inr e ↦ rw e v.queued
          ]) in
      (
        record p { frames = set p.frames h.frame_idx f'; eviction_queue = queue' },
        rw (q.at, unpin),
        record {
          valid = record {
            cache =
                keep-IsCache k laws p.frames p.page_table p.disk_manager v.cache h.frame_idx f q.at
                  h.page_id q.holds f' q.holds (v.cache.clean h.frame_idx f h.page_id q.at q.holds);
            queued = below;
          };
          disk = refl;
          same = λ j.
              keep-contents k laws p.frames p.page_table p.disk_manager v.cache h.frame_idx f q.at
                h.page_id q.holds f' j
              ∙ if_same k laws (page_eq h.page_id j) (ok f.page_data) (see k laws p j) (λ eq.
                sym (see_framed k laws p h.frame_idx f h.page_id v q.at q.holds)
                ∙ ap (see k laws p) (page_eq→eq h.page_id j eq));
          before = f;
          at_before = q.at;
          frame = f';
          at = get_elem?-set_self p.frames h.frame_idx f' in_range;
          counted = omega (arith, q.counted);
          still_dirty = refl;
          queue = refl;
        },
      )
