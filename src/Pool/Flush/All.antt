-- ===== src/Pool/Flush/All.antt =====
-- `flush_page` and the loop of `flush_all`.
use ruzu.Prelude.{
  ℕ, ◌≡◌, refl, sym, subst, ◌∙◌, Bool, true, false, Bool-cases, inl, inr, ◌||◌, Option-cases, some,
  List, [], ◌∷◌, Result, ok, err, panic, if◌then◌else◌, get_elem?, set,
}
use ruzu.Page.{PageId, page_eq}
use ruzu.Page.Table
use ruzu.Page.Disk.{Disk, DiskLaws}
use ruzu.Pool.{BufferFrame, BufferPool, flush_frame, flush_page, flush_each, flush_all, keys}
use ruzu.Pool.Cache.{contents}
use ruzu.Pool.Evict.{IsPool, see}
use ruzu.Pool.Pages.{see_framed}
use ruzu.Pool.Flush.{Flushed, FlushedIfOk, Flushed-same, Flushed-written, mem_page, mem_page-keys}

module _ {D P : Type 0} (k : Disk D P) (laws : DiskLaws k) where
  flush_frame-FlushedIfOk :
      (p : BufferPool D P) (id : PageId) (i : ℕ)
      → IsPool k laws p
      → Table.lookup id p.page_table ≡ some i
      → FlushedIfOk k laws p (id ∷ []) (flush_frame k p id i)
  unfolding flush_frame
  flush_frame-FlushedIfOk p id i v e =
      let (f, at, holds) = v.cache.framed id i e in
      elim (Bool-cases f.dirty) [
        | inl d ↦
            rw (at, flush_frame, d) (write f at holds (k.write p.disk_manager id f.page_data) refl)
        | inr c ↦
            rw (at, flush_frame, c)
              (Flushed-same k laws p id v
                (v.cache.clean i f id at holds c ∙ sym (see_framed k laws p i f id v at holds)))
      ]
    where
      write :
          (f : BufferFrame P)
          → get_elem? p.frames i ≡ some f
          → f.page_id ≡ some id
          → (m : Result (Unit {0}) × D) → k.write p.disk_manager id f.page_data ≡ m
          → FlushedIfOk k laws p (id ∷ []) (elim m.0 as (λ _. Result (Unit {0}) × BufferPool D P) [
            | ok done ↦ (
              ok tt,
              record p { disk_manager = m.1; frames = set p.frames i (record f { dirty = false }) },
            )
            | err x ↦ (err x, record p { disk_manager = m.1 })
            | panic ↦ (panic, record p { disk_manager = m.1 })
          ])
      write f at holds (ok tt, disk) w =
          let (sound, kept) =
            laws.written p.disk_manager disk id f.page_data v.cache.sound
              (v.cache.known i f id at holds) w in
          Flushed-written k laws p v i f id at holds disk sound kept
      write f at holds (err x, disk) w = tt
      write f at holds (panic, disk) w = tt

  flush_page-FlushedIfOk :
      (p : BufferPool D P) (id : PageId)
      → IsPool k laws p
      → FlushedIfOk k laws p (id ∷ []) (flush_page k p id)
  unfolding flush_page
  flush_page-FlushedIfOk p id v = elim (Option-cases (Table.lookup id p.page_table)) [
    | inl e ↦ rw (e, flush_page) (Flushed-same k laws p id v (rw (e, contents)))
    | inr (i, e) ↦ rw (e, flush_page) (flush_frame-FlushedIfOk p id i v e)
  ]

  Flushed-nil : (p : BufferPool D P) → IsPool k laws p → Flushed k laws p [] p
  Flushed-nil p v = record {
    valid = v;
    keeps = λ j has. has;
    same = λ j has. refl;
    reads = λ j has. refl;
  }

  -- Behind the first page, the others.
  FlushedIfOk-cons :
      (p p1 : BufferPool D P) (id : PageId) (ids : List PageId)
      (r : Result (Unit {0}) × BufferPool D P)
      → Flushed k laws p (id ∷ []) p1
      → FlushedIfOk k laws p1 ids r
      → FlushedIfOk k laws p (id ∷ ids) r
  FlushedIfOk-cons p p1 id ids (ok done, p2) a b = record {
    valid = b.valid;
    keeps = λ j has. b.keeps j (a.keeps j has);
    same = λ j has. b.same j (a.keeps j has) ∙ a.same j has;
    reads = λ j has.
        b.reads j (a.keeps j has)
        ∙ (rw (a.same j has, a.reads j has)
            (twice (mem_page j ids) (page_eq id j) (see k laws p j) (k.read p.disk_manager j)));
  }
    where
      twice :
          (b a : Bool) (x y : Result P)
          → (if b then x else (if (a || false) then x else y)) ≡ (if (a || b) then x else y)
      twice true true x y = refl
      twice true false x y = refl
      twice false true x y = refl
      twice false false x y = refl
  FlushedIfOk-cons p p1 id ids (err e, p2) a b = tt
  FlushedIfOk-cons p p1 id ids (panic, p2) a b = tt

  flush_each-FlushedIfOk :
      (ids : List PageId) (p : BufferPool D P)
      → IsPool k laws p
      → FlushedIfOk k laws p ids (flush_each k p ids)
  unfolding flush_each
  flush_each-FlushedIfOk [] p v = Flushed-nil p v
  flush_each-FlushedIfOk (id ∷ ids) p v =
      step (flush_page k p id) (flush_page-FlushedIfOk p id v)
        (λ p1 w. flush_each-FlushedIfOk ids p1 w)
    where
      step :
          (r : Result (Unit {0}) × BufferPool D P)
          → FlushedIfOk k laws p (id ∷ []) r
          → ((p1 : BufferPool D P)
              → IsPool k laws p1
              → FlushedIfOk k laws p1 ids (flush_each k p1 ids))
          → FlushedIfOk k laws p (id ∷ ids) (elim r.0 as (λ _. Result (Unit {0}) × BufferPool D P) [
            | ok done ↦ flush_each k r.1 ids
            | err e ↦ (err e, r.1)
            | panic ↦ (panic, r.1)
          ])
      step (ok done, p1) a rest =
          FlushedIfOk-cons p p1 id ids (flush_each k p1 ids) a (rest p1 a.valid)
      step (err e, p1) a rest = tt
      step (panic, p1) a rest = tt

  -- `p'` is `p` with every page on disk as it is seen.
  pub record Durable (p p' : BufferPool D P) : Type 0 where
    pub valid : IsPool k laws p'
    pub keeps : (j : PageId) → laws.Has p.disk_manager j → laws.Has p'.disk_manager j
    pub same : (j : PageId) → laws.Has p.disk_manager j → see k laws p' j ≡ see k laws p j
    pub stored :
        (j : PageId) → laws.Has p.disk_manager j → k.read p'.disk_manager j ≡ see k laws p j

  -- Let a pool satisfy the invariant. If `flush_all` succeeds, then the invariant holds again,
  -- every page that the disk had is there and seen as before, and the disk itself has, at each such
  -- page, what was seen of it.
  pub flush_all-Durable :
      (p p' : BufferPool D P) → IsPool k laws p → flush_all k p ≡ (ok tt, p') → Durable p p'
  unfolding flush_all
  flush_all-Durable p p' v e =
      let a : Flushed k laws p (keys p.page_table) p' =
        subst (FlushedIfOk k laws p (keys p.page_table)) e
          (flush_each-FlushedIfOk (keys p.page_table) p v) in
      record {
        valid = a.valid;
        keeps = a.keeps;
        same = a.same;
        stored = λ j has. a.reads j has ∙ elim (Option-cases (Table.lookup j p.page_table)) [
          | inl gone ↦
              both (mem_page j (keys p.page_table)) (see k laws p j) (k.read p.disk_manager j)
                (rw (gone, contents))
          | inr (i, found) ↦ rw (mem_page-keys j p.page_table i found)
        ];
      }
    where
      both : (b : Bool) (x y : Result P) → x ≡ y → (if b then x else y) ≡ x
      both true x y h = refl
      both false x y h = sym h
