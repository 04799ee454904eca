-- ===== src/Pool/Flush.antt =====
-- `BufferPool::flush_page` and `flush_all`: the disk gets what the clients see.
pub mod All
use ruzu.Prelude.{
  ℕ, ◌+◌, ◌<◌, ◌≡◌, refl, ap, sym, subst, ◌∙◌, Bool, true, false, Bool-cases, inl, inr, ◌||◌,
  Option, Option-cases, none, some, List, [], ◌∷◌, Result, ok, err, panic, if◌then◌else◌, length,
  get_elem?, set, length-set,
}
use mathlib.Core.Option.{some-injective}
use ruzu.Page.{PageId, page_eq, page_eq→eq, page_eq_refl}
use ruzu.Page.Table
use ruzu.Page.Table.{Table}
use ruzu.Page.Disk.{Disk, DiskLaws}
use ruzu.Pool.{BufferFrame, BufferPool, flush_frame, flush_page, flush_each, flush_all, keys}
use ruzu.Pool.Cache.{IsCache, contents, data_of, keep-IsCache, keep-contents}
use ruzu.Pool.Evict.{IsPool, see, AllBelow}
use ruzu.Pool.Pages.{set_queued, see_framed, if_same}

abbrev pub mem_page : PageId → List PageId → Bool
mem_page j [] = false
mem_page j (id ∷ ids) = page_eq id j || mem_page j ids

pub mem_page-keys :
    (j : PageId) (t : Table) (i : ℕ) → Table.lookup j t ≡ some i → mem_page j (keys t) ≡ true
unfolding Table.lookup keys
mem_page-keys j [] i e = cc
mem_page-keys j ((id, n) ∷ t) i e = elim (Bool-cases (page_eq id j)) [
  | inl eq ↦ rw eq
  | inr ne ↦ rw ne (mem_page-keys j t i (sym (rw (ne, Table.lookup)) ∙ e))
]

module _ {D P : Type 0} (k : Disk D P) (laws : DiskLaws k) where
  -- `p'` is `p` with the pages of `ids` on disk as they are seen, and the same pages.
  pub record Flushed (p : BufferPool D P) (ids : List PageId) (p' : BufferPool D P) : Type 0 where
    pub valid : IsPool k laws p'
    pub keeps : (j : PageId) → laws.Has p.disk_manager j → laws.Has p'.disk_manager j
    pub same : (j : PageId) → laws.Has p.disk_manager j → see k laws p' j ≡ see k laws p j
    pub reads :
        (j : PageId)
        → laws.Has p.disk_manager j
        → k.read p'.disk_manager j
          ≡ (if mem_page j ids then see k laws p j else k.read p.disk_manager j)

  abbrev pub FlushedIfOk :
      BufferPool D P → List PageId → Result (Unit {0}) × BufferPool D P → Type 0
  FlushedIfOk p ids (ok done, p') = Flushed p ids p'
  FlushedIfOk p ids (err e, p') = Unit
  FlushedIfOk p ids (panic, p') = Unit

  abbrev flushed : Bool → Result P → Result P → Result P
  flushed b seen read = if b then seen else read

  flushed_one : (a : Bool) (x y : Result P) → (if a then x else y) ≡ flushed (a || false) x y
  flushed_one true x y = refl
  flushed_one false x y = refl

  -- Where nothing has to be written.
  pub Flushed-same :
      (p : BufferPool D P) (id : PageId)
      → IsPool k laws p
      → k.read p.disk_manager id ≡ see k laws p id
      → Flushed p (id ∷ []) p
  Flushed-same p id v e = record {
    valid = v;
    keeps = λ j has. has;
    same = λ j has. refl;
    reads = λ j has.
        sym (
          if_same k laws (page_eq id j) (see k laws p j) (k.read p.disk_manager j) (λ eq.
            subst (λ x. see k laws p x ≡ k.read p.disk_manager x) (page_eq→eq id j eq) (sym e)))
        ∙ flushed_one (page_eq id j) (see k laws p j) (k.read p.disk_manager j);
  }

  module _ (p : BufferPool D P) (v : IsPool k laws p) (i : ℕ) (f : BufferFrame P) (id : PageId)
      (at : get_elem? p.frames i ≡ some f) (holds : f.page_id ≡ some id) (disk : D)
      (sound : laws.Sound disk)
      (kept : (j : PageId)
        → laws.Has p.disk_manager j
        → laws.Has disk j
          × (k.read disk j
              ≡ (if page_eq id j then ok f.page_data else k.read p.disk_manager j))) where
    -- The page is written, the frame is not yet marked.
    wrote-IsCache : IsCache k laws p.frames p.page_table disk
    wrote-IsCache = record {
      framed = v.cache.framed;
      tabled = v.cache.tabled;
      clean = λ n g x e q c.
          (kept x (v.cache.known n g x e q)).1 ∙ elim (Bool-cases (page_eq id x)) [
            | inl eq ↦
                let same : i ≡ n = some-injective i n (
                  sym (v.cache.tabled i f id at holds)
                  ∙ (ap (λ y. Table.lookup y p.page_table) (page_eq→eq id x eq)
                      ∙ v.cache.tabled n g x e q)) in
                let fg : f ≡ g =
                  some-injective f g
                    (sym at ∙ subst (λ m. get_elem? p.frames m ≡ some g) (sym same) e) in
                rw (eq, fg)
            | inr ne ↦ rw ne (v.cache.clean n g x e q c)
          ];
      known = λ n g x e q. (kept x (v.cache.known n g x e q)).0;
      sound = sound;
    }

    wrote-contents :
        (j : PageId)
        → laws.Has p.disk_manager j
        → contents k laws p.frames p.page_table disk j ≡ see k laws p j
    wrote-contents j has = elim (Option-cases (Table.lookup j p.page_table)) [
      | inl e ↦
          rw (e, contents)
            ((kept j has).1 ∙ elim (Bool-cases (page_eq id j)) [
              | inl eq ↦
                  let bad : none ≡ some i =
                    sym e
                    ∙ (sym (ap (λ y. Table.lookup y p.page_table) (page_eq→eq id j eq))
                        ∙ v.cache.tabled i f id at holds) in
                  cc (bad)
              | inr ne ↦ rw ne
            ])
      | inr (n, e) ↦ rw (e, contents)
    ]

    abbrev cleaned : BufferFrame P
    cleaned = record f { dirty = false }

    pub Flushed-written :
        Flushed p (id ∷ []) (record p { disk_manager = disk; frames = set p.frames i cleaned })
    Flushed-written =
        let now : k.read disk id ≡ ok f.page_data =
          (kept id (v.cache.known i f id at holds)).1 ∙ rw (page_eq_refl id) in
        let seen : see k laws p id ≡ ok f.page_data = see_framed k laws p i f id v at holds in
        record {
          valid = record {
            cache =
                keep-IsCache k laws p.frames p.page_table disk wrote-IsCache i f at id holds cleaned
                  holds (λ c. now);
            queued = set_queued k laws p i cleaned v.queued;
          };
          keeps = λ j has. (kept j has).0;
          same = λ j has.
              (keep-contents k laws p.frames p.page_table disk wrote-IsCache i f at id holds cleaned
                  j
                ∙ ap (λ r. if page_eq id j then ok f.page_data else r) (wrote-contents j has))
              ∙ if_same k laws (page_eq id j) (ok f.page_data) (see k laws p j)
                  (λ eq. sym seen ∙ ap (see k laws p) (page_eq→eq id j eq));
          reads = λ j has. (kept j has).1 ∙ elim (Bool-cases (page_eq id j)) [
            | inl eq ↦ rw eq (sym seen ∙ ap (see k laws p) (page_eq→eq id j eq))
            | inr ne ↦ rw ne
          ];
        }
