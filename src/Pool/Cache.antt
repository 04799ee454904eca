-- ===== src/Pool/Cache.antt =====
-- The invariant of the pool, and the pages that a client sees through it. Three changes of the
-- frames are all that the methods make: a frame keeps its page, gives it up, or takes one.
use ruzu.Prelude.{
  ◌==◌, ==→eq, ne_of, ℕ, ◌≡◌, ◌≢◌, ap, sym, subst, ◌∙◌, true, false, Bool-cases, inl, inr, Option,
  Option-cases, none, some, List, Result, ok, panic, if◌then◌else◌, get_elem?, set,
  get_elem?-set_self, get_elem?-set_ne, get_elem?-some_lt,
}
use mathlib.Core.Option.{some-injective}
use ruzu.Page.{PageId, page_eq, page_eq→eq, page_eq_refl}
use ruzu.Page.Table
use ruzu.Page.Table.{Table, lookup-insert, lookup-remove}
use ruzu.Page.Disk.{Disk, DiskLaws}
use ruzu.Pool.{BufferFrame}

module _ {D P : Type 0} (k : Disk D P) (laws : DiskLaws k) where
  -- The page table and the frames agree, and a clean page is the disk's.
  pub record IsCache (frames : List (BufferFrame P)) (table : Table) (disk : D) : Type 0 where
    pub framed :
        (id : PageId) (i : ℕ)
        → Table.lookup id table ≡ some i
        → (f : BufferFrame P) × (get_elem? frames i ≡ some f) × (f.page_id ≡ some id)
    pub tabled :
        (i : ℕ) (f : BufferFrame P) (id : PageId)
        → get_elem? frames i ≡ some f
        → f.page_id ≡ some id
        → Table.lookup id table ≡ some i
    pub clean :
        (i : ℕ) (f : BufferFrame P) (id : PageId)
        → get_elem? frames i ≡ some f
        → f.page_id ≡ some id
        → f.dirty ≡ false
        → k.read disk id ≡ ok f.page_data
    pub known :
        (i : ℕ) (f : BufferFrame P) (id : PageId)
        → get_elem? frames i ≡ some f
        → f.page_id ≡ some id
        → laws.Has disk id
    pub sound : laws.Sound disk

  abbrev pub data_of : Option (BufferFrame P) → Result P
  data_of none = panic
  data_of (some f) = ok f.page_data

  -- The contents of a page as a client sees them: those of its frame, or else those on disk.
  abbrev pub contents : List (BufferFrame P) → Table → D → PageId → Result P
  contents frames table disk id = elim (Table.lookup id table) [
    | none ↦ k.read disk id
    | some i ↦ data_of (get_elem? frames i)
  ]

  module _ (frames : List (BufferFrame P)) (table : Table) (disk : D)
      (v : IsCache frames table disk) (i : ℕ) (f : BufferFrame P)
      (at : get_elem? frames i ≡ some f) where
    -- Frame `i` after a change, and the other frames.
    here : (f' : BufferFrame P) → get_elem? (set frames i f') i ≡ some f'
    here f' = get_elem?-set_self frames i f' (get_elem?-some_lt frames i f at)

    there :
        (f' : BufferFrame P) (j : ℕ) → i ≢ j → get_elem? (set frames i f') j ≡ get_elem? frames j
    there f' j ne = get_elem?-set_ne frames i j f' ne

    -- What holds of the new frame and of the old ones holds of all.
    each :
        (f' : BufferFrame P) (Q : ℕ → BufferFrame P → Type 0)
        → Q i f'
        → ((j : ℕ) (g : BufferFrame P) → i ≢ j → get_elem? frames j ≡ some g → Q j g)
        → (j : ℕ) (g : BufferFrame P) → get_elem? (set frames i f') j ≡ some g
        → Q j g
    each f' Q now old j g e = elim (Bool-cases (i == j)) [
      | inl same ↦
          let same' : i ≡ j = ==→eq i j same in
          subst (λ n. Q n g) same'
            (subst (Q i)
              (some-injective f' g
                (sym (here f') ∙ subst (λ n. get_elem? (set frames i f') n ≡ some g) (sym same') e))
              now)
      | inr other ↦ old j g (ne_of i j other) (sym (there f' j (ne_of i j other)) ∙ e)
    ]

    -- The page that the table finds in frame `i` is the page of `f`.
    page_of : (j : PageId) (n : ℕ) → Table.lookup j table ≡ some n → i ≡ n → f.page_id ≡ some j
    page_of j n e same =
        let (g, atg, gid) = v.framed j n e in
        let fg : f ≡ g =
          some-injective f g (sym at ∙ subst (λ m. get_elem? frames m ≡ some g) (sym same) atg) in
        ap (λ h. h.page_id) fg ∙ gid

    module _ (id : PageId) (holds : f.page_id ≡ some id) where
      id_of : (j : PageId) (n : ℕ) → Table.lookup j table ≡ some n → i ≡ n → id ≡ j
      id_of j n e same = some-injective id j (sym holds ∙ page_of j n e same)

      -- A page in another frame is another page.
      other_frame :
          (j : PageId) (n : ℕ) → page_eq id j ≡ false → Table.lookup j table ≡ some n → i ≢ n
      other_frame j n ne e same =
          let bad : true ≡ false =
            sym (page_eq_refl id) ∙ (ap (page_eq id) (id_of j n e same) ∙ ne) in
          cc (bad)

      -- The frame keeps its page `id`, with new contents.
      pub keep-IsCache :
          (f' : BufferFrame P)
          → f'.page_id ≡ some id
          → (f'.dirty ≡ false → k.read disk id ≡ ok f'.page_data)
          → IsCache (set frames i f') table disk
      keep-IsCache f' same fresh = record {
        framed = λ j n e. elim (Bool-cases (i == n)) [
          | inl eq ↦
              let eq' : i ≡ n = ==→eq i n eq in
              (
                f',
                subst (λ m. get_elem? (set frames i f') m ≡ some f') eq' (here f'),
                same ∙ ap some (id_of j n e eq'),
              )
          | inr ne ↦ let (g, atg, gid) = v.framed j n e in (g, there f' n (ne_of i n ne) ∙ atg, gid)
        ];
        tabled = λ n g x e p.
            each f' (λ m h. (x : PageId) → h.page_id ≡ some x → Table.lookup x table ≡ some m)
              (λ x p.
                subst (λ y. Table.lookup y table ≡ some i) (some-injective id x (sym same ∙ p))
                  (v.tabled i f id at holds))
              (λ m h ne e x p. v.tabled m h x e p) n g e x p;
        clean = λ n g x e p c.
            each f'
              (λ m h.
                (x : PageId)
                → h.page_id ≡ some x
                → h.dirty ≡ false
                → k.read disk x ≡ ok h.page_data)
              (λ x p c.
                subst (λ y. k.read disk y ≡ ok f'.page_data) (some-injective id x (sym same ∙ p))
                  (fresh c))
              (λ m h ne e x p c. v.clean m h x e p c) n g e x p c;
        known = λ n g x e p.
            each f' (λ m h. (x : PageId) → h.page_id ≡ some x → laws.Has disk x)
              (λ x p.
                subst (laws.Has disk) (some-injective id x (sym same ∙ p))
                  (v.known i f id at holds))
              (λ m h ne e x p. v.known m h x e p) n g e x p;
        sound = v.sound;
      }

      pub keep-contents :
          (f' : BufferFrame P) (j : PageId)
          → contents (set frames i f') table disk j
            ≡ (if page_eq id j then ok f'.page_data else contents frames table disk j)
      keep-contents f' j = elim (Bool-cases (page_eq id j)) [
        | inl eq ↦
            let e : Table.lookup j table ≡ some i =
              subst (λ y. Table.lookup y table ≡ some i) (page_eq→eq id j eq)
                (v.tabled i f id at holds) in
            rw (eq, e, contents, here f')
        | inr ne ↦ elim (Option-cases (Table.lookup j table)) [
          | inl e ↦ rw (ne, e, contents)
          | inr (n, e) ↦ rw (ne, e, contents) (ap data_of (there f' n (other_frame j n ne e)))
        ]
      ]

      -- The frame gives its page up, and the disk `disk'` has what it held.
      module _ (disk' : D) (sound' : laws.Sound disk')
          (kept : (j : PageId)
            → laws.Has disk j
            → laws.Has disk' j
              × (k.read disk' j ≡ (if page_eq id j then ok f.page_data else k.read disk j)))
          (f' : BufferFrame P) (free : f'.page_id ≡ none) where
        abbrev table' : Table
        table' = Table.remove id table

        apart :
            (j : PageId) (n : ℕ)
            → Table.lookup j table' ≡ some n
            → (page_eq id j ≡ false) × (Table.lookup j table ≡ some n)
        apart j n e = elim (Bool-cases (page_eq id j)) [
          | inl eq ↦
              let bad : none ≡ some n = sym (lookup-remove id j table ∙ rw eq) ∙ e in cc (bad)
          | inr ne ↦ (ne, sym (lookup-remove id j table ∙ rw ne) ∙ e)
        ]

        -- A frame other than `i` holds another page than `id`.
        distinct :
            (n : ℕ) (g : BufferFrame P) (x : PageId)
            → i ≢ n
            → get_elem? frames n ≡ some g
            → g.page_id ≡ some x
            → page_eq id x ≡ false
        distinct n g x ne e p = elim (Bool-cases (page_eq id x)) [
          | inl eq ↦ absurd (
              ne (
                some-injective i n (
                  sym (v.tabled i f id at holds)
                  ∙ (ap (λ y. Table.lookup y table) (page_eq→eq id x eq) ∙ v.tabled n g x e p))))
          | inr o ↦ o
        ]

        pub give_up-IsCache : IsCache (set frames i f') table' disk'
        give_up-IsCache = record {
          framed = λ j n e.
              let (ne, e') = apart j n e in
              let (g, atg, gid) = v.framed j n e' in
              (g, there f' n (other_frame j n ne e') ∙ atg, gid);
          tabled = λ n g x e p.
              each f' (λ m h. (x : PageId) → h.page_id ≡ some x → Table.lookup x table' ≡ some m)
                (λ x p. let bad : none ≡ some x = sym free ∙ p in cc (bad))
                (λ m h ne e x p.
                  (lookup-remove id x table ∙ rw (distinct m h x ne e p)) ∙ v.tabled m h x e p)
                n g e x p;
          clean = λ n g x e p c.
              each f'
                (λ m h.
                  (x : PageId)
                  → h.page_id ≡ some x
                  → h.dirty ≡ false
                  → k.read disk' x ≡ ok h.page_data)
                (λ x p c. let bad : none ≡ some x = sym free ∙ p in cc (bad))
                (λ m h ne e x p c.
                  ((kept x (v.known m h x e p)).1 ∙ rw (distinct m h x ne e p))
                  ∙ v.clean m h x e p c)
                n g e x p c;
          known = λ n g x e p.
              each f' (λ m h. (x : PageId) → h.page_id ≡ some x → laws.Has disk' x)
                (λ x p. let bad : none ≡ some x = sym free ∙ p in cc (bad))
                (λ m h ne e x p. (kept x (v.known m h x e p)).0) n g e x p;
          sound = sound';
        }

        -- Nobody sees the difference.
        pub give_up-contents :
            (j : PageId)
            → laws.Has disk j
            → contents (set frames i f') table' disk' j ≡ contents frames table disk j
        give_up-contents j has = elim (Bool-cases (page_eq id j)) [
          | inl eq ↦
              let e : Table.lookup j table ≡ some i =
                subst (λ y. Table.lookup y table ≡ some i) (page_eq→eq id j eq)
                  (v.tabled i f id at holds) in
              let gone : Table.lookup j table' ≡ none = lookup-remove id j table ∙ rw eq in
              rw (gone, e, contents, at) ((kept j has).1 ∙ rw eq)
          | inr ne ↦
              let stays : Table.lookup j table' ≡ Table.lookup j table =
                lookup-remove id j table ∙ rw ne in
              elim (Option-cases (Table.lookup j table)) [
                | inl e ↦ rw (stays, e, contents) ((kept j has).1 ∙ rw ne)
                | inr (n, e) ↦
                    rw (stays, e, contents) (ap data_of (there f' n (other_frame j n ne e)))
              ]
        ]

    -- An empty frame stays empty.
    module _ (empty : f.page_id ≡ none) (f' : BufferFrame P) (free : f'.page_id ≡ none) where
      idle_frame : (j : PageId) (n : ℕ) → Table.lookup j table ≡ some n → i ≢ n
      idle_frame j n e same = let bad : none ≡ some j = sym empty ∙ page_of j n e same in cc (bad)

      pub idle-IsCache : IsCache (set frames i f') table disk
      idle-IsCache = record {
        framed = λ j n e.
            let (g, atg, gid) = v.framed j n e in (g, there f' n (idle_frame j n e) ∙ atg, gid);
        tabled = λ n g x e p.
            each f' (λ m h. (x : PageId) → h.page_id ≡ some x → Table.lookup x table ≡ some m)
              (λ x p. let bad : none ≡ some x = sym free ∙ p in cc (bad))
              (λ m h ne e x p. v.tabled m h x e p) n g e x p;
        clean = λ n g x e p c.
            each f'
              (λ m h.
                (x : PageId)
                → h.page_id ≡ some x
                → h.dirty ≡ false
                → k.read disk x ≡ ok h.page_data)
              (λ x p c. let bad : none ≡ some x = sym free ∙ p in cc (bad))
              (λ m h ne e x p c. v.clean m h x e p c) n g e x p c;
        known = λ n g x e p.
            each f' (λ m h. (x : PageId) → h.page_id ≡ some x → laws.Has disk x)
              (λ x p. let bad : none ≡ some x = sym free ∙ p in cc (bad))
              (λ m h ne e x p. v.known m h x e p) n g e x p;
        sound = v.sound;
      }

      pub idle-contents :
          (j : PageId) → contents (set frames i f') table disk j ≡ contents frames table disk j
      idle-contents j = elim (Option-cases (Table.lookup j table)) [
        | inl e ↦ rw (e, contents)
        | inr (n, e) ↦ rw (e, contents) (ap data_of (there f' n (idle_frame j n e)))
      ]

    -- An empty frame takes a page that is in no frame.
    module _ (empty : f.page_id ≡ none) (id : PageId) (absent : Table.lookup id table ≡ none)
        (f' : BufferFrame P) (takes : f'.page_id ≡ some id)
        (fresh : f'.dirty ≡ false → k.read disk id ≡ ok f'.page_data) (has : laws.Has disk id) where
      free_frame : (j : PageId) (n : ℕ) → Table.lookup j table ≡ some n → i ≢ n
      free_frame j n e same = let bad : none ≡ some j = sym empty ∙ page_of j n e same in cc (bad)

      new_page_apart :
          (n : ℕ) (g : BufferFrame P) (x : PageId)
          → get_elem? frames n ≡ some g
          → g.page_id ≡ some x
          → page_eq id x ≡ false
      new_page_apart n g x e p = elim (Bool-cases (page_eq id x)) [
        | inl eq ↦
            let bad : none ≡ some n =
              sym absent
              ∙ (ap (λ y. Table.lookup y table) (page_eq→eq id x eq) ∙ v.tabled n g x e p) in
            cc (bad)
        | inr o ↦ o
      ]

      pub take-IsCache : IsCache (set frames i f') (Table.insert id i table) disk
      take-IsCache = record {
        framed = λ j n e. elim (Bool-cases (page_eq id j)) [
          | inl eq ↦
              let at_i : i ≡ n =
                some-injective i n (sym (lookup-insert id j i table ∙ rw eq) ∙ e) in
              (
                f',
                subst (λ m. get_elem? (set frames i f') m ≡ some f') at_i (here f'),
                takes ∙ ap some (page_eq→eq id j eq),
              )
          | inr ne ↦
              let e' : Table.lookup j table ≡ some n =
                sym (lookup-insert id j i table ∙ rw ne) ∙ e in
              let (g, atg, gid) = v.framed j n e' in (g, there f' n (free_frame j n e') ∙ atg, gid)
        ];
        tabled = λ n g x e p.
            each f'
              (λ m h.
                (x : PageId)
                → h.page_id ≡ some x
                → Table.lookup x (Table.insert id i table) ≡ some m)
              (λ x p.
                lookup-insert id x i table
                ∙ rw (← some-injective id x (sym takes ∙ p), page_eq_refl id))
              (λ m h ne e x p.
                (lookup-insert id x i table ∙ rw (new_page_apart m h x e p)) ∙ v.tabled m h x e p)
              n g e x p;
        clean = λ n g x e p c.
            each f'
              (λ m h.
                (x : PageId)
                → h.page_id ≡ some x
                → h.dirty ≡ false
                → k.read disk x ≡ ok h.page_data)
              (λ x p c.
                subst (λ y. k.read disk y ≡ ok f'.page_data) (some-injective id x (sym takes ∙ p))
                  (fresh c))
              (λ m h ne e x p c. v.clean m h x e p c) n g e x p c;
        known = λ n g x e p.
            each f' (λ m h. (x : PageId) → h.page_id ≡ some x → laws.Has disk x)
              (λ x p. subst (laws.Has disk) (some-injective id x (sym takes ∙ p)) has)
              (λ m h ne e x p. v.known m h x e p) n g e x p;
        sound = v.sound;
      }

      pub take-contents :
          (j : PageId)
          → contents (set frames i f') (Table.insert id i table) disk j
            ≡ (if page_eq id j then ok f'.page_data else contents frames table disk j)
      take-contents j = elim (Bool-cases (page_eq id j)) [
        | inl eq ↦
            let found : Table.lookup j (Table.insert id i table) ≡ some i =
              lookup-insert id j i table ∙ rw eq in
            rw (found, eq, contents, here f')
        | inr ne ↦
            let stays : Table.lookup j (Table.insert id i table) ≡ Table.lookup j table =
              lookup-insert id j i table ∙ rw ne in
            elim (Option-cases (Table.lookup j table)) [
              | inl e ↦ rw (stays, ne, e, contents)
              | inr (n, e) ↦
                  rw (stays, ne, e, contents) (ap data_of (there f' n (free_frame j n e)))
            ]
      ]
