-- ===== src/Pool.antt =====
-- src/storage/buffer_pool: `BufferFrame`, `LruEvictionQueue` and `BufferPool`. Locks are left out:
-- each method runs alone. The contents of a page are of any type `P`, the disk is the interface
-- `Disk`. A method returns its result beside the pool that it leaves, also on an error.
pub mod Queue
pub mod Cache
pub mod Evict
pub mod Start
pub mod Pages
pub mod Pin
pub mod Create
pub mod Handle
pub mod Flush
pub mod Progress
pub mod Numbers
mod Tests
use ruzu.Prelude.{
  ℕ, zero, suc, ◌+◌, ◌-◌, ◌^◌, ◌≡◌, Bool, true, false, Option, none, some, List, [], ◌∷◌, ◌++◌,
  Result, ok, err, panic, storage_error, ◌>>=◌, ltb, ◌==◌, if◌then◌else◌, length, get_elem?, set,
  add_u64,
}
use ruzu.Page.{PageId}
use ruzu.Page.Table
use ruzu.Page.Table.{Table}
use ruzu.Page.Disk.{Disk}

pub record BufferFrame (P : Type 0) : Type 0 where
  pub frame_id : ℕ
  pub page_id : Option PageId
  pub page_data : P
  pub pin_count : ℕ
  pub dirty : Bool
  pub last_access : ℕ

module _ {P : Type 0} where
  unfoldable pub new_frame : P → ℕ → BufferFrame P
  new_frame blank frame_id = record {
    frame_id = frame_id;
    page_id = none;
    page_data = blank;
    pin_count = 0;
    dirty = false;
    last_access = 0;
  }

  -- `saturating_add` of a `u32`
  unfoldable pub pin_frame : BufferFrame P → BufferFrame P
  pin_frame f = record f {
    pin_count = if ltb f.pin_count (2 ^ 32 - 1) then f.pin_count + 1 else f.pin_count;
  }

  -- `saturating_sub`
  unfoldable pub unpin_frame : BufferFrame P → BufferFrame P
  unpin_frame f = record f { pin_count = f.pin_count - 1 }

  -- The first frame without a page, from index `i` on.
  unfoldable pub find_empty : ℕ → List (BufferFrame P) → Option ℕ
  find_empty i [] = none
  find_empty i (f ∷ fs) =
      let rest = find_empty (i + 1) fs in elim f.page_id [ none ↦ some i | some id ↦ rest ]

pub record LruEvictionQueue : Type 0 where
  pub queue : List ℕ
  pub capacity : ℕ

-- `retain(|&idx| idx != frame_idx)`
unfoldable pub retain_others : ℕ → List ℕ → List ℕ
retain_others i [] = []
retain_others i (j ∷ js) = let rest = retain_others i js in if j == i then rest else j ∷ rest

-- `while self.queue.len() > self.capacity { self.queue.pop_front(); }`
unfoldable pub trim : ℕ → List ℕ → List ℕ
trim capacity [] = []
trim capacity (j ∷ js) =
    let rest = trim capacity js in if ltb capacity (length (j ∷ js)) then rest else j ∷ js

unfoldable pub push : ℕ → LruEvictionQueue → LruEvictionQueue
unfolding trim
push frame_idx q = record q {
  queue = trim q.capacity (retain_others frame_idx q.queue ++ (frame_idx ∷ []));
}

unfoldable pub pop : LruEvictionQueue → Option ℕ × LruEvictionQueue
pop q = elim q.queue [ [] ↦ (none, q) | j ∷ js ↦ (some j, record q { queue = js }) ]

pub record BufferPool (D P : Type 0) : Type 0 where
  pub frames : List (BufferFrame P)
  pub page_table : Table
  pub eviction_queue : LruEvictionQueue
  pub capacity : ℕ
  pub disk_manager : D
  pub access_counter : ℕ
  pub cache_hits : ℕ
  pub cache_misses : ℕ
  pub evictions : ℕ

pub record PageHandle : Type 0 where
  pub frame_idx : ℕ
  pub page_id : PageId

module _ {D P : Type 0} (k : Disk D P) where
  -- `(0..capacity).map(BufferFrame::new)`, from an index on
  unfoldable pub new_frames : ℕ → ℕ → List (BufferFrame P)
  new_frames i zero = []
  new_frames i (suc n) = new_frame k.blank i ∷ new_frames (i + 1) n

  unfoldable pub new : ℕ → D → Result (BufferPool D P)
  unfolding new_frames
  new zero disk = err storage_error
  new (suc n) disk = ok (record {
    frames = new_frames 0 (suc n);
    page_table = [];
    eviction_queue = record { queue = []; capacity = suc n };
    capacity = suc n;
    disk_manager = disk;
    access_counter = 0;
    cache_hits = 0;
    cache_misses = 0;
    evictions = 0;
  })

  -- The frame that an eviction leaves, and the pool around it.
  abbrev pub emptied : BufferFrame P → BufferFrame P
  emptied f = record f { page_id = none; dirty = false; pin_count = 0 }

  unfoldable pub drop_page : BufferPool D P → ℕ → BufferFrame P → PageId → BufferPool D P
  drop_page p i f id = record p {
    frames = set p.frames i (emptied f);
    page_table = Table.remove id p.page_table;
    evictions = add_u64 p.evictions 1;
  }

  -- An evictable frame: its page is written back if dirty, and leaves the pool.
  unfoldable pub evict_at : BufferPool D P → ℕ → BufferFrame P → Result ℕ × BufferPool D P
  evict_at p i f = elim f.page_id [
    | none ↦ (ok i, record p { frames = set p.frames i (emptied f) })
    | some id ↦
        if f.dirty
        then (let (r, disk) = k.write p.disk_manager id f.page_data in
            elim r [
              | ok done ↦ (ok i, drop_page (record p { disk_manager = disk }) i f id)
              | err e ↦ (err e, record p { disk_manager = disk })
              | panic ↦ (panic, record p { disk_manager = disk })
            ])
        else (ok i, drop_page p i f id)
  ]

  -- The loop of `evict_frame` over the queue: what is popped stays popped.
  unfoldable pub evict_from : List ℕ → BufferPool D P → Result ℕ × BufferPool D P
  evict_from [] p =
      (err storage_error, record p { eviction_queue = record p.eviction_queue { queue = [] } })
  evict_from (i ∷ rest) p =
      let popped = record p { eviction_queue = record p.eviction_queue { queue = rest } } in
      let skipped = evict_from rest p in
      elim (get_elem? p.frames i) [
        | none ↦ (panic, popped)
        | some f ↦ if ltb 0 f.pin_count then skipped else evict_at popped i f
      ]

  unfoldable pub evict_frame : BufferPool D P → Result ℕ × BufferPool D P
  evict_frame p = evict_from p.eviction_queue.queue p

  unfoldable pub find_or_evict_frame : BufferPool D P → Result ℕ × BufferPool D P
  find_or_evict_frame p = elim (find_empty 0 p.frames) [ none ↦ evict_frame p | some i ↦ (ok i, p) ]

  -- A frame takes a page: the last part of `pin` and of `new_page`.
  unfoldable pub install :
      BufferPool D P → ℕ → PageId → P → Bool → Result PageHandle × BufferPool D P
  install p i id page dirty = elim (get_elem? p.frames i) [
    | none ↦ (panic, p)
    | some f ↦ (
      ok (record { frame_idx = i; page_id = id }),
      record p {
        frames = set p.frames i (record (pin_frame f) {
          page_id = some id;
          page_data = page;
          dirty = dirty;
          last_access = p.access_counter;
        });
        page_table = Table.insert id i p.page_table;
        access_counter = add_u64 p.access_counter 1;
      },
    )
  ]

  -- The page is in the pool, in frame `i`.
  unfoldable pub pin_hit : BufferPool D P → PageId → ℕ → Result PageHandle × BufferPool D P
  pin_hit p id i = elim (get_elem? p.frames i) [
    | none ↦ (panic, p)
    | some f ↦ (
      ok (record { frame_idx = i; page_id = id }),
      record p {
        frames = set p.frames i (record (pin_frame f) { last_access = p.access_counter });
        access_counter = add_u64 p.access_counter 1;
        cache_hits = add_u64 p.cache_hits 1;
      },
    )
  ]

  -- The page is not in the pool.
  unfoldable pub pin_miss : BufferPool D P → PageId → Result PageHandle × BufferPool D P
  pin_miss p id =
      let (r, p') = find_or_evict_frame (record p { cache_misses = add_u64 p.cache_misses 1 }) in
      elim r [
        | ok i ↦ elim (k.read p'.disk_manager id) [
          | ok page ↦ install p' i id page false
          | err e ↦ (err e, p')
          | panic ↦ (panic, p')
        ]
        | err e ↦ (err e, p')
        | panic ↦ (panic, p')
      ]

  unfoldable pub pin : BufferPool D P → PageId → Result PageHandle × BufferPool D P
  pin p id = elim (Table.lookup id p.page_table) [ none ↦ pin_miss p id | some i ↦ pin_hit p id i ]

  unfoldable pub new_page : BufferPool D P → Result PageHandle × BufferPool D P
  new_page p =
      let (r, p') = find_or_evict_frame p in
      elim r [
        | ok i ↦
            let (a, disk) = k.allocate p'.disk_manager in
            elim a [
              | ok id ↦ install (record p' { disk_manager = disk }) i id k.blank true
              | err e ↦ (err e, record p' { disk_manager = disk })
              | panic ↦ (panic, record p' { disk_manager = disk })
            ]
        | err e ↦ (err e, p')
        | panic ↦ (panic, p')
      ]

  -- `flush_page`, for a page that is in frame `i`.
  unfoldable pub flush_frame : BufferPool D P → PageId → ℕ → Result (Unit {0}) × BufferPool D P
  flush_frame p id i = elim (get_elem? p.frames i) [
    | none ↦ (panic, p)
    | some f ↦
        if f.dirty
        then (let (r, disk) = k.write p.disk_manager id f.page_data in
            elim r [
              | ok done ↦ (
                ok tt,
                record p {
                  disk_manager = disk;
                  frames = set p.frames i (record f { dirty = false });
                },
              )
              | err e ↦ (err e, record p { disk_manager = disk })
              | panic ↦ (panic, record p { disk_manager = disk })
            ])
        else (ok tt, p)
  ]

  unfoldable pub flush_page : BufferPool D P → PageId → Result (Unit {0}) × BufferPool D P
  flush_page p id = elim (Table.lookup id p.page_table) [
    | none ↦ (ok tt, p)
    | some i ↦ flush_frame p id i
  ]

  -- The loop of `flush_all`, over the keys that it has collected.
  unfoldable pub flush_each : BufferPool D P → List PageId → Result (Unit {0}) × BufferPool D P
  flush_each p [] = (ok tt, p)
  flush_each p (id ∷ ids) =
      let (r, p') = flush_page p id in
      elim r [ ok done ↦ flush_each p' ids | err e ↦ (err e, p') | panic ↦ (panic, p') ]

unfoldable pub keys : Table → List PageId
keys [] = []
keys ((id, i) ∷ t) = id ∷ keys t

module _ {D P : Type 0} where
  unfoldable pub flush_all : Disk D P → BufferPool D P → Result (Unit {0}) × BufferPool D P
  flush_all k p = flush_each k p (keys p.page_table)

  -- `unpin`, with the `dirty` flag that `Drop` passes as `false`.
  unfoldable pub unpin : BufferPool D P → ℕ → Bool → Result (Unit {0}) × BufferPool D P
  unpin p i is_dirty = elim (get_elem? p.frames i) [
    | none ↦ (panic, p)
    | some f ↦
        let f' : BufferFrame P =
          unpin_frame (record f { dirty = if is_dirty then true else f.dirty }) in
        (
          ok tt,
          record p {
            frames = set p.frames i f';
            eviction_queue =
                if f'.pin_count == 0 then push i p.eviction_queue else p.eviction_queue;
          },
        )
  ]

  -- `PageHandle::drop`
  unfoldable pub drop_handle : BufferPool D P → PageHandle → Result (Unit {0}) × BufferPool D P
  drop_handle p h = unpin p h.frame_idx false

  -- `PageHandle::data`
  unfoldable pub handle_data : BufferPool D P → PageHandle → Result P
  handle_data p h = elim (get_elem? p.frames h.frame_idx) [ none ↦ panic | some f ↦ ok f.page_data ]

  -- `PageHandle::data_mut`, and a store of a page through the slice that it returns.
  unfoldable pub handle_write : BufferPool D P → PageHandle → P → Result (Unit {0}) × BufferPool D P
  handle_write p h page = elim (get_elem? p.frames h.frame_idx) [
    | none ↦ (panic, p)
    | some f ↦ (
      ok tt,
      record p { frames = set p.frames h.frame_idx (record f { dirty = true; page_data = page }) },
    )
  ]
