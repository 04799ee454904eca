-- ===== src/Pool/Tests.antt =====
-- The theorems at a pool of one frame over a disk of two pages.
use ruzu.Pool.Numbers.{numbers, numbers-DiskLaws, numbers-Serves, HasNumber}
use ruzu.Prelude.{
  length, ℕ, ◌≡◌, refl, ap, sym, subst, List, [], ◌∷◌, arith, ok, err, storage_error,
}
use ruzu.Page.{main, page_eq}
use ruzu.Page.Table
use ruzu.Pool.{
  BufferPool, PageHandle, LruEvictionQueue, new, pin, pin_hit, pin_miss, pin_frame, unpin_frame,
  new_page, find_or_evict_frame, find_empty, evict_frame, evict_from, evict_at, drop_page, install,
  handle_write, drop_handle, unpin, push, trim, retain_others, flush_all, flush_each, flush_page,
  flush_frame, keys, new_frames, new_frame,
}
use ruzu.Pool.Evict.{IsPool}
use ruzu.Pool.Start.{Started, new-Started, fresh, fresh-IsPool}
use ruzu.Pool.Pages.{Pinned}
use ruzu.Pool.Pin.{pin-Pinned}
use ruzu.Pool.Create.{Created, new_page-Created}
use ruzu.Pool.Handle.{Written, handle_write-Written, Unpinned, drop_handle-Unpinned}
use ruzu.Pool.Flush.All.{Durable, flush_all-Durable}
use ruzu.Pool.Progress.{pin_progress, pin_full}
use ruzu.Pool.Queue.{IsQueue, push_lem}

-- One frame over two pages.
abbrev pool0 : BufferPool (List ℕ) ℕ
pool0 = fresh numbers numbers-DiskLaws 0 (10 ∷ 20 ∷ [])

pool0-IsPool : IsPool numbers numbers-DiskLaws pool0
pool0-IsPool = fresh-IsPool numbers numbers-DiskLaws 0 (10 ∷ 20 ∷ []) tt

-- The handle of page `i` in the only frame.
abbrev handle : ℕ → PageHandle
handle i = record { frame_idx = 0; page_id = main i }

new-Started_example :
    (new numbers 0 (10 ∷ 20 ∷ []) ≡ err storage_error)
    × (p : BufferPool (List ℕ) ℕ) × (new numbers 2 (10 ∷ 20 ∷ []) ≡ ok p)
    × Started numbers numbers-DiskLaws 2 (10 ∷ 20 ∷ []) p
new-Started_example = new-Started numbers numbers-DiskLaws 1 (10 ∷ 20 ∷ []) tt

-- Page 0 pinned; then written; then let go.
abbrev pool1 : BufferPool (List ℕ) ℕ
pool1 = (pin numbers pool0 (main 0)).1

abbrev pool2 : BufferPool (List ℕ) ℕ
pool2 = (handle_write pool1 (handle 0) 11).1

abbrev pool3 : BufferPool (List ℕ) ℕ
pool3 = (drop_handle pool2 (handle 0)).1

pinned0 : pin numbers pool0 (main 0) ≡ (ok (handle 0), pool1)
unfolding pin Table.lookup pin_miss find_or_evict_frame find_empty new_frames new_frame install
pinned0 = refl

pool1-Pinned : Pinned numbers numbers-DiskLaws pool0 (main 0) (handle 0) pool1
pool1-Pinned =
    pin-Pinned numbers numbers-DiskLaws pool0 (main 0) (handle 0) pool1 pool0-IsPool
      (refl, omega arith) pinned0

handle_write-Written_example :
    (p' : BufferPool (List ℕ) ℕ) × (handle_write pool1 (handle 0) 11 ≡ (ok tt, p'))
    × Written numbers numbers-DiskLaws pool1 (handle 0) 11 p'
handle_write-Written_example =
    handle_write-Written numbers numbers-DiskLaws pool1 (handle 0) pool1-Pinned.page 11
      pool1-Pinned.valid pool1-Pinned.pinned

pool2-Written : Written numbers numbers-DiskLaws pool1 (handle 0) 11 pool2
pool2-Written =
    let (p', done, w) =
      handle_write-Written numbers numbers-DiskLaws pool1 (handle 0) pool1-Pinned.page 11
        pool1-Pinned.valid pool1-Pinned.pinned in
    subst (Written numbers numbers-DiskLaws pool1 (handle 0) 11) (sym (ap (λ r. r.1) done)) w

drop_handle-Unpinned_example :
    (p' : BufferPool (List ℕ) ℕ) × (drop_handle pool2 (handle 0) ≡ (ok tt, p'))
    × Unpinned numbers numbers-DiskLaws pool2 (handle 0) p'
drop_handle-Unpinned_example =
    drop_handle-Unpinned numbers numbers-DiskLaws pool2 (handle 0) 11 pool2-Written.valid
      pool2-Written.pinned

pool3-IsPool : IsPool numbers numbers-DiskLaws pool3
pool3-IsPool =
    let (p', done, u) =
      drop_handle-Unpinned numbers numbers-DiskLaws pool2 (handle 0) 11 pool2-Written.valid
        pool2-Written.pinned in
    subst (IsPool numbers numbers-DiskLaws) (sym (ap (λ r. r.1) done)) u.valid

-- Page 1 takes the frame of page 0, which is written back.
abbrev pool4 : BufferPool (List ℕ) ℕ
pool4 = (pin numbers pool3 (main 1)).1

pinned1 : pin numbers pool3 (main 1) ≡ (ok (handle 1), pool4)
unfolding pin Table.lookup pin_miss pin_hit find_or_evict_frame find_empty new_frames new_frame
    install handle_write drop_handle unpin unpin_frame push trim retain_others evict_frame
    evict_from evict_at drop_page Table.remove Table.insert pin_frame page_eq
pinned1 = refl

written_back : pool4.disk_manager ≡ 11 ∷ 20 ∷ []
unfolding pin Table.lookup pin_miss pin_hit find_or_evict_frame find_empty new_frames new_frame
    install handle_write drop_handle unpin unpin_frame push trim retain_others evict_frame
    evict_from evict_at drop_page Table.remove Table.insert pin_frame page_eq
written_back = refl

has_page1 : HasNumber pool3.disk_manager (main 1)
unfolding pin Table.lookup pin_miss pin_hit find_or_evict_frame find_empty new_frames new_frame
    install handle_write drop_handle unpin unpin_frame push trim retain_others evict_frame
    evict_from evict_at drop_page Table.remove Table.insert pin_frame page_eq
has_page1 = (refl, omega arith)

pin-Pinned_example : Pinned numbers numbers-DiskLaws pool3 (main 1) (handle 1) pool4
pin-Pinned_example =
    pin-Pinned numbers numbers-DiskLaws pool3 (main 1) (handle 1) pool4 pool3-IsPool has_page1
      pinned1

abbrev pool5 : BufferPool (List ℕ) ℕ
pool5 = (new_page numbers pool3).1

created : new_page numbers pool3 ≡ (ok (handle 2), pool5)
unfolding new_page pin Table.lookup pin_miss pin_hit find_or_evict_frame find_empty new_frames
    new_frame install handle_write drop_handle unpin unpin_frame push trim retain_others evict_frame
    evict_from evict_at drop_page Table.remove Table.insert pin_frame page_eq
created = refl

pool3_pages : length pool3.disk_manager ≡ 2
unfolding new_page pin Table.lookup pin_miss pin_hit find_or_evict_frame find_empty new_frames
    new_frame install handle_write drop_handle unpin unpin_frame push trim retain_others evict_frame
    evict_from evict_at drop_page Table.remove Table.insert pin_frame page_eq
pool3_pages = refl

new_page-Created_example : Created numbers numbers-DiskLaws pool3 (handle 2) pool5
new_page-Created_example =
    new_page-Created numbers numbers-DiskLaws pool3 (handle 2) pool5 pool3-IsPool
      (omega (arith, pool3_pages)) created

abbrev pool6 : BufferPool (List ℕ) ℕ
pool6 = (flush_all numbers pool2).1

stored : flush_all numbers pool2 ≡ (ok tt, pool6)
unfolding flush_all flush_each flush_page flush_frame keys pin Table.lookup pin_miss pin_hit
    find_or_evict_frame find_empty new_frames new_frame install handle_write drop_handle unpin
    unpin_frame push trim retain_others evict_frame evict_from evict_at drop_page Table.remove
    Table.insert pin_frame page_eq
stored = refl

flush_all-Durable_example : Durable numbers numbers-DiskLaws pool2 pool6
flush_all-Durable_example =
    flush_all-Durable numbers numbers-DiskLaws pool2 pool6 pool2-Written.valid stored

pin_progress_example :
    (h : PageHandle) × (p' : BufferPool (List ℕ) ℕ) × (pin numbers pool0 (main 1) ≡ (ok h, p'))
    × Pinned numbers numbers-DiskLaws pool0 (main 1) h p'
unfolding Table.lookup new_frames new_frame
pin_progress_example =
    pin_progress numbers numbers-DiskLaws numbers-Serves pool0 (main 1) pool0-IsPool
      (refl, omega arith) refl

pin_full_example : pin numbers pool1 (main 1) ≡ (
  err storage_error,
  record pool1 { cache_misses = 2; eviction_queue = record { queue = []; capacity = 1 } },
)
unfolding pin Table.lookup pin_miss pin_hit find_or_evict_frame find_empty new_frames new_frame
    install handle_write drop_handle unpin unpin_frame push trim retain_others evict_frame
    evict_from evict_at drop_page Table.remove Table.insert pin_frame page_eq
pin_full_example =
    pin_full numbers numbers-DiskLaws pool1 (main 1) pool1-Pinned.valid refl refl refl

abbrev queue_of_two : LruEvictionQueue
queue_of_two = record { queue = 4 ∷ 5 ∷ []; capacity = 2 }

push_lem_example : ((push 6 queue_of_two).queue ≡ 5 ∷ 6 ∷ []) × IsQueue (push 6 queue_of_two)
push_lem_example =
    push_lem 6 queue_of_two
      (record { distinct = (refl, (refl, tt)); fits = omega arith; room = omega arith })
