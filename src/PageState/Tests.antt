-- ===== src/PageState/Tests.antt =====
-- The theorems at a dirty, marked page of version 7, and at a locked one.
use ruzu.Prelude.{ℕ, ◌+◌, ◌*◌, ◌^◌, ◌≡◌, ◌≢◌, refl, arith, true, false, some}
use ruzu.PageState.{
  locked, marked, evicted, state_of, state_bits, dirty_bit, get_version, try_lock_from_evicted,
  try_lock, unlock_to_marked, mark_to_unlocked, try_evict, reset,
}
use ruzu.PageState.Transitions.{Reads, DoesLoop, up, transitions_lem, locked_kept}

abbrev page7 : ℕ
page7 = 2 ^ 63 + 2 * 2 ^ 56 + 7

page7-Reads : Reads page7 1 marked 7
unfolding dirty_bit state_bits state_of get_version
page7-Reads = record {
  fits = omega arith;
  dirty_part = refl;
  state_part = refl;
  version_part = refl;
}

abbrev page8 : ℕ
page8 = 2 ^ 56 + 8

page8-Reads : Reads page8 0 locked 8
unfolding dirty_bit state_bits state_of get_version
page8-Reads = record {
  fits = omega arith;
  dirty_part = refl;
  state_part = refl;
  version_part = refl;
}

transitions_lem_example :
    (try_lock_from_evicted page8 page8 ≡ (false, page8))
    × (try_lock page8 page8 ≡ (some false, page8))
    × (mark_to_unlocked page8 page8 ≡ (false, page8))
    × (try_evict page8 page8 ≡ (false, page8))
    × DoesLoop page8 (unlock_to_marked page8 page8) (some (0, marked, 8))
    × Reads (reset page8) 0 evicted (up 8)
transitions_lem_example = transitions_lem page8 0 8 locked page8-Reads

locked_kept_example :
    (try_lock_from_evicted page7 page8 ≡ (false, page8))
    × (mark_to_unlocked page7 page8 ≡ (false, page8))
    × (try_evict page7 page8 ≡ (false, page8))
    × ((try_lock page7 page8).1 ≡ page8)
    × ((try_lock page7 page8).0 ≢ some true)
locked_kept_example = locked_kept page8 0 8 page7 page8-Reads
