-- ===== src/PageState.antt =====
-- src/storage/buffer_pool/page_state.rs: `PageState`, a word that threads change by compare and
-- exchange. A call reads the word once as `loaded`; `now` is what the word holds at the exchange.
pub mod Transitions
mod Tests
use ruzu.Prelude.{
  ℕ, ◌+◌, ◌*◌, ◌/◌, ◌%◌, ◌^◌, Bool, true, false, Option, none, some, ltb, ◌==◌, if◌then◌else◌,
}

pub data PageStateValue : Type 0 where
  unlocked locked marked evicted : PageStateValue

-- `TryFrom<u8>`
unfoldable pub state_of : ℕ → Option PageStateValue
state_of value =
    if value == 0
    then some unlocked
    else if value == 1
    then some locked
    else if value == 2
    then some marked
    else if value == 3
    then some evicted
    else none

-- The discriminants.
unfoldable pub code : PageStateValue → ℕ
code unlocked = 0
code locked = 1
code marked = 2
code evicted = 3

-- `(packed & STATE_MASK) >> STATE_SHIFT`
unfoldable pub state_bits : ℕ → ℕ
state_bits packed = (packed / 2 ^ 56) % 2 ^ 7

-- `packed & DIRTY_MASK`, as a bit
unfoldable pub dirty_bit : ℕ → ℕ
dirty_bit packed = (packed / 2 ^ 63) % 2

unfoldable pub get_version : ℕ → ℕ
get_version packed = packed % 2 ^ 56

unfoldable pub get_state : ℕ → PageStateValue
get_state packed = elim (state_of (state_bits packed)) [ none ↦ evicted | some s ↦ s ]

unfoldable pub is_dirty : ℕ → Bool
is_dirty packed = if dirty_bit packed == 0 then false else true

-- `code | 1`
unfoldable pub code_or_one : PageStateValue → ℕ
code_or_one unlocked = 1
code_or_one locked = 1
code_or_one marked = 3
code_or_one evicted = 3

-- `dirty | state << STATE_SHIFT | version`, for a version of at most `2 ^ 56`: that one has the
-- lowest bit of the state in it.
unfoldable pub compose : ℕ → PageStateValue → ℕ → ℕ
compose dirty s version =
    dirty * 2 ^ 63
    + (if ltb version (2 ^ 56) then code s * 2 ^ 56 + version else code_or_one s * 2 ^ 56)

unfoldable pub with_state : PageStateValue → ℕ
with_state s = compose 0 s 0

unfoldable pub new : ℕ
new = with_state evicted

-- `compare_exchange(loaded, new)`: whether it was done, and the word after it.
unfoldable pub compare_exchange : ℕ → ℕ → ℕ → Bool × ℕ
compare_exchange loaded now new_word = if now == loaded then (true, new_word) else (false, now)

unfoldable pub try_lock_from_evicted : ℕ → ℕ → Bool × ℕ
try_lock_from_evicted loaded now = elim (state_of (state_bits loaded)) [
  | some evicted ↦ compare_exchange loaded now (compose 0 locked (get_version loaded + 1))
  | _ ↦ (false, now)
]

-- A round of a loop that tries again when the exchange fails: `none` is another round.
unfoldable pub or_again : Bool × ℕ → Option Bool × ℕ
or_again (true, word) = (some true, word)
or_again (false, word) = (none, word)

unfoldable pub try_lock : ℕ → ℕ → Option Bool × ℕ
try_lock loaded now = elim (state_of (state_bits loaded)) [
  | some unlocked ↦
      or_again
        (compare_exchange loaded now (compose (dirty_bit loaded) locked (get_version loaded + 1)))
  | some marked ↦
      or_again
        (compare_exchange loaded now (compose (dirty_bit loaded) locked (get_version loaded + 1)))
  | _ ↦ (some false, now)
]

unfoldable pub unlock_to_marked : ℕ → ℕ → Option Bool × ℕ
unlock_to_marked loaded now =
    or_again (compare_exchange loaded now (compose (dirty_bit loaded) marked (get_version loaded)))

unfoldable pub set_dirty : Bool → ℕ → ℕ → Option Bool × ℕ
set_dirty dirty loaded now =
    or_again
      (compare_exchange loaded now (if dirty then loaded % 2 ^ 63 + 2 ^ 63 else loaded % 2 ^ 63))

unfoldable pub mark_to_unlocked : ℕ → ℕ → Bool × ℕ
mark_to_unlocked loaded now = elim (state_of (state_bits loaded)) [
  | some marked ↦
      compare_exchange loaded now (compose (dirty_bit loaded) unlocked (get_version loaded))
  | _ ↦ (false, now)
]

unfoldable pub try_evict : ℕ → ℕ → Bool × ℕ
try_evict loaded now = elim (state_of (state_bits loaded)) [
  | some marked ↦ compare_exchange loaded now (compose 0 evicted (get_version loaded + 1))
  | some unlocked ↦ compare_exchange loaded now (compose 0 evicted (get_version loaded + 1))
  | _ ↦ (false, now)
]

-- A load and a store.
unfoldable pub reset : ℕ → ℕ
reset loaded = compose 0 evicted (get_version loaded + 1)
