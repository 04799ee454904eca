-- ===== src/PageState/Transitions.antt =====
-- The transitions of a page's state on the unpacked word.
use ruzu.Prelude.{
  subst, ℕ, ◌+◌, ◌*◌, ◌/◌, ◌%◌, ◌^◌, ◌<◌, ◌≡◌, ◌≢◌, refl, sym, ap, ◌∙◌, Bool, true, false,
  Bool-cases, inl, inr, Option, none, some, arith, ltb, ltb→lt, ltb→le, lt→ltb, ◌==◌, ==→eq,
  ==_refl,
}
use ruzu.PageState.{
  PageStateValue, unlocked, locked, marked, evicted, state_of, code, code_or_one, state_bits,
  dirty_bit, get_version, compose, compare_exchange, or_again, try_lock_from_evicted, try_lock,
  unlock_to_marked, mark_to_unlocked, try_evict, reset,
}

-- The word unpacked: a word of 64 bits with these three parts.
pub record Reads (word dirty : ℕ) (s : PageStateValue) (version : ℕ) : Type 0 where
  pub fits : word < 2 ^ 64
  pub dirty_part : dirty_bit word ≡ dirty
  pub state_part : state_of (state_bits word) ≡ some s
  pub version_part : get_version word ≡ version

state_of-code : (s : PageStateValue) → state_of (code s) ≡ some s
unfolding state_of code
state_of-code unlocked = refl
state_of-code locked = refl
state_of-code marked = refl
state_of-code evicted = refl

code-lt : (s : PageStateValue) → code s < 4
unfolding code
code-lt unlocked = omega arith
code-lt locked = omega arith
code-lt marked = omega arith
code-lt evicted = omega arith

compose-Reads : (d v : ℕ) (s : PageStateValue) → d < 2 → v < 2 ^ 56 → Reads (compose d s v) d s v
unfolding compose dirty_bit state_bits get_version
compose-Reads d v s hd hv =
    let small = lt→ltb v (2 ^ 56) hv in
    let lt = code-lt s in
    let bits : ((d * 2 ^ 63 + (code s * 2 ^ 56 + v)) / 2 ^ 56) % 2 ^ 7 ≡ code s = omega arith in
    rw (small, compose)
      (record {
        fits = omega arith;
        dirty_part = omega arith;
        state_part = ap state_of bits ∙ state_of-code s;
        version_part = omega arith;
      })

-- A version one up, which wraps to 0: the carry falls on a bit that these states have set.
next-Reads :
    (d v : ℕ) (s : PageStateValue)
    → d < 2
    → v < 2 ^ 56
    → code_or_one s ≡ code s
    → Reads (compose d s (v + 1)) d s ((v + 1) % 2 ^ 56)
next-Reads d v s hd hv odd = elim (Bool-cases (ltb (v + 1) (2 ^ 56))) [
  | inl small ↦
      let lt = ltb→lt (v + 1) (2 ^ 56) small in
      let same : v + 1 ≡ (v + 1) % 2 ^ 56 = omega arith in
      subst (Reads (compose d s (v + 1)) d s) same (compose-Reads d (v + 1) s hd lt)
  | inr wraps ↦
      let le = ltb→le (v + 1) (2 ^ 56) wraps in
      let zero_version : 0 ≡ (v + 1) % 2 ^ 56 = omega arith in
      let word : compose d s 0 ≡ compose d s (v + 1) =
        unfold compose in rw (wraps, odd) (omega arith) in
      subst (Reads (compose d s (v + 1)) d s) zero_version
        (subst (λ w. Reads w d s 0) word (compose-Reads d 0 s hd (omega arith)))
]

-- What a call makes of the parts: `none` is a refusal.
abbrev pub Parts : Type 0
Parts = Option (ℕ × PageStateValue × ℕ)

abbrev pub up : ℕ → ℕ
up v = (v + 1) % 2 ^ 56

abbrev pub lock_evicted : ℕ → PageStateValue → ℕ → Parts
lock_evicted d evicted v = some (0, locked, up v)
lock_evicted d _ v = none

abbrev pub lock : ℕ → PageStateValue → ℕ → Parts
lock d unlocked v = some (d, locked, up v)
lock d marked v = some (d, locked, up v)
lock d _ v = none

abbrev pub rescue : ℕ → PageStateValue → ℕ → Parts
rescue d marked v = some (d, unlocked, v)
rescue d _ v = none

abbrev pub evict : ℕ → PageStateValue → ℕ → Parts
evict d unlocked v = some (0, evicted, up v)
evict d marked v = some (0, evicted, up v)
evict d _ v = none

abbrev pub Does : ℕ → Bool × ℕ → Parts → Type 0
Does word r none = r ≡ (false, word)
Does word (b, word') (some (d, s, v)) = (b ≡ true) × Reads word' d s v

abbrev pub DoesLoop : ℕ → Option Bool × ℕ → Parts → Type 0
DoesLoop word r none = r ≡ (some false, word)
DoesLoop word (b, word') (some (d, s, v)) = (b ≡ some true) × Reads word' d s v

-- `unlock_to_marked` on a locked page.
abbrev pub UnlocksLocked : ℕ → ℕ → PageStateValue → ℕ → Type 0
UnlocksLocked word d locked v = DoesLoop word (unlock_to_marked word word) (some (d, marked, v))
UnlocksLocked word d _ v = Unit

yes :
    (w w' d v : ℕ) (s : PageStateValue) (r : Bool × ℕ)
    → r ≡ (true, w')
    → Reads w' d s v
    → Does w r (some (d, s, v))
yes w w' d v s r e q = subst (λ x. Does w x (some (d, s, v))) (sym e) (refl, q)

yes_loop :
    (w w' d v : ℕ) (s : PageStateValue) (r : Option Bool × ℕ)
    → r ≡ (some true, w')
    → Reads w' d s v
    → DoesLoop w r (some (d, s, v))
yes_loop w w' d v s r e q = subst (λ x. DoesLoop w x (some (d, s, v))) (sym e) (refl, q)

module _ (w d v : ℕ) where
  unlocks :
      {s : PageStateValue}
      → Reads w d s v
      → d < 2
      → v < 2 ^ 56
      → DoesLoop w (unlock_to_marked w w) (some (d, marked, v))
  unfolding unlock_to_marked compare_exchange or_again
  unlocks r hd hv =
      let u : unlock_to_marked w w ≡ (some true, compose d marked v) =
        rw (unlock_to_marked, r.dirty_part, r.version_part, ==_refl w) in
      yes_loop w (compose d marked v) d v marked (unlock_to_marked w w) u
        (compose-Reads d v marked hd hv)

  resets : {s : PageStateValue} → Reads w d s v → v < 2 ^ 56 → Reads (reset w) 0 evicted (up v)
  unfolding reset
  resets r hv =
      rw (reset, r.version_part)
        (next-Reads 0 v evicted (omega arith) hv (unfold code_or_one code in refl))

  -- On a 64-bit word with a dirty bit, one of the four states and a version, calls that no other
  -- thread disturbs do this: `try_lock_from_evicted` locks an evicted page, clears the dirty bit
  -- and takes the version up; `try_lock` locks an unlocked or marked page, keeps the dirty bit and
  -- takes the version up; `mark_to_unlocked` unlocks a marked page and `try_evict` evicts an
  -- unlocked or marked one, clearing the dirty bit and taking the version up; each refuses any
  -- other state and leaves the word alone. On a locked page `unlock_to_marked` marks it and keeps
  -- the dirty bit and the version; `reset` evicts the page from every state. The version wraps to 0
  -- at `2 ^ 56` without touching the state.
  pub transitions_lem :
      (s : PageStateValue)
      → Reads w d s v
      → Does w (try_lock_from_evicted w w) (lock_evicted d s v)
        × DoesLoop w (try_lock w w) (lock d s v)
        × Does w (mark_to_unlocked w w) (rescue d s v)
        × Does w (try_evict w w) (evict d s v)
        × UnlocksLocked w d s v
        × Reads (reset w) 0 evicted (up v)
  unfolding compare_exchange try_lock_from_evicted try_lock mark_to_unlocked try_evict or_again
  transitions_lem s r =
      go s r (rw (← r.dirty_part) (unfold dirty_bit in omega arith))
        (rw (← r.version_part) (unfold get_version in omega arith))
    where
      go :
          (s : PageStateValue)
          → Reads w d s v
          → d < 2
          → v < 2 ^ 56
          → Does w (try_lock_from_evicted w w) (lock_evicted d s v)
            × DoesLoop w (try_lock w w) (lock d s v)
            × Does w (mark_to_unlocked w w) (rescue d s v)
            × Does w (try_evict w w) (evict d s v)
            × UnlocksLocked w d s v
            × Reads (reset w) 0 evicted (up v)
      go unlocked r hd hv =
          let a : try_lock_from_evicted w w ≡ (false, w) =
            rw (r.state_part, try_lock_from_evicted) in
          let b : try_lock w w ≡ (some true, compose d locked (v + 1)) =
            rw (r.state_part, try_lock, r.dirty_part, r.version_part, ==_refl w) in
          let m : mark_to_unlocked w w ≡ (false, w) = rw (r.state_part, mark_to_unlocked) in
          let x : try_evict w w ≡ (true, compose 0 evicted (v + 1)) =
            rw (r.state_part, try_evict, r.version_part, ==_refl w) in
          (
            a,
            yes_loop w (compose d locked (v + 1)) d (up v) locked (try_lock w w) b
                (next-Reads d v locked hd hv (unfold code_or_one code in refl)),
            m,
            yes w (compose 0 evicted (v + 1)) 0 (up v) evicted (try_evict w w) x
                (next-Reads 0 v evicted (omega arith) hv (unfold code_or_one code in refl)),
            tt,
            resets r hv,
          )
      go locked r hd hv =
          let a : try_lock_from_evicted w w ≡ (false, w) =
            rw (r.state_part, try_lock_from_evicted) in
          let b : try_lock w w ≡ (some false, w) = rw (r.state_part, try_lock) in
          let m : mark_to_unlocked w w ≡ (false, w) = rw (r.state_part, mark_to_unlocked) in
          let x : try_evict w w ≡ (false, w) = rw (r.state_part, try_evict) in
          (a, b, m, x, unlocks r hd hv, resets r hv)
      go marked r hd hv =
          let a : try_lock_from_evicted w w ≡ (false, w) =
            rw (r.state_part, try_lock_from_evicted) in
          let b : try_lock w w ≡ (some true, compose d locked (v + 1)) =
            rw (r.state_part, try_lock, r.dirty_part, r.version_part, ==_refl w) in
          let m : mark_to_unlocked w w ≡ (true, compose d unlocked v) =
            rw (r.state_part, mark_to_unlocked, r.dirty_part, r.version_part, ==_refl w) in
          let x : try_evict w w ≡ (true, compose 0 evicted (v + 1)) =
            rw (r.state_part, try_evict, r.version_part, ==_refl w) in
          (
            a,
            yes_loop w (compose d locked (v + 1)) d (up v) locked (try_lock w w) b
                (next-Reads d v locked hd hv (unfold code_or_one code in refl)),
            yes w (compose d unlocked v) d v unlocked (mark_to_unlocked w w) m
                (compose-Reads d v unlocked hd hv),
            yes w (compose 0 evicted (v + 1)) 0 (up v) evicted (try_evict w w) x
                (next-Reads 0 v evicted (omega arith) hv (unfold code_or_one code in refl)),
            tt,
            resets r hv,
          )
      go evicted r hd hv =
          let a : try_lock_from_evicted w w ≡ (true, compose 0 locked (v + 1)) =
            rw (r.state_part, try_lock_from_evicted, r.version_part, ==_refl w) in
          let b : try_lock w w ≡ (some false, w) = rw (r.state_part, try_lock) in
          let m : mark_to_unlocked w w ≡ (false, w) = rw (r.state_part, mark_to_unlocked) in
          let x : try_evict w w ≡ (false, w) = rw (r.state_part, try_evict) in
          (
            yes w (compose 0 locked (v + 1)) 0 (up v) locked (try_lock_from_evicted w w) a
                (next-Reads 0 v locked (omega arith) hv (unfold code_or_one code in refl)),
            b,
            m,
            x,
            tt,
            resets r hv,
          )

refused :
    (now v d : ℕ) (loaded : ℕ)
    → Reads now d locked v
    → (now == loaded) ≡ true
    → state_of (state_bits loaded) ≡ some locked
refused now v d loaded r same = rw (← ==→eq now loaded same) r.state_part

-- While the word says locked, no round of `try_lock_from_evicted`, `mark_to_unlocked`, `try_evict`
-- or `try_lock` by another thread changes it or reports success, whatever earlier word that thread
-- has loaded.
pub locked_kept :
    (now d v loaded : ℕ)
    → Reads now d locked v
    → (try_lock_from_evicted loaded now ≡ (false, now))
      × (mark_to_unlocked loaded now ≡ (false, now))
      × (try_evict loaded now ≡ (false, now))
      × ((try_lock loaded now).1 ≡ now)
      × ((try_lock loaded now).0 ≢ some true)
unfolding try_lock_from_evicted try_lock mark_to_unlocked try_evict or_again compare_exchange
locked_kept now d v loaded r = elim (Bool-cases (now == loaded)) [
  | inl same ↦
      let st = refused now v d loaded r same in
      rw (st, try_lock_from_evicted, mark_to_unlocked, try_evict, try_lock)
        (refl, refl, refl, refl, λ e. cc)
  | inr changed ↦ (
    ground (arith, changed),
    ground (arith, changed),
    ground (arith, changed),
    ground (arith, changed),
    λ e. ground (arith, changed),
  )
]
