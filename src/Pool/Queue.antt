-- ===== src/Pool/Queue.antt =====
-- src/storage/buffer_pool/eviction.rs: `LruEvictionQueue` as a list of distinct frames.
use ruzu.Prelude.{
  ℕ, ◌+◌, ◌≤◌, ◌<◌, ◌≡◌, refl, ap, sym, subst, ◌∙◌, Bool, true, false, Bool-cases, inl, inr, ◌||◌,
  List, [], ◌∷◌, ◌++◌, arith, if◌then◌else◌, ◌==◌, ==→eq, ltb, le→ltb, lt→ltb, ltb→lt, ltb→le,
  length, drop, length-append,
}
use ruzu.Pool.{LruEvictionQueue, push, retain_others, trim}

abbrev pub mem : ℕ → List ℕ → Bool
mem i [] = false
mem i (j ∷ js) = j == i || mem i js

abbrev pub IsDistinct : List ℕ → Type 0
IsDistinct [] = Unit
IsDistinct (j ∷ js) = (mem j js ≡ false) × IsDistinct js

pub record IsQueue (q : LruEvictionQueue) : Type 0 where
  pub distinct : IsDistinct q.queue
  pub fits : length q.queue ≤ q.capacity
  pub room : 0 < q.capacity

retain_others_absent : (i : ℕ) (js : List ℕ) → mem i js ≡ false → retain_others i js ≡ js
unfolding retain_others
retain_others_absent i [] h = refl
retain_others_absent i (j ∷ js) h = ground (arith, retain_others_absent i js)

mem-retain_others : (i j : ℕ) (js : List ℕ) → mem j js ≡ false → mem j (retain_others i js) ≡ false
unfolding retain_others
mem-retain_others i j [] h = refl
mem-retain_others i j (x ∷ js) h = ground (arith, mem-retain_others i j js)

gone-retain_others : (i : ℕ) (js : List ℕ) → mem i (retain_others i js) ≡ false
unfolding retain_others
gone-retain_others i [] = refl
gone-retain_others i (x ∷ js) = ground (arith, gone-retain_others i js)

IsDistinct-retain_others : (i : ℕ) (js : List ℕ) → IsDistinct js → IsDistinct (retain_others i js)
unfolding retain_others
IsDistinct-retain_others i [] d = tt
IsDistinct-retain_others i (j ∷ js) (n, d) = elim (Bool-cases (j == i)) [
  | inl e ↦ rw e (IsDistinct-retain_others i js d)
  | inr e ↦ rw e (mem-retain_others i j js n, IsDistinct-retain_others i js d)
]

length-retain_others :
    (i : ℕ) (js : List ℕ)
    → IsDistinct js
    → mem i js ≡ true
    → length (retain_others i js) + 1 ≡ length js
unfolding retain_others
length-retain_others i [] d h = cc
length-retain_others i (j ∷ js) (n, d) h = elim (Bool-cases (j == i)) [
  | inl e ↦
      let absent : mem i js ≡ false = subst (λ x. mem x js ≡ false) (==→eq j i e) n in
      rw e (omega (arith, ap length (retain_others_absent i js absent)))
  | inr e ↦
      let later : mem i (j ∷ js) ≡ mem i js = rw e in
      rw e (omega (arith, length-retain_others i js d (sym later ∙ h)))
]

mem-snoc :
    (i j : ℕ) (js : List ℕ) → mem j js ≡ false → (i == j) ≡ false → mem j (js ++ (i ∷ [])) ≡ false
mem-snoc i j [] h ne = rw ne
mem-snoc i j (x ∷ js) h ne = ground (arith, mem-snoc i j js)

IsDistinct-snoc :
    (i : ℕ) (js : List ℕ) → IsDistinct js → mem i js ≡ false → IsDistinct (js ++ (i ∷ []))
IsDistinct-snoc i [] d h = (refl, tt)
IsDistinct-snoc i (j ∷ js) (n, d) h =
    (mem-snoc i j js n (ground (arith, h)), IsDistinct-snoc i js d (ground (arith, h)))

trim_fitting : (c : ℕ) (js : List ℕ) → length js ≤ c → trim c js ≡ js
unfolding trim
trim_fitting c [] h = refl
trim_fitting c (j ∷ js) h = rw (le→ltb c (length (j ∷ js)) h)

trim_one_over :
    (c i : ℕ) (js : List ℕ)
    → length js ≡ c
    → 0 < c
    → trim c (js ++ (i ∷ [])) ≡ drop 1 js ++ (i ∷ [])
unfolding trim
trim_one_over c i [] h some_room = absurd (omega arith)
trim_one_over c i (j ∷ js) h some_room =
    rw (lt→ltb c (length (j ∷ (js ++ (i ∷ [])))) (omega (arith, length-append js (i ∷ []))))
      (trim_fitting c (js ++ (i ∷ [])) (omega (arith, length-append js (i ∷ []))))

mem-drop : (i : ℕ) (js : List ℕ) → mem i js ≡ false → mem i (drop 1 js) ≡ false
mem-drop i [] h = refl
mem-drop i (j ∷ js) h = ground (arith, h)

length-drop_one : (js : List ℕ) → 0 < length js → length (drop 1 js) + 1 ≡ length js
length-drop_one [] h = absurd (omega arith)
length-drop_one (j ∷ js) h = omega arith

IsDistinct-drop : (js : List ℕ) → IsDistinct js → IsDistinct (drop 1 js)
IsDistinct-drop [] d = tt
IsDistinct-drop (j ∷ js) (n, d) = d

-- The queue after `push i`: `i` is the newest. It is moved there if it was queued; else it is added,
-- and the oldest is dropped if the queue was full.
abbrev pub pushed : ℕ → LruEvictionQueue → List ℕ
pushed i q =
    if mem i q.queue || ltb (length q.queue) q.capacity
    then retain_others i q.queue ++ (i ∷ [])
    else drop 1 q.queue ++ (i ∷ [])

pushed_lem :
    (i : ℕ) (q : LruEvictionQueue)
    → IsQueue q
    → (trim q.capacity (retain_others i q.queue ++ (i ∷ [])) ≡ pushed i q)
      × IsDistinct (pushed i q)
      × (length (pushed i q) ≤ q.capacity)
pushed_lem i q v =
    let js = q.queue in
    let here : IsDistinct (retain_others i js ++ (i ∷ [])) =
      IsDistinct-snoc i (retain_others i js) (IsDistinct-retain_others i js v.distinct)
        (gone-retain_others i js) in
    elim (Bool-cases (mem i js)) [
      | inl queued ↦
          let len : length (retain_others i js ++ (i ∷ [])) ≤ q.capacity = omega (
            arith,
            length-append (retain_others i js) (i ∷ []),
            length-retain_others i js v.distinct queued,
            v.fits,
          ) in
          rw queued (trim_fitting q.capacity (retain_others i js ++ (i ∷ [])) len, here, len)
      | inr absent ↦
          let stays : retain_others i js ≡ js = retain_others_absent i js absent in
          elim (Bool-cases (ltb (length js) q.capacity)) [
            | inl some_room ↦
                let len : length (retain_others i js ++ (i ∷ [])) ≤ q.capacity = omega (
                  arith,
                  length-append (retain_others i js) (i ∷ []),
                  ap length stays,
                  ltb→lt (length js) q.capacity some_room,
                ) in
                rw (absent, some_room)
                  (trim_fitting q.capacity (retain_others i js ++ (i ∷ [])) len, here, len)
            | inr full ↦
                let over : length js ≡ q.capacity =
                  omega (arith, v.fits, ltb→le (length js) q.capacity full) in
                rw (absent, full)
                  (
                    ap (λ xs. trim q.capacity (xs ++ (i ∷ []))) stays
                        ∙ trim_one_over q.capacity i js over v.room,
                    IsDistinct-snoc i (drop 1 js) (IsDistinct-drop js v.distinct)
                        (mem-drop i js absent),
                    omega (
                      arith,
                      length-append (drop 1 js) (i ∷ []),
                      length-drop_one js (omega (arith, over, v.room)),
                      v.fits,
                      v.room,
                    ),
                  )
          ]
    ]

-- On a queue of distinct frames that does not exceed its positive capacity, `push` makes the pushed
-- frame the newest: it moves it there if it was queued, or else adds it, and then drops the oldest
-- frame if the queue was full. The queue is one of distinct frames within its capacity again.
pub push_lem :
    (i : ℕ) (q : LruEvictionQueue)
    → IsQueue q
    → ((push i q).queue ≡ pushed i q) × IsQueue (push i q)
unfolding push
push_lem i q v =
    let (same, d, l) = pushed_lem i q v in
    (
      same,
      record {
        distinct = subst IsDistinct (sym same) d;
        fits = omega (arith, ap length same, l);
        room = v.room;
      },
    )
