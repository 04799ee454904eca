-- ===== src/Pool/Numbers.antt =====
-- A disk of numbered pages that are numbers: the disk's interface and its laws can be filled.
use ruzu.Prelude.{
  take, ◌%◌, ◌^◌, ℕ, zero, suc, ◌<◌, ◌≡◌, refl, ap, sym, subst, ◌∙◌, Bool-cases, inl, inr, some,
  List, [], ◌∷◌, ◌++◌, arith, Result, ok, err, page_error, or_fail, if◌then◌else◌, ltb, ◌==◌,
  length, get_elem?, get_elem?_in_range, set, length-set, get_elem?-set_self, get_elem?-set_ne,
  length-append, lt→ltb, ne_of, ==→eq, ok-injective,
}
use ruzu.Page.{PageId, main, page_eq}
use ruzu.Page.Disk.{Disk, DiskLaws}
use ruzu.Pool.Progress.{Serves}

abbrev pub read_number : List ℕ → PageId → Result ℕ
read_number d id = or_fail (get_elem? d id.page_idx) page_error

abbrev pub write_number : List ℕ → PageId → ℕ → Result (Unit {0}) × List ℕ
write_number d id p =
    if ltb id.page_idx (length d) then (ok tt, set d id.page_idx p) else (err page_error, d)

-- The page numbers wrap at `2 ^ 32`, and the disk then shrinks.
abbrev pub allocate_number : List ℕ → Result PageId × List ℕ
allocate_number d =
    if ltb (length d) (2 ^ 32)
    then (ok (main (length d)), d ++ (0 ∷ []))
    else (ok (main (length d % 2 ^ 32)), take (length d % 2 ^ 32) d ++ (0 ∷ []))

abbrev pub numbers : Disk (List ℕ) ℕ
numbers = record { read = read_number; write = write_number; allocate = allocate_number; blank = 0 }

abbrev pub HasNumber : List ℕ → PageId → Type 0
HasNumber d id = (id.file_id ≡ 0) × (id.page_idx < length d)

same_index :
    (d : List ℕ) (i j : PageId)
    → HasNumber d i
    → HasNumber d j
    → page_eq i j ≡ (i.page_idx == j.page_idx)
unfolding page_eq
same_index d i j hi hj = rw (hi.0, hj.0)

pub set_number :
    (d : List ℕ) (i j : PageId) (p : ℕ)
    → HasNumber d i
    → HasNumber d j
    → read_number (set d i.page_idx p) j ≡ (if page_eq i j then ok p else read_number d j)
set_number d i j p hi hj = elim (Bool-cases (i.page_idx == j.page_idx)) [
  | inl same ↦
      let at : get_elem? (set d i.page_idx p) j.page_idx ≡ some p =
        subst (λ n. get_elem? (set d i.page_idx p) n ≡ some p) (==→eq i.page_idx j.page_idx same)
          (get_elem?-set_self d i.page_idx p hi.1) in
      rw (same_index d i j hi hj, same, at)
  | inr other ↦ rw (
    same_index d i j hi hj,
    other,
    get_elem?-set_ne d i.page_idx j.page_idx p (ne_of i.page_idx j.page_idx other),
  )
]

pub get_elem?-snoc :
    (d : List ℕ) (i v : ℕ) → i < length d → get_elem? (d ++ (v ∷ [])) i ≡ get_elem? d i
get_elem?-snoc [] i v h = absurd (omega arith)
get_elem?-snoc (x ∷ d) zero v h = refl
get_elem?-snoc (x ∷ d) (suc i) v h = get_elem?-snoc d i v (omega arith)

pub write_number_lem :
    (d d' : List ℕ) (i : PageId) (p : ℕ)
    → HasNumber d i
    → write_number d i p ≡ (ok tt, d')
    → d' ≡ set d i.page_idx p
write_number_lem d d' i p h e =
    let done : write_number d i p ≡ (ok tt, set d i.page_idx p) =
      rw (lt→ltb i.page_idx (length d) h.1) in
    sym (ap (λ r. r.1) (sym done ∙ e))

written_room :
    (d : List ℕ) (i : PageId) (p : ℕ) → length d < 2 ^ 32 → length (write_number d i p).1 < 2 ^ 32
written_room d i p room = elim (Bool-cases (ltb i.page_idx (length d))) [
  | inl there ↦ rw there (omega (arith, room, length-set d i.page_idx p))
  | inr beyond ↦ rw beyond room
]

pub number_room :
    (d d' : List ℕ) (i : PageId) (p : ℕ)
    → length d < 2 ^ 32
    → write_number d i p ≡ (ok tt, d')
    → length d' < 2 ^ 32
number_room d d' i p room e = subst (λ r. length r.1 < 2 ^ 32) e (written_room d i p room)

abbrev pub numbers-DiskLaws : DiskLaws numbers
numbers-DiskLaws = record {
  Sound = λ d. Unit;
  Has = HasNumber;
  HasRoom = λ d. length d < 2 ^ 32;
  written = λ d d' i p sound has e. (
    tt,
    λ j has'.
        let to : d' ≡ set d i.page_idx p = write_number_lem d d' i p has e in
        (
          rw to (has'.0, omega (arith, has'.1, length-set d i.page_idx p)),
          rw to (set_number d i j p has has'),
        ),
  );
  room_kept = λ d d' i p room e. number_room d d' i p room e;
  allocated = λ d d' i sound room e.
      let done : allocate_number d ≡ (ok (main (length d)), d ++ (0 ∷ [])) =
        rw (lt→ltb (length d) (2 ^ 32) room) in
      let to : d' ≡ d ++ (0 ∷ []) = sym (ap (λ r. r.1) e) ∙ ap (λ r. r.1) done in
      let id : main (length d) ≡ i =
        ok-injective (main (length d)) i (sym (ap (λ r. r.0) done) ∙ ap (λ r. r.0) e) in
      (
        tt,
        rw (to, ← id) (refl, omega (arith, length-append d (0 ∷ []))),
        λ h. subst (λ x. HasNumber d x → ⊥) id (λ b. omega (arith, b.1)) h,
        λ j h. rw to (
          (h.0, omega (arith, h.1, length-append d (0 ∷ []))),
          ap (λ o. or_fail o page_error) (get_elem?-snoc d j.page_idx 0 h.1),
        ),
      );
}

pub numbers-Serves : Serves numbers numbers-DiskLaws
numbers-Serves = record {
  reads = λ d j sound has.
      let (v, at) = get_elem?_in_range d j.page_idx has.1 in (v, ap (λ o. or_fail o page_error) at);
  writes = λ d j page sound has. (set d j.page_idx page, rw (lt→ltb j.page_idx (length d) has.1));
}
