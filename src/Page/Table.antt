-- ===== src/Page/Table.antt =====
-- `HashMap<PageId, usize>` as an association list.
use ruzu.Prelude.{
  ℕ, ◌≡◌, refl, true, Bool-cases, inl, inr, Option, none, some, List, [], ◌∷◌, arith, if◌then◌else◌,
}
use ruzu.Page.{PageId, page_eq, page_eq→eq, page_eq_refl}

abbrev pub Table : Type 0
Table = List (PageId × ℕ)

unfoldable pub lookup : PageId → Table → Option ℕ
lookup id [] = none
lookup id ((j, v) ∷ t) = if page_eq j id then some v else lookup id t

unfoldable pub insert : PageId → ℕ → Table → Table
insert id v [] = (id, v) ∷ []
insert id v ((j, w) ∷ t) = if page_eq j id then (id, v) ∷ t else (j, w) ∷ insert id v t

unfoldable pub remove : PageId → Table → Table
remove id [] = []
remove id ((j, v) ∷ t) = let rest = remove id t in if page_eq j id then rest else (j, v) ∷ rest

-- Equal ids fare alike in a comparison.
page_eq_trans : (a b c : PageId) → page_eq a b ≡ true → page_eq a c ≡ page_eq b c
page_eq_trans a b c h = rw (page_eq→eq a b h)

pub lookup-insert :
    (id j : PageId) (v : ℕ) (t : Table)
    → lookup j (insert id v t) ≡ (if page_eq id j then some v else lookup j t)
unfolding lookup insert
lookup-insert id j v [] = refl
lookup-insert id j v ((k, w) ∷ t) = elim (Bool-cases (page_eq k id)) [
  | inl e ↦ rw (e, page_eq_trans k id j e) (ground arith)
  | inr e ↦ rw e (
      ground (
        arith,
        lookup-insert id j v t,
        page_eq_trans id k j,
        page_eq→eq k j,
        page_eq→eq id j,
        page_eq_refl id,
      ))
]

pub lookup-remove :
    (id j : PageId) (t : Table)
    → lookup j (remove id t) ≡ (if page_eq id j then none else lookup j t)
unfolding lookup remove
lookup-remove id j [] = ground arith
lookup-remove id j ((k, w) ∷ t) = elim (Bool-cases (page_eq k id)) [
  | inl e ↦ rw (e, page_eq_trans k id j e) (ground (arith, lookup-remove id j t))
  | inr e ↦
      rw e (ground (arith, lookup-remove id j t, page_eq→eq k j, page_eq→eq id j, page_eq_refl id))
]
