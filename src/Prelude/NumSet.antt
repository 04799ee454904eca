-- ===== src/Prelude/NumSet.antt =====
-- Hash sets of numbers, as lists without repetition.
use Prim.Native.Nat.{ℕ}
use mathlib.Core.Path.{◌≡◌}
use mathlib.Core.List.{List, [], ◌∷◌}
use mathlib.Core.Bool.{Bool, true, false}
use native.Mathlib.Omega.{arith}
use ruzu.Prelude.Tests.{◌==◌, if◌then◌else◌}

abbrev pub NumSet : Type 0
NumSet = List ℕ

unfoldable pub contains : ℕ → NumSet → Bool
contains a [] = false
contains a (x ∷ xs) = if x == a then true else contains a xs

unfoldable pub insert : ℕ → NumSet → NumSet
insert a xs = if contains a xs then xs else a ∷ xs

unfoldable pub remove : ℕ → NumSet → NumSet
remove a [] = []
remove a (x ∷ xs) = let rest = remove a xs in if x == a then rest else x ∷ rest

pub contains-insert :
    (a b : ℕ) (xs : NumSet) → contains b (insert a xs) ≡ (if a == b then true else contains b xs)
unfolding insert contains
contains-insert a b xs = ground arith

pub contains-remove :
    (a b : ℕ) (xs : NumSet) → contains b (remove a xs) ≡ (if a == b then false else contains b xs)
unfolding remove contains
contains-remove a b [] = ground arith
contains-remove a b (x ∷ xs) = ground (arith, contains-remove a b xs)
