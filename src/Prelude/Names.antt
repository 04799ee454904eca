-- ===== src/Prelude/Names.antt =====
-- Names as texts, and hash maps as association lists, for a test that finds the entry of a key.
-- The order of the entries stands for the order in which a hash map happens to iterate.
use Prim.Native.String.{String}
use mathlib.Core.Path.{◌≡◌, refl}
use mathlib.Core.Logic.{◌≢◌, ◌↔◌}
use mathlib.Core.Bool.{Bool, true, false}
use mathlib.Core.Option.{Option, none, some}
use mathlib.Core.List.{List, [], ◌∷◌}
use native.Mathlib.Omega.{arith}
use text.Mathlib.Text
use text.Mathlib.TextEquality.{eq_iff}
use ruzu.Prelude.Tests.{if◌then◌else◌}

-- `==` on strings.
unfoldable pub same_name : String → String → Bool
same_name s t = Text.◌==◌ s t

pub same_name_iff : (s t : String) → (same_name s t ≡ true) ↔ (s ≡ t)
unfolding same_name
same_name_iff s t = eq_iff s t

pub same_name_ne : (s t : String) → (same_name s t ≡ false) ↔ (s ≢ t)
same_name_ne s t = ground (arith, same_name_iff s t)

pub same_name_refl : (s : String) → same_name s s ≡ true
same_name_refl s = (same_name_iff s s).1 refl

module _ {ℓ κ} {K : Type ℓ} {V : Type κ} (same : K → K → Bool) where
  -- `get`
  unfoldable pub lookup : K → List (K × V) → Option V
  lookup key [] = none
  lookup key ((k, v) ∷ rest) = if same k key then some v else lookup key rest

  unfoldable pub contains_key : K → List (K × V) → Bool
  contains_key key [] = false
  contains_key key ((k, v) ∷ rest) = if same k key then true else contains_key key rest

  -- `insert`: a key that is found keeps its place.
  unfoldable pub insert : K → V → List (K × V) → List (K × V)
  insert key value [] = (key, value) ∷ []
  insert key value ((k, v) ∷ rest) =
      if same k key then (k, value) ∷ rest else (k, v) ∷ insert key value rest

  pub contains_key-lookup :
      (key : K) (entries : List (K × V))
      → (contains_key key entries ≡ false) ↔ (lookup key entries ≡ none)
  unfolding lookup contains_key
  contains_key-lookup key [] = (λ e. refl, λ e. refl)
  contains_key-lookup key ((k, v) ∷ rest) = ground (arith, contains_key-lookup key rest)

  -- A test that is true of equal keys alone.
  module _ (sound : (a b : K) → same a b ≡ true → a ≡ b) where
    pub lookup-insert :
        (key other : K) (value : V) (entries : List (K × V))
        → lookup other (insert key value entries)
          ≡ (if same key other then some value else lookup other entries)
    unfolding lookup insert
    lookup-insert key other value [] = refl
    lookup-insert key other value ((k, v) ∷ rest) =
        ground
          (arith, lookup-insert key other value rest, sound k key, sound k other, sound key other)
