-- ===== src/Prelude/ByteString.antt =====
-- Byte strings as lists of numbers; little-endian numbers of a given width; exact reads.
use Prim.Native.Nat.{ℕ, zero, suc, ◌+◌, ◌*◌, ◌/◌, ◌%◌, ◌^◌, ◌<◌}
use mathlib.Core.Path.{◌≡◌}
use mathlib.Core.List.{List, [], ◌∷◌, ◌++◌}
use mathlib.Core.Option.{Option, none, some}
use native.Mathlib.Omega.{arith}
use ruzu.Prelude.Tests.{leb, if◌then◌else◌, le→leb}
use ruzu.Prelude.Lists.{length, take, drop, length-append, take-length-append, drop-length-append}

abbrev pub Bytes : Type 0
Bytes = List ℕ

-- `to_le_bytes` of a number of `width` bytes.
abbrev pub le_bytes : ℕ → ℕ → Bytes
le_bytes zero x = []
le_bytes (suc width) x = (x % 256) ∷ le_bytes width (x / 256)

-- `from_le_bytes`
abbrev pub from_le : Bytes → ℕ
from_le [] = 0
from_le (b ∷ bs) = b + 256 * from_le bs

pub from_le-le_bytes_u32 : (x : ℕ) → x < 2 ^ 32 → from_le (le_bytes 4 x) ≡ x
from_le-le_bytes_u32 x h = omega arith

-- `read_exact` of `n` bytes, with what is left; `none` when the input ends before.
unfoldable pub read_exact : ℕ → Bytes → Option (Bytes × Bytes)
read_exact n bs = if leb n (length bs) then some (take n bs, drop n bs) else none

pub read_exact-append :
    (xs ys : Bytes) (n : ℕ) → length xs ≡ n → read_exact n (xs ++ ys) ≡ some (xs, ys)
unfolding read_exact
read_exact-append xs ys n e = rw (
  ← e,
  le→leb (length xs) (length (xs ++ ys)) (omega (arith, length-append xs ys)),
  take-length-append xs ys,
  drop-length-append xs ys,
)

pub read_exact_short : (n : ℕ) (bs : Bytes) → length bs < n → read_exact n bs ≡ none
unfolding read_exact
read_exact_short n bs h = ground arith
