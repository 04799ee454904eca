-- ===== src/Types/Value.antt =====
-- src/types/value.rs: `Value`, its equality, its order and its use as a key of a hash map. The
-- integers are signed; a float is the number of its bits, compared as IEEE 754 says.
use Prim.Native.Nat.{Ordering, compare as compare_ℕ}
use Prim.Native.String.{String, compare as compare_String}
use ruzu.Types.{DataType}
use ruzu.Prelude.{
  ℕ, ◌*◌, ◌-◌, ◌%◌, ◌^◌, ◌≡◌, refl, ap, Bool, true, false, not, ◌&&◌, Option, none, some, List, [],
  ◌∷◌, arith, ltb, ◌==◌, if◌then◌else◌,
}
use ruzu.Prelude.Names.{same_name, same_name_iff}

-- `negsuc n` is -(n + 1).
pub data ℤ : Type 0 where
  pos : ℕ → ℤ
  negsuc : ℕ → ℤ

abbrev pub compare_ℤ : ℤ → ℤ → Ordering
compare_ℤ (pos a) (pos b) = compare_ℕ a b
compare_ℤ (pos a) (negsuc b) = Ordering.gt
compare_ℤ (negsuc a) (pos b) = Ordering.lt
compare_ℤ (negsuc a) (negsuc b) = compare_ℕ b a

pub data Value : Type 0 where
  int64 : ℤ → Value
  float32 : ℕ → Value
  float64 : ℕ → Value
  bool : Bool → Value
  string : String → Value
  date : ℤ → Value
  timestamp : ℤ → Value
  null : Value

unfoldable pub is_null : Value → Bool
is_null null = true
is_null (int64 i) = false
is_null (float32 f) = false
is_null (float64 f) = false
is_null (bool b) = false
is_null (string s) = false
is_null (date d) = false
is_null (timestamp t) = false

unfoldable pub data_type : Value → Option DataType
data_type (int64 i) = some DataType.int64
data_type (float32 f) = some DataType.float32
data_type (float64 f) = some DataType.float64
data_type (bool b) = some DataType.bool
data_type (string s) = some DataType.string
data_type (date d) = some DataType.date
data_type (timestamp t) = some DataType.timestamp
data_type null = none

-- A float of `width` bits whose infinity has the magnitude `infinity`: not a number beyond it.
abbrev pub is_nan : ℕ → ℕ → ℕ → Bool
is_nan width infinity bits = ltb infinity (bits % 2 ^ (width - 1))

-- The magnitude with the sign; both zeros are 0.
abbrev pub signed_magnitude : ℕ → ℕ → ℤ
signed_magnitude width bits =
    if ltb bits (2 ^ (width - 1))
    then pos bits
    else if bits % 2 ^ (width - 1) == 0
    then pos 0
    else negsuc (bits % 2 ^ (width - 1) - 1)

-- `partial_cmp` on floats.
unfoldable pub partial_cmp : ℕ → ℕ → ℕ → ℕ → Option Ordering
partial_cmp width infinity a b =
    if is_nan width infinity a
    then none
    else if is_nan width infinity b
    then none
    else some (compare_ℤ (signed_magnitude width a) (signed_magnitude width b))

abbrev pub compare_Bool : Bool → Bool → Ordering
compare_Bool true true = Ordering.eq
compare_Bool false false = Ordering.eq
compare_Bool true false = Ordering.gt
compare_Bool false true = Ordering.lt

unfoldable pub compare : Value → Value → Option Ordering
compare (int64 a) (int64 b) = some (compare_ℤ a b)
compare (timestamp a) (timestamp b) = some (compare_ℤ a b)
compare (float32 a) (float32 b) = partial_cmp 32 (255 * 2 ^ 23) a b
compare (float64 a) (float64 b) = partial_cmp 64 (2047 * 2 ^ 52) a b
compare (bool a) (bool b) = some (compare_Bool a b)
compare (string a) (string b) = some (compare_String a b)
compare (date a) (date b) = some (compare_ℤ a b)
compare a b = none

unfoldable pub is_equal : Option Ordering → Bool
is_equal (some Ordering.eq) = true
is_equal (some Ordering.lt) = false
is_equal (some Ordering.gt) = false
is_equal none = false

-- `==` on values, derived: a NULL is equal to a NULL.
unfoldable pub eq : Value → Value → Bool
unfolding is_equal compare
eq null null = true
eq null b = false
eq a b = is_equal (compare a b)

-- `compare` and `eq` at the tests of equality of each kind, for keys.
abbrev pub same_ℤ : ℤ → ℤ → Bool
same_ℤ (pos a) (pos b) = a == b
same_ℤ (negsuc a) (negsuc b) = a == b
same_ℤ (pos a) (negsuc b) = false
same_ℤ (negsuc a) (pos b) = false

abbrev pub same_Bool : Bool → Bool → Bool
same_Bool true b = b
same_Bool false b = not b

-- A hash map finds an entry whose key hashes alike and is equal: the hash takes a float's bits, so
-- that 0.0 does not find -0.0, and no entry is found for a key that is not a number.
unfoldable pub same_value : Value → Value → Bool
same_value (int64 a) (int64 b) = same_ℤ a b
same_value (float32 a) (float32 b) = a == b && not (is_nan 32 (255 * 2 ^ 23) a)
same_value (float64 a) (float64 b) = a == b && not (is_nan 64 (2047 * 2 ^ 52) a)
same_value (bool a) (bool b) = same_Bool a b
same_value (string a) (string b) = same_name a b
same_value (date a) (date b) = same_ℤ a b
same_value (timestamp a) (timestamp b) = same_ℤ a b
same_value null null = true
same_value a b = false

-- `Vec<Value>` as a key.
unfoldable pub same_key : List Value → List Value → Bool
same_key [] [] = true
same_key [] (b ∷ ys) = false
same_key (a ∷ xs) [] = false
same_key (a ∷ xs) (b ∷ ys) = same_value a b && same_key xs ys

pub same_value_sound : (a b : Value) → same_value a b ≡ true → a ≡ b
unfolding same_value
same_value_sound (string a) (string b) e = ap string ((same_name_iff a b).0 e)
same_value_sound a b e = ground arith

pub same_key_sound : (a b : List Value) → same_key a b ≡ true → a ≡ b
unfolding same_key
same_key_sound [] [] e = refl
same_key_sound [] (b ∷ ys) e = absurd cc
same_key_sound (a ∷ xs) [] e = absurd cc
same_key_sound (a ∷ xs) (b ∷ ys) e = ground (arith, same_value_sound a b, same_key_sound xs ys)
