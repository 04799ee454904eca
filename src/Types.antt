-- ===== src/Types.antt =====
-- src/types/value.rs: `DataType`; its values are in the child module.
pub mod Value
use ruzu.Prelude.{ℕ, ◌≡◌, Bool, true, false, Option, none, some}

pub data DataType : Type 0 where
  int64 float32 float64 bool string date timestamp : DataType

unfoldable pub is_fixed_width : DataType → Bool
is_fixed_width string = false
is_fixed_width int64 = true
is_fixed_width float32 = true
is_fixed_width float64 = true
is_fixed_width bool = true
is_fixed_width date = true
is_fixed_width timestamp = true

unfoldable pub byte_size : DataType → Option ℕ
byte_size int64 = some 8
byte_size float64 = some 8
byte_size timestamp = some 8
byte_size float32 = some 4
byte_size date = some 4
byte_size bool = some 1
byte_size string = none

unfoldable pub is_numeric : DataType → Bool
is_numeric int64 = true
is_numeric float32 = true
is_numeric float64 = true
is_numeric bool = false
is_numeric string = false
is_numeric date = false
is_numeric timestamp = false

-- `==` on data types.
abbrev pub tag : DataType → ℕ
tag int64 = 0
tag float32 = 1
tag float64 = 2
tag bool = 3
tag string = 4
tag date = 5
tag timestamp = 6

unfoldable pub is_orderable : DataType → Bool
is_orderable bool = false
is_orderable int64 = true
is_orderable float32 = true
is_orderable float64 = true
is_orderable string = true
is_orderable date = true
is_orderable timestamp = true
