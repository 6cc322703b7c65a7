-- ===== src/FieldTypes.antt =====
-- src/field_type.rs and src/dictionary/field_types: how the values of fields are read and written.
pub mod Generic
pub mod RoundTrip
pub mod Enum
pub mod Tables
pub mod SettlType
pub mod Dates
pub mod MonthYear
use fix_rs.Prelude.{ℕ, Bool, Option, none, some, Bytes, All, ◌≡◌, ◌≢◌}
use fix_rs.Parser.State.{SetValue, was_set, set_error, set_panicked, SetValueError}

-- The trait `FieldType`. `set_value` gives the value that is set, and leaves the old one otherwise; `read`
-- gives the bytes that it appends, and `none` where an assertion fails. `set_groups` and `rule` are those
-- of a message's fields.
pub record FieldType (A : Type 0) : Type 0 where
  pub default_value : A
  pub set_value : Bytes → A → SetValue A
  pub is_empty : A → Bool
  pub len : A → ℕ
  pub read : A → Option Bytes

module _ {A : Type 0} where
  -- `try!` of a checked conversion.
  unfoldable pub set_or : SetValueError → Option A → SetValue A
  set_or e none = set_error e
  set_or e (some a) = was_set a

  -- A constructor that panics on what is out of its range.
  unfoldable pub set_or_panic : Option A → SetValue A
  set_or_panic none = set_panicked
  set_or_panic (some a) = was_set a

  -- A value with `P` can be written, and is read back whatever value stood there.
  abbrev pub IsLossless : FieldType A → (A → Type 0) → Type 0
  IsLossless f P =
      (v : A)
      → P v
      → (bytes : Bytes) × (f.read v ≡ some bytes) × ((old : A) → f.set_value bytes old ≡ was_set v)
