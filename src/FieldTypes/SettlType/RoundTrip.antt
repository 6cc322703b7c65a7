-- ===== src/FieldTypes/SettlType/RoundTrip.antt =====
-- src/dictionary/field_types/other.rs: a proof that each `SettlType` is read back.
use fix_rs.Prelude.{ℕ, ◌≤◌, ◌≡◌, ◌≢◌, refl, ap, ◌∙◌, Option, none, some, [], ◌∷◌, Bytes, arith}
use fix_rs.Decimal.{to_string, from_str, max_u64}
use fix_rs.Decimal.RoundTrip.{to_string-ne-nil, from_str-to_string}
use fix_rs.FieldTypes.{IsLossless}
use fix_rs.FieldTypes.Enum.{set_known}
use fix_rs.FieldTypes.SettlType.{
  SettlType, regular_or_fx_spot_settlement, days, months, weeks, years, new, new_of_number,
  new_tenor, read, field_type,
}

-- The number of a tenor is positive and fits into 64 bits; there is a value.
abbrev pub IsTenor : SettlType → Type 0
IsTenor (days n) = (1 ≤ n) × (n ≤ max_u64)
IsTenor (months n) = (1 ≤ n) × (n ≤ max_u64)
IsTenor (weeks n) = (1 ≤ n) × (n ≤ max_u64)
IsTenor (years n) = (1 ≤ n) × (n ≤ max_u64)
IsTenor _ = Unit

abbrev pub IsPresent : Option SettlType → Type 0
IsPresent none = ⊥
IsPresent (some v) = IsTenor v

new-number : (b : ℕ) (s : Bytes) → s ≢ [] → new (b ∷ s) ≡ new_of_number b (from_str max_u64 s)
unfolding new
new-number b [] h = absurd (h refl)
new-number b (c ∷ s) h = refl

tenor : (b n : ℕ) → 1 ≤ n → n ≤ max_u64 → new (b ∷ to_string n) ≡ new_tenor b n
unfolding new_of_number
tenor b n h k =
    new-number b (to_string n) (to_string-ne-nil n)
    ∙ ap (new_of_number b) (from_str-to_string max_u64 n k)
    ∙ (ground arith)

new-read : (v : SettlType) → IsTenor v → new (read v) ≡ some v
unfolding new read
new-read (days n) h = tenor b'D' n h.0 h.1
new-read (months n) h = tenor b'M' n h.0 h.1
new-read (weeks n) h = tenor b'W' n h.0 h.1
new-read (years n) h = tenor b'Y' n h.0 h.1
new-read regular_or_fx_spot_settlement h = refl
new-read _ h = refl

-- Each settlement is read back from what is written of it, tenors with a number from 1 to the maximum of u64.
pub field_type-IsLossless : IsLossless field_type IsPresent
unfolding field_type
field_type-IsLossless none h = absurd h
field_type-IsLossless (some v) h = (read v, refl, λ _. ap (set_known some _) (new-read v h))
