-- ===== src/Decimal.antt =====
-- Rust's `to_string` and `from_str` on unsigned integers, which src/field_tag.rs, src/fix.rs,
-- src/message.rs and the field types call.
pub mod RoundTrip
pub mod Signed
pub mod Padded
use fix_rs.Prelude.{
  ℕ, zero, suc, ◌+◌, ◌-◌, ◌*◌, ◌/◌, ◌%◌, ◌^◌, Bool, true, false, ◌||◌, Option, none, some, [], ◌∷◌,
  ltb, ◌==◌, if◌then◌else◌, Bytes,
}

abbrev pub max_u8 : ℕ
max_u8 = 255

abbrev pub max_u64 : ℕ
max_u64 = 2 ^ 64 - 1

-- The digits of `n` before `out`; the fuel is more than there are digits.
pub to_digits : ℕ → ℕ → Bytes → Bytes
to_digits zero n out = out
to_digits (suc fuel) n out = elim (ltb n 10) [
  | true ↦ (b'0' + n) ∷ out
  | false ↦ to_digits fuel (n / 10) ((b'0' + n % 10) ∷ out)
]

unfoldable pub to_string : ℕ → Bytes
unfolding to_digits
to_string n = to_digits (suc n) n []

-- The digits behind the value `n`; a byte that is no digit and a value above `bound` are errors.
unfoldable pub from_digits : ℕ → Bytes → ℕ → Option ℕ
from_digits bound [] n = some n
from_digits bound (c ∷ s) n =
    if ltb c b'0' || ltb b'9' c
    then none
    else if ltb bound (n * 10 + (c - b'0'))
    then none
    else from_digits bound s (n * 10 + (c - b'0'))

-- `T::from_str` at an unsigned type with the maximum `bound`: one `+` may stand in front.
unfoldable pub from_str : ℕ → Bytes → Option ℕ
unfolding from_digits
from_str bound [] = none
from_str bound (c ∷ []) = from_digits bound (c ∷ []) 0
from_str bound (c ∷ d ∷ s) =
    if c == b'+' then from_digits bound (d ∷ s) 0 else from_digits bound (c ∷ d ∷ s) 0
