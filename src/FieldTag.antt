-- ===== src/FieldTag.antt =====
-- src/field_tag.rs: a tag is a u64, printed in decimal and read back from bytes without checks.
pub mod RoundTrip
use fix_rs.Prelude.{ℕ, ◌+◌, ◌-◌, ◌*◌, ◌%◌, ◌^◌, Bool, [], ◌∷◌, ◌==◌, Bytes}
use fix_rs.Decimal.{to_string}

abbrev pub FieldTag : Type 0
FieldTag = ℕ

abbrev pub empty : FieldTag
empty = 0

abbrev pub is_empty : FieldTag → Bool
is_empty tag = tag == 0

unfoldable pub to_bytes : FieldTag → Bytes
to_bytes tag = to_string tag

-- `byte.overflowing_sub(48).0`
abbrev pub digit_value : ℕ → ℕ
digit_value byte = (byte + 256 - 48) % 256

-- `tag *= 10; tag += …` on u64, which wraps in a release build.
pub from_loop : ℕ → Bytes → FieldTag
from_loop tag [] = tag
from_loop tag (byte ∷ bytes) = from_loop ((tag * 10 % 2 ^ 64 + digit_value byte) % 2 ^ 64) bytes

unfoldable pub from_bytes : Bytes → FieldTag
unfolding from_loop
from_bytes bytes = from_loop 0 bytes
