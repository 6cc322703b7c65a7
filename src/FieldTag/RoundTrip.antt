-- ===== src/FieldTag/RoundTrip.antt =====
-- `FieldTag::from` undoes `to_bytes`, and agrees with the checked parser on every text that the
-- checked parser accepts.
use fix_rs.Prelude.{ℕ, ◌+◌, ◌-◌, ◌*◌, ◌≤◌, ◌≡◌, some, [], ◌∷◌, arith, Bytes}
use fix_rs.Decimal.{max_u64, from_digits}
use fix_rs.Decimal.RoundTrip.{from_digits-to_string}
use fix_rs.FieldTag.{FieldTag, to_bytes, from_loop, from_bytes}

from_loop-from_digits :
    (bytes : Bytes) (tag v : ℕ)
    → tag ≤ max_u64
    → from_digits max_u64 bytes tag ≡ some v
    → from_loop tag bytes ≡ v
unfolding from_loop from_digits
from_loop-from_digits [] tag v h e = ground arith
from_loop-from_digits (c ∷ s) tag v h e =
    ground (arith, from_loop-from_digits s (tag * 10 + (c - b'0')) v)

-- Where the checked parser reads a text with no sign as a u64, the unchecked loop has its value.
pub from_bytes-from_digits :
    (bytes : Bytes) (v : ℕ) → from_digits max_u64 bytes 0 ≡ some v → from_bytes bytes ≡ v
unfolding from_bytes
from_bytes-from_digits bytes v e = from_loop-from_digits bytes 0 v (omega arith) e

-- Every tag in the range of u64 is read back from its bytes.
pub from_bytes-to_bytes : (tag : FieldTag) → tag ≤ max_u64 → from_bytes (to_bytes tag) ≡ tag
unfolding to_bytes
from_bytes-to_bytes tag h = from_bytes-from_digits _ tag (from_digits-to_string max_u64 tag h)
