-- ===== src/Version/Codes.antt =====
-- The codes of versions name them: each is read back, and nothing else is read.
use fix_rs.Prelude.{◌≡◌, refl, true, some, Bytes, arith, ◌↔◌, [], ◌∷◌}
use fix_rs.Version.{
  MessageVersion, fix40, new, from_bytes, as_value, as_bytes, FixVersion, fix_version_eq, fixt_1_1,
}

from_bytes-as_bytes : (v : MessageVersion) → from_bytes (as_bytes v) ≡ some v
unfolding from_bytes as_bytes
from_bytes-as_bytes fix40 = refl
from_bytes-as_bytes _ = refl

as_bytes-from_bytes :
    (bytes : Bytes) (v : MessageVersion) → from_bytes bytes ≡ some v → as_bytes v ≡ bytes
unfolding from_bytes as_bytes
as_bytes-from_bytes (b ∷ []) v h = ground arith
as_bytes-from_bytes [] v h = cc
as_bytes-from_bytes (b ∷ c ∷ rest) v h = ground arith

-- The bytes of a version are read as that version, and no other bytes are: the two directions
-- between the code and the version, for the ApplVerID text and the number alike.
pub from_bytes_iff :
    (bytes : Bytes) (v : MessageVersion) → (from_bytes bytes ≡ some v) ↔ (as_bytes v ≡ bytes)
from_bytes_iff bytes v = (as_bytes-from_bytes bytes v, λ e. rw (← e) (from_bytes-as_bytes v))

pub new-as_value : (v : MessageVersion) → new (as_value v) ≡ some v
unfolding new as_value
new-as_value fix40 = refl
new-as_value _ = refl

-- The comparison of versions is equality.
pub fix_version_eq_iff : (a b : FixVersion) → (fix_version_eq a b ≡ true) ↔ (a ≡ b)
unfolding fix_version_eq
fix_version_eq_iff fixt_1_1 b = ground arith
fix_version_eq_iff _ b = ground arith
