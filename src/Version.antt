-- ===== src/Version.antt =====
-- src/constant.rs, src/message_version.rs and src/fix_version.rs: the protocol constants, the
-- versions of messages (ApplVerID) and of the session protocol.
pub mod Codes
use fix_rs.Prelude.{
  ℕ, Bool, true, false, Option, none, some, List, [], ◌∷◌, ◌==◌, leb, ◌&&◌, if◌then◌else◌, Bytes,
  codes, bytes_eq,
}

abbrev pub tag_end : ℕ
tag_end = b'='

abbrev pub value_end : ℕ
value_end = 1

abbrev pub fixt_1_1_begin_string : Bytes
fixt_1_1_begin_string = codes "FIXT.1.1"

abbrev pub fix_4_0_begin_string : Bytes
fix_4_0_begin_string = codes "FIX.4.0"

abbrev pub fix_4_1_begin_string : Bytes
fix_4_1_begin_string = codes "FIX.4.1"

abbrev pub fix_4_2_begin_string : Bytes
fix_4_2_begin_string = codes "FIX.4.2"

abbrev pub fix_4_3_begin_string : Bytes
fix_4_3_begin_string = codes "FIX.4.3"

abbrev pub fix_4_4_begin_string : Bytes
fix_4_4_begin_string = codes "FIX.4.4"

pub data MessageVersion : Type 0 where
  fix40 fix41 fix42 fix43 fix44 fix50 fix50sp1 fix50sp2 : MessageVersion

unfoldable pub new : ℕ → Option MessageVersion
new value =
    if value == 2
    then some fix40
    else if value == 3
    then some fix41
    else if value == 4
    then some fix42
    else if value == 5
    then some fix43
    else if value == 6
    then some fix44
    else if value == 7
    then some fix50
    else if value == 8
    then some fix50sp1
    else if value == 9
    then some fix50sp2
    else none

unfoldable pub from_bytes : Bytes → Option MessageVersion
unfolding bytes_eq
from_bytes bytes =
    if bytes_eq bytes (codes "2")
    then some fix40
    else if bytes_eq bytes (codes "3")
    then some fix41
    else if bytes_eq bytes (codes "4")
    then some fix42
    else if bytes_eq bytes (codes "5")
    then some fix43
    else if bytes_eq bytes (codes "6")
    then some fix44
    else if bytes_eq bytes (codes "7")
    then some fix50
    else if bytes_eq bytes (codes "8")
    then some fix50sp1
    else if bytes_eq bytes (codes "9")
    then some fix50sp2
    else none

unfoldable pub as_value : MessageVersion → ℕ
as_value fix40 = 2
as_value fix41 = 3
as_value fix42 = 4
as_value fix43 = 5
as_value fix44 = 6
as_value fix50 = 7
as_value fix50sp1 = 8
as_value fix50sp2 = 9

unfoldable pub as_bytes : MessageVersion → Bytes
as_bytes fix40 = codes "2"
as_bytes fix41 = codes "3"
as_bytes fix42 = codes "4"
as_bytes fix43 = codes "5"
as_bytes fix44 = codes "6"
as_bytes fix50 = codes "7"
as_bytes fix50sp1 = codes "8"
as_bytes fix50sp2 = codes "9"

abbrev pub all : List MessageVersion
all = fix40 ∷ fix41 ∷ fix42 ∷ fix43 ∷ fix44 ∷ fix50 ∷ fix50sp1 ∷ fix50sp2 ∷ []

pub data FixVersion : Type 0 where
  fixt_1_1 fix_4_0 fix_4_1 fix_4_2 fix_4_3 fix_4_4 : FixVersion

unfoldable pub begin_string : FixVersion → Bytes
begin_string fixt_1_1 = fixt_1_1_begin_string
begin_string fix_4_0 = fix_4_0_begin_string
begin_string fix_4_1 = fix_4_1_begin_string
begin_string fix_4_2 = fix_4_2_begin_string
begin_string fix_4_3 = fix_4_3_begin_string
begin_string fix_4_4 = fix_4_4_begin_string

unfoldable pub max_message_version : FixVersion → MessageVersion
max_message_version fix_4_0 = fix40
max_message_version fix_4_1 = fix41
max_message_version fix_4_2 = fix42
max_message_version fix_4_3 = fix43
max_message_version fix_4_4 = fix44
max_message_version fixt_1_1 = fix50sp2

abbrev pub max_version : FixVersion
max_version = fixt_1_1

abbrev pub all_fix_versions : List FixVersion
all_fix_versions = fix_4_0 ∷ fix_4_1 ∷ fix_4_2 ∷ fix_4_3 ∷ fix_4_4 ∷ fixt_1_1 ∷ []

-- The derived `PartialEq`.
unfoldable pub fix_version_eq : FixVersion → FixVersion → Bool
fix_version_eq fixt_1_1 fixt_1_1 = true
fix_version_eq fix_4_0 fix_4_0 = true
fix_version_eq fix_4_1 fix_4_1 = true
fix_version_eq fix_4_2 fix_4_2 = true
fix_version_eq fix_4_3 fix_4_3 = true
fix_version_eq fix_4_4 fix_4_4 = true
fix_version_eq _ _ = false

-- `match_message_version!`: the version is in the range, ends included.
unfoldable pub match_message_version : MessageVersion → MessageVersion → MessageVersion → Bool
unfolding as_value
match_message_version version minimum maximum =
    leb (as_value minimum) (as_value version) && leb (as_value version) (as_value maximum)
