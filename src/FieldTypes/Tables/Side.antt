-- ===== src/FieldTypes/Tables/Side.antt =====
-- src/dictionary/field_types/other.rs: `Side` and its field type.
use fix_rs.Prelude.{List, [], ◌∷◌, Bytes, codes, Option}
use fix_rs.FieldTypes.{FieldType}
use fix_rs.FieldTypes.Enum.{must_be_char, required, not_required}

pub data Side : Type 0 where
  buy sell buy_minus sell_plus sell_short sell_short_exempt undisclosed cross cross_short
        cross_short_exempt as_defined opposite subscribe redeem lend borrow :
      Side

unfoldable pub to_bytes : Side → Bytes
to_bytes buy = codes "1"
to_bytes sell = codes "2"
to_bytes buy_minus = codes "3"
to_bytes sell_plus = codes "4"
to_bytes sell_short = codes "5"
to_bytes sell_short_exempt = codes "6"
to_bytes undisclosed = codes "7"
to_bytes cross = codes "8"
to_bytes cross_short = codes "9"
to_bytes cross_short_exempt = codes "A"
to_bytes as_defined = codes "B"
to_bytes opposite = codes "C"
to_bytes subscribe = codes "D"
to_bytes redeem = codes "E"
to_bytes lend = codes "F"
to_bytes borrow = codes "G"

abbrev pub all : List Side
all =
    buy ∷ sell ∷ buy_minus ∷ sell_plus ∷ sell_short ∷ sell_short_exempt ∷ undisclosed ∷ cross
    ∷ cross_short ∷ cross_short_exempt ∷ as_defined ∷ opposite ∷ subscribe ∷ redeem ∷ lend ∷ borrow
    ∷ []

unfoldable pub required_type : FieldType Side
unfolding to_bytes required
required_type = required to_bytes buy all must_be_char

unfoldable pub not_required_type : FieldType (Option Side)
unfolding to_bytes not_required
not_required_type = not_required to_bytes buy all must_be_char
