-- ===== src/FieldTypes/Tables/PriceQuoteMethod.antt =====
-- src/dictionary/field_types/other.rs: `PriceQuoteMethod` and its field type.
use fix_rs.Prelude.{List, [], ◌∷◌, Bytes, codes, Option}
use fix_rs.FieldTypes.{FieldType}
use fix_rs.FieldTypes.Enum.{must_be_string, not_required}

pub data PriceQuoteMethod : Type 0 where
  percent_of_par standard index interest_rate_index : PriceQuoteMethod

unfoldable pub to_bytes : PriceQuoteMethod → Bytes
to_bytes percent_of_par = codes "PCTPAR"
to_bytes standard = codes "STD"
to_bytes index = codes "INDX"
to_bytes interest_rate_index = codes "INT"

abbrev pub all : List PriceQuoteMethod
all = percent_of_par ∷ standard ∷ index ∷ interest_rate_index ∷ []

unfoldable pub field_type : FieldType (Option PriceQuoteMethod)
unfolding to_bytes not_required
field_type = not_required to_bytes percent_of_par all must_be_string
