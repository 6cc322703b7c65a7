-- ===== src/FieldTypes/Tables/SecurityIdSource.antt =====
-- src/dictionary/field_types/other.rs: `SecurityIDSource` and its field type.
use fix_rs.Prelude.{List, [], ◌∷◌, Bytes, codes, Option}
use fix_rs.FieldTypes.{FieldType}
use fix_rs.FieldTypes.Enum.{WithOther, required_bytes, not_required_bytes}

pub data SecurityIdSource : Type 0 where
  cusip sedol quik isin_number ric_code iso_currency_code iso_country_code exchange_symbol
        consolidated_tape_association_symbol bloomberg_symbol wertpapier dutch valoren sicovam
        belgian common clearing_house_or_clearing_organization isda_or_fp_ml_product_specification
        option_price_reporting_authority isda_or_fp_ml_product_url letter_of_credit
        marketplace_assigned_identifier :
      SecurityIdSource

unfoldable pub to_bytes : SecurityIdSource → Bytes
to_bytes cusip = codes "1"
to_bytes sedol = codes "2"
to_bytes quik = codes "3"
to_bytes isin_number = codes "4"
to_bytes ric_code = codes "5"
to_bytes iso_currency_code = codes "6"
to_bytes iso_country_code = codes "7"
to_bytes exchange_symbol = codes "8"
to_bytes consolidated_tape_association_symbol = codes "9"
to_bytes bloomberg_symbol = codes "A"
to_bytes wertpapier = codes "B"
to_bytes dutch = codes "C"
to_bytes valoren = codes "D"
to_bytes sicovam = codes "E"
to_bytes belgian = codes "F"
to_bytes common = codes "G"
to_bytes clearing_house_or_clearing_organization = codes "H"
to_bytes isda_or_fp_ml_product_specification = codes "I"
to_bytes option_price_reporting_authority = codes "J"
to_bytes isda_or_fp_ml_product_url = codes "K"
to_bytes letter_of_credit = codes "L"
to_bytes marketplace_assigned_identifier = codes "M"

abbrev pub all : List SecurityIdSource
all =
    cusip ∷ sedol ∷ quik ∷ isin_number ∷ ric_code ∷ iso_currency_code ∷ iso_country_code
    ∷ exchange_symbol ∷ consolidated_tape_association_symbol ∷ bloomberg_symbol ∷ wertpapier ∷ dutch
    ∷ valoren ∷ sicovam ∷ belgian ∷ common ∷ clearing_house_or_clearing_organization
    ∷ isda_or_fp_ml_product_specification ∷ option_price_reporting_authority
    ∷ isda_or_fp_ml_product_url ∷ letter_of_credit ∷ marketplace_assigned_identifier ∷ []

unfoldable pub required_type : FieldType (WithOther SecurityIdSource)
unfolding to_bytes required_bytes
required_type = required_bytes to_bytes cusip all

unfoldable pub not_required_type : FieldType (Option (WithOther SecurityIdSource))
unfolding to_bytes not_required_bytes
not_required_type = not_required_bytes to_bytes cusip all
