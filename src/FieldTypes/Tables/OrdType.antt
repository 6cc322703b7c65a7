-- ===== src/FieldTypes/Tables/OrdType.antt =====
-- src/dictionary/field_types/other.rs: `OrdType` and its field type.
use fix_rs.Prelude.{List, [], ◌∷◌, Bytes, codes}
use fix_rs.FieldTypes.{FieldType}
use fix_rs.FieldTypes.Enum.{must_be_char, required}

pub data OrdType : Type 0 where
  market limit stop_or_stop_loss stop_limit market_on_close with_or_without limit_or_better
        limit_with_or_without on_basis on_close limit_on_close forex_market previously_quoted
        previously_indicated forex_limit forex_swap forex_previously_quoted funari market_if_touched
        market_with_left_over_as_limit previous_fund_valuation_point next_fund_valuation_point
        pegged counter_order_selection :
      OrdType

unfoldable pub to_bytes : OrdType → Bytes
to_bytes market = codes "1"
to_bytes limit = codes "2"
to_bytes stop_or_stop_loss = codes "3"
to_bytes stop_limit = codes "4"
to_bytes market_on_close = codes "5"
to_bytes with_or_without = codes "6"
to_bytes limit_or_better = codes "7"
to_bytes limit_with_or_without = codes "8"
to_bytes on_basis = codes "9"
to_bytes on_close = codes "A"
to_bytes limit_on_close = codes "B"
to_bytes forex_market = codes "C"
to_bytes previously_quoted = codes "D"
to_bytes previously_indicated = codes "E"
to_bytes forex_limit = codes "F"
to_bytes forex_swap = codes "G"
to_bytes forex_previously_quoted = codes "H"
to_bytes funari = codes "I"
to_bytes market_if_touched = codes "J"
to_bytes market_with_left_over_as_limit = codes "K"
to_bytes previous_fund_valuation_point = codes "L"
to_bytes next_fund_valuation_point = codes "M"
to_bytes pegged = codes "P"
to_bytes counter_order_selection = codes "Q"

abbrev pub all : List OrdType
all =
    market ∷ limit ∷ stop_or_stop_loss ∷ stop_limit ∷ market_on_close ∷ with_or_without
    ∷ limit_or_better ∷ limit_with_or_without ∷ on_basis ∷ on_close ∷ limit_on_close ∷ forex_market
    ∷ previously_quoted ∷ previously_indicated ∷ forex_limit ∷ forex_swap ∷ forex_previously_quoted
    ∷ funari ∷ market_if_touched ∷ market_with_left_over_as_limit ∷ previous_fund_valuation_point
    ∷ next_fund_valuation_point ∷ pegged ∷ counter_order_selection ∷ []

unfoldable pub field_type : FieldType OrdType
unfolding to_bytes required
field_type = required to_bytes market all must_be_char
