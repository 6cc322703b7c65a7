-- ===== src/FieldTypes/Tables/EventType.antt =====
-- src/dictionary/field_types/other.rs: `EventType` and its field type.
use fix_rs.Prelude.{List, [], ◌∷◌}
use fix_rs.Prelude.Int.{ℤ, pos}
use fix_rs.FieldTypes.{FieldType}
use fix_rs.FieldTypes.Enum.{Reserved, required_reserved}

pub data EventType : Type 0 where
  put call tender sinking_fund_call activation inactivation last_eligible_trade_date swap_start_date
        swap_end_date swap_roll_date swap_next_start_date swap_next_roll_date first_delivery_date
        last_delivery_date initial_inventory_due_date final_inventory_due_date first_intent_date
        last_intent_date position_removal_date other :
      EventType

unfoldable pub value_of : EventType → ℤ
value_of put = pos 1
value_of call = pos 2
value_of tender = pos 3
value_of sinking_fund_call = pos 4
value_of activation = pos 5
value_of inactivation = pos 6
value_of last_eligible_trade_date = pos 7
value_of swap_start_date = pos 8
value_of swap_end_date = pos 9
value_of swap_roll_date = pos 10
value_of swap_next_start_date = pos 11
value_of swap_next_roll_date = pos 12
value_of first_delivery_date = pos 13
value_of last_delivery_date = pos 14
value_of initial_inventory_due_date = pos 15
value_of final_inventory_due_date = pos 16
value_of first_intent_date = pos 17
value_of last_intent_date = pos 18
value_of position_removal_date = pos 19
value_of other = pos 99

abbrev pub all : List EventType
all =
    put ∷ call ∷ tender ∷ sinking_fund_call ∷ activation ∷ inactivation ∷ last_eligible_trade_date
    ∷ swap_start_date ∷ swap_end_date ∷ swap_roll_date ∷ swap_next_start_date ∷ swap_next_roll_date
    ∷ first_delivery_date ∷ last_delivery_date ∷ initial_inventory_due_date
    ∷ final_inventory_due_date ∷ first_intent_date ∷ last_intent_date ∷ position_removal_date
    ∷ other ∷ []

unfoldable pub field_type : FieldType (Reserved EventType)
unfolding value_of required_reserved
field_type = required_reserved value_of put all (pos 100)
