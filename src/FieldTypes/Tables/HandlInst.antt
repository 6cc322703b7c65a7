-- ===== src/FieldTypes/Tables/HandlInst.antt =====
-- src/dictionary/field_types/other.rs: `HandlInst` and its field type.
use fix_rs.Prelude.{List, [], ◌∷◌, Bytes, codes, Option}
use fix_rs.FieldTypes.{FieldType}
use fix_rs.FieldTypes.Enum.{must_be_char, not_required}

pub data HandlInst : Type 0 where
  automated_execution_order_private_no_broker_intervention
        automated_execution_order_public_broker_intervention_ok manual_order_best_execution :
      HandlInst

unfoldable pub to_bytes : HandlInst → Bytes
to_bytes automated_execution_order_private_no_broker_intervention = codes "1"
to_bytes automated_execution_order_public_broker_intervention_ok = codes "2"
to_bytes manual_order_best_execution = codes "3"

abbrev pub all : List HandlInst
all =
    automated_execution_order_private_no_broker_intervention
    ∷ automated_execution_order_public_broker_intervention_ok ∷ manual_order_best_execution ∷ []

unfoldable pub field_type : FieldType (Option HandlInst)
unfolding to_bytes not_required
field_type =
    not_required to_bytes automated_execution_order_private_no_broker_intervention all must_be_char
