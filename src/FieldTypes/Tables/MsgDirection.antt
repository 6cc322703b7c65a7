-- ===== src/FieldTypes/Tables/MsgDirection.antt =====
-- src/dictionary/field_types/other.rs: `MsgDirection` and its field type.
use fix_rs.Prelude.{List, [], ◌∷◌, Bytes, codes}
use fix_rs.FieldTypes.{FieldType}
use fix_rs.FieldTypes.Enum.{must_be_char, required}

pub data MsgDirection : Type 0 where
  receive send : MsgDirection

unfoldable pub to_bytes : MsgDirection → Bytes
to_bytes receive = codes "R"
to_bytes send = codes "S"

abbrev pub all : List MsgDirection
all = receive ∷ send ∷ []

unfoldable pub field_type : FieldType MsgDirection
unfolding to_bytes required
field_type = required to_bytes receive all must_be_char
