-- ===== src/Parser/Defaults.antt =====
-- src/fix.rs: the versions that messages have by default.
use fix_rs.Prelude.{Option, none, some, [], ◌∷◌, Bytes}
use fix_rs.Version.{MessageVersion}
use fix_rs.Parser.State.{Parser, get_bytes}

module _ {B M : Type 0} where
  unfoldable pub set_default_message_version : MessageVersion → Parser B M → Parser B M
  set_default_message_version version p = record p { default_message_version = version }

  unfoldable pub clear_default_message_type_versions : Parser B M → Parser B M
  clear_default_message_type_versions p = record p { default_message_type_version = [] }

  -- An entry that is there stays as it is.
  unfoldable pub insert_vacant :
      Option MessageVersion → Bytes → MessageVersion → Parser B M → Parser B M
  insert_vacant (some _) tag version p = p
  insert_vacant none tag version p = record p {
    default_message_type_version = (tag, version) ∷ p.default_message_type_version;
  }

  -- Only a message type of the dictionary gets a default.
  unfoldable pub set_default_message_type_version : Bytes → MessageVersion → Parser B M → Parser B M
  unfolding insert_vacant get_bytes
  set_default_message_type_version tag version p = elim (get_bytes tag p.message_dictionary) [
    | none ↦ p
    | some _ ↦ insert_vacant (get_bytes tag p.default_message_type_version) tag version p
  ]
