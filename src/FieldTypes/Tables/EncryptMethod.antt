-- ===== src/FieldTypes/Tables/EncryptMethod.antt =====
-- src/dictionary/field_types/other.rs: `EncryptMethod` and its field type.
use fix_rs.Prelude.{List, [], ◌∷◌, Bytes, codes}
use fix_rs.FieldTypes.{FieldType}
use fix_rs.FieldTypes.Enum.{must_be_int, required}

pub data EncryptMethod : Type 0 where
  no_method pkcs des pkcs_des pgp_des pgp_des_md5 pem_des_md5 : EncryptMethod

unfoldable pub to_bytes : EncryptMethod → Bytes
to_bytes no_method = codes "0"
to_bytes pkcs = codes "1"
to_bytes des = codes "2"
to_bytes pkcs_des = codes "3"
to_bytes pgp_des = codes "4"
to_bytes pgp_des_md5 = codes "5"
to_bytes pem_des_md5 = codes "6"

abbrev pub all : List EncryptMethod
all = no_method ∷ pkcs ∷ des ∷ pkcs_des ∷ pgp_des ∷ pgp_des_md5 ∷ pem_des_md5 ∷ []

unfoldable pub field_type : FieldType EncryptMethod
unfolding to_bytes required
field_type = required to_bytes no_method all must_be_int
