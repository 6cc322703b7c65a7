-- ===== src/Session/Dictionary.antt =====
-- src/dictionary/mod.rs: the message types that the dictionary names.
use fix_rs.Prelude.{Bool, true, false, List, [], ◌∷◌, if◌then◌else◌, Bytes, codes, bytes_eq}

abbrev pub administrative_msg_types : List Bytes
administrative_msg_types =
    codes "A" ∷ codes "5" ∷ codes "3" ∷ codes "2" ∷ codes "4" ∷ codes "1" ∷ codes "0" ∷ []

abbrev pub standard_msg_types : List Bytes
standard_msg_types =
    codes "0"
    ∷ codes "1"
    ∷ codes "2"
    ∷ codes "3"
    ∷ codes "4"
    ∷ codes "5"
    ∷ codes "6"
    ∷ codes "7"
    ∷ codes "8"
    ∷ codes "9"
    ∷ codes "A"
    ∷ codes "AA"
    ∷ codes "AB"
    ∷ codes "AC"
    ∷ codes "AD"
    ∷ codes "AE"
    ∷ codes "AF"
    ∷ codes "AG"
    ∷ codes "AH"
    ∷ codes "AI"
    ∷ codes "AJ"
    ∷ codes "AK"
    ∷ codes "AL"
    ∷ codes "AM"
    ∷ codes "AN"
    ∷ codes "AO"
    ∷ codes "AP"
    ∷ codes "AQ"
    ∷ codes "AR"
    ∷ codes "AS"
    ∷ codes "AT"
    ∷ codes "AU"
    ∷ codes "AV"
    ∷ codes "AW"
    ∷ codes "AX"
    ∷ codes "AY"
    ∷ codes "AZ"
    ∷ codes "B"
    ∷ codes "BA"
    ∷ codes "BB"
    ∷ codes "BC"
    ∷ codes "BD"
    ∷ codes "BE"
    ∷ codes "BF"
    ∷ codes "BG"
    ∷ codes "BH"
    ∷ codes "BI"
    ∷ codes "BJ"
    ∷ codes "BK"
    ∷ codes "BL"
    ∷ codes "BM"
    ∷ codes "BN"
    ∷ codes "BO"
    ∷ codes "BP"
    ∷ codes "BQ"
    ∷ codes "BR"
    ∷ codes "BS"
    ∷ codes "BT"
    ∷ codes "BU"
    ∷ codes "BV"
    ∷ codes "BW"
    ∷ codes "BX"
    ∷ codes "BY"
    ∷ codes "BZ"
    ∷ codes "C"
    ∷ codes "CA"
    ∷ codes "CB"
    ∷ codes "CC"
    ∷ codes "CD"
    ∷ codes "CD"
    ∷ codes "CF"
    ∷ codes "CG"
    ∷ codes "D"
    ∷ codes "E"
    ∷ codes "F"
    ∷ codes "G"
    ∷ codes "H"
    ∷ codes "J"
    ∷ codes "K"
    ∷ codes "L"
    ∷ codes "M"
    ∷ codes "N"
    ∷ codes "P"
    ∷ codes "Q"
    ∷ codes "R"
    ∷ codes "S"
    ∷ codes "T"
    ∷ codes "V"
    ∷ codes "W"
    ∷ codes "X"
    ∷ codes "Y"
    ∷ codes "Z"
    ∷ codes "a"
    ∷ codes "b"
    ∷ codes "c"
    ∷ codes "d"
    ∷ codes "e"
    ∷ codes "f"
    ∷ codes "g"
    ∷ codes "h"
    ∷ codes "i"
    ∷ codes "j"
    ∷ codes "k"
    ∷ codes "l"
    ∷ codes "m"
    ∷ codes "n"
    ∷ codes "o"
    ∷ codes "p"
    ∷ codes "q"
    ∷ codes "r"
    ∷ codes "s"
    ∷ codes "t"
    ∷ codes "u"
    ∷ codes "v"
    ∷ codes "w"
    ∷ codes "x"
    ∷ codes "y"
    ∷ codes "z"
    ∷ []

-- `HashSet::contains`.
unfoldable pub contains_type : Bytes → List Bytes → Bool
unfolding bytes_eq
contains_type t [] = false
contains_type t (x ∷ xs) = if bytes_eq x t then true else contains_type t xs
