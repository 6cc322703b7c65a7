-- ===== src/FieldTypes/Enum/Unknown.antt =====
-- src/dictionary/field_types/macros.rs: proofs on the variant for other bytes.
use fix_rs.Prelude.{◌≡◌, ◌≢◌, refl, Option, none, some, List, Bytes}
use fix_rs.Parser.State.{was_set, set_error, out_of_range}
use fix_rs.FieldTypes.Enum.{
  lookup, set_known, WithOther, known, other, required_bytes, not_required_bytes, known_bytes,
}

module _ {V : Type 0} (to_bytes : V → Bytes) (first : V) (all : List V) where
  required_never :
      (o : Option V) (bytes : Bytes) → set_known known out_of_range o ≢ was_set (other bytes)
  unfolding set_known
  required_never none bytes h = cc
  required_never (some v) bytes h = cc

  optional_never :
      (o : Option V) (bytes : Bytes)
      → was_set (known_bytes to_bytes first all o) ≢ was_set (some (other bytes))
  unfolding known_bytes
  optional_never none bytes h = cc
  optional_never (some v) bytes h = cc

  -- The variant for other bytes is written as its bytes, but no bytes are read as it: those of no variant are refused by
  -- the required type, and by the optional one they are taken as no value, without an error.
  pub other_never_set :
      (bytes any : Bytes) (old : WithOther V) (old' : Option (WithOther V))
      → ((required_bytes to_bytes first all).read (other bytes) ≡ some bytes)
        × ((not_required_bytes to_bytes first all).read (some (other bytes)) ≡ some bytes)
        × ((required_bytes to_bytes first all).set_value any old ≢ was_set (other bytes))
        × ((not_required_bytes to_bytes first all).set_value any old'
            ≢ was_set (some (other bytes)))
        × (lookup to_bytes all any ≡ none
            → ((required_bytes to_bytes first all).set_value any old ≡ set_error out_of_range)
              × ((not_required_bytes to_bytes first all).set_value any old' ≡ was_set none))
  unfolding required_bytes not_required_bytes
  other_never_set bytes any old old' = (
    refl,
    refl,
    required_never (lookup to_bytes all any) bytes,
    optional_never (lookup to_bytes all any) bytes,
    λ unknown. (rw (unknown) refl, rw (unknown) refl),
  )
