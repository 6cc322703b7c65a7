-- ===== src/FieldTypes/Enum/RoundTrip.antt =====
-- src/dictionary/field_types/macros.rs: proofs that variants are read back, and nothing else is read as one.
use fix_rs.Prelude.{
  ◌≡◌, refl, ap, ◌∙◌, sym, ◌↔◌, inl, inr, Bool, true, false, Option, none, some, List, [], ◌∷◌,
  Bytes, bytes_eq, bytes_eq→eq, arith, Bool-cases, if◌then◌else◌,
}
use mathlib.Core.Path.{subst}
use fix_rs.Prelude.Int.{ℤ, ◌==ℤ◌, ltb_ℤ}
use fix_rs.Decimal.Signed.{signed_to_string, max_i64, InRange, signed_from_str-to_string}
use fix_rs.Parser.State.{was_set, SetValueError}
use fix_rs.FieldTypes.{IsLossless}
use fix_rs.FieldTypes.Enum.{
  MustBe, lookup, lookup_value, set_known, read_optional, Reserved, known, reserved, required,
  not_required, new_value, to_value, set_reserved, required_reserved,
}

eq_of_test : (a b : ℤ) → (a ==ℤ b) ≡ true → a ≡ b
eq_of_test a b h = ground arith

module _ {V : Type 0} where
  -- The table finds each variant at its bytes.
  abbrev pub IsTable : (V → Bytes) → List V → Type 0
  IsTable to_bytes all = (v : V) → lookup to_bytes all (to_bytes v) ≡ some v

  abbrev pub IsValueTable : (V → ℤ) → List V → Type 0
  IsValueTable value_of all = (v : V) → lookup_value value_of all (value_of v) ≡ some v

  lookup_sound :
      (to_bytes : V → Bytes) (vs : List V) (bytes : Bytes) (v : V)
      → lookup to_bytes vs bytes ≡ some v
      → to_bytes v ≡ bytes
  unfolding lookup
  lookup_sound to_bytes [] bytes v h = cc
  lookup_sound to_bytes (w ∷ vs) bytes v h = elim (Bool-cases (bytes_eq (to_bytes w) bytes)) [
    | inl e ↦
        (let same : some w ≡ some v =
            sym (ap (λ (b : Bool). if b then some w else lookup to_bytes vs bytes) e) ∙ h in
          let eq : w ≡ v = cc in sym (ap to_bytes eq) ∙ bytes_eq→eq (to_bytes w) bytes e)
    | inr e ↦
        lookup_sound to_bytes vs bytes v
          (sym (ap (λ (b : Bool). if b then some w else lookup to_bytes vs bytes) e) ∙ h)
  ]

  set_known_iff :
      {A : Type 0} (f : V → A) (e : SetValueError) (o : Option V) (a : A)
      → (set_known f e o ≡ was_set a) ↔ ((v : V) × (o ≡ some v) × (f v ≡ a))
  unfolding set_known
  set_known_iff f e none a = ((λ h. cc), (λ (v, h, k). cc))
  set_known_iff f e (some v) a = ((λ h. (v, refl, cc)), (λ (w, h, k). cc))

module _ {V : Type 0} (to_bytes : V → Bytes) (first : V) (all : List V)
    (table : IsTable to_bytes all) where
  pub required-IsLossless :
      (must_be : MustBe) → IsLossless (required to_bytes first all must_be) (λ _. Unit {0})
  unfolding required set_known
  required-IsLossless must_be v _ = (to_bytes v, refl, λ _. rw (table v) refl)

  -- The required type of an enumeration each of whose variants is found at its bytes sets a variant exactly by its bytes.
  pub required_iff :
      (must_be : MustBe) (bytes : Bytes) (old v : V)
      → ((required to_bytes first all must_be).set_value bytes old ≡ was_set v)
        ↔ (to_bytes v ≡ bytes)
  unfolding required
  required_iff must_be bytes old v = (
    (λ h.
        (let (w, found, same) = (set_known_iff (λ v. v) _ (lookup to_bytes all bytes) v).0 h in
          lookup_sound to_bytes all bytes v (found ∙ ap some same))),
    (λ e.
        (set_known_iff (λ v. v) _ (lookup to_bytes all bytes) v).1 (v, rw (sym e) (table v), refl)),
  )

  -- There is a value.
  abbrev pub IsSome : Option V → Type 0
  IsSome none = ⊥
  IsSome (some _) = Unit

  pub not_required-IsLossless :
      (must_be : MustBe) → IsLossless (not_required to_bytes first all must_be) IsSome
  unfolding not_required set_known read_optional
  not_required-IsLossless must_be none h = absurd h
  not_required-IsLossless must_be (some v) _ = (to_bytes v, refl, λ _. rw (table v) refl)

module _ {V : Type 0} (value_of : V → ℤ) (first : V) (all : List V) (minimum : ℤ) where
  abbrev pub IsReservedAt : Reserved V → Type 0
  IsReservedAt (known v) = Unit
  IsReservedAt (reserved n) = (lookup_value value_of all n ≡ none) × (ltb_ℤ n minimum ≡ false)

  at :
      {v : Reserved V} {n : ℤ} (w : Reserved V)
      → w ≡ v
      → (to_value value_of first all minimum w ≡ n) × IsReservedAt w
      → (to_value value_of first all minimum v ≡ n) × IsReservedAt v
  at {v} {n} w e p = subst (λ x. (to_value value_of first all minimum x ≡ n) × IsReservedAt x) e p

  lookup_value_sound :
      (vs : List V) (n : ℤ) (v : V) → lookup_value value_of vs n ≡ some v → value_of v ≡ n
  unfolding lookup_value
  lookup_value_sound [] n v h = cc
  lookup_value_sound (w ∷ vs) n v h = go (value_of w ==ℤ n) refl (lookup_value_sound vs n v) h
    where
      go :
          (b : Bool)
          → (value_of w ==ℤ n) ≡ b
          → (lookup_value value_of vs n ≡ some v → value_of v ≡ n)
          → (if b then some w else lookup_value value_of vs n) ≡ some v
          → value_of v ≡ n
      go true e later h =
          (let eq : w ≡ v = cc in sym (ap value_of eq) ∙ eq_of_test (value_of w) n e)
      go false e later h = later h

  -- What is read is written as the number it was read from; a number is reserved only if no variant has it and it is
  -- not below the minimum.
  pub new_value_sound :
      (n : ℤ) (v : Reserved V)
      → new_value value_of first all minimum n ≡ some v
      → (to_value value_of first all minimum v ≡ n) × IsReservedAt v
  unfolding new_value to_value
  new_value_sound n v h = go (lookup_value value_of all n) refl (ltb_ℤ n minimum) refl h
    where
      go :
          (o : Option V)
          → lookup_value value_of all n ≡ o
          → (b : Bool) → ltb_ℤ n minimum ≡ b
          → elim o [ some w ↦ some (known w) | none ↦ if b then none else some (reserved n) ]
            ≡ some v
          → (to_value value_of first all minimum v ≡ n) × IsReservedAt v
      go none e true k h = cc
      go none e false k h = at (reserved n) (cc) (refl, (e, k))
      go (some w) e b k h = at (known w) (cc) (lookup_value_sound all n w e, tt)

module _ {V : Type 0} (value_of : V → ℤ) (first : V) (all : List V) (minimum : ℤ)
    (table : IsValueTable value_of all) where
  -- What is written can be read back: a variant, or a reserved number from the minimum on that no variant has.
  abbrev pub IsReserved : Reserved V → Type 0
  IsReserved (known v) = InRange max_i64 (value_of v)
  IsReserved (reserved n) =
      InRange max_i64 n × (lookup_value value_of all n ≡ none) × (ltb_ℤ n minimum ≡ false)

  new_value-to_value :
      (v : Reserved V)
      → IsReserved v
      → new_value value_of first all minimum (to_value value_of first all minimum v) ≡ some v
  unfolding new_value to_value
  new_value-to_value (known v) h = rw (table v, new_value) refl
  new_value-to_value (reserved n) (range, unnamed, above) = rw (unnamed, above, new_value) refl

  value-InRange :
      (v : Reserved V) → IsReserved v → InRange max_i64 (to_value value_of first all minimum v)
  unfolding to_value
  value-InRange (known v) h = h
  value-InRange (reserved n) h = h.0

  pub required_reserved-IsLossless :
      IsLossless (required_reserved value_of first all minimum) IsReserved
  unfolding required_reserved set_reserved set_known
  required_reserved-IsLossless v h = (
    signed_to_string (to_value value_of first all minimum v),
    refl,
    λ _.
        rw
          (
            signed_from_str-to_string max_i64 (to_value value_of first all minimum v)
                (value-InRange v h),
            new_value-to_value v h,
          )
          refl,
  )
