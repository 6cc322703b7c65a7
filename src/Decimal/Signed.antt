-- ===== src/Decimal/Signed.antt =====
-- Rust's `to_string` and `from_str` on signed integers, which the field types call, and zero padding.
use fix_rs.Prelude.{
  ℕ, zero, suc, ◌-◌, ◌^◌, ◌≤◌, ◌≡◌, refl, ◌≢◌, ap, ◌∙◌, Bool, true, false, Option, none, some, [],
  ◌∷◌, ◌==◌, if◌then◌else◌, Bytes, All, arith,
}
use mathlib.Core.Option
use mathlib.Core.Path.{subst}
use fix_rs.Prelude.Int.{ℤ, pos, negsuc, neg, pos_part, neg_part}
use fix_rs.Decimal.{to_string, from_digits}
use fix_rs.Decimal.RoundTrip.{
  IsDigit, to_string-All, to_string-ne-nil, from_digits-to_string, from_digits-le,
}

abbrev pub max_i64 : ℕ
max_i64 = 2 ^ 63 - 1

abbrev pub max_i32 : ℕ
max_i32 = 2 ^ 31 - 1

abbrev pub max_i16 : ℕ
max_i16 = 2 ^ 15 - 1

unfoldable pub signed_to_string : ℤ → Bytes
unfolding to_string
signed_to_string (pos n) = to_string n
signed_to_string (negsuc n) = b'-' ∷ to_string (suc n)

-- `T::from_str` at a signed type with the maximum `bound`, whose minimum is one further from 0. A `+` or
-- a `-` alone is no number.
unfoldable pub signed_from_str : ℕ → Bytes → Option ℤ
unfolding from_digits
signed_from_str bound [] = none
signed_from_str bound (c ∷ []) = Option.map pos (from_digits bound (c ∷ []) 0)
signed_from_str bound (c ∷ d ∷ s) =
    if c == b'+'
    then Option.map pos (from_digits bound (d ∷ s) 0)
    else if c == b'-'
    then Option.map neg (from_digits (suc bound) (d ∷ s) 0)
    else Option.map pos (from_digits bound (c ∷ d ∷ s) 0)

-- The range of the type with the maximum `bound`.
abbrev pub InRange : ℕ → ℤ → Type 0
InRange bound v = (pos_part v ≤ bound) × (neg_part v ≤ suc bound)

signed_from_str-digits :
    (bound : ℕ) (s : Bytes)
    → s ≢ []
    → All IsDigit s
    → signed_from_str bound s ≡ Option.map pos (from_digits bound s 0)
unfolding signed_from_str
signed_from_str-digits bound [] h a = absurd (h refl)
signed_from_str-digits bound (c ∷ []) h a = refl
signed_from_str-digits bound (c ∷ d ∷ s) h a = ground arith

signed_from_str-minus :
    (bound : ℕ) (s : Bytes)
    → s ≢ []
    → signed_from_str bound (b'-' ∷ s) ≡ Option.map neg (from_digits (suc bound) s 0)
unfolding signed_from_str
signed_from_str-minus bound [] h = absurd (h refl)
signed_from_str-minus bound (d ∷ s) h = refl

-- Every integer in the range of the type is read back from its print.
pub signed_from_str-to_string :
    (bound : ℕ) (v : ℤ) → InRange bound v → signed_from_str bound (signed_to_string v) ≡ some v
unfolding signed_to_string
signed_from_str-to_string bound (pos n) h =
    signed_from_str-digits bound (to_string n) (to_string-ne-nil n) (to_string-All n)
    ∙ ap (Option.map pos) (from_digits-to_string bound n h.0)
signed_from_str-to_string bound (negsuc n) h =
    signed_from_str-minus bound (to_string (suc n)) (to_string-ne-nil (suc n))
    ∙ ap (Option.map neg) (from_digits-to_string (suc bound) (suc n) h.1)

neg-InRange : (bound n : ℕ) → n ≤ suc bound → InRange bound (neg n)
neg-InRange bound zero h = omega arith
neg-InRange bound (suc n) h = omega arith

map-InRange :
    (bound limit : ℕ) (f : ℕ → ℤ) (o : Option ℕ) (v : ℤ)
    → ((n : ℕ) → n ≤ limit → InRange bound (f n))
    → ((n : ℕ) → o ≡ some n → n ≤ limit)
    → Option.map f o ≡ some v
    → InRange bound v
map-InRange bound limit f none v h k e = cc
map-InRange bound limit f (some n) v h k e =
    subst (InRange bound) (Option.some_inj.0 e) (h n (k n refl))

digits_InRange :
    (bound : ℕ) (s : Bytes) (v : ℤ)
    → Option.map pos (from_digits bound s 0) ≡ some v
    → InRange bound v
digits_InRange bound s v e =
    map-InRange bound bound pos (from_digits bound s 0) v (λ n h. (h, omega arith))
      (λ n h. from_digits-le bound s 0 n (omega arith) h) e

minus_InRange :
    (bound : ℕ) (s : Bytes) (v : ℤ)
    → Option.map neg (from_digits (suc bound) s 0) ≡ some v
    → InRange bound v
minus_InRange bound s v e =
    map-InRange bound (suc bound) neg (from_digits (suc bound) s 0) v (neg-InRange bound)
      (λ n h. from_digits-le (suc bound) s 0 n (omega arith) h) e

-- What is read lies in the range of the type.
pub signed_from_str-InRange :
    (bound : ℕ) (s : Bytes) (v : ℤ) → signed_from_str bound s ≡ some v → InRange bound v
unfolding signed_from_str
signed_from_str-InRange bound [] v e = cc
signed_from_str-InRange bound (c ∷ []) v e = digits_InRange bound (c ∷ []) v e
signed_from_str-InRange bound (c ∷ d ∷ s) v e = go (c == b'+') (c == b'-') e
  where
    go :
        (p m : Bool)
        → (if p
            then Option.map pos (from_digits bound (d ∷ s) 0)
            else if m
            then Option.map neg (from_digits (suc bound) (d ∷ s) 0)
            else Option.map pos (from_digits bound (c ∷ d ∷ s) 0))
          ≡ some v
        → InRange bound v
    go true m e = digits_InRange bound (d ∷ s) v e
    go false true e = minus_InRange bound (d ∷ s) v e
    go false false e = digits_InRange bound (c ∷ d ∷ s) v e
