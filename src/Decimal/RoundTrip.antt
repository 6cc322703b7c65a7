-- ===== src/Decimal/RoundTrip.antt =====
-- A number is read back from its decimal print, and the print holds digits only.
use mathlib.Core.List.{cons-ne-nil}
use fix_rs.Prelude.{
  ℕ, zero, suc, ◌+◌, ◌-◌, ◌*◌, ◌/◌, ◌%◌, ◌≤◌, ◌<◌, ◌≡◌, refl, ◌≢◌, ◌∙◌, some, [], ◌∷◌, arith, Bytes,
  All, ltb, Bool-cases, inl, inr,
}
use fix_rs.Decimal.{to_digits, to_string, from_digits, from_str}

abbrev pub IsDigit : ℕ → Type 0
IsDigit c = (b'0' ≤ c) × (c ≤ b'9')

pub to_digits-All :
    (fuel n : ℕ) (out : Bytes) → n < fuel → All IsDigit out → All IsDigit (to_digits fuel n out)
unfolding to_digits
to_digits-All zero n out h a = a
to_digits-All (suc fuel) n out h a = elim (Bool-cases (ltb n 10)) [
  | inl e ↦ rw (e, to_digits) ((omega arith, ground arith), a)
  | inr e ↦
      rw (e, to_digits)
        (to_digits-All fuel (n / 10) _ (ground arith) ((omega arith, omega arith), a))
]

-- A decimal print is made of digits.
pub to_string-All : (n : ℕ) → All IsDigit (to_string n)
unfolding to_string
to_string-All n = to_digits-All (suc n) n [] (omega arith) tt

-- The digit of `n % 10` read behind `n / 10`.
from_digits_last :
    (bound n : ℕ) (out : Bytes)
    → n ≤ bound
    → from_digits bound ((b'0' + n % 10) ∷ out) (n / 10) ≡ from_digits bound out n
unfolding from_digits
from_digits_last bound n out h = ground arith

from_digits_one :
    (bound n : ℕ) (out : Bytes)
    → n ≤ bound
    → n < 10
    → from_digits bound ((b'0' + n) ∷ out) 0 ≡ from_digits bound out n
unfolding from_digits
from_digits_one bound n out h k = ground arith

from_digits-to_digits :
    (bound fuel n : ℕ) (out : Bytes)
    → n ≤ bound
    → n < fuel
    → from_digits bound (to_digits fuel n out) 0 ≡ from_digits bound out n
unfolding to_digits
from_digits-to_digits bound zero n out h k = elim k [ ]
from_digits-to_digits bound (suc fuel) n out h k = elim (Bool-cases (ltb n 10)) [
  | inl e ↦ rw (e, to_digits) (from_digits_one bound n out h (ground arith))
  | inr e ↦
      rw (e, to_digits)
        (from_digits-to_digits bound fuel (n / 10) _ (omega arith) (ground arith)
          ∙ from_digits_last bound n out h)
]

from_str-digits :
    (bound : ℕ) (s : Bytes) → s ≢ [] → All IsDigit s → from_str bound s ≡ from_digits bound s 0
unfolding from_str
from_str-digits bound [] h a = absurd (h refl)
from_str-digits bound (c ∷ []) h a = refl
from_str-digits bound (c ∷ d ∷ s) h a = ground arith

to_digits-ne-nil : (fuel n : ℕ) (out : Bytes) → out ≢ [] → to_digits fuel n out ≢ []
unfolding to_digits
to_digits-ne-nil zero n out h = h
to_digits-ne-nil (suc fuel) n out h =
    ground (arith, to_digits-ne-nil fuel (n / 10) ((b'0' + n % 10) ∷ out) (cons-ne-nil _ _))

pub to_string-ne-nil : (n : ℕ) → to_string n ≢ []
unfolding to_string to_digits
to_string-ne-nil n =
    ground (arith, to_digits-ne-nil n (n / 10) ((b'0' + n % 10) ∷ []) (cons-ne-nil _ _))

pub from_digits-to_string : (bound n : ℕ) → n ≤ bound → from_digits bound (to_string n) 0 ≡ some n
unfolding to_string from_digits
from_digits-to_string bound n h = from_digits-to_digits bound (suc n) n [] h (omega arith)

-- Every number in the range of the type is read back from its print.
pub from_str-to_string : (bound n : ℕ) → n ≤ bound → from_str bound (to_string n) ≡ some n
from_str-to_string bound n h =
    from_str-digits bound _ (to_string-ne-nil n) (to_string-All n) ∙ from_digits-to_string bound n h

-- What a print of digits reads as is at most `bound`.
pub from_digits-le :
    (bound : ℕ) (s : Bytes) (n v : ℕ) → n ≤ bound → from_digits bound s n ≡ some v → v ≤ bound
unfolding from_digits
from_digits-le bound [] n v h e = ground arith
from_digits-le bound (c ∷ s) n v h e =
    ground (arith, from_digits-le bound s (n * 10 + (c - b'0')) v)

pub from_str-le : (bound : ℕ) (s : Bytes) (v : ℕ) → from_str bound s ≡ some v → v ≤ bound
unfolding from_str
from_str-le bound [] v e = cc
from_str-le bound (c ∷ []) v e = from_digits-le bound (c ∷ []) 0 v (omega arith) e
from_str-le bound (c ∷ d ∷ s) v e =
    ground (arith, from_digits-le bound (d ∷ s) 0 v, from_digits-le bound (c ∷ d ∷ s) 0 v)
