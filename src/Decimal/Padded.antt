-- ===== src/Decimal/Padded.antt =====
-- Numbers printed with zeros in front, as `{:02}` and its like do, which the types of dates call.
use mathlib.Core.List.{append_assoc}
use fix_rs.Prelude.{
  ℕ, zero, suc, ◌+◌, ◌-◌, ◌/◌, ◌%◌, ◌≤◌, ◌<◌, ◌≡◌, refl, ap, ◌∙◌, sym, true, false, some, [], ◌∷◌,
  ◌++◌, Bytes, length, replicate, ltb, arith, Bool-cases, inl, inr,
}
use fix_rs.Decimal.{to_digits, to_string, from_digits, from_str}

unfoldable pub pad : ℕ → ℕ → Bytes
unfolding to_string
pad width n = replicate (width - length (to_string n)) b'0' ++ to_string n

-- Digits go in front of what is there.
to_digits-append :
    (fuel n : ℕ) (out : Bytes) → n < fuel → to_digits fuel n out ≡ to_digits fuel n [] ++ out
unfolding to_digits
to_digits-append zero n out h = absurd (omega arith)
to_digits-append (suc fuel) n out h = elim (Bool-cases (ltb n 10)) [
  | inl e ↦ rw (e, to_digits) refl
  | inr e ↦
      let less : n / 10 < fuel = ground arith in
      rw (e, to_digits)
        (to_digits-append fuel (n / 10) ((b'0' + n % 10) ∷ out) less
          ∙ sym (
              ap (λ (l : Bytes). l ++ out)
                (to_digits-append fuel (n / 10) ((b'0' + n % 10) ∷ []) less)
              ∙ append_assoc (to_digits fuel (n / 10) []) ((b'0' + n % 10) ∷ []) out))
]

-- More fuel changes nothing.
to_digits-fuel :
    (fuel fuel' n : ℕ) (out : Bytes)
    → n < fuel
    → n < fuel'
    → to_digits fuel n out ≡ to_digits fuel' n out
unfolding to_digits
to_digits-fuel zero fuel' n out h k = absurd (omega arith)
to_digits-fuel (suc fuel) zero n out h k = absurd (omega arith)
to_digits-fuel (suc fuel) (suc fuel') n out h k = elim (Bool-cases (ltb n 10)) [
  | inl e ↦ rw (e, to_digits) refl
  | inr e ↦
      rw (e, to_digits)
        (to_digits-fuel fuel fuel' (n / 10) ((b'0' + n % 10) ∷ out) (ground arith) (ground arith))
]

pub to_string-small : (n : ℕ) → n < 10 → to_string n ≡ (b'0' + n) ∷ []
unfolding to_string to_digits
to_string-small n h = let e : ltb n 10 ≡ true = ground arith in rw (e, to_digits) refl

pub to_string-big : (n : ℕ) → 10 ≤ n → to_string n ≡ to_string (n / 10) ++ (b'0' + n % 10) ∷ []
unfolding to_string to_digits
to_string-big n h =
    let e : ltb n 10 ≡ false = ground arith in
    rw (e, to_digits)
      (to_digits-fuel n (suc (n / 10)) (n / 10) ((b'0' + n % 10) ∷ []) (omega arith) (omega arith)
        ∙ to_digits-append (suc (n / 10)) (n / 10) ((b'0' + n % 10) ∷ []) (omega arith))

pub pad_two : (n : ℕ) → n < 100 → pad 2 n ≡ (b'0' + n / 10) ∷ (b'0' + n % 10) ∷ []
unfolding pad
pad_two n h = elim (Bool-cases (ltb n 10)) [
  | inl e ↦ rw (to_string-small n (ground arith)) (ground arith)
  | inr e ↦ rw (to_string-big n (ground arith), to_string-small (n / 10) (omega arith)) refl
]

pub pad_three :
    (n : ℕ)
    → n < 1000
    → pad 3 n ≡ (b'0' + n / 10 / 10) ∷ (b'0' + n / 10 % 10) ∷ (b'0' + n % 10) ∷ []
unfolding pad
pad_three n h = elim (Bool-cases (ltb n 100)) [
  | inl e ↦ elim (Bool-cases (ltb n 10)) [
    | inl f ↦ rw (to_string-small n (ground arith)) (ground arith)
    | inr f ↦
        rw (to_string-big n (ground arith), to_string-small (n / 10) (ground arith)) (ground arith)
  ]
  | inr e ↦
      rw
        (
          to_string-big n (ground arith),
          to_string-big (n / 10) (ground arith),
          to_string-small (n / 10 / 10) (omega arith),
        )
        refl
]

pub pad_four :
    (n : ℕ)
    → n < 10000
    → pad 4 n
      ≡ (b'0' + n / 10 / 10 / 10)
        ∷ (b'0' + n / 10 / 10 % 10)
        ∷ (b'0' + n / 10 % 10)
        ∷ (b'0' + n % 10)
        ∷ []
unfolding pad
pad_four n h = elim (Bool-cases (ltb n 1000)) [
  | inl e ↦ elim (Bool-cases (ltb n 100)) [
    | inl f ↦ elim (Bool-cases (ltb n 10)) [
      | inl g ↦ rw (to_string-small n (ground arith)) (ground arith)
      | inr g ↦
          rw (to_string-big n (ground arith), to_string-small (n / 10) (ground arith))
            (ground arith)
    ]
    | inr f ↦
        rw
          (
            to_string-big n (ground arith),
            to_string-big (n / 10) (ground arith),
            to_string-small (n / 10 / 10) (ground arith),
          )
          (ground arith)
  ]
  | inr e ↦
      rw
        (
          to_string-big n (ground arith),
          to_string-big (n / 10) (ground arith),
          to_string-big (n / 10 / 10) (ground arith),
          to_string-small (n / 10 / 10 / 10) (omega arith),
        )
        refl
]

-- Digits are read back, within the bound.
pub from_str-two :
    (bound n : ℕ)
    → n < 100
    → 99 ≤ bound
    → from_str bound ((b'0' + n / 10) ∷ (b'0' + n % 10) ∷ []) ≡ some n
unfolding from_str from_digits
from_str-two bound n h k = ground arith

pub from_str-three :
    (bound n : ℕ)
    → n < 1000
    → 999 ≤ bound
    → from_str bound ((b'0' + n / 10 / 10) ∷ (b'0' + n / 10 % 10) ∷ (b'0' + n % 10) ∷ []) ≡ some n
unfolding from_str from_digits
from_str-three bound n h k = ground arith

pub from_digits-four :
    (bound n : ℕ)
    → n < 10000
    → 9999 ≤ bound
    → from_digits bound
        ((b'0' + n / 10 / 10 / 10)
          ∷ (b'0' + n / 10 / 10 % 10)
          ∷ (b'0' + n / 10 % 10)
          ∷ (b'0' + n % 10)
          ∷ [])
        0
      ≡ some n
unfolding from_digits
from_digits-four bound n h k = ground arith
