-- ===== src/Parser/Checksum.antt =====
-- src/fix.rs: proofs that the checksum field is compared with the sum of the bytes before it.
use fix_rs.Prelude.{
  ℕ, ◌+◌, ◌%◌, ◌<◌, not, Option, none, some, [], ◌∷◌, ◌==◌, if◌then◌else◌, Bytes, length, ◌≡◌, refl,
  ap, ◌∙◌, ◌↔◌, arith, All, Bool-cases, inl, inr,
}
use fix_rs.Decimal.{from_str, max_u8}
use fix_rs.Action.{done, failed}
use fix_rs.Parser.State.{Parser, checksum_wrong_format}
use fix_rs.Parser.BookKeeping.{subtract_bytes, calculated_checksum, check_stated, validate_checksum}

unfoldable pub sum : Bytes → ℕ
sum [] = 0
sum (b ∷ bs) = b + sum bs

abbrev pub AreBytes : Bytes → Type 0
AreBytes = All (λ b. b < 256)

-- Subtracting the bytes one by one undoes adding them.
subtract_bytes-sum :
    (before : ℕ) (bs : Bytes)
    → AreBytes bs
    → subtract_bytes ((before + sum bs) % 256) bs ≡ before % 256
unfolding subtract_bytes sum
subtract_bytes-sum before [] h = omega arith
subtract_bytes-sum before (b ∷ bs) h =
    ap (λ c. subtract_bytes c bs) (let byte : b < 256 = h.0 in omega arith)
    ∙ subtract_bytes-sum before bs h.1

module _ {B M : Type 0} where
  calculated_checksum-sum :
      (before : ℕ) (p : Parser B M)
      → AreBytes p.current_bytes
      → p.checksum ≡ (before + 159 + sum p.current_bytes) % 256
      → calculated_checksum p ≡ before % 256
  unfolding calculated_checksum
  calculated_checksum-sum before p h e =
      ap (λ c. subtract_bytes c p.current_bytes) (omega arith)
      ∙ subtract_bytes-sum before p.current_bytes h

  check_stated_iff :
      (s : ℕ) (o : Option ℕ) (p : Parser B M) → ((check_stated s o p).0 ≡ done tt) ↔ (o ≡ some s)
  unfolding check_stated
  check_stated_iff s none p = ground arith
  check_stated_iff s (some n) p = ground arith

  -- Where the checksum kept is that of bytes of sum `before`, of `10=`, of the value and of its end,
  -- the checksum field is accepted exactly if it has three bytes that state `before` modulo 256.
  pub validate_checksum_iff :
      (before : ℕ) (p : Parser B M)
      → AreBytes p.current_bytes
      → p.checksum ≡ (before + (b'1' + b'0' + b'=' + 1) + sum p.current_bytes) % 256
      → ((validate_checksum p).0 ≡ done tt)
        ↔ ((length p.current_bytes ≡ 3) × (from_str max_u8 p.current_bytes ≡ some (before % 256)))
  unfolding validate_checksum check_stated
  validate_checksum_iff before p h e =
      rw (calculated_checksum-sum before p h e) (by_length (length p.current_bytes) refl)
    where
      by_length :
          (n : ℕ)
          → length p.current_bytes ≡ n
          → ((if not (n == 3)
                then (failed checksum_wrong_format, p)
                else check_stated (before % 256) (from_str max_u8 p.current_bytes) p).0
              ≡ done tt)
            ↔ ((n ≡ 3) × (from_str max_u8 p.current_bytes ≡ some (before % 256)))
      by_length n l = elim (Bool-cases (n == 3)) [
        | inl q ↦ rw q (
          (λ d. (
            ground arith,
            (check_stated_iff (before % 256) (from_str max_u8 p.current_bytes) p).0 d,
          )),
          (λ d. (check_stated_iff (before % 256) (from_str max_u8 p.current_bytes) p).1 d.1),
        )
        | inr q ↦ rw q (ground arith)
      ]
