-- ===== src/ByteBuffer/Queue.antt =====
-- The buffer as the queue of its valid bytes: a read fills it, a write takes from its front, and
-- the range stays inside the vector.
use fix_rs.Prelude.{
  ℕ, zero, suc, ◌+◌, ◌-◌, ◌≤◌, ◌≡◌, refl, ap, sym, true, Option, none, some, [], ◌∷◌, ◌++◌, arith,
  Bytes, length, take, drop, length-append, length-drop, nil_of_length, List, ◌∙◌, ◌↔◌, ◌⊎◌, ◌<◌,
  inl, inr, Bool-cases, leb,
}
use mathlib.Core.Option.{get_or}
use mathlib.Core.Path.{ap₂}
use fix_rs.ByteBuffer.{ByteBuffer, with_capacity, valid_bytes, clear_and_read, is_empty, len, write}

pub record IsValid (b : ByteBuffer) : Type 0 where
  pub ordered : b.valid_bytes_begin ≤ b.valid_bytes_end
  pub within : b.valid_bytes_end ≤ length b.bytes

suc_add : (m n : ℕ) → suc (m + n) ≡ suc m + n
suc_add m n = omega arith

sub_add : (a b n : ℕ) → a - (b + n) ≡ a - b - n
sub_add a b n = omega arith

zero_sub : (n : ℕ) → 0 ≡ 0 - n
zero_sub n = omega arith

module _ {ℓ} {A : Type ℓ} where
  take-length-append : (xs ys : List A) → take (length xs) (xs ++ ys) ≡ xs
  take-length-append [] ys = refl
  take-length-append (x ∷ xs) ys = rw (take-length-append xs ys)

  drop-nil : (n : ℕ) → drop {A = A} n [] ≡ []
  drop-nil zero = refl
  drop-nil (suc n) = refl

  take-nil : (n : ℕ) → take {A = A} n [] ≡ []
  take-nil zero = refl
  take-nil (suc n) = refl

  pub drop-drop : (m n : ℕ) (xs : List A) → drop n (drop m xs) ≡ drop (m + n) xs
  drop-drop m n [] = rw (drop-nil, drop-nil, drop-nil)
  drop-drop zero n (x ∷ xs) = ap (λ k. drop k (x ∷ xs)) (omega arith)
  drop-drop (suc m) n (x ∷ xs) = drop-drop m n xs ∙ ap (λ k. drop k (x ∷ xs)) (suc_add m n)

  drop-take : (m n : ℕ) (xs : List A) → drop n (take m xs) ≡ take (m - n) (drop n xs)
  drop-take m zero xs = ap (λ k. take k xs) (omega arith)
  drop-take zero (suc n) xs = ap (λ k. take k (drop (suc n) xs)) (zero_sub (suc n))
  drop-take (suc m) (suc n) [] = rw (take-nil (suc m - suc n))
  drop-take (suc m) (suc n) (x ∷ xs) = drop-take m n xs ∙ ap (λ k. take k (drop n xs)) (omega arith)

  length-take : (n : ℕ) (xs : List A) → n ≤ length xs → length (take n xs) ≡ n
  length-take zero xs h = refl
  length-take (suc n) [] h = elim h [ ]
  length-take (suc n) (x ∷ xs) h = omega (arith, length-take n xs (omega arith))

pub with_capacity-IsValid : (capacity : ℕ) → IsValid (with_capacity capacity)
unfolding with_capacity
with_capacity-IsValid capacity = omega arith

pub len-valid_bytes : (b : ByteBuffer) → IsValid b → length (valid_bytes b) ≡ len b
unfolding valid_bytes len
len-valid_bytes b v = length-take _ _ (rw (length-drop b.valid_bytes_begin b.bytes) (omega arith))

empty_len : (b : ByteBuffer) → IsValid b → is_empty b ≡ true → length (valid_bytes b) ≡ 0
unfolding is_empty len
empty_len b v h = ground (arith, len-valid_bytes b v)

len_empty : (b : ByteBuffer) → IsValid b → length (valid_bytes b) ≡ 0 → is_empty b ≡ true
unfolding is_empty len
len_empty b v h = ground (arith, len-valid_bytes b v)

valid_bytes-consume :
    (b : ByteBuffer) (n : ℕ)
    → valid_bytes (record b { valid_bytes_begin = b.valid_bytes_begin + n })
      ≡ drop n (valid_bytes b)
unfolding valid_bytes
valid_bytes-consume b n =
    ap₂ take (sub_add b.valid_bytes_end b.valid_bytes_begin n)
      (sym (drop-drop b.valid_bytes_begin n b.bytes))
    ∙ sym (drop-take (b.valid_bytes_end - b.valid_bytes_begin) n (drop b.valid_bytes_begin b.bytes))

-- The buffer counts as empty exactly when there are no valid bytes.
pub is_empty_iff : (b : ByteBuffer) → IsValid b → (is_empty b ≡ true) ↔ (valid_bytes b ≡ [])
is_empty_iff b v =
    (λ h. nil_of_length (valid_bytes b) (empty_len b v h), λ e. len_empty b v (ap length e))

-- A read that the reader completes replaces the valid bytes by the bytes read, within the
-- capacity, which does not change; a reader that fails leaves the buffer valid and empty.
pub clear_and_read_lem :
    (b b' : ByteBuffer) (input : Option Bytes)
    → clear_and_read input b ≡ some b'
    → IsValid b' × (valid_bytes b' ≡ get_or input []) × (length b'.bytes ≡ length b.bytes)
unfolding clear_and_read valid_bytes
clear_and_read_lem b b' none h = ground arith
clear_and_read_lem b b' (some input) h = ground (
  arith,
  length-append input (drop (length input) b.bytes),
  length-drop (length input) b.bytes,
  take-length-append input (drop (length input) b.bytes),
)

-- A write takes the bytes written from the front of the queue and keeps the rest, in order; it
-- is refused (the assertion) exactly when more bytes are reported than there are.
pub write_lem :
    (b : ByteBuffer) (n : ℕ)
    → IsValid b
    → ((b' : ByteBuffer) × (write (some n) b ≡ some b')
        × IsValid b'
        × (valid_bytes b' ≡ drop n (valid_bytes b)))
      ⊎ ((write (some n) b ≡ none) × (len b < n))
unfolding write len
write_lem b n v = elim (Bool-cases (leb (b.valid_bytes_begin + n) b.valid_bytes_end)) [
  | inl e ↦ inl (
    record b { valid_bytes_begin = b.valid_bytes_begin + n },
    rw e,
    ground arith,
    valid_bytes-consume b n,
  )
  | inr e ↦ inr (rw e, ground arith)
]
