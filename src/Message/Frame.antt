-- ===== src/Message/Frame.antt =====
-- src/message.rs: proofs that `read` writes one whole message, as the protocol frames it.
use mathlib.Core.List.{append_assoc}
use fix_rs.Prelude.{
  ℕ, zero, suc, ◌+◌, ◌-◌, ◌/◌, ◌%◌, ◌≤◌, ◌<◌, ◌≡◌, refl, ap, ◌∙◌, sym, ◌⊎◌, inl, inr, false, none,
  some, List, [], ◌∷◌, ◌++◌, ltb, Bytes, codes, length, take, drop, replicate, length-append,
  length-replicate, arith, Bool-cases,
}
use fix_rs.ByteBuffer.{ByteBuffer, valid_bytes}
use fix_rs.ByteBuffer.Queue.{IsValid}
use fix_rs.Decimal.{to_string}
use fix_rs.Decimal.Padded.{pad, to_string-small, to_string-big}
use fix_rs.Version.{FixVersion, begin_string}
use fix_rs.Parser.Checksum.{sum}
use fix_rs.Message.Reading.{
  header_padding_len, copy_slice, copy_slices, header_slices, header_len, checksum_from,
  checksum_field, read_into,
}

unfoldable pub concat : List Bytes → Bytes
concat [] = []
concat (x ∷ xs) = x ++ concat xs

-- `8=…`, `9=…` with the number of bytes from `35=` on, the type and the body.
abbrev pub head : FixVersion → Bytes → Bytes → Bytes
head fix_version message_type body =
    concat (header_slices fix_version (length message_type + length body) message_type) ++ body

-- The same with `10=`, the sum of the bytes before it modulo 256 in three digits, and an end.
abbrev pub frame : FixVersion → Bytes → Bytes → Bytes
frame fix_version message_type body =
    let bytes = head fix_version message_type body in
    bytes ++ (codes "10=" ++ (pad 3 (sum bytes % 256) ++ (1 ∷ [])))

module _ {ℓ} {A : Type ℓ} where
  take_front : (xs ys : List A) → take (length xs) (xs ++ ys) ≡ xs
  take_front [] ys = refl
  take_front (x ∷ xs) ys = ap (λ (l : List A). x ∷ l) (take_front xs ys)

  drop_front : (n : ℕ) (xs ys : List A) → drop (length xs + n) (xs ++ ys) ≡ drop n ys
  drop_front n [] ys = ap (λ (k : ℕ). drop k ys) (omega arith)
  drop_front n (x ∷ xs) ys =
      ap (λ (k : ℕ). drop k (x ∷ (xs ++ ys))) (more (length xs) n) ∙ drop_front n xs ys
    where
      more : (a b : ℕ) → suc a + b ≡ suc (a + b)
      more a b = omega arith

  take_all : (xs : List A) → take (length xs) xs ≡ xs
  take_all [] = refl
  take_all (x ∷ xs) = ap (λ (l : List A). x ∷ l) (take_all xs)

  drop_first : (xs ys : List A) → drop (length xs) (xs ++ ys) ≡ ys
  drop_first [] ys = refl
  drop_first (x ∷ xs) ys = drop_first xs ys

-- A slice is written over as many bytes behind the first ones.
copy_slice_lem :
    (src front old rest : Bytes)
    → length old ≡ length src
    → copy_slice src (length front) (front ++ (old ++ rest)) ≡ front ++ (src ++ rest)
unfolding copy_slice
copy_slice_lem src front old rest h =
    rw
      (
        take_front front (old ++ rest),
        drop_front (length src) front (old ++ rest),
        sym h,
        drop_first old rest,
      )
      refl

-- Splits the bytes to be written over.
split_at :
    (n : ℕ) (xs : Bytes)
    → n ≤ length xs
    → (front rest : Bytes) × (xs ≡ front ++ rest) × (length front ≡ n)
split_at zero xs h = ([], xs, refl, refl)
split_at (suc n) [] h = absurd (omega arith)
split_at (suc n) (x ∷ xs) h =
    (let (front, rest, e, l) = split_at n xs (omega arith) in
      (x ∷ front, rest, ap (λ (k : Bytes). x ∷ k) e, omega arith))

regroup : (a b c d : Bytes) → a ++ ((b ++ c) ++ d) ≡ (a ++ b) ++ (c ++ d)
regroup a b c d = simp (append_assoc)

copy_slices_lem :
    (srcs : List Bytes) (front old rest : Bytes)
    → length old ≡ length (concat srcs)
    → copy_slices srcs (length front) (front ++ (old ++ rest)) ≡ front ++ (concat srcs ++ rest)
unfolding copy_slices concat
copy_slices_lem [] front [] rest h = refl
copy_slices_lem [] front (x ∷ old) rest h = absurd (omega arith)
copy_slices_lem (src ∷ srcs) front old rest h =
    let total = length-append src (concat srcs) in
    let (o, o', e, l) = split_at (length src) old (omega arith) in
    rw (e) (
      ap (λ (b : Bytes). copy_slices srcs (length front + length src) b)
        (ap (λ (x : Bytes). copy_slice src (length front) (front ++ x)) (append_assoc o o' rest)
          ∙ copy_slice_lem src front o (o' ++ rest) l
          ∙ sym (append_assoc front src (o' ++ rest)))
      ∙ ap (λ (n : ℕ). copy_slices srcs n ((front ++ src) ++ (o' ++ rest)))
          (sym (length-append front src))
      ∙ copy_slices_lem srcs (front ++ src) o' rest (omega (arith, length-append o o', ap length e))
      ∙ sym (regroup front src (concat srcs) rest))

length-header :
    (fix_version : FixVersion) (n : ℕ) (message_type : Bytes)
    → length (concat (header_slices fix_version n message_type))
      ≡ header_len fix_version n message_type
unfolding concat header_slices header_len
length-header fix_version n message_type = omega (
  arith,
  length-append (begin_string fix_version)
      ((1 ∷ codes "9=") ++ (to_string n ++ ((1 ∷ []) ++ (message_type ++ [])))),
  length-append (to_string n) ((1 ∷ []) ++ (message_type ++ [])),
  length-append message_type [],
)

checksum_from-sum :
    (before : ℕ) (bs : Bytes) → checksum_from (before % 256) bs ≡ (before + sum bs) % 256
unfolding checksum_from sum
checksum_from-sum before [] = omega arith
checksum_from-sum before (b ∷ bs) =
    ap (λ (c : ℕ). checksum_from c bs) (omega arith)
    ∙ checksum_from-sum (before + b) bs
    ∙ (omega arith)

checksum_field_lem : (c : ℕ) → c < 256 → checksum_field c ≡ codes "10=" ++ (pad 3 c ++ (1 ∷ []))
unfolding checksum_field pad
checksum_field_lem c h = elim (Bool-cases (ltb c 100)) [
  | inl e ↦ elim (Bool-cases (ltb c 10)) [
    | inl f ↦ rw (e, f, to_string-small c (ground arith)) refl
    | inr f ↦
        rw (e, f, to_string-big c (ground arith), to_string-small (c / 10) (ground arith)) refl
  ]
  | inr e ↦
      rw
        (
          e,
          to_string-big c (ground arith),
          to_string-big (c / 10) (ground arith),
          to_string-small (c / 10 / 10) (omega arith),
        )
        refl
]

drop_to : (n : ℕ) (xs ys : Bytes) → length xs ≡ n → drop n (xs ++ ys) ≡ ys
drop_to n xs ys e = ap (λ (k : ℕ). drop k (xs ++ ys)) (sym e) ∙ drop_first xs ys

abbrev zeros : ℕ → Bytes
zeros n = replicate n 0

zeros_split : (n m : ℕ) → zeros (n + m) ≡ zeros n ++ zeros m
zeros_split zero m = ap zeros (omega arith)
zeros_split (suc n) m = ap zeros (add_suc n m) ∙ ap (λ (l : Bytes). 0 ∷ l) (zeros_split n m)
  where
    add_suc : (a b : ℕ) → suc a + b ≡ suc (a + b)
    add_suc a b = omega arith

-- The buffer that `read` leaves, where the header fits.
module _ (fix_version : FixVersion) (message_type body : Bytes) where
  abbrev body_length : ℕ
  body_length = length message_type + length body

  abbrev slices : List Bytes
  slices = header_slices fix_version body_length message_type

  abbrev pub len : ℕ
  len = header_len fix_version body_length message_type

  abbrev begin : ℕ
  begin = header_padding_len - len

  length_lem :
      length (zeros header_padding_len ++ body) - header_padding_len + length message_type
      ≡ body_length
  length_lem = omega (arith, length-append (zeros header_padding_len) body)

  padding_lem : len ≤ header_padding_len → zeros header_padding_len ≡ zeros begin ++ zeros len
  padding_lem h =
      let e : header_padding_len ≡ begin + len = omega arith in ap zeros e ∙ zeros_split begin len

  written :
      len ≤ header_padding_len
      → copy_slices slices begin (zeros header_padding_len ++ body)
        ≡ zeros begin ++ head fix_version message_type body
  written h =
      ap (λ (b : Bytes). copy_slices slices begin (b ++ body)) (padding_lem h)
      ∙ ap (copy_slices slices begin) (append_assoc (zeros begin) (zeros len) body)
      ∙ ap (λ (n : ℕ). copy_slices slices n (zeros begin ++ (zeros len ++ body)))
          (sym (length-replicate {A = ℕ} begin 0))
      ∙ copy_slices_lem slices (zeros begin) (zeros len) body (
          length-replicate {A = ℕ} len 0 ∙ sym (length-header fix_version body_length message_type))

  checksum_lem :
      checksum_from 0 (head fix_version message_type body)
      ≡ sum (head fix_version message_type body) % 256
  checksum_lem =
      checksum_from-sum 0 (head fix_version message_type body)
      ∙ ap (λ (n : ℕ). n % 256) (zero_add (sum (head fix_version message_type body)))
    where
      zero_add : (n : ℕ) → 0 + n ≡ n
      zero_add n = omega arith

  -- Behind the padding that is left.
  abbrev left : ByteBuffer
  left = record {
    bytes = zeros begin ++ frame fix_version message_type body;
    valid_bytes_begin = begin;
    valid_bytes_end = length (zeros begin ++ frame fix_version message_type body);
  }

  left_lem :
      (n : ℕ) (whole : Bytes)
      → (length (zeros n ++ whole) - n ≡ length whole) × (n ≤ length (zeros n ++ whole))
  left_lem n whole = (
    omega (arith, length-append (zeros n) whole, length-replicate {A = ℕ} n 0),
    omega (arith, length-append (zeros n) whole, length-replicate {A = ℕ} n 0),
  )

  left-IsValid : IsValid left
  left-IsValid = record {
    ordered = (left_lem begin (frame fix_version message_type body)).1;
    within = omega arith;
  }

  left_bytes : valid_bytes left ≡ frame fix_version message_type body
  unfolding valid_bytes
  left_bytes =
      let whole = frame fix_version message_type body in
      rw
        (
          (left_lem begin whole).0,
          drop_to begin (zeros begin) whole (length-replicate {A = ℕ} begin 0),
        )
        (take_all whole)

  read_into-left :
      len ≤ header_padding_len
      → (buf : ByteBuffer) → read_into fix_version message_type body buf ≡ some left
  unfolding read_into
  read_into-left h buf =
      let fits : ltb header_padding_len len ≡ false = ground arith in
      rw
        (
          length_lem,
          fits,
          written h,
          drop_to begin (zeros begin) (head fix_version message_type body)
              (length-replicate {A = ℕ} begin 0),
          checksum_lem,
          checksum_field_lem (sum (head fix_version message_type body) % 256) (omega arith),
          append_assoc (zeros begin) (head fix_version message_type body)
              (codes "10=" ++ (pad 3 (sum (head fix_version message_type body) % 256) ++ (1 ∷ []))),
        )
        refl

  -- Where the header fits into the room left for it, `read` leaves a valid buffer that holds exactly the message as the
  -- protocol frames it; where it does not fit, `read` panics.
  pub read_into_lem :
      (buf : ByteBuffer)
      → ((len ≤ header_padding_len)
          × (b : ByteBuffer) × (read_into fix_version message_type body buf ≡ some b)
          × IsValid b
          × (valid_bytes b ≡ frame fix_version message_type body))
        ⊎ ((header_padding_len < len) × (read_into fix_version message_type body buf ≡ none))
  unfolding read_into
  read_into_lem buf = elim (Bool-cases (ltb header_padding_len len)) [
    | inl e ↦ inr (ground arith, rw (length_lem, e) refl)
    | inr e ↦
        (let h : len ≤ header_padding_len = ground arith in
          inl (h, left, read_into-left h buf, left-IsValid, left_bytes))
  ]
