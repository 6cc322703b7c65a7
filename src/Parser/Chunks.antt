-- ===== src/Parser/Chunks.antt =====
-- The search for a header over an input that comes in two parts, and what the parser remembers
-- between them.
use mathlib.Core.Path.{subst₂}
use fix_rs.Prelude.{
  ℕ, ◌+◌, ◌≡◌, refl, sym, ap, ◌≢◌, Bool, true, false, [], ◌∷◌, ◌++◌, arith, Bytes, ◌==◌, ◌&&◌,
}
use fix_rs.Version.{tag_end}
use fix_rs.Parser.State.{Parser, FoundMessage, not_found, first_byte, second_byte}
use fix_rs.Parser.Scan.{
  Cursor, previous_byte, found, at_end, scan_bytes, scan_from, scan_for_message,
}

module _ {B M : Type 0} where
  -- Two searches find the same: the header at the same place, with the same parser behind it, or
  -- nothing, with the whole input consumed.
  pub data SameFind (c d : Cursor B M) : Type 0 where
    both_find : c ≡ d → c.parser.found_message ≡ second_byte → SameFind c d
    neither_finds :
        c.parser.found_message ≢ second_byte
        → d.parser.found_message ≢ second_byte
        → c.index ≡ d.index
        → c.rest ≡ []
        → d.rest ≡ []
        → SameFind c d

  abbrev pub continue : Cursor B M → Bytes → Cursor B M
  continue c more = scan_for_message (record c { rest = c.rest ++ more })

  choice :
      (b b' : Bool) (index : ℕ) (rest : Bytes) (p q : Parser B M) (c d : Cursor B M)
      → b ≡ b'
      → found p ≡ found q
      → SameFind c d
      → SameFind
          (elim b [ true ↦ record { parser = found p; index = index; rest = rest } | false ↦ c ])
          (elim b' [ true ↦ record { parser = found q; index = index; rest = rest } | false ↦ d ])
  choice true true index rest p q c d e f h =
      both_find (ap (λ (r : Parser B M). record { parser = r; index = index; rest = rest }) f) refl
  choice true false index rest p q c d e f h = cc
  choice false true index rest p q c d e f h = cc
  choice false false index rest p q c d e f h = h

  -- Only whether the byte before is an `8` matters, and the state of the search is overwritten.
  scan_bytes-same :
      (previous previous' index : ℕ) (bytes : Bytes) (p q : Parser B M)
      → (previous == b'8') ≡ (previous' == b'8')
      → p.found_message ≢ second_byte
      → q.found_message ≢ second_byte
      → found p ≡ found q
      → SameFind (scan_bytes previous index bytes p) (scan_bytes previous' index bytes q)
  unfolding scan_bytes
  scan_bytes-same previous previous' index [] p q e hp hq f =
      neither_finds (ground arith) (ground arith) refl refl refl
  scan_bytes-same previous previous' index (byte ∷ rest) p q e hp hq f =
      choice ((byte == tag_end) && (previous == b'8')) ((byte == tag_end) && (previous' == b'8'))
        (index + 1) rest p q (scan_bytes byte (index + 1) rest p)
        (scan_bytes byte (index + 1) rest q) (ap (λ b. (byte == tag_end) && b) e) f
        (scan_bytes-same byte byte (index + 1) rest p q refl hp hq f)

  -- The input in two parts: the search of the first part from `previous`, then that of the second.
  split_case :
      (b : Bool) (index : ℕ) (rest ys : Bytes) (p : Parser B M) (c d : Cursor B M)
      → SameFind c (continue d ys)
      → SameFind
          (elim b [
            | true ↦ record { parser = found p; index = index; rest = rest ++ ys }
            | false ↦ c
          ])
          (continue
            (elim b [ true ↦ record { parser = found p; index = index; rest = rest } | false ↦ d ])
            ys)
  unfolding scan_for_message scan_from
  split_case true index rest ys p c d h = both_find refl refl
  split_case false index rest ys p c d h = h

  resume :
      (s : FoundMessage) (previous index : ℕ) (ys : Bytes) (p q : Parser B M)
      → q.found_message ≡ s
      → s ≢ second_byte
      → (previous == b'8') ≡ (previous_byte s == b'8')
      → p.found_message ≢ second_byte
      → found p ≡ found q
      → SameFind
          (scan_bytes previous index ys p)
          (scan_from s (record { parser = q; index = index; rest = ys }))
  unfolding scan_from
  resume not_found previous index ys p q e n h hp f =
      scan_bytes-same previous 0 index ys p q h hp (ground arith) f
  resume first_byte previous index ys p q e n h hp f =
      scan_bytes-same previous b'8' index ys p q h hp (ground arith) f
  resume second_byte previous index ys p q e n h hp f = absurd (n refl)

  scan_split :
      (previous index : ℕ) (xs ys : Bytes) (p : Parser B M)
      → p.found_message ≡ not_found
      → SameFind
          (scan_bytes previous index (xs ++ ys) p)
          (continue (scan_bytes previous index xs p) ys)
  unfolding scan_bytes scan_for_message
  scan_split previous index [] ys p e =
      resume (at_end previous p).found_message previous index ys p (at_end previous p) refl
        (ground arith) (ground arith) (λ h. cc) refl
  scan_split previous index (byte ∷ xs) ys p e =
      split_case ((byte == tag_end) && (previous == b'8')) (index + 1) xs ys p _ _
        (scan_split byte (index + 1) xs ys p e)

  from_not_found :
      (s : FoundMessage) (c : Cursor B M)
      → s ≡ not_found
      → scan_from s c ≡ scan_bytes 0 c.index c.rest c.parser
  unfolding scan_from
  from_not_found not_found c e = refl
  from_not_found first_byte c e = cc
  from_not_found second_byte c e = cc

  from_start :
      (c : Cursor B M)
      → c.parser.found_message ≡ not_found
      → scan_for_message c ≡ scan_bytes 0 c.index c.rest c.parser
  unfolding scan_for_message
  from_start c e = from_not_found c.parser.found_message c e

  -- From a state where no header has begun, a search over an input finds what a search of its first
  -- part and then of its second finds: the same header with the same state of the parser behind
  -- it, or in both cases none, with all the bytes consumed.
  pub scan_for_message-append :
      (p : Parser B M) (index : ℕ) (xs ys : Bytes)
      → p.found_message ≡ not_found
      → SameFind
          (scan_for_message (record { parser = p; index = index; rest = xs ++ ys }))
          (continue (scan_for_message (record { parser = p; index = index; rest = xs })) ys)
  scan_for_message-append p index xs ys e =
      subst₂ (λ c d. SameFind c (continue d ys))
        (sym (from_start (record { parser = p; index = index; rest = xs ++ ys }) e))
        (sym (from_start (record { parser = p; index = index; rest = xs }) e))
        (scan_split 0 index xs ys p e)

  -- The search forgets to take back that an `8` was seen: with a byte `x` between the `8` and the
  -- `=`, in inputs of their own, it takes the `=` for the end of a header, though the same bytes in
  -- one input hold none.
  pub stale_first_byte :
      (p : Parser B M) (x : ℕ)
      → p.found_message ≡ not_found
      → x ≢ b'8'
      → x ≢ tag_end
      → let in_one =
          scan_for_message (record { parser = p; index = 0; rest = b'8' ∷ x ∷ tag_end ∷ [] }) in
        let first = scan_for_message (record { parser = p; index = 0; rest = b'8' ∷ [] }) in
        let in_three = continue (continue first (x ∷ [])) (tag_end ∷ []) in
        (in_one.parser.found_message ≡ not_found) × (in_three.parser.found_message ≡ second_byte)
  unfolding scan_for_message scan_from scan_bytes
  stale_first_byte p x e h k = ground arith
