-- ===== src/Parser/Messages.antt =====
-- src/fix.rs: proofs on the parts of the parser that leave the saved messages as they are.
use mathlib.Core.List.{append-nil, append_assoc}
use fix_rs.Prelude.{
  ℕ, zero, suc, ◌+◌, ◌≡◌, refl, sym, ap, ◌∙◌, inl, inr, List, [], ◌∷◌, ◌++◌, arith, Bytes, ◌==◌,
  Bool-cases,
}
use fix_rs.FieldTag.{from_bytes}
use fix_rs.Parser.State.{
  Parser, not_found, first_byte, second_byte, FoundMessage, TagRuleMode, length_then_value,
  repeating_groups, repeating_group_start,
}
use fix_rs.Parser.Scan.{Cursor, scan_bytes, scan_from, scan_for_message}
use fix_rs.Parser.BookKeeping.{update_book_keeping, fast_track_bytes, fast_track_read_bytes}
use fix_rs.Parser.Tag.{check_order, match_tag_end}

module _ {M : Type 0} where
  -- Messages are only added, at the end.
  abbrev pub Extends : List M → List M → Type 0
  Extends before after = (new : List M) × (after ≡ before ++ new)

  pub same : {before after : List M} → after ≡ before → Extends before after
  same e = ([], e ∙ sym (append-nil _))

  pub Extends-trans : (xs ys zs : List M) → Extends xs ys → Extends ys zs → Extends xs zs
  Extends-trans xs ys zs (new, e) (new', f) =
      (new ++ new', f ∙ ap (λ l. l ++ new') e ∙ append_assoc xs new new')

module _ {B M : Type 0} where
  pub messages-scan_bytes :
      (previous index : ℕ) (bytes : Bytes) (p : Parser B M)
      → (scan_bytes previous index bytes p).parser.messages ≡ p.messages
  unfolding scan_bytes
  messages-scan_bytes previous index [] p = refl
  messages-scan_bytes previous index (byte ∷ rest) p =
      ground (arith, messages-scan_bytes byte (index + 1) rest p)

  pub messages-scan_from :
      (s : FoundMessage) (c : Cursor B M) → (scan_from s c).parser.messages ≡ c.parser.messages
  unfolding scan_from
  messages-scan_from not_found c = messages-scan_bytes 0 c.index c.rest c.parser
  messages-scan_from first_byte c = messages-scan_bytes b'8' c.index c.rest c.parser
  messages-scan_from second_byte c = refl

  pub messages-scan : (c : Cursor B M) → (scan_for_message c).parser.messages ≡ c.parser.messages
  unfolding scan_for_message
  messages-scan c = messages-scan_from c.parser.found_message c

  pub messages-update : (b : ℕ) (p : Parser B M) → (update_book_keeping b p).1.messages ≡ p.messages
  unfolding update_book_keeping
  messages-update b p = ground arith

  pub messages-fast_track :
      (n index : ℕ) (bytes : Bytes) (p : Parser B M)
      → (fast_track_bytes n index bytes p).1.parser.messages ≡ p.messages
  unfolding fast_track_bytes
  messages-fast_track zero index bytes p = refl
  messages-fast_track (suc n) index [] p = refl
  messages-fast_track (suc n) index (c ∷ rest) p = ground (
    arith,
    messages-update c p,
    messages-fast_track n (index + 1) rest (record (update_book_keeping c p).1 {
      current_bytes = (update_book_keeping c p).1.current_bytes ++ (c ∷ []);
      fast_track_bytes_remaining = n;
    }),
  )

  pub messages-fast :
      (c : Cursor B M) → (fast_track_read_bytes c).1.parser.messages ≡ c.parser.messages
  unfolding fast_track_read_bytes
  messages-fast c = messages-fast_track c.parser.fast_track_bytes_remaining c.index c.rest c.parser

  pub messages-check_order :
      (stack : List (TagRuleMode B M)) (p : Parser B M) (index : ℕ) (rest : Bytes)
      → (check_order stack p index rest).1.parser.messages ≡ p.messages
  unfolding check_order fast_track_read_bytes
  messages-check_order [] p index rest = ground arith
  messages-check_order (length_then_value value_tag n ∷ below) p index rest =
      elim (Bool-cases (p.current_tag == value_tag)) [
        | inl e ↦ rw (e, check_order) (messages-fast_track n (index + 1) rest _)
        | inr e ↦ rw (e, check_order) refl
      ]
  messages-check_order (repeating_group_start first_tag ∷ below) p index rest = ground arith
  messages-check_order (repeating_groups _ ∷ below) p index rest = refl

  pub messages-tag_end :
      (p : Parser B M) (index : ℕ) (rest : Bytes)
      → (match_tag_end p index rest).1.parser.messages ≡ p.messages
  unfolding match_tag_end
  messages-tag_end p index rest = ground (
    arith,
    messages-check_order p.tag_rule_mode_stack
        (record p { current_tag = from_bytes p.current_bytes; current_bytes = [] }) index rest,
  )
