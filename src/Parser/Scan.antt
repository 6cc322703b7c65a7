-- ===== src/Parser/Scan.antt =====
-- src/fix.rs, `scan_for_message`: the search for the header `8=`, one byte at a time, which stops
-- when the input ends and goes on with the next one.
use fix_rs.Prelude.{ℕ, ◌+◌, true, false, [], ◌∷◌, ◌==◌, ◌&&◌, if◌then◌else◌, Bytes}
use fix_rs.Version.{tag_end}
use fix_rs.Parser.State.{Parser, not_found, first_byte, second_byte, begin_str_tag, FoundMessage}

-- A position in the input: the bytes before it are `index` in number, and `rest` follows.
pub record Cursor (B M : Type 0) : Type 0 where
  pub parser : Parser B M
  pub index : ℕ
  pub rest : Bytes

-- What the search remembers of the byte before the input.
abbrev pub previous_byte : FoundMessage → ℕ
previous_byte not_found = 0
previous_byte first_byte = b'8'
previous_byte second_byte = 0

-- The header ends at the `=` of `8=`; act as if the BeginStr tag had been parsed.
abbrev pub found : {B M : Type 0} → Parser B M → Parser B M
found p = record p {
  found_message = second_byte;
  current_tag = begin_str_tag;
  checksum = b'8' + b'=';
}

-- At the end of the input, an `8` may be the start of a header.
abbrev pub at_end : {B M : Type 0} → ℕ → Parser B M → Parser B M
at_end previous p = record p {
  found_message = if previous == b'8' then first_byte else p.found_message;
}

module _ {B M : Type 0} where
  unfoldable pub scan_bytes : ℕ → ℕ → Bytes → Parser B M → Cursor B M
  scan_bytes previous index [] p = record { parser = at_end previous p; index = index; rest = [] }
  scan_bytes previous index (byte ∷ rest) p = elim ((byte == tag_end) && (previous == b'8')) [
    | true ↦ record { parser = found p; index = index + 1; rest = rest }
    | false ↦ scan_bytes byte (index + 1) rest p
  ]

  unfoldable pub scan_from : FoundMessage → Cursor B M → Cursor B M
  unfolding scan_bytes
  scan_from second_byte c = c
  scan_from state c = scan_bytes (previous_byte state) c.index c.rest c.parser

  unfoldable pub scan_for_message : Cursor B M → Cursor B M
  unfolding scan_from
  scan_for_message c = scan_from c.parser.found_message c
