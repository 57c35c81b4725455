-- ===== src/Parser/Literals.antt =====
-- src/k1/parse.rs, `parse_literal`.
use Prim.Native.Nat.{◌/◌}
use bfl.Prelude.{
  ◌%◌, none, not, ◌+◌, true, codes, ◌==◌, some, [], false, ◌&&◌, ltb, ◌++◌, ◌∷◌, Bool, list_eq,
  Option, if◌then◌else◌, ℕ, List,
}
use bfl.TokenKind.{TokenKind, kind_eq}
use bfl.Token
use bfl.Token.{Token, is_whitespace_preceeded}
use bfl.Lexer.Chars.{UnicodeTables}
use bfl.Syntax
use bfl.Syntax.{ParsedExpressionId, Literal}
use bfl.Syntax.Program
use bfl.Syntax.Program.{error, len_utf8}
use bfl.Parser.{
  failed, panic, parsed, ◌>>?◌, extend_span, advance, add_expression, Parser, ParseResult,
}
use bfl.Parser.Text.{token_chars}

-- `str::as_bytes`
unfoldable pub char_bytes : ℕ → List ℕ
char_bytes c =
    if ltb c 0x80
    then c ∷ []
    else if ltb c 0x800
    then (0xc0 + c / 64) ∷ (0x80 + c % 64) ∷ []
    else if ltb c 0x10000
    then (0xe0 + c / 4096) ∷ (0x80 + c / 64 % 64) ∷ (0x80 + c % 64) ∷ []
    else (0xf0 + c / 262144) ∷ (0x80 + c / 4096 % 64) ∷ (0x80 + c / 64 % 64) ∷ (0x80 + c % 64) ∷ []

unfoldable pub as_bytes : List ℕ → List ℕ
unfolding char_bytes
as_bytes [] = []
as_bytes (c ∷ text) = char_bytes c ++ as_bytes text

unfoldable pub starts_with : List ℕ → ℕ → Bool
starts_with [] c = false
starts_with (x ∷ xs) c = x == c

unfoldable pub ends_with : List ℕ → ℕ → Bool
ends_with [] c = false
ends_with (x ∷ []) c = x == c
ends_with (x ∷ y ∷ xs) c = ends_with (y ∷ xs) c

module _ {I : Type 0} where
  unfoldable pub add_literal : Literal → Parser I → ParseResult I (Option ParsedExpressionId)
  unfolding add_expression
  add_literal l p = let (q, id) = add_expression p (Syntax.literal l) in parsed (some id) q

  unfoldable pub escaped_literal : Token → ℕ → Parser I → ParseResult I (Option ParsedExpressionId)
  unfolding add_literal
  escaped_literal first esc_char p =
      if esc_char == b'n'
      then add_literal (Syntax.char 10 first.span) p
      else if esc_char == b'0'
      then add_literal (Syntax.char 0 first.span) p
      else if esc_char == 39
      then add_literal (Syntax.char 39 first.span) p
      else if esc_char == b't'
      then add_literal (Syntax.char 9 first.span) p
      else failed
          (error
            (Program.text (codes "Valid escaped char following escape sequence: " ++ esc_char ∷ []))
            first)
          p

  -- The literal between single quotes; the assertions of the code panic.
  unfoldable pub char_literal :
      Token → List ℕ → Parser I → ParseResult I (Option ParsedExpressionId)
  unfolding add_literal escaped_literal
  char_literal first (open_quote ∷ byte ∷ esc_char ∷ close_quote ∷ []) p =
      if byte == 0x5c then escaped_literal first esc_char p else panic
  char_literal first (open_quote ∷ byte ∷ close_quote ∷ []) p =
      if byte == 0x5c then panic else add_literal (Syntax.char byte first.span) p
  char_literal first _ p = panic

  unfoldable pub unit_literal : Token → Token → Parser I → ParseResult I (Option ParsedExpressionId)
  unfolding advance extend_span add_literal
  unit_literal first second p =
      extend_span (advance (advance p)) first.span second.span >>? λ span q.
      add_literal (Syntax.unit span) q

  module _ (tables : UnicodeTables) where
    -- A minus in front of a word.
    unfoldable pub negative_literal :
        Token → Token → Parser I → ParseResult I (Option ParsedExpressionId)
    unfolding token_chars advance extend_span add_literal
    negative_literal first second p = token_chars p second >>? λ text q. elim text [
      | [] ↦ panic
      | c ∷ rest ↦
          if tables.is_numeric c
          then (extend_span (advance (advance q)) first.span second.span >>? λ span r.
              add_literal (Syntax.numeric (record { text = codes "-" ++ c ∷ rest; span = span })) r)
          else failed (error (Program.text (codes "number following '-'")) second) q
    ]

    -- A word; `none` leaves it to be a name.
    unfoldable pub word_literal : Token → Parser I → ParseResult I (Option ParsedExpressionId)
    unfolding token_chars advance add_literal list_eq
    word_literal first p = token_chars p first >>? λ text q.
        if list_eq text (codes "true")
        then add_literal (Syntax.bool true first.span) (advance q)
        else if list_eq text (codes "false")
        then add_literal (Syntax.bool false first.span) (advance q)
        else elim text [
          | [] ↦ parsed none q
          | c ∷ rest ↦
              if tables.is_numeric c
              then add_literal (Syntax.numeric (record { text = c ∷ rest; span = first.span }))
                  (advance q)
              else parsed none q
        ]

    unfoldable pub parse_literal : Parser I → ParseResult I (Option ParsedExpressionId)
    unfolding Token.peek_two kind_eq token_chars advance unit_literal char_literal add_literal
        negative_literal word_literal as_bytes starts_with ends_with is_whitespace_preceeded
    parse_literal p =
        let (first, second) = Token.peek_two p.tokens in
        if kind_eq first.kind TokenKind.open_paren && kind_eq second.kind TokenKind.close_paren
        then unit_literal first second p
        else if kind_eq first.kind TokenKind.char
        then (token_chars (advance p) first >>? λ text q.
            if starts_with text 39 && ends_with text 39
            then char_literal first (as_bytes text) q
            else panic)
        else if kind_eq first.kind TokenKind.string
        then (token_chars (advance p) first >>? λ text q.
            add_literal (Syntax.string text first.span) q)
        else if kind_eq first.kind TokenKind.minus
            && kind_eq second.kind TokenKind.ident
            && not (is_whitespace_preceeded second)
        then negative_literal first second p
        else if kind_eq first.kind TokenKind.ident
        then word_literal first p
        else parsed none p
