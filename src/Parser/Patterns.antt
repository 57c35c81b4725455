-- ===== src/Parser/Patterns.antt =====
-- src/k1/parse.rs, `expect_pattern`. The parser of inner patterns is an argument.
use bfl.Span.{SpanId}
use bfl.Prelude.{
  false, zero, ◌∷◌, ◌++◌, true, [], codes, List, length, some, ℕ, Option, none, suc, if◌then◌else◌,
  list_eq,
}
use bfl.TokenKind.{TokenKind, kind_eq}
use bfl.Token.{Token}
use bfl.Syntax.{Identifier, ParsedPatternId}
use bfl.Syntax.Types
use bfl.Syntax.Types.{ParsedPattern}
use bfl.Syntax.Pools
use bfl.Syntax.Program
use bfl.Syntax.Program.{error}
use bfl.Parser.{
  out_of_fuel, failed, panic, ◌>>?◌, advance, extend_span, peek, expect_eat_token, parsed, Parser,
  ParseResult,
}
use bfl.Parser.Text.{Env, intern_ident_token}
use bfl.Parser.Literals.{parse_literal}

module _ {I : Type 0} (env : Env I) where
  unfoldable pub new_pattern : ParsedPattern → Parser I → ParseResult I ParsedPatternId
  unfolding Pools.add_pattern
  new_pattern pattern_ p =
      let (pool, id) = Pools.add_pattern p.program.patterns pattern_ in
      parsed id (record p { program = record p.program { patterns = pool } })

  -- A name; an underscore is a wildcard.
  unfoldable pub name_pattern : Parser I → ParseResult I ParsedPatternId
  unfolding expect_eat_token intern_ident_token new_pattern list_eq
  name_pattern p = expect_eat_token p TokenKind.ident >>? λ ident_token p1.
      intern_ident_token env p1 ident_token >>? λ ident p2.
      elim (env.resolve p2.program.identifiers ident) [
        | none ↦ panic
        | some name ↦
            if list_eq name (codes "_")
            then new_pattern (Types.wildcard ident_token.span) p2
            else new_pattern (Types.variable ident ident_token.span) p2
      ]

  module _ (expect_pattern : Parser I → ParseResult I ParsedPatternId) where
    -- The pattern of a field; without a colon it binds a variable of the field's name.
    unfoldable pub field_pattern : Parser I → ParseResult I (Identifier × ParsedPatternId)
    unfolding expect_eat_token intern_ident_token peek kind_eq advance new_pattern
    field_pattern p = expect_eat_token p TokenKind.ident >>? λ ident_token p1.
        intern_ident_token env p1 ident_token >>? λ ident p2.
        (if kind_eq (peek p2).kind TokenKind.colon
          then expect_pattern (advance p2)
          else new_pattern (Types.variable ident ident_token.span) p2)
        >>? λ pattern_id p3. parsed (ident, pattern_id) p3

    unfoldable pub fields_loop :
        ℕ
        → List (Identifier × ParsedPatternId)
        → Parser I
        → ParseResult I (List (Identifier × ParsedPatternId))
    unfolding peek kind_eq advance field_pattern
    fields_loop zero fields p = out_of_fuel
    fields_loop (suc f) fields p = elim (kind_eq (peek p).kind TokenKind.close_brace) [
      | true ↦ parsed fields p
      | false ↦ field_pattern p >>? λ field q. elim (kind_eq (peek q).kind TokenKind.comma) [
        | true ↦ fields_loop f (fields ++ field ∷ []) (advance q)
        | false ↦ elim (kind_eq (peek q).kind TokenKind.close_brace) [
          | true ↦ fields_loop f (fields ++ field ∷ []) q
          | false ↦ failed (error (Program.text (codes "comma or close brace")) (peek q)) q
        ]
      ]
    ]

    -- A round of the loop takes the name of a field.
    unfoldable pub struct_pattern : Token → Parser I → ParseResult I ParsedPatternId
    unfolding fields_loop expect_eat_token extend_span new_pattern
    struct_pattern open_brace p = fields_loop (suc (length p.tokens.tokens)) [] p >>? λ fields p1.
        expect_eat_token p1 TokenKind.close_brace >>? λ end p2.
        extend_span p2 open_brace.span end.span >>? λ span p3.
        new_pattern (Types.struct (record { fields = fields; span = span })) p3

    unfoldable pub payload_pattern :
        Token → Token → Parser I → ParseResult I (Option ParsedPatternId × SpanId)
    unfolding peek kind_eq advance expect_eat_token extend_span
    payload_pattern dot ident_token p =
        if kind_eq (peek p).kind TokenKind.open_paren
        then (expect_pattern (advance p) >>? λ payload p1.
            expect_eat_token p1 TokenKind.close_paren >>? λ close_paren p2.
            extend_span p2 dot.span close_paren.span >>? λ span p3. parsed (some payload, span) p3)
        else parsed (none, ident_token.span) p

    unfoldable pub enum_pattern : Token → Parser I → ParseResult I ParsedPatternId
    unfolding expect_eat_token intern_ident_token payload_pattern new_pattern
    enum_pattern dot p = expect_eat_token p TokenKind.ident >>? λ ident_token p1.
        intern_ident_token env p1 ident_token >>? λ ident p2.
        payload_pattern dot ident_token p2 >>? λ r p3.
        new_pattern (Types.enum (record { variant_tag = ident; payload_pattern = r.0; span = r.1 }))
          p3

    unfoldable pub expect_outer_pattern : Parser I → ParseResult I ParsedPatternId
    unfolding peek kind_eq advance parse_literal new_pattern struct_pattern enum_pattern
        name_pattern
    expect_outer_pattern p = parse_literal env.tables p >>? λ literal q. elim literal [
      | some literal_id ↦ new_pattern (Types.literal literal_id) q
      | none ↦
          if kind_eq (peek p).kind TokenKind.open_brace
          then struct_pattern (peek q) (advance q)
          else if kind_eq (peek p).kind TokenKind.dot
          then enum_pattern (peek q) (advance q)
          else if kind_eq (peek p).kind TokenKind.ident
          then name_pattern q
          else failed (error (Program.text (codes "Expected pattern expression")) (peek q)) q
    ]
