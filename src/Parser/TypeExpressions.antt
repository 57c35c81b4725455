-- ===== src/Parser/TypeExpressions.antt =====
-- src/k1/parse.rs, type expressions and names with namespaces. The parser of inner type expressions
-- is an argument.
use bfl.TokenKind
use bfl.Span.{SpanId}
use bfl.Prelude.{
  [], ◌∷◌, zero, ◌++◌, length, not, suc, codes, false, none, ◌&&◌, if◌then◌else◌, some, List, ℕ,
  true, Option, list_eq, Bool,
}
use bfl.TokenKind.{TokenKind, kind_eq}
use bfl.Token
use bfl.Token.{Token, is_whitespace_preceeded}
use bfl.Syntax.{Identifier, ParsedTypeExpressionId, NamespacedIdentifier}
use bfl.Syntax.Types
use bfl.Syntax.Types.{
  ParsedTypeExpression, NumericWidth, ParsedEnumVariant, ParsedEnumType, StructTypeField,
}
use bfl.Syntax.Pools
use bfl.Syntax.Program
use bfl.Syntax.Program.{error}
use bfl.Parser.{
  panic, failed, out_of_fuel, ◌>>?◌, expect, extend_span_maybe, extend_span, advance, peek,
  expect_eat_token, parsed, Parser, ParseResult,
}
use bfl.Parser.Text.{Env, intern_ident_token, token_chars}
use bfl.Parser.Postfix.{type_span, parse_optional_type_args}
use bfl.Parser.Delimited.{eat_delimited}

-- The integer types by their names.
unfoldable pub integer_name : List ℕ → Option (NumericWidth × Bool)
unfolding list_eq
integer_name text =
    if list_eq text (codes "u8")
    then some (Types.b8, false)
    else if list_eq text (codes "u16")
    then some (Types.b16, false)
    else if list_eq text (codes "u32")
    then some (Types.b32, false)
    else if list_eq text (codes "u64")
    then some (Types.b64, false)
    else if list_eq text (codes "i8")
    then some (Types.b8, true)
    else if list_eq text (codes "i16")
    then some (Types.b16, true)
    else if list_eq text (codes "i32")
    then some (Types.b32, true)
    else if list_eq text (codes "i64")
    then some (Types.b64, true)
    else none

module _ {I : Type 0} (env : Env I) where
  unfoldable pub add_type : ParsedTypeExpression → Parser I → Parser I × ParsedTypeExpressionId
  unfolding Pools.add_type_expression
  add_type t p =
      let (pool, id) = Pools.add_type_expression p.program.type_expressions t in
      (record p { program = record p.program { type_expressions = pool } }, id)

  unfoldable pub new_type : ParsedTypeExpression → Parser I → ParseResult I ParsedTypeExpressionId
  unfolding add_type
  new_type t p = let (q, id) = add_type t p in parsed id q

  -- A name and two colons; `first` is in front of the cursor's colons.
  unfoldable pub namespace_loop : ℕ → List Identifier → Parser I → ParseResult I (List Identifier)
  unfolding Token.peek_three kind_eq advance intern_ident_token
  namespace_loop zero namespaces p = out_of_fuel
  namespace_loop (suc f) namespaces p =
      let (a, b, c) = Token.peek_three p.tokens in
      elim (kind_eq a.kind TokenKind.ident
        && kind_eq b.kind TokenKind.colon
        && kind_eq c.kind TokenKind.colon) [
          | true ↦ intern_ident_token env (advance (advance (advance p))) a >>? λ id q.
              namespace_loop f (namespaces ++ id ∷ []) q
          | false ↦ parsed namespaces p
        ]

  unfoldable pub expect_namespaced_ident : Parser I → ParseResult I NamespacedIdentifier
  unfolding Token.peek_three kind_eq is_whitespace_preceeded intern_ident_token advance
      namespace_loop expect_eat_token extend_span
  expect_namespaced_ident p =
      let (first, second, third) = Token.peek_three p.tokens in
      (if kind_eq second.kind TokenKind.colon
          && kind_eq third.kind TokenKind.colon
          && not (is_whitespace_preceeded second)
        then (intern_ident_token env p first >>? λ id q.
            namespace_loop (suc (length p.tokens.tokens)) (id ∷ []) (advance (advance (advance q))))
        else parsed [] p)
      >>? λ namespaces p1. expect_eat_token p1 TokenKind.ident >>? λ name p2.
          intern_ident_token env p2 name >>? λ name_ident p3.
          extend_span p3 first.span name.span >>? λ span p4.
          parsed (record { namespaces = namespaces; name = name_ident; span = span }) p4

  module _ (parse_type_expression : Parser I → ParseResult I (Option ParsedTypeExpressionId)) where
    unfoldable pub expect_type_expression : Parser I → ParseResult I ParsedTypeExpressionId
    unfolding expect peek
    expect_type_expression p = expect (codes "type_expression") (peek p) (parse_type_expression p)

    unfoldable pub parse_struct_type_field : Parser I → ParseResult I StructTypeField
    unfolding expect_eat_token intern_ident_token expect peek
    parse_struct_type_field p = expect_eat_token p TokenKind.ident >>? λ name_token p1.
        intern_ident_token env p1 name_token >>? λ name p2.
        expect_eat_token p2 TokenKind.colon >>? λ colon p3.
        expect (codes "Type expression") (peek p3) (parse_type_expression p3) >>? λ ty p4.
        parsed (record { name = name; ty = ty }) p4

    -- One variant, its payload in parens.
    unfoldable pub enum_variant : Parser I → ParseResult I ParsedEnumVariant
    unfolding peek kind_eq advance intern_ident_token expect_type_expression expect_eat_token
        type_span
    enum_variant p =
        let tag = peek p in
        if kind_eq tag.kind TokenKind.ident
        then (intern_ident_token env p tag >>? λ tag_name p1.
            if kind_eq (peek (advance p1)).kind TokenKind.open_paren
            then (expect_type_expression (advance (advance p1)) >>? λ payload p2.
                expect_eat_token p2 TokenKind.close_paren >>? λ close p3.
                type_span env p3 payload >>? λ span p4.
                parsed
                  (record { tag_name = tag_name; payload_expression = some payload; span = span })
                  p4)
            else parsed (record { tag_name = tag_name; payload_expression = none; span = tag.span })
                (advance p1))
        else failed (error (Program.text (codes "Identifier for enum variant")) tag) p

    -- The variants behind the first; `last` is the span of the last one.
    unfoldable pub variant_loop :
        ℕ
        → List ParsedEnumVariant
        → SpanId
        → Parser I
        → ParseResult I (List ParsedEnumVariant × SpanId)
    unfolding peek kind_eq advance enum_variant
    variant_loop zero variants last p = out_of_fuel
    variant_loop (suc f) variants last p = elim (kind_eq (peek p).kind TokenKind.comma) [
      | true ↦ enum_variant (advance p) >>? λ v q. variant_loop f (variants ++ v ∷ []) v.span q
      | false ↦ parsed (variants, last) p
    ]

    unfoldable pub expect_enum_type_expression : Parser I → ParseResult I ParsedEnumType
    unfolding expect_eat_token enum_variant variant_loop extend_span
    expect_enum_type_expression p = expect_eat_token p TokenKind.keyword_enum >>? λ keyword p1.
        enum_variant p1 >>? λ v p2.
        variant_loop (suc (length p2.tokens.tokens)) (v ∷ []) v.span p2 >>? λ r p3.
        extend_span p3 keyword.span r.1 >>? λ span p4.
        parsed (record { variants = r.0; span = span }) p4

    -- A named type, with its arguments.
    unfoldable pub named_type : Token → Parser I → ParseResult I ParsedTypeExpressionId
    unfolding token_chars integer_name advance new_type expect_namespaced_ident
        parse_optional_type_args extend_span_maybe
    named_type first p = token_chars p first >>? λ text p1. elim (integer_name text) [
      | some n ↦
          new_type (Types.integer (record { width = n.0; signed = n.1; span = first.span }))
            (advance p1)
      | none ↦ expect_namespaced_ident p1 >>? λ base_name p2.
          parse_optional_type_args env expect_type_expression p2 >>? λ r p3.
          extend_span_maybe p3 first.span r.1 >>? λ span p4.
          new_type
            (Types.type_application (record { base_name = base_name; params = r.0; span = span }))
            p4
    ]

    unfoldable pub struct_type : Token → Parser I → ParseResult I ParsedTypeExpressionId
    unfolding expect_eat_token eat_delimited parse_struct_type_field extend_span new_type
    struct_type first p = expect_eat_token p TokenKind.open_brace >>? λ open_brace p1.
        eat_delimited (codes "Struct fields") TokenKind.comma TokenKind.close_brace
          parse_struct_type_field p1
        >>? λ r p2. extend_span p2 first.span r.1 >>? λ span p3.
            new_type (Types.struct_type (record { fields = r.0; span = span })) p3

    unfoldable pub parse_base_type_expression :
        Parser I → ParseResult I (Option ParsedTypeExpressionId)
    unfolding peek kind_eq advance expect_enum_type_expression new_type named_type struct_type
    parse_base_type_expression p =
        let first = peek p in
        let found : ParsedTypeExpressionId
            → Parser I
            → ParseResult I (Option ParsedTypeExpressionId) =
          λ id q. parsed (some id) q in
        if kind_eq first.kind TokenKind.keyword_enum
        then (expect_enum_type_expression p >>? λ e q. new_type (Types.enum_type e) q >>? found)
        else if kind_eq first.kind TokenKind.keyword_builtin
        then (new_type (Types.builtin first.span) (advance p) >>? found)
        else if kind_eq first.kind TokenKind.ident
        then (named_type first p >>? found)
        else if kind_eq first.kind TokenKind.open_brace
        then (struct_type first p >>? found)
        else parsed none p

  -- The member behind a dot.
  unfoldable pub member_type :
      ParsedTypeExpressionId → Parser I → ParseResult I ParsedTypeExpressionId
  unfolding expect_eat_token intern_ident_token type_span extend_span new_type
  member_type result p = expect_eat_token p TokenKind.ident >>? λ ident_token p1.
      intern_ident_token env p1 ident_token >>? λ ident p2.
      type_span env p2 result >>? λ result_span p3.
      extend_span p3 result_span ident_token.span >>? λ span p4.
      new_type
        (Types.dot_member_access (record { base = result; member_name = ident; span = span })) p4

  -- The postfix operators of types: `?` and `*` end the loop.
  unfoldable pub type_loop :
      ℕ → ParsedTypeExpressionId → Parser I → ParseResult I ParsedTypeExpressionId
  unfolding peek TokenKind.is_postfix_type_operator kind_eq advance member_type new_type
  type_loop zero result p = out_of_fuel
  type_loop (suc f) result p =
      let next = peek p in
      elim (TokenKind.is_postfix_type_operator next.kind) [
        | false ↦ parsed result p
        | true ↦ elim (kind_eq next.kind TokenKind.dot) [
          | true ↦ member_type result (advance p) >>? λ id q. type_loop f id q
          | false ↦
              if kind_eq next.kind TokenKind.question_mark
              then new_type (Types.optional (record { base = result; span = next.span }))
                  (advance p)
              else if kind_eq next.kind TokenKind.asterisk
              then new_type (Types.reference (record { base = result; span = next.span }))
                  (advance p)
              else panic
        ]
      ]

  -- With the parser of inner type expressions.
  unfoldable pub parse_outer_type_expression :
      (Parser I → ParseResult I (Option ParsedTypeExpressionId))
      → Parser I
      → ParseResult I (Option ParsedTypeExpressionId)
  unfolding parse_base_type_expression type_loop
  parse_outer_type_expression parse_type_expression p =
      parse_base_type_expression parse_type_expression p >>? λ o q. elim o [
        | none ↦ parsed none q
        | some id ↦ type_loop (suc (length q.tokens.tokens)) id q >>? λ r p1. parsed (some r) p1
      ]
