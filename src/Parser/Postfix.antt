-- ===== src/Parser/Postfix.antt =====
-- src/k1/parse.rs, `parse_expression_with_postfix_ops` and the arguments of calls: the parsers of a
-- base expression, an expression and a type expression are arguments.
pub mod Bracket
use bfl.TokenKind
use bfl.Prelude.{
  map, ◌∷◌, zero, length, [], suc, false, some, codes, if◌then◌else◌, ◌&&◌, none, ℕ, true, List,
  Bool, Option,
}
use bfl.Span.{SpanId}
use bfl.TokenKind.{TokenKind, kind_eq}
use bfl.Token
use bfl.Token.{Token}
use bfl.Syntax
use bfl.Syntax.{ParsedExpressionId, ParsedTypeExpressionId, FnCallArg, NamedTypeArg}
use bfl.Syntax.Pools
use bfl.Syntax.Program
use bfl.Syntax.Program.{error, get_type_expression_span}
use bfl.Parser.{
  add_expression, extend_span, parsed, failed, panic, out_of_fuel, extend_span_maybe, ◌>>?◌,
  expect_eat_token, get_expression_span, peek, advance, Parser, ParseResult,
}
use bfl.Parser.Text.{Env, intern_ident_token}
use bfl.Parser.Delimited.{eat_delimited, eat_delimited_if_opener}

module _ {I : Type 0} (env : Env I) where
  -- `ParsedModule::get_type_expression_span` of the parser's module
  unfoldable pub type_span : Parser I → ParsedTypeExpressionId → ParseResult I SpanId
  unfolding get_type_expression_span
  type_span p id = elim (get_type_expression_span p.program id) [
    | none ↦ panic
    | some span ↦ parsed span p
  ]

  unfoldable pub parse_fn_arg :
      (Parser I → ParseResult I (Option ParsedExpressionId))
      → Parser I
      → ParseResult I (Option FnCallArg)
  unfolding kind_eq Token.peek_two advance peek intern_ident_token
  parse_fn_arg parse_expression p =
      let (one, two) = Token.peek_two p.tokens in
      let named = kind_eq one.kind TokenKind.ident && kind_eq two.kind TokenKind.equals in
      let start = if named then advance (advance p) else p in
      parse_expression start >>? λ o q. elim o [
        | some e ↦
            (if named
              then (intern_ident_token env q one >>? λ name r. parsed (some name) r)
              else parsed none q)
            >>? λ name r. parsed (some (record { name = name; value = e })) r
        | none ↦
            if named
            then failed (error (Program.text (codes "expression")) (peek q)) q
            else parsed none q
      ]

  -- The token of a missing argument is read behind it.
  unfoldable pub expect_fn_arg :
      (Parser I → ParseResult I (Option ParsedExpressionId)) → Parser I → ParseResult I FnCallArg
  unfolding parse_fn_arg peek
  expect_fn_arg parse_expression p = parse_fn_arg parse_expression p >>? λ o q. elim o [
    | none ↦ failed (error (Program.text (codes "fn_arg")) (peek q)) q
    | some arg ↦ parsed arg q
  ]

  module _ (expect_type_expression : Parser I → ParseResult I ParsedTypeExpressionId) where
    unfoldable pub parse_optional_type_args :
        Parser I → ParseResult I (List NamedTypeArg × Option SpanId)
    unfolding eat_delimited_if_opener
    parse_optional_type_args p =
        eat_delimited_if_opener (codes "Type arguments") TokenKind.comma TokenKind.close_bracket
          expect_type_expression TokenKind.open_bracket p
        >>? λ o q. elim o [
          | none ↦ parsed ([], none) q
          | some r ↦ parsed (map (λ t. record { name = none; type_expr = t }) r.0, some r.1) q
        ]

    module _ (parse_expression : Parser I → ParseResult I (Option ParsedExpressionId)) where
      -- `a.b[int](...)` behind the paren, and `a.b[int]`.
      unfoldable pub method_call :
          ParsedExpressionId
          → Token
          → List NamedTypeArg
          → Parser I
          → ParseResult I ParsedExpressionId
      unfolding eat_delimited expect_fn_arg get_expression_span extend_span intern_ident_token
          add_expression Syntax.naked
      method_call result target type_args p =
          eat_delimited (codes "Function arguments") TokenKind.comma TokenKind.close_paren
            (expect_fn_arg parse_expression) p
          >>? λ r p1. get_expression_span p1 result >>? λ result_span p2.
              extend_span p2 result_span r.1 >>? λ span p3.
              intern_ident_token env p3 target >>? λ name p4.
              let (p5, id) = add_expression p4 (
                Syntax.fn_call (record {
                  name = Syntax.naked name target.span;
                  type_args = type_args;
                  args = record { name = none; value = result } ∷ r.0;
                  span = span;
                  is_method = true;
                })) in
              parsed id p5

      unfoldable pub field_access :
          ParsedExpressionId
          → Token
          → List NamedTypeArg
          → Option SpanId
          → Parser I
          → ParseResult I ParsedExpressionId
      unfolding get_expression_span extend_span_maybe intern_ident_token add_expression
      field_access result target type_args type_args_span p =
          get_expression_span p result >>? λ result_span p1.
          extend_span_maybe p1 result_span type_args_span >>? λ span p2.
          intern_ident_token env p2 target >>? λ name p3.
          let (p4, id) = add_expression p3 (
            Syntax.field_access
              (record { base = result; target = name; type_args = type_args; span = span })) in
          parsed id p4

      unfoldable pub dot_access : ParsedExpressionId → Parser I → ParseResult I ParsedExpressionId
      unfolding expect_eat_token parse_optional_type_args method_call field_access peek advance
          kind_eq
      dot_access result p = expect_eat_token p TokenKind.ident >>? λ target p1.
          parse_optional_type_args p1 >>? λ r p2.
          if kind_eq (peek p2).kind TokenKind.open_paren
          then method_call result target r.0 (advance p2)
          else field_access result target r.0 r.1 p2

      unfoldable pub optional_get :
          ParsedExpressionId → Token → Parser I → ParseResult I ParsedExpressionId
      unfolding get_expression_span extend_span add_expression
      optional_get result next p = get_expression_span p result >>? λ result_span p1.
          extend_span p1 result_span next.span >>? λ span p2.
          let (p3, id) =
            add_expression p2 (Syntax.optional_get (record { base = result; span = span })) in
          parsed id p3

      unfoldable pub as_cast : ParsedExpressionId → Parser I → ParseResult I ParsedExpressionId
      unfolding get_expression_span type_span extend_span add_expression
      as_cast result p = expect_type_expression p >>? λ dest p1.
          get_expression_span p1 result >>? λ result_span p2. type_span p2 dest >>? λ dest_span p3.
          extend_span p3 result_span dest_span >>? λ span p4.
          let (p5, id) =
            add_expression p4
              (Syntax.as_cast (record { base_expr = result; dest_type = dest; span = span })) in
          parsed id p5

      -- One round of the loop on a postfix operator; no branch takes an open bracket.
      unfoldable pub postfix_op : ParsedExpressionId → Parser I → ParseResult I ParsedExpressionId
      unfolding peek advance kind_eq optional_get as_cast dot_access
      postfix_op result p =
          if kind_eq (peek p).kind TokenKind.bang
          then optional_get result (peek p) (advance p)
          else if kind_eq (peek p).kind TokenKind.keyword_as
          then as_cast result (advance p)
          else if kind_eq (peek p).kind TokenKind.dot
          then dot_access result (advance p)
          else parsed result p

      unfoldable pub postfix_loop :
          ℕ → ParsedExpressionId → Parser I → ParseResult I ParsedExpressionId
      unfolding peek TokenKind.is_postfix_operator postfix_op
      postfix_loop zero result p = out_of_fuel
      postfix_loop (suc f) result p = elim (TokenKind.is_postfix_operator (peek p).kind) [
        | true ↦ postfix_op result p >>? λ next q. postfix_loop f next q
        | false ↦ parsed result p
      ]

      -- The type behind a colon.
      unfoldable pub type_hint :
          ParsedExpressionId → Parser I → ParseResult I (Option ParsedExpressionId)
      unfolding peek advance kind_eq Pools.add_type_hint
      type_hint e p =
          if kind_eq (peek p).kind TokenKind.colon
          then (expect_type_expression (advance p) >>? λ hint q. parsed (some e) (record q {
            program = record q.program {
              expressions = Pools.add_type_hint q.program.expressions e hint;
            };
          }))
          else parsed (some e) p

      -- A round of the loop takes a token, except at an open bracket.
      unfoldable pub parse_expression_with_postfix_ops :
          (Parser I → ParseResult I (Option ParsedExpressionId))
          → Parser I
          → ParseResult I (Option ParsedExpressionId)
      unfolding postfix_loop type_hint
      parse_expression_with_postfix_ops parse_base_expression p = parse_base_expression p >>? λ o q.
          elim o [
            | none ↦ parsed none q
            | some e ↦ postfix_loop (suc (length q.tokens.tokens)) e q >>? λ e' r. type_hint e' r
          ]
