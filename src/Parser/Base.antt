-- ===== src/Parser/Base.antt =====
-- src/k1/parse.rs, `parse_base_expression`: an expression without postfix or binary operators. The
-- parsers of the expressions, blocks, patterns and types inside it are arguments.
use bfl.TokenKind
use bfl.Prelude.{
  zero, ◌++◌, ◌∷◌, length, ◌&&◌, none, List, some, suc, [], ◌||◌, if◌then◌else◌, ℕ, false, codes,
  true, Option,
}
use bfl.TokenKind.{TokenKind, kind_eq}
use bfl.Token
use bfl.Token.{Token}
use bfl.Syntax
use bfl.Syntax.{
  block, Identifier, ParsedExpression, ParsedExpressionId, ParsedTypeExpressionId, ParsedPatternId,
  ParsedMatchCase, StructField, Block, ForExprType,
}
use bfl.Syntax.Program
use bfl.Syntax.Program.{error}
use bfl.Parser.{
  out_of_fuel, panic, failed, get_expression_span, ◌>>?◌, parsed, peek, add_expression, expect,
  advance, expect_eat_token, extend_span, Parser, ParseResult,
}
use bfl.Parser.Text.{Env, intern_ident_token, token_chars}
use bfl.Parser.Literals.{parse_literal}
use bfl.Parser.Delimited.{eat_delimited, eat_delimited_if_opener}
use bfl.Parser.Postfix.{parse_optional_type_args, expect_fn_arg}
use bfl.Parser.TypeExpressions.{expect_namespaced_ident}
use bfl.Parser.Statements.{expect_expression, parse_if_expr}

module _ {I : Type 0} (env : Env I)
    (parse_expression : Parser I → ParseResult I (Option ParsedExpressionId))
    (parse_type_expression : Parser I → ParseResult I (Option ParsedTypeExpressionId))
    (expect_type_expression : Parser I → ParseResult I ParsedTypeExpressionId)
    (expect_pattern : Parser I → ParseResult I ParsedPatternId)
    (parse_block : Parser I → ParseResult I (Option Block)) where
  unfoldable pub new_expression :
      ParsedExpression → Parser I → ParseResult I (Option ParsedExpressionId)
  unfolding add_expression
  new_expression e p = let (q, id) = add_expression p e in parsed (some id) q

  unfoldable pub sub_expression : Parser I → ParseResult I ParsedExpressionId
  unfolding expect_expression
  sub_expression p = expect_expression env parse_expression parse_type_expression p

  -- A pattern, an arrow and an expression.
  unfoldable pub match_case : Parser I → ParseResult I ParsedMatchCase
  unfolding expect_eat_token sub_expression
  match_case p = expect_pattern p >>? λ pattern_id p1.
      expect_eat_token p1 TokenKind.minus >>? λ minus p2.
      expect_eat_token p2 TokenKind.close_angle >>? λ angle p3.
      sub_expression p3 >>? λ e p4. parsed (record { pattern_ = pattern_id; expression = e }) p4

  unfoldable pub cases_loop :
      ℕ → List ParsedMatchCase → Parser I → ParseResult I (List ParsedMatchCase)
  unfolding peek kind_eq advance match_case
  cases_loop zero cases p = out_of_fuel
  cases_loop (suc f) cases p = elim (kind_eq (peek p).kind TokenKind.close_brace) [
    | true ↦ parsed cases p
    | false ↦ match_case p >>? λ c q. elim (kind_eq (peek q).kind TokenKind.comma) [
      | true ↦ cases_loop f (cases ++ c ∷ []) (advance q)
      | false ↦ elim (kind_eq (peek q).kind TokenKind.close_brace) [
        | true ↦ cases_loop f (cases ++ c ∷ []) q
        | false ↦ failed (error (Program.text (codes "comma or close brace")) (peek q)) q
      ]
    ]
  ]

  -- A round of the loop takes an arrow.
  unfoldable pub match_expression : Token → Parser I → ParseResult I (Option ParsedExpressionId)
  unfolding sub_expression expect_eat_token peek kind_eq advance cases_loop extend_span
      new_expression
  match_expression when_keyword p = sub_expression p >>? λ target p1.
      expect_eat_token p1 TokenKind.open_brace >>? λ open_brace p2.
      let p3 = if kind_eq (peek p2).kind TokenKind.comma then advance p2 else p2 in
      cases_loop (suc (length p3.tokens.tokens)) [] p3 >>? λ cases p4.
      expect_eat_token p4 TokenKind.close_brace >>? λ close p5.
      extend_span p5 when_keyword.span close.span >>? λ span p6.
      new_expression
        (Syntax.match_expr (record { target_expression = target; cases = cases; span = span })) p6

  -- The binding between `for` and `in`.
  unfoldable pub for_binding : Token → Token → Parser I → ParseResult I (Option Identifier)
  unfolding kind_eq intern_ident_token advance
  for_binding second third p =
      if kind_eq third.kind TokenKind.keyword_in
      then (if kind_eq second.kind TokenKind.ident
          then (intern_ident_token env p second >>? λ id q. parsed (some id) (advance (advance q)))
          else failed
              (error (Program.text (codes "Expected identifiers between for and in keywords"))
                second)
              p)
      else parsed none p

  unfoldable pub for_type : Parser I → ParseResult I ForExprType
  unfolding peek kind_eq advance
  for_type p =
      if kind_eq (peek p).kind TokenKind.keyword_yield
      then parsed Syntax.yield (advance p)
      else if kind_eq (peek p).kind TokenKind.keyword_do
      then parsed Syntax.do_ (advance p)
      else failed (error (Program.text (codes "Expected yield or do keyword")) (peek p)) p

  unfoldable pub for_expression :
      Token → Token → Token → Parser I → ParseResult I (Option ParsedExpressionId)
  unfolding for_binding sub_expression for_type expect peek extend_span Syntax.block_span
      new_expression
  for_expression first second third p = for_binding second third p >>? λ binding p1.
      sub_expression p1 >>? λ iterable p2. for_type p2 >>? λ expr_type p3.
      expect (codes "block") (peek p3) (parse_block p3) >>? λ body p4.
      extend_span p4 first.span (Syntax.block_span body) >>? λ span p5.
      new_expression
        (Syntax.for_expr (record {
          iterable_expr = iterable;
          binding = binding;
          body_block = body;
          expr_type = expr_type;
          span = span;
        }))
        p5

  unfoldable pub unary_expression : Token → Parser I → ParseResult I (Option ParsedExpressionId)
  unfolding Syntax.unary_from_tokenkind advance sub_expression get_expression_span extend_span
      new_expression
  unary_expression first p = elim (Syntax.unary_from_tokenkind first.kind) [
    | none ↦ failed (error (Program.text (codes "unexpected prefix operator")) first) p
    | some op_kind ↦ sub_expression (advance p) >>? λ e p1.
        get_expression_span p1 e >>? λ e_span p2. extend_span p2 first.span e_span >>? λ span p3.
        new_expression (Syntax.unary_op (record { op_kind = op_kind; expr = e; span = span })) p3
  ]

  -- `.Red` and `.Red(x)`, behind the dot and the name.
  unfoldable pub tag_expression :
      Token → Token → Token → Parser I → ParseResult I (Option ParsedExpressionId)
  unfolding token_chars intern_ident_token kind_eq advance sub_expression expect_eat_token
      extend_span new_expression
  tag_expression first second third p = token_chars p second >>? λ text p1. elim text [
    | [] ↦ panic
    | c ∷ rest ↦
        if env.is_lowercase c
        then failed (error (Program.text (codes "Uppercase tag name")) second) p1
        else (intern_ident_token env p1 second >>? λ tag_name p2.
            if kind_eq third.kind TokenKind.open_paren
            then (sub_expression (advance p2) >>? λ payload p3.
                expect_eat_token p3 TokenKind.close_paren >>? λ close p4.
                extend_span p4 first.span close.span >>? λ span p5.
                new_expression
                  (Syntax.enum_constructor
                    (record { variant_name = tag_name; payload = payload; span = span }))
                  p5)
            else (extend_span p2 first.span second.span >>? λ span p3.
                new_expression (Syntax.anon_enum_variant (record { name = tag_name; span = span }))
                  p3))
  ]

  -- A call, or a variable.
  unfoldable pub name_expression : Parser I → ParseResult I (Option ParsedExpressionId)
  unfolding expect_namespaced_ident peek kind_eq parse_optional_type_args expect_eat_token
      eat_delimited expect_fn_arg extend_span new_expression
  name_expression p = expect_namespaced_ident env p >>? λ name p1.
      let second = peek p1 in
      if kind_eq second.kind TokenKind.open_bracket || kind_eq second.kind TokenKind.open_paren
      then (parse_optional_type_args env expect_type_expression p1 >>? λ type_args p2.
          expect_eat_token p2 TokenKind.open_paren >>? λ paren p3.
          eat_delimited (codes "Function arguments") TokenKind.comma TokenKind.close_paren
            (expect_fn_arg env parse_expression) p3
          >>? λ r p4. extend_span p4 name.span r.1 >>? λ span p5.
              new_expression
                (Syntax.fn_call (record {
                  name = name;
                  type_args = type_args.0;
                  args = r.0;
                  span = span;
                  is_method = false;
                }))
                p5)
      else new_expression (Syntax.variable (record { name = name })) p1

  unfoldable pub struct_field : Parser I → ParseResult I StructField
  unfolding expect_eat_token expect peek intern_ident_token
  struct_field p = expect_eat_token p TokenKind.ident >>? λ name p1.
      expect_eat_token p1 TokenKind.colon >>? λ colon p2.
      expect (codes "expression") (peek p2) (parse_expression p2) >>? λ e p3.
      intern_ident_token env p3 name >>? λ id p4. parsed (record { name = id; expr = e }) p4

  -- `parse_struct`
  unfoldable pub parse_struct : Parser I → ParseResult I (Option Syntax.Struct)
  unfolding eat_delimited_if_opener struct_field
  parse_struct p =
      eat_delimited_if_opener (codes "Struct") TokenKind.comma TokenKind.close_brace struct_field
        TokenKind.open_brace p
      >>? λ o q. elim o [
        | none ↦ parsed none q
        | some r ↦ parsed (some (record { fields = r.0; span = r.1 })) q
      ]

  -- The two tokens of the empty struct are not taken.
  unfoldable pub brace_expression :
      Token → Token → Token → Parser I → ParseResult I (Option ParsedExpressionId)
  unfolding kind_eq extend_span new_expression expect parse_struct peek
  brace_expression first second third p =
      if kind_eq second.kind TokenKind.close_brace
      then (extend_span p first.span second.span >>? λ span q.
          new_expression (Syntax.struct (record { fields = []; span = span })) q)
      else if kind_eq second.kind TokenKind.ident && kind_eq third.kind TokenKind.colon
      then (expect (codes "struct") first (parse_struct p) >>? λ s q.
          new_expression (Syntax.struct s) q)
      else (parse_block p >>? λ o q. elim o [
        | none ↦ failed (error (Program.text (codes "block")) (peek q)) q
        | some b ↦ new_expression (Syntax.block_expr b) q
      ])

  unfoldable pub array_expression : Parser I → ParseResult I (Option ParsedExpressionId)
  unfolding expect_eat_token eat_delimited expect extend_span new_expression
  array_expression p = expect_eat_token p TokenKind.open_bracket >>? λ start p1.
      eat_delimited (codes "Array elements") TokenKind.comma TokenKind.close_bracket
        (λ q. expect (codes "expression") start (parse_expression q)) p1
      >>? λ r p2. extend_span p2 start.span r.1 >>? λ span p3.
          new_expression (Syntax.array (record { elements = r.0; span = span })) p3

  unfoldable pub paren_expression : Parser I → ParseResult I (Option ParsedExpressionId)
  unfolding sub_expression expect_eat_token
  paren_expression p = sub_expression p >>? λ e p1.
      expect_eat_token p1 TokenKind.close_paren >>? λ close p2. parsed (some e) p2

  unfoldable pub if_expression : Token → Parser I → ParseResult I (Option ParsedExpressionId)
  unfolding expect parse_if_expr new_expression
  if_expression first p =
      expect (codes "If Expression") first
        (parse_if_expr env parse_expression parse_type_expression p)
      >>? λ e q. new_expression (Syntax.if_expr e) q

  unfoldable pub parse_base_expression : Parser I → ParseResult I (Option ParsedExpressionId)
  unfolding Token.peek_three parse_literal kind_eq advance match_expression paren_expression
      for_expression TokenKind.is_prefix_operator unary_expression tag_expression name_expression
      brace_expression if_expression array_expression
  parse_base_expression p =
      let (first, second, third) = Token.peek_three p.tokens in
      parse_literal env.tables p >>? λ literal q. elim literal [
        | some literal_id ↦ parsed (some literal_id) q
        | none ↦
            if kind_eq first.kind TokenKind.keyword_when
            then match_expression (peek q) (advance q)
            else if kind_eq first.kind TokenKind.open_paren
            then paren_expression (advance q)
            else if kind_eq first.kind TokenKind.keyword_for
            then for_expression first second third (advance q)
            else if TokenKind.is_prefix_operator first.kind
            then unary_expression first q
            else if kind_eq first.kind TokenKind.dot && kind_eq second.kind TokenKind.ident
            then tag_expression first second third (advance (advance q))
            else if kind_eq first.kind TokenKind.ident
            then name_expression q
            else if kind_eq first.kind TokenKind.open_brace
            then brace_expression first second third q
            else if kind_eq first.kind TokenKind.keyword_if
            then if_expression first q
            else if kind_eq first.kind TokenKind.open_bracket
            then array_expression q
            else parsed none q
      ]
