-- ===== src/Parser/Definitions.antt =====
-- src/k1/parse.rs, constants and functions. The parsers of expressions, types and blocks are those
-- of Parser/Knot, given as `inner`.
use bfl.Prelude.{◌&&◌, some, not, ◌==◌, none, [], Option, codes, if◌then◌else◌, ◌∷◌, List, ℕ}
use bfl.TokenKind.{TokenKind, kind_eq}
use bfl.Token
use bfl.Token.{Token}
use bfl.Syntax
use bfl.Syntax.{ParsedExpressionId, ParsedTypeExpressionId, Block}
use bfl.Syntax.Definitions
use bfl.Syntax.Definitions.{ParsedTypeParamDefn, ParsedTypeConstraint, FnArgDef, Linkage}
use bfl.Syntax.Store
use bfl.Syntax.Program
use bfl.Syntax.Program.{error}
use bfl.Parser.{
  failed, panic, get_expression_span, parsed, ◌>>?◌, advance, extend_span, expect, eat_token, peek,
  expect_eat_token, Parser, ParseResult,
}
use bfl.Parser.Text.{Env, intern_ident_token}
use bfl.Parser.Delimited.{eat_delimited}
use bfl.Parser.Postfix.{type_span}
use bfl.Parser.TypeExpressions.{expect_namespaced_ident}
use bfl.Parser.Knot.{Parsers}

module _ {I : Type 0} (env : Env I) (inner : Parsers I) where
  -- The result of `expect_eat_token` on the colon is dropped.
  unfoldable pub parse_const : Parser I → ParseResult I (Option ℕ)
  unfolding eat_token expect_eat_token expect peek get_expression_span extend_span
      intern_ident_token Store.add_constant
  parse_const p =
      let (found, p1) = eat_token p TokenKind.keyword_val in
      elim found [
        | none ↦ parsed none p1
        | some keyword ↦ expect_eat_token p1 TokenKind.ident >>? λ name_token p2.
            let p3 = (eat_token p2 TokenKind.colon).1 in
            expect (codes "type_expression") (peek p3) (inner.type_expression p3) >>? λ typ p4.
            expect_eat_token p4 TokenKind.equals >>? λ equals p5.
            expect (codes "expression") (peek p5) (inner.expression p5) >>? λ value p6.
            get_expression_span p6 value >>? λ value_span p7.
            extend_span p7 keyword.span value_span >>? λ span p8.
            intern_ident_token env p8 name_token >>? λ name p9.
            let (m, id) =
              Store.add_constant p9.program
                (record { name = name; ty = typ; value_expr = value; span = span; id = 0 }) in
            parsed (some id) (record p9 { program = m })
      ]

  unfoldable pub expect_type_param : Parser I → ParseResult I ParsedTypeParamDefn
  unfolding expect_eat_token intern_ident_token
  expect_type_param p = expect_eat_token p TokenKind.ident >>? λ s p1.
      intern_ident_token env p1 s >>? λ id p2.
      parsed (record { ident = id; span = s.span; constraints = [] }) p2

  unfoldable pub type_params : Parser I → ParseResult I (List ParsedTypeParamDefn)
  unfolding peek kind_eq advance eat_delimited expect_type_param
  type_params p =
      if kind_eq (peek p).kind TokenKind.open_bracket
      then (eat_delimited (codes "Type arguments") TokenKind.comma TokenKind.close_bracket
            expect_type_param (advance p)
          >>? λ r q. parsed r.0 q)
      else parsed [] p

  unfoldable pub eat_fn_arg_def : Parser I → ParseResult I FnArgDef
  unfolding expect_eat_token expect peek type_span extend_span intern_ident_token
  eat_fn_arg_def p = expect_eat_token p TokenKind.ident >>? λ name_token p1.
      expect_eat_token p1 TokenKind.colon >>? λ colon p2.
      expect (codes "type_expression") (peek p2) (inner.type_expression p2) >>? λ typ p3.
      type_span env p3 typ >>? λ typ_span p4. extend_span p4 name_token.span typ_span >>? λ span p5.
      intern_ident_token env p5 name_token >>? λ name p6.
      parsed (record { name = name; ty = typ; span = span }) p6

  unfoldable pub parse_type_constraint : Parser I → ParseResult I ParsedTypeConstraint
  unfolding expect_eat_token intern_ident_token expect_namespaced_ident extend_span
  parse_type_constraint p = expect_eat_token p TokenKind.ident >>? λ param_name p1.
      intern_ident_token env p1 param_name >>? λ ident p2.
      expect_eat_token p2 TokenKind.colon >>? λ colon p3.
      expect_namespaced_ident env p3 >>? λ ability_name p4.
      extend_span p4 param_name.span ability_name.span >>? λ span p5.
      parsed (record { param_name = ident; ability_name = ability_name; span = span }) p5

  -- The constraints behind `where`, up to the open brace, which is given back.
  unfoldable pub parse_type_constraints : Parser I → ParseResult I (List ParsedTypeConstraint)
  unfolding peek kind_eq advance eat_delimited parse_type_constraint Token.retreat
  parse_type_constraints p =
      if kind_eq (peek p).kind TokenKind.keyword_where
      then (eat_delimited (codes "type constraints") TokenKind.comma TokenKind.open_brace
            parse_type_constraint (advance p)
          >>? λ r q. elim (Token.retreat q.tokens) [
            | none ↦ panic
            | some tokens ↦ parsed r.0 (record q { tokens = tokens })
          ])
      else parsed [] p

  unfoldable pub constraints_of : ℕ → List ParsedTypeConstraint → List ParsedTypeConstraint
  constraints_of ident [] = []
  constraints_of ident (c ∷ cs) =
      let rest = constraints_of ident cs in if c.param_name == ident then c ∷ rest else rest

  unfoldable pub constrained :
      List ParsedTypeConstraint → List ParsedTypeParamDefn → List ParsedTypeParamDefn
  unfolding constraints_of
  constrained cs [] = []
  constrained cs (t ∷ ts) = record t { constraints = constraints_of t.ident cs } ∷ constrained cs ts

  -- From the name of a function on.
  unfoldable pub function_body : Linkage → Token → Parser I → ParseResult I (Option ℕ)
  unfolding expect_eat_token intern_ident_token type_params eat_delimited eat_fn_arg_def
      parse_type_constraints Syntax.block_span extend_span constrained Store.add_function
  function_body linkage fn_keyword p = expect_eat_token p TokenKind.ident >>? λ func_name p1.
      intern_ident_token env p1 func_name >>? λ name p2. type_params p2 >>? λ type_args p3.
      expect_eat_token p3 TokenKind.open_paren >>? λ paren p4.
      eat_delimited (codes "Function arguments") TokenKind.comma TokenKind.close_paren
        eat_fn_arg_def p4
      >>? λ args p5. expect_eat_token p5 TokenKind.colon >>? λ colon p6.
          inner.type_expression p6 >>? λ ret_type p7.
          parse_type_constraints p7 >>? λ constraints p8. inner.block p8 >>? λ block p9.
          extend_span p9 fn_keyword.span
            (elim block [ none ↦ args.1 | some b ↦ Syntax.block_span b ])
          >>? λ span p10.
              let (m, id) = Store.add_function p10.program (record {
                name = name;
                type_args = constrained constraints type_args;
                args = args.0;
                ret_type = ret_type;
                block = block;
                span = span;
                linkage = linkage;
                id = 0;
              }) in
              parsed (some id) (record p10 { program = m })

  -- `extern` without `fn` is taken and is no error.
  unfoldable pub parse_function : Parser I → ParseResult I (Option ℕ)
  unfolding peek kind_eq advance eat_token function_body
  parse_function p =
      let is_intrinsic = kind_eq (peek p).kind TokenKind.keyword_intern in
      let p1 = if is_intrinsic then advance p else p in
      let is_extern = not is_intrinsic && kind_eq (peek p1).kind TokenKind.keyword_extern in
      let p2 = if is_extern then advance p1 else p1 in
      let linkage : Linkage =
        if is_intrinsic
        then Definitions.intrinsic
        else if is_extern
        then Definitions.external
        else Definitions.standard in
      let (found, p3) = eat_token p2 TokenKind.keyword_fn in
      elim found [
        | some fn_keyword ↦ function_body linkage fn_keyword p3
        | none ↦
            if is_intrinsic
            then failed (error (Program.text (codes "fn")) (peek p3)) p3
            else parsed none p3
      ]
