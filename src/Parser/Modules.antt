-- ===== src/Parser/Modules.antt =====
-- src/k1/parse.rs, abilities, types, namespaces and `parse_module`. The parsers of expressions, types
-- and blocks are those of Parser/Knot, given as `inner`.
use bfl.Prelude.{
  zero, ◌∷◌, false, [], true, ◌++◌, if◌then◌else◌, none, codes, some, length, suc, list_eq, Option,
  List, ℕ,
}
use bfl.TokenKind.{TokenKind, kind_eq}
use bfl.Token.{Token}
use bfl.Syntax.Definitions
use bfl.Syntax.Definitions.{ParsedId, ParsedTypeDefnFlags, ParsedNamespace}
use bfl.Syntax.Store
use bfl.Parser.{
  parsed, out_of_fuel, extend_span, expect, advance, ◌>>?◌, expect_eat_token, eat_token, peek,
  Parser, ParseResult,
}
use bfl.Parser.Text.{Env, intern_ident_token, token_chars}
use bfl.Parser.Postfix.{type_span}
use bfl.Parser.Knot.{Parsers}
use bfl.Parser.Definitions.{parse_const, parse_function, type_params}

module _ {I : Type 0} (env : Env I) (inner : Parsers I) where
  -- A round of the loop takes a function.
  unfoldable pub functions_loop : ℕ → List ℕ → Parser I → ParseResult I (List ℕ)
  unfolding parse_function
  functions_loop zero functions p = out_of_fuel
  functions_loop (suc f) functions p = parse_function env inner p >>? λ o q. elim o [
    | some id ↦ functions_loop f (functions ++ id ∷ []) q
    | none ↦ parsed functions q
  ]

  unfoldable pub functions : Parser I → ParseResult I (List ℕ)
  unfolding functions_loop
  functions p = functions_loop (suc (length p.tokens.tokens)) [] p

  unfoldable pub parse_ability_defn : Parser I → ParseResult I (Option ℕ)
  unfolding eat_token expect_eat_token intern_ident_token functions extend_span Store.add_ability
  parse_ability_defn p =
      let (found, p1) = eat_token p TokenKind.keyword_ability in
      elim found [
        | none ↦ parsed none p1
        | some keyword ↦ expect_eat_token p1 TokenKind.ident >>? λ name_token p2.
            intern_ident_token env p2 name_token >>? λ name p3.
            expect_eat_token p3 TokenKind.open_brace >>? λ open_brace p4. functions p4 >>? λ fs p5.
            expect_eat_token p5 TokenKind.close_brace >>? λ close p6.
            extend_span p6 keyword.span close.span >>? λ span p7.
            let (m, id) =
              Store.add_ability p7.program
                (record { name = name; functions = fs; span = span; id = 0 }) in
            parsed (some id) (record p7 { program = m })
      ]

  -- `auto`, or functions in braces; the last token comes with them.
  unfoldable pub impl_functions : Parser I → ParseResult I (List ℕ × Token)
  unfolding peek kind_eq advance expect_eat_token functions
  impl_functions p =
      if kind_eq (peek p).kind TokenKind.keyword_auto
      then parsed ([], peek p) (advance p)
      else (expect_eat_token p TokenKind.open_brace >>? λ open_brace p1. functions p1 >>? λ fs p2.
          expect_eat_token p2 TokenKind.close_brace >>? λ close p3. parsed (fs, close) p3)

  unfoldable pub parse_ability_impl : Parser I → ParseResult I (Option ℕ)
  unfolding eat_token expect_eat_token expect peek impl_functions intern_ident_token extend_span
      kind_eq Store.add_ability_impl
  parse_ability_impl p =
      let (found, p1) = eat_token p TokenKind.keyword_impl in
      elim found [
        | none ↦ parsed none p1
        | some keyword ↦ expect_eat_token p1 TokenKind.ident >>? λ ability_name p2.
            expect_eat_token p2 TokenKind.keyword_for >>? λ for_ p3.
            expect (codes "type_expression") (peek p3) (inner.type_expression p3) >>? λ target p4.
            impl_functions p4 >>? λ r p5. intern_ident_token env p5 ability_name >>? λ name p6.
            extend_span p6 keyword.span r.1.span >>? λ span p7.
            let (m, id) = Store.add_ability_impl p7.program (record {
              ability_name = name;
              target_type = target;
              functions = r.0;
              id = 0;
              auto = kind_eq r.1.kind TokenKind.keyword_auto;
              span = span;
            }) in
            parsed (some id) (record p7 { program = m })
      ]

  -- The words `alias` and `opaque`; a round takes a token.
  unfoldable pub modifiers_loop :
      ℕ → ParsedTypeDefnFlags → Parser I → ParseResult I ParsedTypeDefnFlags
  unfolding peek token_chars list_eq Definitions.set_alias Definitions.set_opaque advance
  modifiers_loop zero flags p = out_of_fuel
  modifiers_loop (suc f) flags p = token_chars p (peek p) >>? λ text q.
      elim (list_eq text (codes "alias")) [
        | true ↦ modifiers_loop f (Definitions.set_alias flags) (advance q)
        | false ↦ elim (list_eq text (codes "opaque")) [
          | true ↦ modifiers_loop f (Definitions.set_opaque flags) (advance q)
          | false ↦ parsed flags q
        ]
      ]

  unfoldable pub parse_type_defn : Parser I → ParseResult I (Option ℕ)
  unfolding eat_token modifiers_loop Definitions.new_flags expect_eat_token type_params expect
      type_span extend_span intern_ident_token Store.add_typedefn
  parse_type_defn p =
      let (found, p1) = eat_token p TokenKind.keyword_type in
      elim found [
        | none ↦ parsed none p1
        | some keyword ↦
            modifiers_loop (suc (length p1.tokens.tokens)) (Definitions.new_flags false false) p1
            >>? λ flags p2. expect_eat_token p2 TokenKind.ident >>? λ name_token p3.
                type_params env inner p3 >>? λ params p4.
                expect_eat_token p4 TokenKind.equals >>? λ equals p5.
                expect (codes "Type expression") equals (inner.type_expression p5)
                >>? λ type_expr p6. type_span env p6 type_expr >>? λ type_expr_span p7.
                    extend_span p7 keyword.span type_expr_span >>? λ span p8.
                    intern_ident_token env p8 name_token >>? λ name p9.
                    let (m, id) = Store.add_typedefn p9.program (record {
                      name = name;
                      value_expr = type_expr;
                      type_params = params;
                      span = span;
                      id = 0;
                      flags = flags;
                    }) in
                    parsed (some id) (record p9 { program = m })
      ]

  -- Definitions, as long as there are any.
  unfoldable pub definitions_loop :
      (Parser I → ParseResult I (Option ParsedId))
      → ℕ
      → List ParsedId
      → Parser I
      → ParseResult I (List ParsedId)
  definitions_loop parse_definition zero definitions p = out_of_fuel
  definitions_loop parse_definition (suc f) definitions p = parse_definition p >>? λ o q. elim o [
    | some def ↦ definitions_loop parse_definition f (definitions ++ def ∷ []) q
    | none ↦ parsed definitions q
  ]

  unfoldable pub parse_namespace :
      (Parser I → ParseResult I (Option ParsedId)) → Parser I → ParseResult I (Option ℕ)
  unfolding peek kind_eq advance expect_eat_token definitions_loop intern_ident_token extend_span
      Store.add_namespace
  parse_namespace parse_definition p =
      if kind_eq (peek p).kind TokenKind.keyword_namespace
      then (expect_eat_token (advance p) TokenKind.ident >>? λ ident p1.
          expect_eat_token p1 TokenKind.open_brace >>? λ open_brace p2.
          definitions_loop parse_definition (suc (length p2.tokens.tokens)) [] p2
          >>? λ definitions p3. expect_eat_token p3 TokenKind.close_brace >>? λ close p4.
              intern_ident_token env p4 ident >>? λ name p5.
              extend_span p5 (peek p).span close.span >>? λ span p6.
              let (m, id) =
                Store.add_namespace p6.program
                  (record { name = name; definitions = definitions; id = 0; span = span }) in
              parsed (some id) (record p6 { program = m }))
      else parsed none p

  -- The first kind of definition that there is.
  unfoldable pub or_else :
      ParseResult I (Option ℕ)
      → (ℕ → ParsedId)
      → (Parser I → ParseResult I (Option ParsedId))
      → ParseResult I (Option ParsedId)
  or_else first as_id next =
      first >>? λ o q. elim o [ some id ↦ parsed (some (as_id id)) q | none ↦ next q ]

  -- The argument counts the levels of namespaces.
  unfoldable pub parse_definition : ℕ → Parser I → ParseResult I (Option ParsedId)
  unfolding parse_namespace parse_const expect_eat_token or_else parse_function parse_type_defn
      parse_ability_defn parse_ability_impl
  parse_definition zero p = out_of_fuel
  parse_definition (suc f) p =
      or_else (parse_namespace (parse_definition f) p) Definitions.namespace (λ p1.
        parse_const env inner p1 >>? λ o p2. elim o [
          | some id ↦ expect_eat_token p2 TokenKind.semicolon >>? λ semicolon p3.
              parsed (some (Definitions.constant id)) p3
          | none ↦ or_else (parse_function env inner p2) Definitions.function (λ p3.
              or_else (parse_type_defn p3) Definitions.type_defn (λ p4.
                or_else (parse_ability_defn p4) Definitions.ability (λ p5.
                  or_else (parse_ability_impl p5) Definitions.ability_impl (λ p6. parsed none p6))))
        ])
