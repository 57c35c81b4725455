-- ===== src/Parser/Statements.antt =====
-- src/k1/parse.rs, statements and blocks: `parse_val`, `parse_assignment`, `parse_if_expr`,
-- `parse_while_loop`, `parse_statement` and `parse_block`. The parsers of expressions, type
-- expressions and inner blocks are arguments.
use bfl.Span.{SpanId}
use bfl.Prelude.{false, true, if◌then◌else◌, Bool, none, [], some, codes, ◌∷◌, List, Option}
use bfl.TokenKind.{TokenKind, kind_eq}
use bfl.Syntax
use bfl.Syntax.{
  ParsedExpressionId, ParsedTypeExpressionId, ValDef, Assignment, IfExpr, Block, ParsedStmt, Stmts,
}
use bfl.Parser.{
  parsed, extend_expr_span, extend_span, advance, get_expression_span, peek, expect, ◌>>?◌,
  eat_token, expect_eat_token, Parser, ParseResult,
}
use bfl.Parser.Text.{Env, intern_ident_token}
use bfl.Parser.Delimited.{eat_delimited}

unfoldable pub stmts_of : List ParsedStmt → Stmts
stmts_of [] = Syntax.end
stmts_of (s ∷ ss) = Syntax.stmt s (stmts_of ss)

module _ {I : Type 0} (env : Env I)
    (parse_expression : Parser I → ParseResult I (Option ParsedExpressionId))
    (parse_type_expression : Parser I → ParseResult I (Option ParsedTypeExpressionId)) where
  unfoldable pub expect_expression : Parser I → ParseResult I ParsedExpressionId
  unfolding expect peek
  expect_expression p = expect (codes "expression") (peek p) (parse_expression p)

  -- The type behind a colon, if there is one.
  unfoldable pub val_type : Parser I → ParseResult I (Option ParsedTypeExpressionId)
  unfolding eat_token
  val_type p =
      let (found, q) = eat_token p TokenKind.colon in
      elim found [ none ↦ parsed none q | some t ↦ parse_type_expression q ]

  unfoldable pub parse_val : Bool → Parser I → ParseResult I (Option ValDef)
  unfolding eat_token expect_eat_token val_type expect_expression get_expression_span extend_span
      intern_ident_token
  parse_val mutable p =
      let keyword = if mutable then TokenKind.keyword_mut else TokenKind.keyword_val in
      let (found, p1) = eat_token p keyword in
      elim found [
        | none ↦ parsed none p1
        | some eaten_keyword ↦ expect_eat_token p1 TokenKind.ident >>? λ name_token p2.
            val_type p2 >>? λ typ p3. expect_eat_token p3 TokenKind.equals >>? λ eq p4.
            expect_expression p4 >>? λ value p5. get_expression_span p5 value >>? λ value_span p6.
            extend_span p6 eaten_keyword.span value_span >>? λ span p7.
            intern_ident_token env p7 name_token >>? λ name p8.
            parsed
              (some (record {
                name = name;
                type_expr = typ;
                value = value;
                is_mutable = mutable;
                span = span;
              }))
              p8
      ]

  -- The test of the left side only reads it.
  unfoldable pub parse_assignment : ParsedExpressionId → Parser I → ParseResult I Assignment
  unfolding expect_eat_token expect_expression get_expression_span extend_expr_span
  parse_assignment lhs p = get_expression_span p lhs >>? λ valid p1.
      expect_eat_token p1 TokenKind.equals >>? λ eq p2. expect_expression p2 >>? λ rhs p3.
      extend_expr_span p3 lhs rhs >>? λ span p4.
      parsed (record { lhs = lhs; rhs = rhs; span = span }) p4

  unfoldable pub else_branch : Parser I → ParseResult I (Option ParsedExpressionId)
  unfolding peek advance kind_eq expect
  else_branch p =
      if kind_eq (peek p).kind TokenKind.keyword_else
      then (expect (codes "else block") (peek p) (parse_expression (advance p)) >>? λ e q.
          parsed (some e) q)
      else parsed none p

  unfoldable pub parse_if_expr : Parser I → ParseResult I (Option IfExpr)
  unfolding eat_token expect else_branch get_expression_span extend_span
  parse_if_expr p =
      let (found, p1) = eat_token p TokenKind.keyword_if in
      elim found [
        | none ↦ parsed none p1
        | some if_keyword ↦
            expect (codes "conditional expression") if_keyword (parse_expression p1) >>? λ cond p2.
            expect (codes "block following condition") if_keyword (parse_expression p2)
            >>? λ cons p3. else_branch p3 >>? λ alt p4.
                get_expression_span p4 cons >>? λ cons_span p5.
                (elim alt [ none ↦ parsed cons_span p5 | some a ↦ get_expression_span p5 a ])
                >>? λ end_span p6. extend_span p6 if_keyword.span end_span >>? λ span p7.
                    parsed (some (record { cond = cond; cons = cons; alt = alt; span = span })) p7
      ]

  module _ (parse_block : Parser I → ParseResult I (Option Block)) where
    -- `WhileStmt` is its condition, block and span.
    unfoldable pub parse_while_loop :
        Parser I → ParseResult I (Option (ParsedExpressionId × Block × SpanId))
    unfolding peek advance kind_eq expect_expression expect extend_span Syntax.block_span
    parse_while_loop p =
        if kind_eq (peek p).kind TokenKind.keyword_while
        then (expect_expression (advance p) >>? λ cond p1.
            expect (codes "block for while loop") (peek p) (parse_block p1) >>? λ block p2.
            extend_span p2 (peek p).span (Syntax.block_span block) >>? λ span p3.
            parsed (some (cond, block, span)) p3)
        else parsed none p

    -- An expression, or an assignment to it.
    unfoldable pub expression_statement : Parser I → ParseResult I (Option ParsedStmt)
    unfolding peek kind_eq parse_assignment
    expression_statement p = parse_expression p >>? λ o q. elim o [
      | none ↦ parsed none q
      | some e ↦
          if kind_eq (peek q).kind TokenKind.equals
          then (parse_assignment e q >>? λ a r. parsed (some (Syntax.assignment a)) r)
          else parsed (some (Syntax.lone_expression e)) q
    ]

    unfoldable pub parse_statement : Parser I → ParseResult I (Option ParsedStmt)
    unfolding parse_while_loop parse_val expression_statement
    parse_statement p = parse_while_loop p >>? λ while p1. elim while [
      | some w ↦ parsed (some (Syntax.while_stmt w.0 w.1 w.2)) p1
      | none ↦ parse_val true p1 >>? λ mut_def p2. elim mut_def [
        | some d ↦ parsed (some (Syntax.val_def d)) p2
        | none ↦ parse_val false p2 >>? λ val_def p3. elim val_def [
          | some d ↦ parsed (some (Syntax.val_def d)) p3
          | none ↦ expression_statement p3
        ]
      ]
    ]

    unfoldable pub expect_statement : Parser I → ParseResult I ParsedStmt
    unfolding expect peek parse_statement
    expect_statement p = expect (codes "statement") (peek p) (parse_statement p)

    -- A block; `parse_block` is that of the blocks inside.
    unfoldable pub parse_outer_block : Parser I → ParseResult I (Option Block)
    unfolding eat_token eat_delimited expect_statement extend_span stmts_of
    parse_outer_block p =
        let (found, p1) = eat_token p TokenKind.open_brace in
        elim found [
          | none ↦ parsed none p1
          | some block_start ↦
              eat_delimited (codes "Block statements") TokenKind.semicolon TokenKind.close_brace
                expect_statement p1
              >>? λ r p2. extend_span p2 block_start.span r.1 >>? λ span p3.
                  parsed (some (Syntax.block (stmts_of r.0) span)) p3
        ]
