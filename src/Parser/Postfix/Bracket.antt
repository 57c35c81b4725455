-- ===== src/Parser/Postfix/Bracket.antt =====
-- src/k1/parse.rs, `parse_expression_with_postfix_ops`: an open bracket behind an expression.
use bfl.Prelude.{zero, refl, suc, some, ℕ, ◌≡◌, Option}
use bfl.TokenKind
use bfl.TokenKind.{kind_eq}
use bfl.Syntax.{ParsedExpressionId, ParsedTypeExpressionId}
use bfl.Parser.{out_of_fuel, parsed, Parser, ParseResult}
use bfl.Parser.Text.{Env}
use bfl.Parser.Tokens.{At}
use bfl.Parser.Postfix.{postfix_loop, postfix_op, parse_expression_with_postfix_ops}

module _ {I : Type 0} (env : Env I)
    (expect_type_expression : Parser I → ParseResult I ParsedTypeExpressionId)
    (parse_expression : Parser I → ParseResult I (Option ParsedExpressionId)) where
  postfix_op-bracket :
      (e : ParsedExpressionId) (p : Parser I)
      → At p TokenKind.open_bracket
      → postfix_op env expect_type_expression parse_expression e p ≡ parsed e p
  unfolding postfix_op kind_eq TokenKind.discriminant
  postfix_op-bracket e p h = rw (postfix_op, h) refl

  postfix_loop-bracket :
      (f : ℕ) (e : ParsedExpressionId) (p : Parser I)
      → At p TokenKind.open_bracket
      → postfix_loop env expect_type_expression parse_expression f e p ≡ out_of_fuel
  unfolding postfix_loop TokenKind.is_postfix_operator
  postfix_loop-bracket zero e p h = refl
  postfix_loop-bracket (suc f) e p h =
      rw (postfix_loop, h, postfix_op-bracket e p h) (postfix_loop-bracket f e p h)

  -- An expression with an open bracket behind it, as in `f()[0]`, is read for ever: the loop over the
  -- postfix operators runs out of any fuel.
  pub parse_expression_with_postfix_ops-bracket :
      (parse_base_expression : Parser I → ParseResult I (Option ParsedExpressionId))
      (e : ParsedExpressionId) (p q : Parser I)
      → parse_base_expression p ≡ parsed (some e) q
      → At q TokenKind.open_bracket
      → ((f : ℕ) → postfix_loop env expect_type_expression parse_expression f e q ≡ out_of_fuel)
        × (parse_expression_with_postfix_ops env expect_type_expression parse_expression
              parse_base_expression p
            ≡ out_of_fuel)
  unfolding parse_expression_with_postfix_ops
  parse_expression_with_postfix_ops-bracket parse_base_expression e p q h at_bracket = (
    λ f. postfix_loop-bracket f e q at_bracket,
    rw (parse_expression_with_postfix_ops, h, postfix_loop-bracket _ e q at_bracket) refl,
  )
