-- ===== src/Parser/Knot.antt =====
-- src/k1/parse.rs, the recursion between the parsers of expressions, blocks, patterns and types:
-- each uses the parsers of one level further in.
use bfl.Prelude.{zero, suc, Option, ℕ}
use bfl.Syntax.{ParsedExpressionId, ParsedTypeExpressionId, ParsedPatternId, Block}
use bfl.Parser.{out_of_fuel, Parser, ParseResult}
use bfl.Parser.Text.{Env}
use bfl.Parser.Postfix.{parse_expression_with_postfix_ops}
use bfl.Parser.Precedence
use bfl.Parser.TypeExpressions.{expect_type_expression, parse_outer_type_expression}
use bfl.Parser.Patterns.{expect_outer_pattern}
use bfl.Parser.Statements.{parse_outer_block}
use bfl.Parser.Base.{parse_base_expression}

pub record Parsers (I : Type 0) : Type 0 where
  pub expression : Parser I → ParseResult I (Option ParsedExpressionId)
  pub type_expression : Parser I → ParseResult I (Option ParsedTypeExpressionId)
  pub expect_pattern : Parser I → ParseResult I ParsedPatternId
  pub block : Parser I → ParseResult I (Option Block)

module _ {I : Type 0} (env : Env I) where
  -- An operand of a binary operator.
  unfoldable pub operand : Parsers I → Parser I → ParseResult I (Option ParsedExpressionId)
  unfolding parse_expression_with_postfix_ops expect_type_expression parse_base_expression
  operand inner p =
      parse_expression_with_postfix_ops env (expect_type_expression env inner.type_expression)
        inner.expression
        (parse_base_expression env inner.expression inner.type_expression
          (expect_type_expression env inner.type_expression) inner.expect_pattern inner.block)
        p

  unfoldable pub outer : Parsers I → Parsers I
  unfolding operand Precedence.parse_expression parse_outer_type_expression expect_outer_pattern
      parse_outer_block
  outer inner = record {
    expression = λ p. Precedence.parse_expression (operand inner) inner.expect_pattern p;
    type_expression = λ p. parse_outer_type_expression env inner.type_expression p;
    expect_pattern = λ p. expect_outer_pattern env inner.expect_pattern p;
    block = λ p. parse_outer_block env inner.expression inner.type_expression inner.block p;
  }

  -- The parsers of what is nested no deeper than this.
  unfoldable pub parsers : ℕ → Parsers I
  unfolding outer
  parsers zero = record {
    expression = λ p. out_of_fuel;
    type_expression = λ p. out_of_fuel;
    expect_pattern = λ p. out_of_fuel;
    block = λ p. out_of_fuel;
  }
  parsers (suc f) = outer (parsers f)
