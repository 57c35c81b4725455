-- ===== src/Parser.antt =====
-- src/k1/parse.rs, `Parser`: its state, its results and the small steps on tokens and spans. An
-- error leaves a state behind too: the pools keep what was added.
pub mod Tokens
pub mod Delimited
pub mod Text
pub mod Postfix
pub mod Literals
pub mod Statements
pub mod TypeExpressions
pub mod Patterns
pub mod Base
pub mod Precedence
pub mod Knot
pub mod Definitions
pub mod Modules
pub mod Root
use bfl.Prelude.{some, if◌then◌else◌, ℕ, Option, List, none}
use bfl.Span.{SpanId}
use bfl.TokenKind.{TokenKind, kind_eq}
use bfl.Token
use bfl.Token.{Token, TokenIter}
use bfl.Span
use bfl.Syntax.{ParsedExpression, ParsedExpressionId}
use bfl.Syntax.Pools
use bfl.Syntax.Program.{ParsedModule, ParseError, Expected, error, error_cause}
use bfl.Syntax.Program

pub record Parser (I : Type 0) : Type 0 where
  pub tokens : TokenIter
  pub file_id : ℕ
  pub program : ParsedModule I

-- `out_of_fuel` has no counterpart in the program: the model cut a loop off.
pub data ParseResult {ℓ} (I : Type 0) (A : Type ℓ) : Type ℓ where
  parsed : A → Parser I → ParseResult I A
  failed : ParseError → Parser I → ParseResult I A
  panic out_of_fuel : ParseResult I A

-- The operator `?`: the rest of the code runs on the value and the state.
infixl 5 ◌>>?◌
abbrev pub ◌>>?◌ {ℓ κ} :
    {I : Type 0} {A : Type ℓ} {B : Type κ}
    → ParseResult I A
    → (A → Parser I → ParseResult I B)
    → ParseResult I B
parsed a p >>? next = next a p
failed e p >>? next = failed e p
panic >>? next = panic
out_of_fuel >>? next = out_of_fuel

module _ {I : Type 0} where
  unfoldable pub peek : Parser I → Token
  unfolding Token.peek
  peek p = Token.peek p.tokens

  unfoldable pub advance : Parser I → Parser I
  unfolding Token.advance
  advance p = record p { tokens = Token.advance p.tokens }

  -- `Parser::expect`; `current` is the token in front of the parse.
  unfoldable pub expect {ℓ} :
      {A : Type ℓ} → List ℕ → Token → ParseResult I (Option A) → ParseResult I A
  expect what current value = value >>? λ o p. elim o [
    | none ↦ failed (error (Program.text what) current) p
    | some a ↦ parsed a p
  ]

  unfoldable pub extend_span : Parser I → SpanId → SpanId → ParseResult I SpanId
  unfolding Span.extend
  extend_span p span1 span2 = elim (Span.extend p.program.spans span1 span2) [
    | none ↦ panic
    | some r ↦ parsed r.1 (record p { program = record p.program { spans = r.0 } })
  ]

  unfoldable pub extend_span_maybe : Parser I → SpanId → Option SpanId → ParseResult I SpanId
  unfolding extend_span
  extend_span_maybe p span1 none = parsed span1 p
  extend_span_maybe p span1 (some span2) = extend_span p span1 span2

  unfoldable pub eat_token : Parser I → TokenKind → Option Token × Parser I
  unfolding peek advance kind_eq
  eat_token p target =
      if kind_eq (peek p).kind target then (some (peek p), advance p) else (none, p)

  unfoldable pub expect_eat_token : Parser I → TokenKind → ParseResult I Token
  unfolding eat_token peek
  expect_eat_token p target =
      let (found, q) = eat_token p target in
      elim found [ none ↦ failed (error (Program.token target) (peek q)) q | some t ↦ parsed t q ]

  unfoldable pub add_expression : Parser I → ParsedExpression → Parser I × ParsedExpressionId
  unfolding Pools.add_expression
  add_expression p e =
      let (pool, id) = Pools.add_expression p.program.expressions e in
      (record p { program = record p.program { expressions = pool } }, id)

  unfoldable pub get_expression_span : Parser I → ParsedExpressionId → ParseResult I SpanId
  unfolding Pools.get_span
  get_expression_span p id = elim (Pools.get_span p.program.expressions id) [
    | none ↦ panic
    | some span ↦ parsed span p
  ]

  unfoldable pub extend_expr_span :
      Parser I → ParsedExpressionId → ParsedExpressionId → ParseResult I SpanId
  unfolding get_expression_span extend_span
  extend_expr_span p expr1 expr2 = get_expression_span p expr1 >>? λ span1 p1.
      get_expression_span p1 expr2 >>? λ span2 p2. extend_span p2 span1 span2
