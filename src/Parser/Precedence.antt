-- ===== src/Parser/Precedence.antt =====
-- src/k1/parse.rs, `parse_expression`: operands with binary operators between them, by a stack of
-- operands and operators. The parsers of an operand (`parse_expression_with_postfix_ops`) and of a
-- pattern (`expect_pattern`) are arguments; the top of the stack is the head of the list.
pub mod Trees
pub mod Keeps
pub mod Stack
pub mod Operators
pub mod Ends
pub mod Unique
pub mod Group
pub mod Build
use bfl.Span.{SpanId}
use bfl.Prelude.{
  zero, codes, ltb, leb, some, if◌then◌else◌, [], none, ◌∷◌, length, is_some, suc, List, Bool, ℕ,
  Option,
}
use bfl.BinaryOp.{BinaryOpKind, precedence, from_tokenkind}
use bfl.TokenKind
use bfl.TokenKind.{kind_eq}
use bfl.Syntax.Program.{get_pattern_span}
use bfl.Syntax
use bfl.Syntax.{ParsedExpressionId, ParsedPatternId}
use bfl.Parser.{
  extend_span, out_of_fuel, get_expression_span, ◌>>?◌, advance, add_expression, expect, peek,
  panic, parsed, extend_expr_span, Parser, ParseResult,
}

pub data ExprStackMember : Type 0 where
  operator : BinaryOpKind → SpanId → ExprStackMember
  expr : ParsedExpressionId → ExprStackMember

-- `TokenKind::is_binary_operator`
unfoldable pub is_binary_operator : TokenKind.TokenKind → Bool
unfolding from_tokenkind
is_binary_operator kind = is_some (from_tokenkind kind)

module _ {I : Type 0} where
  -- The operation on two expressions, with a span from the first to the second.
  unfoldable pub build :
      BinaryOpKind
      → ParsedExpressionId
      → ParsedExpressionId
      → Parser I
      → ParseResult I ParsedExpressionId
  unfolding extend_expr_span add_expression
  build op_kind lhs rhs p = extend_expr_span p lhs rhs >>? λ span q.
      let (r, id) =
        add_expression q
          (Syntax.binary_op (record { op_kind = op_kind; lhs = lhs; rhs = rhs; span = span })) in
      parsed id r

  -- The inner `while`, on a stack with this top and rest.
  unfoldable pub reduce :
      ℕ
      → ℕ
      → ExprStackMember
      → List ExprStackMember
      → Parser I
      → ParseResult I (List ExprStackMember)
  unfolding build precedence
  reduce prec last top [] p = parsed (top ∷ []) p
  reduce prec last (expr rhs) (operator op_kind op_span ∷ expr lhs ∷ rest) p =
      if leb prec last
      then (if ltb (precedence op_kind) prec
          then parsed (expr rhs ∷ operator op_kind op_span ∷ expr lhs ∷ rest) p
          else (build op_kind lhs rhs p >>? λ id q.
              reduce prec (precedence op_kind) (expr id) rest q))
      else parsed (expr rhs ∷ operator op_kind op_span ∷ expr lhs ∷ rest) p
  reduce prec last (expr rhs) (operator op_kind op_span ∷ rest) p =
      if leb prec last
      then (if ltb (precedence op_kind) prec
          then parsed (expr rhs ∷ operator op_kind op_span ∷ rest) p
          else panic)
      else parsed (expr rhs ∷ operator op_kind op_span ∷ rest) p
  reduce prec last top rest p = if leb prec last then panic else parsed (top ∷ rest) p

  -- The last `while`: whatever is on the stack becomes one expression.
  unfoldable pub build_rest :
      ExprStackMember → List ExprStackMember → Parser I → ParseResult I ParsedExpressionId
  unfolding build
  build_rest (expr e) [] p = parsed e p
  build_rest (expr rhs) (operator op_kind op_span ∷ expr lhs ∷ rest) p =
      build op_kind lhs rhs p >>? λ id q. build_rest (expr id) rest q
  build_rest top rest p = panic

  unfoldable pub reduce_stack :
      ℕ → ℕ → List ExprStackMember → Parser I → ParseResult I (List ExprStackMember)
  unfolding reduce
  reduce_stack prec last [] p = parsed [] p
  reduce_stack prec last (top ∷ rest) p = reduce prec last top rest p

  unfoldable pub build_stack : List ExprStackMember → Parser I → ParseResult I ParsedExpressionId
  unfolding build_rest
  build_stack [] p = panic
  build_stack (top ∷ rest) p = build_rest top rest p

  module _ (operand : Parser I → ParseResult I (Option ParsedExpressionId)) where
    -- The loop over the operators.
    unfoldable pub operator_loop :
        ℕ → List ExprStackMember → ℕ → Parser I → ParseResult I (List ExprStackMember)
    unfolding reduce_stack expect peek advance from_tokenkind precedence
    operator_loop zero stack last p = out_of_fuel
    operator_loop (suc f) stack last p = elim (from_tokenkind (peek p).kind) [
      | none ↦ parsed stack p
      | some op_kind ↦
          expect (codes "rhs of binary op") (peek (advance p)) (operand (advance p)) >>? λ rhs q.
          reduce_stack (precedence op_kind) last stack q >>? λ reduced r.
          operator_loop f (expr rhs ∷ operator op_kind (peek p).span ∷ reduced) (precedence op_kind)
            r
    ]

    -- A round of the loop takes an operator.
    unfoldable pub binary_operators :
        ParsedExpressionId → Parser I → ParseResult I ParsedExpressionId
    unfolding operator_loop build_stack
    binary_operators e p =
        operator_loop (suc (length p.tokens.tokens)) (expr e ∷ []) 100000 p >>? λ stack q.
        build_stack stack q

    unfoldable pub is_suffix :
        (Parser I → ParseResult I ParsedPatternId)
        → ParsedExpressionId
        → Parser I
        → ParseResult I (Option ParsedExpressionId)
    unfolding peek advance kind_eq get_expression_span get_pattern_span extend_span add_expression
    is_suffix expect_pattern e p =
        if kind_eq (peek p).kind TokenKind.keyword_is
        then (expect_pattern (advance p) >>? λ pattern_id p1.
            get_expression_span p1 e >>? λ original_span p2.
            elim (get_pattern_span p2.program pattern_id) [
              | none ↦ panic
              | some pattern_span ↦ extend_span p2 original_span pattern_span >>? λ span p3.
                  let (p4, id) = add_expression p3 (
                    Syntax.is_expr
                      (record { target_expression = e; pattern_ = pattern_id; span = span })) in
                  parsed (some id) p4
            ])
        else parsed (some e) p

    unfoldable pub parse_expression :
        (Parser I → ParseResult I ParsedPatternId)
        → Parser I
        → ParseResult I (Option ParsedExpressionId)
    unfolding binary_operators is_suffix is_binary_operator peek
    parse_expression expect_pattern p = operand p >>? λ o q. elim o [
      | none ↦ parsed none q
      | some e ↦
          (if is_binary_operator (peek q).kind then binary_operators e q else parsed e q)
          >>? λ e' r. is_suffix expect_pattern e' r
    ]
