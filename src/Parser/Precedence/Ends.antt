-- ===== src/Parser/Precedence/Ends.antt =====
-- src/k1/parse.rs, `parse_expression`: the loops end.
use bfl.Parser.Precedence.Operators.{
  operation, no_operators, Operands, reduce_stack-Adds, expect-value,
}
use bfl.Parser.Tokens.{cursor-At}
use bfl.Parser.Precedence.Build.{build-cases}
use bfl.Token.{Token}
use bfl.Prelude.{
  ◌++◌, ◌≤◌, ◌∙◌, ap, zero, Option-cases, suc, arith, refl, ltb, false, ◌+◌, inr, leb, true, inl,
  length, [], ◌∷◌, ◌<◌, if◌then◌else◌, none, some, ℕ, Bool, List, ◌≡◌, ◌≢◌, Option,
}
use bfl.TokenKind
use bfl.BinaryOp.{BinaryOpKind, precedence, from_tokenkind}
use bfl.Syntax.{ParsedExpressionId}
use bfl.Parser.{
  peek, failed, ◌>>?◌, advance, parsed, out_of_fuel, panic, expect, Parser, ParseResult,
}
use bfl.Token
use bfl.Parser.Precedence.{
  build, ExprStackMember, operator, expr, reduce, reduce_stack, build_rest, build_stack,
  operator_loop, binary_operators,
}

-- A parse whose parts end does.
>>?-returns {ℓ κ} :
    {I : Type 0} {A : Type ℓ} {B : Type κ} (m : ParseResult I A)
    (next : A → Parser I → ParseResult I B)
    → m ≢ out_of_fuel
    → ((a : A) (q : Parser I) → m ≡ parsed a q → next a q ≢ out_of_fuel)
    → (m >>? next) ≢ out_of_fuel
>>?-returns (parsed a q) next n h = h a q refl
>>?-returns (failed x q) next n h = λ e. cc e
>>?-returns panic next n h = λ e. cc e
>>?-returns out_of_fuel next n h = absurd (n refl)

operator-real :
    (kind : TokenKind.TokenKind) (op : BinaryOpKind)
    → from_tokenkind kind ≡ some op
    → kind ≢ TokenKind.eof
unfolding from_tokenkind
operator-real kind op e same = let nothing : none ≡ some op = rw same at e in cc nothing

module _ {I : Type 0} where
  build-returns :
      (k : BinaryOpKind) (lhs rhs : ParsedExpressionId) (p : Parser I)
      → build k lhs rhs p ≢ out_of_fuel
  build-returns k lhs rhs p = elim (build-cases k lhs rhs p) [
    | inl e ↦ rw e (λ c. cc c)
    | inr (id, r, e, b) ↦ rw e (λ c. cc c)
  ]

  if-returns {ℓ} :
      {A : Type ℓ} (b : Bool) (m n : ParseResult I A)
      → m ≢ out_of_fuel
      → n ≢ out_of_fuel
      → (if b then m else n) ≢ out_of_fuel
  if-returns true m n h k = h
  if-returns false m n h k = k

  parsed-returns {ℓ} :
      {A : Type ℓ} (a : A) (p : Parser I) → ◌≢◌ {A = ParseResult I A} (parsed a p) out_of_fuel
  parsed-returns a p e = cc e

  panic-returns {ℓ} : {A : Type ℓ} → ◌≢◌ {A = ParseResult I A} panic out_of_fuel
  panic-returns e = cc e

  reduce-returns :
      (prec last : ℕ) (top : ExprStackMember) (members : List ExprStackMember) (p : Parser I)
      → reduce prec last top members p ≢ out_of_fuel
  unfolding reduce
  reduce-returns prec last top [] p = parsed-returns _ p
  reduce-returns prec last (expr rhs) (operator k span ∷ expr lhs ∷ rest) p =
      if-returns (leb prec last) _ _
        (if-returns (ltb (precedence k) prec) _ _ (parsed-returns _ p) (
          >>?-returns (build k lhs rhs p) _ (build-returns k lhs rhs p)
            (λ id q e. reduce-returns prec (precedence k) (expr id) rest q)))
        (parsed-returns _ p)
  reduce-returns prec last (expr rhs) (operator k span ∷ []) p =
      if-returns (leb prec last) _ _
        (if-returns (ltb (precedence k) prec) _ _ (parsed-returns _ p) panic-returns)
        (parsed-returns _ p)
  reduce-returns prec last (expr rhs) (operator k span ∷ operator k2 s2 ∷ rest) p =
      if-returns (leb prec last) _ _
        (if-returns (ltb (precedence k) prec) _ _ (parsed-returns _ p) panic-returns)
        (parsed-returns _ p)
  reduce-returns prec last (expr rhs) (expr lhs ∷ rest) p =
      if-returns (leb prec last) _ _ panic-returns (parsed-returns _ p)
  reduce-returns prec last (operator k span) (m ∷ rest) p =
      if-returns (leb prec last) _ _ panic-returns (parsed-returns _ p)

  build_rest-returns :
      (top : ExprStackMember) (members : List ExprStackMember) (p : Parser I)
      → build_rest top members p ≢ out_of_fuel
  unfolding build_rest
  build_rest-returns (expr e) [] p = parsed-returns e p
  build_rest-returns (expr rhs) (operator k span ∷ expr lhs ∷ rest) p =
      >>?-returns (build k lhs rhs p) _ (build-returns k lhs rhs p)
        (λ id q e. build_rest-returns (expr id) rest q)
  build_rest-returns (expr rhs) (operator k span ∷ []) p = panic-returns
  build_rest-returns (expr rhs) (operator k span ∷ operator k2 s2 ∷ rest) p = panic-returns
  build_rest-returns (expr rhs) (expr lhs ∷ rest) p = panic-returns
  build_rest-returns (operator k span) [] p = panic-returns
  build_rest-returns (operator k span) (m ∷ rest) p = panic-returns

  build_stack-returns :
      (stack : List ExprStackMember) (p : Parser I) → build_stack stack p ≢ out_of_fuel
  unfolding build_stack
  build_stack-returns [] p = panic-returns
  build_stack-returns (top ∷ rest) p = build_rest-returns top rest p

  reduce_stack-returns :
      (prec last : ℕ) (stack : List ExprStackMember) (p : Parser I)
      → reduce_stack prec last stack p ≢ out_of_fuel
  unfolding reduce_stack
  reduce_stack-returns prec last [] p = parsed-returns [] p
  reduce_stack-returns prec last (top ∷ rest) p = reduce-returns prec last top rest p

  expect-returns {ℓ} :
      {A : Type ℓ} (what : List ℕ) (t : Token) (m : ParseResult I (Option A))
      → m ≢ out_of_fuel
      → expect what t m ≢ out_of_fuel
  unfolding expect
  expect-returns what t (parsed (some a) q) n = parsed-returns a q
  expect-returns what t (parsed none q) n = λ e. cc e
  expect-returns what t (failed x q) n = λ e. cc e
  expect-returns what t panic n = panic-returns
  expect-returns what t out_of_fuel n = absurd (n refl)

  module _ (operand : Parser I → ParseResult I (Option ParsedExpressionId)) where
    -- Parsing an operand ends, and where one is read, the tokens are as they were and the cursor is
    -- not in front of where it was. This is asked of the operands that are come to: those behind an
    -- operator that stands behind operands and operators that are read.
    abbrev pub OperandsEnd : Parser I → Type 0
    OperandsEnd first =
        (chain : List (BinaryOpKind × ParsedExpressionId)) (q : Parser I) (op : BinaryOpKind)
        → Operands operand first chain q
        → from_tokenkind (peek q).kind ≡ some op
        → (operand (advance q) ≢ out_of_fuel)
          × ((r : Parser I) (a : Option ParsedExpressionId)
              → operand (advance q) ≡ parsed a r
              → (r.tokens.tokens ≡ (advance q).tokens.tokens)
                × ((advance q).tokens.cursor ≤ r.tokens.cursor))

    operator_loop-returns :
        (first : Parser I) (ends : OperandsEnd first) (f : ℕ) (stack : List ExprStackMember)
        (last : ℕ) (p : Parser I) (chain : List (BinaryOpKind × ParsedExpressionId))
        → Operands operand first chain p
        → 0 < f
        → length p.tokens.tokens < f + p.tokens.cursor
        → operator_loop operand f stack last p ≢ out_of_fuel
    unfolding operator_loop advance Token.advance
    operator_loop-returns first ends zero stack last p chain read h enough =
        absurd (omega (arith, h))
    operator_loop-returns first ends (suc f) stack last p chain read h enough =
        elim (Option-cases (from_tokenkind (peek p).kind)) [
          | inl k ↦ rw (operator_loop, k) (parsed-returns stack p)
          | inr (op, k) ↦
              let below = cursor-At p (peek p).kind refl (operator-real (peek p).kind op k) in
              rw (operator_loop, k)
                (>>?-returns _ _ (expect-returns _ _ _ (ends chain p op read k).0) (λ rhs q e1.
                  >>?-returns _ _ (reduce_stack-returns (precedence op) last stack q)
                    (λ reduced r e2.
                      let parsed_rhs = expect-value _ _ _ e1 in
                      let kept = (ends chain p op read k).1 q (some rhs) parsed_rhs in
                      let adds =
                        reduce_stack-Adds operand (precedence op) last stack reduced q r e2 in
                      let cursor : r.tokens.cursor ≡ q.tokens.cursor = ap (λ t. t.cursor) adds.0 in
                      let long : length r.tokens.tokens ≡ length p.tokens.tokens =
                        ap (λ t. length t.tokens) adds.0 ∙ ap length kept.0 in
                      operator_loop-returns first ends f _ (precedence op) r
                        (chain ++ (op, rhs) ∷ []) (operation read k parsed_rhs adds)
                        (omega (arith, below, enough))
                        (omega (arith, kept.1, cursor, long, enough)))))
        ]

    -- The loops over the operators end, where for each operand that they come to, one behind an
    -- operator that stands behind operands and operators that are read, parsing ends, leaves the
    -- tokens as they are and does not go back.
    pub binary_operators-returns :
        (e : ParsedExpressionId) (p : Parser I)
        → OperandsEnd p
        → binary_operators operand e p ≢ out_of_fuel
    unfolding binary_operators
    binary_operators-returns e p ends =
        >>?-returns (operator_loop operand (suc (length p.tokens.tokens)) (expr e ∷ []) 100000 p) _
          (operator_loop-returns p ends (suc (length p.tokens.tokens)) (expr e ∷ []) 100000 p []
            no_operators (omega arith) (omega arith))
          (λ stack q h. build_stack-returns stack q)
