-- ===== src/Parser/Precedence/Operators.antt =====
-- src/k1/parse.rs, `parse_expression`: operands and operators become one tree by precedence.
use mathlib.Core.Path.{subst}
use bfl.Parser.Precedence.Stack.{Adds-Fits, build_rest-Grouped, reduce-Reduced, Grouped, Fits}
use bfl.Parser.Precedence.Keeps.{build_rest-Adds, reduce-Adds, same_state}
use bfl.Parser.Precedence.Build.{panic-≢-parsed, >>?-value, Adds, exprs}
use bfl.Token.{Token}
use bfl.Prelude.{
  refl, ◌∙◌, sym, ◌<◌, length-append, inr, ap, Option-cases, inl, arith, ◌⊎◌, zero, ◌∷◌, suc, ◌≤◌,
  ◌++◌, length, none, some, [], ◌≡◌, ℕ, List, Option,
}
use bfl.BinaryOp.{BinaryOpKind, precedence, from_tokenkind}
use bfl.Syntax.{ParsedExpression, ParsedExpressionId}
use bfl.Parser.{out_of_fuel, panic, failed, advance, parsed, peek, expect, Parser, ParseResult}
use bfl.Parser.Precedence.{
  build_rest, build_stack, binary_operators, ExprStackMember, operator, expr, reduce_stack,
  operator_loop,
}
use bfl.Parser.Precedence.Trees.{
  StackHolds-append, Looser, leaf, others, leftmost, WellShaped, all_others, Denotes, all_leftmost,
  InOrder, StackHolds, Pending, Tree,
}

pub expect-value {ℓ} :
    {I : Type 0} {A : Type ℓ} {a : A} {q : Parser I} (what : List ℕ) (t : Token)
    (m : ParseResult I (Option A))
    → expect what t m ≡ parsed a q
    → m ≡ parsed (some a) q
unfolding expect
expect-value {a = a} {q = q} what t (parsed (some b) p) e =
    let same : b ≡ a = cc e in let state : p ≡ q = cc e in cc (same, state)
expect-value what t (parsed none p) e = cc
expect-value what t (failed x p) e = cc
expect-value what t panic e = cc
expect-value what t out_of_fuel e = cc

module _ {I : Type 0} (operand : Parser I → ParseResult I (Option ParsedExpressionId)) where
  -- The operators and operands that the parser of operands reads one behind the other. Between them
  -- only binary operations are added to the expressions.
  pub data Operands (first : Parser I)
      : List (BinaryOpKind × ParsedExpressionId) → Parser I → Type 0 where
    no_operators : Operands first [] first
    operation :
        {chain : List (BinaryOpKind × ParsedExpressionId)} {op : BinaryOpKind}
        {e : ParsedExpressionId} {p q r : Parser I}
        → Operands first chain p
        → from_tokenkind (peek p).kind ≡ some op
        → operand (advance p) ≡ parsed (some e) q
        → Adds q r
        → Operands first (chain ++ (op, e) ∷ []) r

  -- A parser that leaves the expressions that are there as they are.
  abbrev pub Extends : Type 0
  Extends =
      (o : Option ParsedExpressionId) (p q : Parser I)
      → operand p ≡ parsed o q
      → (more : List ParsedExpression) × (exprs q ≡ exprs p ++ more)

  -- One tree of all that is read, up to a token that is no operator.
  abbrev pub ByPrecedence : Parser I → ParsedExpressionId → ParsedExpressionId → Parser I → Type 0
  ByPrecedence first e0 id r =
      (chain : List (BinaryOpKind × ParsedExpressionId)) × (last : Parser I) × (t : Tree) × Operands
        first chain last
      × (from_tokenkind (peek last).kind ≡ none)
      × Adds last r
      × Denotes (exprs r) id t
      × WellShaped t
      × (leftmost t ≡ e0)
      × (others t ≡ chain)

  -- A stack on which everything read so far stands.
  record Stacked (first : Parser I) (e0 : ParsedExpressionId) (stack : List ExprStackMember)
      (p : Parser I) : Type 0 where
    chain : List (BinaryOpKind × ParsedExpressionId)
    tree : Tree
    rest : Pending
    read : Operands first chain p
    holds : StackHolds (exprs p) stack tree rest
    order : InOrder tree rest
    same_first : all_leftmost tree rest ≡ e0
    same_others : all_others tree rest ≡ chain

  -- A round of the loop ends it, or goes on behind an operator and an operand.
  operator_loop-round :
      (f : ℕ) (stack stack' : List ExprStackMember) (last : ℕ) (p q : Parser I)
      → operator_loop operand (suc f) stack last p ≡ parsed stack' q
      → ((from_tokenkind (peek p).kind ≡ none) × (stack ≡ stack') × (p ≡ q))
        ⊎ ((op : BinaryOpKind) × (e : ParsedExpressionId) × (p1 p2 : Parser I) × (reduced : List
              ExprStackMember)
            × (from_tokenkind (peek p).kind ≡ some op)
            × (operand (advance p) ≡ parsed (some e) p1)
            × (reduce_stack (precedence op) last stack p1 ≡ parsed reduced p2)
            × (operator_loop operand f
                  (expr e ∷ operator op (peek p).span ∷ reduced)
                  (precedence op)
                  p2
                ≡ parsed stack' q))
  unfolding operator_loop
  operator_loop-round f stack stack' last p q e =
      elim (Option-cases (from_tokenkind (peek p).kind)) [
        | inl k ↦
            let done : ◌≡◌ {A = ParseResult I (List ExprStackMember)} (parsed stack p)
                (parsed stack' q) =
              rw (operator_loop, k) at e in
            inl (k, cc done, cc done)
        | inr (op, k) ↦
            let (rhs, p1, e1, e2) = >>?-value _ _ (rw (operator_loop, k) at e) in
            let (reduced, p2, e3, e4) = >>?-value _ _ e2 in
            inr (op, rhs, p1, p2, reduced, k, expect-value _ _ _ e1, e3, e4)
      ]

  pub reduce_stack-Adds :
      (prec last : ℕ) (stack stack' : List ExprStackMember) (p q : Parser I)
      → reduce_stack prec last stack p ≡ parsed stack' q
      → Adds p q
  unfolding reduce_stack
  reduce_stack-Adds prec last [] stack' p q e = same_state p q [] stack' e
  reduce_stack-Adds prec last (top ∷ rest) stack' p q e =
      reduce-Adds prec last top rest p q stack' e

  module _ (extends : Extends) where
    grown :
        (p q : Parser I)
        → (more : List ParsedExpression) × (exprs q ≡ exprs p ++ more)
        → length (exprs p) ≤ length (exprs q)
    grown p q (more, e) = omega (arith, ap length e, length-append (exprs p) more)

    operator_loop-grows :
        (f : ℕ) (stack stack' : List ExprStackMember) (last : ℕ) (p q : Parser I)
        → operator_loop operand f stack last p ≡ parsed stack' q
        → length (exprs p) ≤ length (exprs q)
    unfolding operator_loop advance
    operator_loop-grows zero stack stack' last p q e = cc
    operator_loop-grows (suc f) stack stack' last p q e =
        elim (operator_loop-round f stack stack' last p q e) [
          | inl (k, s, same) ↦ omega (arith, ap (λ x. length (exprs x)) same)
          | inr (op, rhs, p1, p2, reduced, k, e1, e2, e3) ↦
              let one = grown (advance p) p1 (extends (some rhs) (advance p) p1 e1) in
              let adds = reduce_stack-Adds (precedence op) last stack reduced p1 p2 e2 in
              let two = grown p1 p2 (adds.1, adds.3) in
              let three = operator_loop-grows f _ stack' (precedence op) p2 q e3 in
              omega (arith, one, two, three)
        ]

    Looser-weaken : (n m : ℕ) (rest : Pending) → Looser (suc n) rest → n < m → Looser m rest
    Looser-weaken n m [] h l = tt
    Looser-weaken n m ((k, t) ∷ rest) h l = omega (arith, h, l)

    -- Where the top of the stack is the operand just read.
    operator_loop-Stacked :
        (f : ℕ) (first : Parser I) (e0 id : ParsedExpressionId)
        (members stack : List ExprStackMember) (last : ℕ) (p q : Parser I) (rest : Pending)
        (chain : List (BinaryOpKind × ParsedExpressionId))
        → Operands first chain p
        → StackHolds (exprs p) (expr id ∷ members) (leaf id) rest
        → InOrder (leaf id) rest
        → Looser (suc last) rest
        → all_leftmost (leaf id) rest ≡ e0
        → all_others (leaf id) rest ≡ chain
        → operator_loop operand f (expr id ∷ members) last p ≡ parsed stack q
        → Fits q
        → Stacked first e0 stack q × (from_tokenkind (peek q).kind ≡ none)
    unfolding operator_loop reduce_stack advance
    operator_loop-Stacked zero first e0 id members stack last p q rest chain read h o l s1 s2 e
          fits =
        cc
    operator_loop-Stacked (suc f) first e0 id members stack last p q rest chain read h o l s1 s2 e
          fits =
        elim (operator_loop-round f (expr id ∷ members) stack last p q e) [
          | inl (k, same, state) ↦
              subst (λ r. Stacked first e0 stack r × (from_tokenkind (peek r).kind ≡ none)) state
                (
                  subst (λ st. Stacked first e0 st p) same
                      (record {
                        chain = chain;
                        tree = leaf id;
                        rest = rest;
                        read = read;
                        holds = h;
                        order = o;
                        same_first = s1;
                        same_others = s2;
                      }),
                  k,
                )
          | inr (op, rhs, p1, p2, reduced, k, e1, e2, e3) ↦
              let (more, longer) = extends (some rhs) (advance p) p1 e1 in
              let fits2 : Fits p2 =
                omega (arith, operator_loop-grows f _ stack (precedence op) p2 q e3, fits) in
              let x =
                reduce-Reduced (precedence op) last id members p1 p2 (leaf id) rest reduced
                  (subst (λ es. StackHolds es (expr id ∷ members) (leaf id) rest) (sym longer)
                    (StackHolds-append (exprs p) more (expr id ∷ members) (leaf id) rest h))
                  o tt (λ low. Looser-weaken last (precedence op) rest l low) e2 fits2 in
              operator_loop-Stacked f first e0 rhs (operator op (peek p).span ∷ reduced) stack
                (precedence op) p2 q ((op, x.tree) ∷ x.waiting) (chain ++ (op, rhs) ∷ [])
                (operation read k e1 x.adds) (refl, refl, x.holds)
                (tt, tt, x.tight, x.looser, x.order) (omega arith) (x.same_first ∙ s1)
                (ap (λ c. c ++ (op, rhs) ∷ []) (x.same_others ∙ s2)) e3 fits
        ]

    build_stack-Adds :
        (stack : List ExprStackMember) (p r : Parser I) (e : ParsedExpressionId)
        → build_stack stack p ≡ parsed e r
        → Adds p r
    unfolding build_stack build_rest
    build_stack-Adds [] p r e eq = absurd (panic-≢-parsed e r eq)
    build_stack-Adds (operator k span ∷ ms) p r e eq = absurd (panic-≢-parsed e r eq)
    build_stack-Adds (expr id ∷ ms) p r e eq = build_rest-Adds id ms p r e eq

    build_stack-Grouped :
        (stack : List ExprStackMember) (p r : Parser I) (t : Tree) (rest : Pending)
        (e : ParsedExpressionId)
        → StackHolds (exprs p) stack t rest
        → InOrder t rest
        → build_stack stack p ≡ parsed e r
        → Fits r
        → Grouped t rest r e
    unfolding build_stack
    build_stack-Grouped [] p r t rest e h o eq fits = absurd h
    build_stack-Grouped (operator k span ∷ ms) p r t rest e h o eq fits = absurd h
    build_stack-Grouped (expr id ∷ ms) p r t rest e h o eq fits =
        build_rest-Grouped id ms p r t rest e h o eq fits

    -- Where parsing an operand leaves the expressions that are there alone, and no more than 2 ^ 32
    -- are made: the expression that operands with operators between them become is one tree with the
    -- first operand and all that are read behind it, in order, up to a token that is no operator.
    -- Tighter operators are below looser ones, and operators of one precedence lean to the left.
    pub binary_operators-ByPrecedence :
        (e id : ParsedExpressionId) (p r : Parser I)
        → binary_operators operand e p ≡ parsed id r
        → Fits r
        → ByPrecedence p e id r
    unfolding binary_operators
    binary_operators-ByPrecedence e id p r eq fits =
        let (stack, q, e1, e2) =
          >>?-value (operator_loop operand (suc (length p.tokens.tokens)) (expr e ∷ []) 100000 p)
            (λ stack q. build_stack stack q) eq in
        let adds = build_stack-Adds stack q r id e2 in
        let (x, stop) =
          operator_loop-Stacked (suc (length p.tokens.tokens)) p e e [] stack 100000 p q [] []
            no_operators refl tt tt refl refl e1 (Adds-Fits q r adds fits) in
        let (t, den, shape, s1, s2) =
          build_stack-Grouped stack q r x.tree x.rest id x.holds x.order e2 fits in
        (x.chain, q, t, x.read, stop, adds, den, shape, s1 ∙ x.same_first, s2 ∙ x.same_others)
