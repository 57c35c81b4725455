-- ===== src/Parser/Precedence/Stack.antt =====
-- src/k1/parse.rs, `parse_expression`: what the two inner loops do to a stack that is in order.
use bfl.Parser.Precedence.Keeps.{build_rest-Adds, reduce-Adds}
use mathlib.Core.Path.{subst}
use bfl.Prelude.{
  Bool-cases, ◌∙◌, sym, ltb, leb, inr, inl, refl, ◌≡◌, [], length-append, ◌∷◌, ap, arith, List, ◌≤◌,
  ◌<◌, length, ℕ,
}
use bfl.BinaryOp.{BinaryOpKind, precedence}
use bfl.Syntax
use bfl.Syntax.{ParsedExpression, ParsedExpressionId}
use bfl.Parser.{parsed, Parser, ParseResult}
use bfl.Parser.Precedence.{build_rest, ExprStackMember, operator, expr, reduce}
use bfl.Parser.Precedence.Trees.{
  others, leftmost, WellShaped, StackHolds-top, all_others-node, StackHolds-append, InOrder-node,
  StackHolds-swap, all_leftmost-node, Denotes, all_others, all_leftmost, Looser, AtLeast, InOrder,
  StackHolds, Pending, Tree, node,
}
use bfl.Parser.Precedence.Build.{
  Built-Denotes, build-cases, Built-Adds, Adds-trans, panic-≢-parsed, Adds-refl, Built, Adds, exprs,
}

module _ {I : Type 0} where
  -- The stack holds the same operands and operators, what is on top binds at least this tightly, and
  -- the operators that wait are looser.
  pub record Reduced (prec : ℕ) (t : Tree) (rest : Pending) (p : Parser I)
      (stack : List ExprStackMember) (r : Parser I) : Type 0 where
    pub adds : Adds p r
    pub tree : Tree
    pub waiting : Pending
    pub holds : StackHolds (exprs r) stack tree waiting
    pub order : InOrder tree waiting
    pub tight : AtLeast prec tree
    pub looser : Looser prec waiting
    pub same_first : all_leftmost tree waiting ≡ all_leftmost t rest
    pub same_others : all_others tree waiting ≡ all_others t rest

  -- If no more than 2 ^ 32 expressions are made.
  abbrev pub Fits : Parser I → Type 0
  Fits p = length (exprs p) ≤ 4294967296

  pub Adds-Fits : (p q : Parser I) → Adds p q → Fits q → Fits p
  Adds-Fits p q (t, more, b, e) fits =
      omega (arith, ap length e, length-append (exprs p) more, fits)

  Built-Fits :
      (k : BinaryOpKind) (lhs rhs id : ParsedExpressionId) (p r : Parser I)
      → Built k lhs rhs id p r
      → Fits r
      → length (exprs p) < 4294967296
  Built-Fits k lhs rhs id p r (span, same, e, i) fits =
      let long = ap length e in
      let sum =
        length-append (exprs p)
          (Syntax.binary_op (record { op_kind = k; lhs = lhs; rhs = rhs; span = span }) ∷ []) in
      omega (arith, long, sum, fits)

  -- Where the state is as it was.
  unmoved :
      (prec : ℕ) (t : Tree) (rest : Pending) (p r : Parser I) (stack stack' : List ExprStackMember)
      → StackHolds (exprs p) stack t rest
      → InOrder t rest
      → AtLeast prec t
      → Looser prec rest
      → ◌≡◌ {A = ParseResult I (List ExprStackMember)} (parsed stack p) (parsed stack' r)
      → Reduced prec t rest p stack' r
  unmoved prec t rest p r stack stack' h o a l e =
      let same : stack ≡ stack' = cc e in
      let state : p ≡ r = cc e in
      subst (λ s. Reduced prec t rest p s r) same
        (subst (λ s. Reduced prec t rest p stack s) state
          (record {
            adds = Adds-refl p;
            tree = t;
            waiting = rest;
            holds = h;
            order = o;
            tight = a;
            looser = l;
            same_first = refl;
            same_others = refl;
          }))

  -- The operation on the two topmost trees is one step.
  merged :
      (prec : ℕ) (k : BinaryOpKind) (left t : Tree) (rest : Pending) (p p' r : Parser I)
      (stack : List ExprStackMember)
      → Adds p p'
      → Reduced prec (node k left t) rest p' stack r
      → Reduced prec t ((k, left) ∷ rest) p stack r
  merged prec k left t rest p p' r stack a x = record {
    adds = Adds-trans p p' r a x.adds;
    tree = x.tree;
    waiting = x.waiting;
    holds = x.holds;
    order = x.order;
    tight = x.tight;
    looser = x.looser;
    same_first = x.same_first ∙ all_leftmost-node k left t rest;
    same_others = x.same_others ∙ all_others-node k left t rest;
  }

  Built-holds :
      (k : BinaryOpKind) (lhs rhs id : ParsedExpressionId) (p r : Parser I)
      (members : List ExprStackMember) (left t : Tree) (rest : Pending)
      → Built k lhs rhs id p r
      → Fits r
      → StackHolds (exprs p) (expr lhs ∷ members) left rest
      → Denotes (exprs p) rhs t
      → StackHolds (exprs r) (expr id ∷ members) (node k left t) rest
  Built-holds k lhs rhs id p r members left t rest built fits h d =
      StackHolds-swap (exprs r) lhs id members left (node k left t) rest
        (subst (λ es. StackHolds es (expr lhs ∷ members) left rest) (sym built.2)
          (StackHolds-append (exprs p) _ (expr lhs ∷ members) left rest h))
        (Built-Denotes k lhs rhs id p r left t built (Built-Fits k lhs rhs id p r built fits)
          (StackHolds-top (exprs p) lhs members left rest h) d)

  pub reduce-Reduced :
      (prec last : ℕ) (id : ParsedExpressionId) (members : List ExprStackMember) (p r : Parser I)
      (t : Tree) (rest : Pending) (stack : List ExprStackMember)
      → StackHolds (exprs p) (expr id ∷ members) t rest
      → InOrder t rest
      → AtLeast prec t
      → (last < prec → Looser prec rest)
      → reduce prec last (expr id) members p ≡ parsed stack r
      → Fits r
      → Reduced prec t rest p stack r
  unfolding reduce
  reduce-Reduced prec last id [] p r t [] stack h o a l e fits =
      unmoved prec t [] p r (expr id ∷ []) stack h o a tt e
  reduce-Reduced prec last id [] p r t (x ∷ rest) stack h o a l e fits = absurd h
  reduce-Reduced prec last id (operator k span ∷ expr lhs ∷ members) p r t ((k', left) ∷ rest) stack
        (d, ke, h) o a l e fits =
      let o' : InOrder t ((k, left) ∷ rest) =
        subst (λ j. InOrder t ((j, left) ∷ rest)) (sym ke) o in
      elim (Bool-cases (leb prec last)) [
        | inr q ↦
            unmoved prec t ((k', left) ∷ rest) p r _ stack (d, ke, h) o a (l (ground (arith, q)))
              (rw (reduce, q) at e)
        | inl q ↦ elim (Bool-cases (ltb (precedence k) prec)) [
          | inl q' ↦
              unmoved prec t ((k', left) ∷ rest) p r _ stack (d, ke, h) o a
                (subst (λ j. precedence j < prec) ke (ground (arith, q'))) (rw (reduce, q, q') at e)
          | inr q' ↦ elim (build-cases k lhs id p) [
            | inl eb ↦ absurd (panic-≢-parsed stack r (rw (reduce, q, q', eb) at e))
            | inr (id', p', eb, built) ↦
                let e' : reduce prec (precedence k) (expr id') members p' ≡ parsed stack r =
                  rw (reduce, q, q', eb) at e in
                let grown = reduce-Adds prec (precedence k) (expr id') members p' r stack e' in
                subst (λ j. Reduced prec t ((j, left) ∷ rest) p stack r) ke
                  (merged prec k left t rest p p' r stack (Built-Adds k lhs id id' p p' built) (
                    reduce-Reduced prec (precedence k) id' members p' r (node k left t) rest stack
                      (Built-holds k lhs id id' p p' members left t rest built
                        (Adds-Fits p' r grown fits) h d)
                      (InOrder-node k left t rest o') (ground (arith, q'))
                      (λ low. absurd (ground (arith, q', low))) e' fits))
          ]
        ]
      ]
  reduce-Reduced prec last id (operator k span ∷ expr lhs ∷ ms) p r t [] stack h o a l e fits =
      absurd h
  reduce-Reduced prec last id (operator k span ∷ []) p r t [] stack h o a l e fits = absurd h
  reduce-Reduced prec last id (operator k span ∷ []) p r t (x ∷ rest) stack h o a l e fits =
      absurd h.2
  reduce-Reduced prec last id (operator k span ∷ operator k2 s2 ∷ ms) p r t [] stack h o a l e
        fits =
      absurd h
  reduce-Reduced prec last id (operator k span ∷ operator k2 s2 ∷ ms) p r t (x ∷ rest) stack h o a l
        e fits =
      absurd h.2
  reduce-Reduced prec last id (expr x ∷ ms) p r t rest stack h o a l e fits = absurd h

  -- One well-shaped tree with the operands and operators of the stack.
  abbrev pub Grouped : Tree → Pending → Parser I → ParsedExpressionId → Type 0
  Grouped t rest r e =
      (whole : Tree) × Denotes (exprs r) e whole
      × WellShaped whole
      × (leftmost whole ≡ all_leftmost t rest)
      × (others whole ≡ all_others t rest)

  pub build_rest-Grouped :
      (id : ParsedExpressionId) (members : List ExprStackMember) (p r : Parser I) (t : Tree)
      (rest : Pending) (e : ParsedExpressionId)
      → StackHolds (exprs p) (expr id ∷ members) t rest
      → InOrder t rest
      → build_rest (expr id) members p ≡ parsed e r
      → Fits r
      → Grouped t rest r e
  unfolding build_rest
  build_rest-Grouped id [] p r t [] e h o eq fits =
      let state : p ≡ r = cc eq in
      let same : id ≡ e = cc eq in
      subst (λ q. Grouped t [] q e) state (subst (λ i. Grouped t [] p i) same (t, h, o, refl, refl))
  build_rest-Grouped id [] p r t (x ∷ rest) e h o eq fits = absurd h
  build_rest-Grouped id (operator k span ∷ expr lhs ∷ ms) p r t ((k', left) ∷ rest) e (d, ke, h) o
        eq fits =
      let o' : InOrder t ((k, left) ∷ rest) =
        subst (λ j. InOrder t ((j, left) ∷ rest)) (sym ke) o in
      elim (build-cases k lhs id p) [
        | inl eb ↦ absurd (panic-≢-parsed e r (rw (build_rest, eb) at eq))
        | inr (id', p', eb, built) ↦
            let e' : build_rest (expr id') ms p' ≡ parsed e r = rw (build_rest, eb) at eq in
            let grown = build_rest-Adds id' ms p' r e e' in
            let (whole, den, shape, same1, same2) =
              build_rest-Grouped id' ms p' r (node k left t) rest e
                (Built-holds k lhs id id' p p' ms left t rest built (Adds-Fits p' r grown fits) h d)
                (InOrder-node k left t rest o') e' fits in
            subst (λ j. Grouped t ((j, left) ∷ rest) r e) ke
              (
                whole,
                den,
                shape,
                same1 ∙ all_leftmost-node k left t rest,
                same2 ∙ all_others-node k left t rest,
              )
      ]
  build_rest-Grouped id (operator k span ∷ expr lhs ∷ ms) p r t [] e h o eq fits = absurd h
  build_rest-Grouped id (operator k span ∷ []) p r t [] e h o eq fits = absurd h
  build_rest-Grouped id (operator k span ∷ []) p r t (x ∷ rest) e h o eq fits = absurd h.2
  build_rest-Grouped id (operator k span ∷ operator k2 s2 ∷ ms) p r t [] e h o eq fits = absurd h
  build_rest-Grouped id (operator k span ∷ operator k2 s2 ∷ ms) p r t (x ∷ rest) e h o eq fits =
      absurd h.2
  build_rest-Grouped id (expr x ∷ ms) p r t rest e h o eq fits = absurd h
