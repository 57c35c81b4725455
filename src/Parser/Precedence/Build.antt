-- ===== src/Parser/Precedence/Build.antt =====
-- src/k1/parse.rs, `parse_expression`: what building one operation does to the state.
use mathlib.Core.Path.{subst}
use bfl.Prelude.{◌≢◌, some, inr, get_elem?, inl, Option-cases, ◌⊎◌}
use bfl.Prelude.{
  get_elem?-append_end, append_assoc, u32, arith, ◌∷◌, ◌<◌, ap, All-append, ◌⊎◌, length, refl,
  append-nil, sym, ◌++◌, All, [], ◌≡◌, List, ◌∙◌,
}
use bfl.Span.{SpanId, Spans}
use bfl.Syntax
use bfl.Syntax.{ParsedExpression, ParsedExpressionId}
use bfl.Syntax.Pools
use bfl.BinaryOp.{BinaryOpKind}
use bfl.Parser.{
  add_expression, out_of_fuel, panic, failed, parsed, get_expression_span, extend_expr_span, ◌>>?◌,
  Parser, ParseResult,
}
use bfl.Parser.Tokens.{extend_span-cases}
use bfl.Parser.Precedence.{build}
use bfl.Parser.Precedence.Trees.{Denotes, Tree, node, Denotes-append}

-- A parse that goes on has a value and a state to go on from.
pub >>?-value {ℓ κ} :
    {I : Type 0} {A : Type ℓ} {B : Type κ} {b : B} {r : Parser I} (m : ParseResult I A)
    (next : A → Parser I → ParseResult I B)
    → (m >>? next) ≡ parsed b r
    → (a : A) × (q : Parser I) × (m ≡ parsed a q) × (next a q ≡ parsed b r)
>>?-value (parsed a q) next e = (a, q, refl, e)
>>?-value (failed x q) next e = cc
>>?-value panic next e = cc
>>?-value out_of_fuel next e = cc

pub panic-≢-parsed {ℓ} :
    {I : Type 0} {A : Type ℓ} (a : A) (r : Parser I) → ◌≢◌ {A = ParseResult I A} panic (parsed a r)
panic-≢-parsed a r e = cc e

abbrev pub exprs : {I : Type 0} → Parser I → List ParsedExpression
exprs p = p.program.expressions.expressions

abbrev pub IsBinary : ParsedExpression → Type 0
IsBinary (Syntax.binary_op b) = Unit
IsBinary _ = ⊥

-- The tokens are as they were, and only binary operations are added to the expressions.
abbrev pub Adds : {I : Type 0} → Parser I → Parser I → Type 0
Adds p q =
    (q.tokens ≡ p.tokens)
    × (more : List ParsedExpression) × All IsBinary more
    × (exprs q ≡ exprs p ++ more)

module _ {I : Type 0} where
  pub Adds-refl : (p : Parser I) → Adds p p
  Adds-refl p = (refl, [], tt, sym (append-nil (exprs p)))

  pub Adds-trans : (p q r : Parser I) → Adds p q → Adds q r → Adds p r
  Adds-trans p q r (a, more, b, c) (a', more', b', c') = (
    a' ∙ a,
    more ++ more',
    All-append IsBinary more more' b b',
    c' ∙ ap (λ es. es ++ more') c ∙ append_assoc (exprs p) more more',
  )

  get_expression_span-cases :
      (p : Parser I) (e : ParsedExpressionId)
      → (get_expression_span p e ≡ panic)
        ⊎ ((span : SpanId) × (get_expression_span p e ≡ parsed span p))
  unfolding get_expression_span
  get_expression_span-cases p e = elim (Option-cases (Pools.get_span p.program.expressions e)) [
    | inl q ↦ inl (rw (get_expression_span, q) refl)
    | inr (span, q) ↦ inr (span, rw (get_expression_span, q) refl)
  ]

  extend_expr_span-cases :
      (p : Parser I) (lhs rhs : ParsedExpressionId)
      → (extend_expr_span p lhs rhs ≡ panic)
        ⊎ ((id : SpanId) × (spans : Spans) × (extend_expr_span p lhs rhs
              ≡ parsed id (record p { program = record p.program { spans = spans } })))
  unfolding extend_expr_span
  extend_expr_span-cases p lhs rhs = elim (get_expression_span-cases p lhs) [
    | inl q ↦ inl (rw (extend_expr_span, q) refl)
    | inr (span1, q) ↦ elim (get_expression_span-cases p rhs) [
      | inl q' ↦ inl (rw (extend_expr_span, q, q') refl)
      | inr (span2, q') ↦ rw (extend_expr_span, q, q') (extend_span-cases p span1 span2)
    ]
  ]

  -- The operation is the next expression.
  abbrev pub Built : BinaryOpKind → (lhs rhs id : ParsedExpressionId) (p r : Parser I) → Type 0
  Built k lhs rhs id p r =
      (span : SpanId) × (r.tokens ≡ p.tokens)
      × (exprs r
          ≡ exprs p
            ++ Syntax.binary_op (record { op_kind = k; lhs = lhs; rhs = rhs; span = span }) ∷ [])
      × (id ≡ u32 (length (exprs p)))

  pub build-cases :
      (k : BinaryOpKind) (lhs rhs : ParsedExpressionId) (p : Parser I)
      → (build k lhs rhs p ≡ panic)
        ⊎ ((id : ParsedExpressionId) × (r : Parser I) × (build k lhs rhs p ≡ parsed id r)
            × Built k lhs rhs id p r)
  unfolding build add_expression Pools.add_expression
  build-cases k lhs rhs p = elim (extend_expr_span-cases p lhs rhs) [
    | inl q ↦ inl (rw (build, q) refl)
    | inr (span, spans, q) ↦
        let grown : Parser I = record p { program = record p.program { spans = spans } } in
        let op = Syntax.binary_op (record { op_kind = k; lhs = lhs; rhs = rhs; span = span }) in
        inr (
          (add_expression grown op).1,
          (add_expression grown op).0,
          rw (build, q) refl,
          (span, refl, refl, refl),
        )
  ]

  pub Built-Adds :
      (k : BinaryOpKind) (lhs rhs id : ParsedExpressionId) (p r : Parser I)
      → Built k lhs rhs id p r
      → Adds p r
  Built-Adds k lhs rhs id p r (span, t, e, i) = (t, _, (tt, tt), e)

  -- It denotes the node over what its sides denote, where ids fit 32 bits.
  pub Built-Denotes :
      (k : BinaryOpKind) (lhs rhs id : ParsedExpressionId) (p r : Parser I) (l t : Tree)
      → Built k lhs rhs id p r
      → length (exprs p) < 4294967296
      → Denotes (exprs p) lhs l
      → Denotes (exprs p) rhs t
      → Denotes (exprs r) id (node k l t)
  Built-Denotes k lhs rhs id p r l t (span, same, e, i) small dl dt =
      let here : id ≡ length (exprs p) = omega (arith, i, small) in
      let found : get_elem? (exprs r) id
          ≡ some (Syntax.binary_op (record { op_kind = k; lhs = lhs; rhs = rhs; span = span })) =
        rw (e, here) (get_elem?-append_end (exprs p) _) in
      (
        record { op_kind = k; lhs = lhs; rhs = rhs; span = span },
        found,
        refl,
        subst (λ es. Denotes es lhs l) (sym e) (Denotes-append (exprs p) _ lhs l dl),
        subst (λ es. Denotes es rhs t) (sym e) (Denotes-append (exprs p) _ rhs t dt),
      )
