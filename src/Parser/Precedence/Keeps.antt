-- ===== src/Parser/Precedence/Keeps.antt =====
-- src/k1/parse.rs, `parse_expression`: the two inner loops only add binary operations.
use mathlib.Core.Path.{subst}
use bfl.Parser.Precedence.Build.{
  Built-Adds, Adds-trans, panic-≢-parsed, build-cases, Built, Adds-refl, Adds,
}
use bfl.Prelude.{ltb, [], leb, inr, inl, false, ◌⊎◌, true, ◌∷◌, if◌then◌else◌, ◌≡◌, List, Bool, ℕ}
use bfl.BinaryOp.{precedence}
use bfl.Syntax.{ParsedExpressionId}
use bfl.Parser.{◌>>?◌, panic, parsed, Parser, ParseResult}
use bfl.Parser.Precedence.{ExprStackMember, operator, expr, build, reduce, build_rest}

module _ {I : Type 0} where
  pub same_state :
      (p r : Parser I) (stack stack' : List ExprStackMember)
      → ◌≡◌ {A = ParseResult I (List ExprStackMember)} (parsed stack p) (parsed stack' r)
      → Adds p r
  same_state p r stack stack' e =
      let state : p ≡ r = cc e in subst (λ q. Adds p q) state (Adds-refl p)

  or_panic :
      (b : Bool) (p r : Parser I) (stack stack' : List ExprStackMember)
      → ◌≡◌ {A = ParseResult I (List ExprStackMember)}
          (if b then parsed stack p else panic)
          (parsed stack' r)
      → Adds p r
  or_panic true p r stack stack' e = same_state p r stack stack' e
  or_panic false p r stack stack' e = cc

  panic_or :
      (b : Bool) (p r : Parser I) (stack stack' : List ExprStackMember)
      → ◌≡◌ {A = ParseResult I (List ExprStackMember)}
          (if b then panic else parsed stack p)
          (parsed stack' r)
      → Adds p r
  panic_or true p r stack stack' e = cc
  panic_or false p r stack stack' e = same_state p r stack stack' e

  panic_inside :
      (b c : Bool) (p r : Parser I) (stack stack' : List ExprStackMember)
      → ◌≡◌ {A = ParseResult I (List ExprStackMember)}
          (if b then (if c then parsed stack p else panic) else parsed stack p)
          (parsed stack' r)
      → Adds p r
  panic_inside true c p r stack stack' e = or_panic c p r stack stack' e
  panic_inside false c p r stack stack' e = same_state p r stack stack' e

  pub reduce-Adds :
      (prec last : ℕ) (top : ExprStackMember) (members : List ExprStackMember) (p r : Parser I)
      (stack : List ExprStackMember)
      → reduce prec last top members p ≡ parsed stack r
      → Adds p r
  unfolding reduce
  reduce-Adds prec last top [] p r stack e = same_state p r _ stack e
  reduce-Adds prec last (expr rhs) (operator k span ∷ expr lhs ∷ rest) p r stack e =
      go (leb prec last) (ltb (precedence k) prec) (build-cases k lhs rhs p) e
        (λ id q e'. reduce-Adds prec (precedence k) (expr id) rest q r stack e')
    where
      go :
          (b c : Bool)
          → ((build k lhs rhs p ≡ panic)
              ⊎ ((id : ParsedExpressionId) × (r : Parser I) × (build k lhs rhs p ≡ parsed id r)
                  × Built k lhs rhs id p r))
          → (if b
              then (if c
                  then parsed (expr rhs ∷ operator k span ∷ expr lhs ∷ rest) p
                  else (build k lhs rhs p >>? λ id q. reduce prec (precedence k) (expr id) rest q))
              else parsed (expr rhs ∷ operator k span ∷ expr lhs ∷ rest) p)
            ≡ parsed stack r
          → ((id : ParsedExpressionId) (q : Parser I)
              → reduce prec (precedence k) (expr id) rest q ≡ parsed stack r
              → Adds q r)
          → Adds p r
      go false c h e next = same_state p r _ stack e
      go true true h e next = same_state p r _ stack e
      go true false (inl q) e next = absurd (panic-≢-parsed stack r (rw q at e))
      go true false (inr (id, q, eb, built)) e next =
          Adds-trans p q r (Built-Adds k lhs rhs id p q built) (next id q (rw eb at e))
  reduce-Adds prec last (expr rhs) (operator k span ∷ []) p r stack e =
      panic_inside (leb prec last) (ltb (precedence k) prec) p r _ stack e
  reduce-Adds prec last (expr rhs) (operator k span ∷ operator k' span' ∷ rest) p r stack e =
      panic_inside (leb prec last) (ltb (precedence k) prec) p r _ stack e
  reduce-Adds prec last (expr rhs) (expr lhs ∷ rest) p r stack e =
      panic_or (leb prec last) p r _ stack e
  reduce-Adds prec last (operator k span) (m ∷ rest) p r stack e =
      panic_or (leb prec last) p r _ stack e

  pub build_rest-Adds :
      (id : ParsedExpressionId) (members : List ExprStackMember) (p r : Parser I)
      (e : ParsedExpressionId)
      → build_rest (expr id) members p ≡ parsed e r
      → Adds p r
  unfolding build_rest
  build_rest-Adds id [] p r e h =
      let state : p ≡ r = cc h in subst (λ q. Adds p q) state (Adds-refl p)
  build_rest-Adds id (operator k span ∷ expr lhs ∷ members) p r e h =
      elim (build-cases k lhs id p) [
        | inl eb ↦ absurd (panic-≢-parsed e r (rw (build_rest, eb) at h))
        | inr (id', p', eb, built) ↦
            Adds-trans p p' r (Built-Adds k lhs id id' p p' built)
              (build_rest-Adds id' members p' r e (rw (build_rest, eb) at h))
      ]
  build_rest-Adds id (operator k span ∷ []) p r e h = absurd (panic-≢-parsed e r h)
  build_rest-Adds id (operator k span ∷ operator k2 s2 ∷ ms) p r e h = absurd (panic-≢-parsed e r h)
  build_rest-Adds id (expr x ∷ ms) p r e h = absurd (panic-≢-parsed e r h)
