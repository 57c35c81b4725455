-- ===== src/Scopes/Ancestors.antt =====
-- src/k1/typer/scopes.rs, `scope_has_ancestor`: it decides whether one scope lies below another.
use mathlib.Core.Path.{subst}
use bfl.Scopes.Chain.{IsTree}
use bfl.Prelude.{
  zero, Option-cases, get_elem?-of_lt, ap, ◌∙◌, ==_iff, ◌==◌, Bool-cases, inr, inl, suc, false,
  arith, none, true, ◌⊎◌, some, length, ◌≡◌, ℕ, ◌<◌, get_elem?, Bool,
}
use bfl.Outcome.{out_of_fuel, panic, ok, Outcome}
use bfl.Scopes.Table.{Scope, ScopeId}
use bfl.Scopes.{get_scope, scope_has_ancestor, ancestor_loop, Scopes}

-- `ancestor` is the parent of the scope, or lies above it.
pub data Above (scopes : Scopes) (ancestor : ScopeId) : ScopeId → Type 0 where
  parent :
      {id : ScopeId} (scope : Scope)
      → get_elem? scopes id ≡ some scope
      → scope.parent ≡ some ancestor
      → Above scopes ancestor id
  further :
      {id : ScopeId} (scope : Scope) (p : ScopeId)
      → get_elem? scopes id ≡ some scope
      → scope.parent ≡ some p
      → Above scopes ancestor p
      → Above scopes ancestor id

module _ (scopes : Scopes) (ancestor : ScopeId) where
  -- What an answer says of the scope `id`.
  abbrev pub Decides : ScopeId → Outcome Bool → Type 0
  Decides id (ok true) = Above scopes ancestor id
  Decides id (ok false) = ¬ Above scopes ancestor id
  Decides id panic = ⊥
  Decides id out_of_fuel = ⊥

  -- The parent of a scope that lies below `ancestor` is `ancestor` or lies below it.
  Above-parent :
      {id : ScopeId} (scope : Scope) (p : ScopeId)
      → get_elem? scopes id ≡ some scope
      → scope.parent ≡ some p
      → Above scopes ancestor id
      → (p ≡ ancestor) ⊎ Above scopes ancestor p
  Above-parent scope p e q (parent s f r) = inl (cc (e, f, q, r))
  Above-parent scope p e q (further s p' f r a) =
      let same : p' ≡ p = cc (e, f, q, r) in inr (subst (λ x. Above scopes ancestor x) same a)

  Above-root :
      {id : ScopeId} (scope : Scope)
      → get_elem? scopes id ≡ some scope
      → scope.parent ≡ none
      → ¬ Above scopes ancestor id
  Above-root scope e q (parent s f r) = cc (e, f, q, r)
  Above-root scope e q (further s p f r a) = cc (e, f, q, r)

  ancestor_loop-Decides :
      (f : ℕ) (id : ScopeId)
      → IsTree scopes
      → id < length scopes
      → id < f
      → Decides id (ancestor_loop f scopes id ancestor)
  unfolding ancestor_loop get_scope
  ancestor_loop-Decides zero id t h k = absurd (omega arith)
  ancestor_loop-Decides (suc f) id t h k =
      let (scope, e) = get_elem?-of_lt scopes id h in
      at_scope scope e (Option-cases scope.parent) (λ p. ancestor_loop-Decides f p t)
    where
      at_scope :
          (scope : Scope)
          → get_elem? scopes id ≡ some scope
          → (scope.parent ≡ none) ⊎ ((p : ScopeId) × (scope.parent ≡ some p))
          → ((p : ScopeId)
              → p < length scopes
              → p < f
              → Decides p (ancestor_loop f scopes p ancestor))
          → Decides id (ancestor_loop (suc f) scopes id ancestor)
      at_scope scope e (inl q) ih = rw (e, ancestor_loop, q) (Above-root scope e q)
      at_scope scope e (inr (p, q)) ih = elim (Bool-cases (p == ancestor)) [
        | inl same ↦
            let is : p ≡ ancestor = (==_iff p ancestor).0 same in
            rw (e, ancestor_loop, q, same) (parent scope e (q ∙ ap some is))
        | inr other ↦
            rw (e, ancestor_loop, q, other)
              (lift (λ is. cc (other, (==_iff p ancestor).1 is)) (ancestor_loop f scopes p ancestor)
                (ih p (omega (arith, t id p scope e q)) (omega (arith, t id p scope e q))))
      ]
        where
          step : ¬ (p ≡ ancestor) → Above scopes ancestor id → Above scopes ancestor p
          step n a = elim (Above-parent scope p e q a) [
            | inl is ↦ absurd (n is)
            | inr above ↦ above
          ]

          lift : ¬ (p ≡ ancestor) → (r : Outcome Bool) → Decides p r → Decides id r
          lift n (ok true) a = further scope p e q a
          lift n (ok false) no_a = λ a. no_a (step n a)
          lift n panic x = x
          lift n out_of_fuel x = x

  -- In a tree, from a scope in it, the answer is there, and is true exactly of the scopes below `ancestor`.
  pub scope_has_ancestor-Decides :
      (id : ScopeId)
      → IsTree scopes
      → id < length scopes
      → Decides id (scope_has_ancestor scopes id ancestor)
  unfolding scope_has_ancestor
  scope_has_ancestor-Decides id t h = ancestor_loop-Decides (length scopes) id t h h
