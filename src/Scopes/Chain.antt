-- ===== src/Scopes/Chain.antt =====
-- src/k1/typer/scopes.rs: the walk from a scope up to the root.
use mathlib.Core.Path.{subst}
use bfl.Outcome.{out_of_fuel, panic, ok, Outcome}
use bfl.Prelude.{
  zero, Option-cases, get_elem?-of_lt, suc, arith, length, inr, ℕ, inl, ◌⊎◌, none, ◌<◌, some, ◌≡◌,
  get_elem?, Option,
}
use bfl.Scopes.{
  find_ability, find_namespace, find_type, find_function, find_variable, get_scope, find_up, Scopes,
}
use bfl.Scopes.Table.{ScopeId, Scope}
use bfl.Scopes.Table

-- Every parent has a smaller id than its child.
abbrev pub IsTree : Scopes → Type 0
IsTree scopes =
    (id parent : ScopeId) (scope : Scope)
    → get_elem? scopes id ≡ some scope
    → scope.parent ≡ some parent
    → parent < id

-- `look` finds `a` in the scope `id` or in the nearest of its parents where it finds anything.
pub data Binds {A : Type 0} (look : Scope → Option A) (scopes : Scopes) (a : A)
    : ScopeId → Type 0 where
  here :
      {id : ScopeId} (scope : Scope)
      → get_elem? scopes id ≡ some scope
      → look scope ≡ some a
      → Binds look scopes a id
  above :
      {id : ScopeId} (scope : Scope) (parent : ScopeId)
      → get_elem? scopes id ≡ some scope
      → look scope ≡ none
      → scope.parent ≡ some parent
      → Binds look scopes a parent
      → Binds look scopes a id

module _ {A : Type 0} (look : Scope → Option A) (scopes : Scopes) where
  -- The answers of a walk that ends.
  abbrev pub Answers : ScopeId → Outcome (Option A) → Type 0
  Answers id (ok (some a)) = Binds look scopes a id
  Answers id (ok none) = (a : A) → ¬ Binds look scopes a id
  Answers id panic = ⊥
  Answers id out_of_fuel = ⊥

  Binds-look :
      {a : A} {id : ScopeId} (scope : Scope)
      → get_elem? scopes id ≡ some scope
      → Binds look scopes a id
      → (look scope ≡ some a)
        ⊎ ((parent : ScopeId) × (look scope ≡ none)
            × (scope.parent ≡ some parent)
            × Binds look scopes a parent)
  Binds-look scope e (here s h l) = inl (cc (e, h, l))
  Binds-look scope e (above s p h l q b) = inr (p, cc (e, h, l), cc (e, h, q), b)

  -- A walk with more fuel than the scope's id answers with the nearest binding.
  find_up-Answers :
      (f : ℕ) (id : ScopeId)
      → IsTree scopes
      → id < length scopes
      → id < f
      → Answers id (find_up look f scopes id)
  unfolding find_up get_scope
  find_up-Answers zero id t h k = absurd (omega arith)
  find_up-Answers (suc f) id t h k =
      let (scope, e) = get_elem?-of_lt scopes id h in
      at_scope scope e (Option-cases (look scope)) (Option-cases scope.parent)
        (λ p. find_up-Answers f p t)
    where
      at_scope :
          (scope : Scope)
          → get_elem? scopes id ≡ some scope
          → (look scope ≡ none) ⊎ ((a : A) × (look scope ≡ some a))
          → (scope.parent ≡ none) ⊎ ((p : ScopeId) × (scope.parent ≡ some p))
          → ((p : ScopeId) → p < length scopes → p < f → Answers p (find_up look f scopes p))
          → Answers id (find_up look (suc f) scopes id)
      at_scope scope e (inr (a, l)) _ ih = rw (e, find_up, l) (here scope e l)
      at_scope scope e (inl l) (inl q) ih =
          rw (e, find_up, l, q) (λ a b. top (Binds-look scope e b))
        where
          top :
              {a : A}
              → (look scope ≡ some a)
                ⊎ ((p : ScopeId) × (look scope ≡ none)
                    × (scope.parent ≡ some p)
                    × Binds look scopes a p)
              → ⊥
          top (inl x) = cc (x, l)
          top (inr (p, _, y, _)) = cc (y, q)
      at_scope scope e (inl l) (inr (p, q)) ih =
          rw (e, find_up, l, q)
            (lift (find_up look f scopes p)
              (ih p (omega (arith, t id p scope e q)) (omega (arith, t id p scope e q))))
        where
          below :
              {a : A}
              → (look scope ≡ some a)
                ⊎ ((p' : ScopeId) × (look scope ≡ none)
                    × (scope.parent ≡ some p')
                    × Binds look scopes a p')
              → Binds look scopes a p
          below (inl x) = absurd (cc (x, l))
          below {a} (inr (p', _, y, b)) =
              let same : p' ≡ p = cc (y, q) in subst (λ r. Binds look scopes a r) same b

          lift : (r : Outcome (Option A)) → Answers p r → Answers id r
          lift (ok (some a)) b = above scope p e l q b
          lift (ok none) no_b = λ a b. no_b a (below (Binds-look scope e b))
          lift panic x = x
          lift out_of_fuel x = x

-- In a tree, from a scope in it, every lookup ends, and answers with the nearest binding of the
-- name, in the scope or its parents, or with none where there is none.
pub lookups_nearest :
    (scopes : Scopes) (id : ScopeId) (ident : ℕ)
    → IsTree scopes
    → id < length scopes
    → Answers (λ s. Table.find_variable s ident) scopes id (find_variable scopes id ident)
      × Answers (λ s. Table.find_function s ident) scopes id (find_function scopes id ident)
      × Answers (λ s. Table.find_type s ident) scopes id (find_type scopes id ident)
      × Answers (λ s. Table.find_namespace s ident) scopes id (find_namespace scopes id ident)
      × Answers (λ s. Table.find_ability s ident) scopes id (find_ability scopes id ident)
unfolding find_variable find_function find_type find_namespace find_ability
lookups_nearest scopes id ident t h = (
  find_up-Answers _ scopes (length scopes) id t h h,
  find_up-Answers _ scopes (length scopes) id t h h,
  find_up-Answers _ scopes (length scopes) id t h h,
  find_up-Answers _ scopes (length scopes) id t h h,
  find_up-Answers _ scopes (length scopes) id t h h,
)
