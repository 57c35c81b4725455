-- ===== src/Scopes/Paths.antt =====
-- src/k1/typer/scopes.rs, `traverse_namespace_chain`: where a path of namespaces leads.
use bfl.Outcome.{◌>>=◌, out_of_fuel, panic, ok, Outcome}
use bfl.Prelude.{
  Option-cases, Option, refl, inr, inl, ◌⊎◌, none, get_elem?-of_lt, some, ◌∷◌, length, ◌≡◌, [], ◌<◌,
  get_elem?, ℕ, List,
}
use bfl.Scopes.Traverse.{
  traverse_namespace_chain, namespace_not_found, found, PathResult, traverse_rest,
}
use bfl.Scopes.Table
use bfl.Scopes.Table.{Scope, ScopeId}
use bfl.Scopes.{find_namespace, get_scope, Scopes}
use bfl.Scopes.Chain.{lookups_nearest, above, here, IsTree, Binds, Answers}
use bfl.Namespaces
use bfl.Namespaces.{Namespaces}

-- Each name of the path is bound in the scope that the names before it lead to.
pub data Leads (scopes : Scopes) (namespaces : Namespaces)
    : ScopeId → List ℕ → ScopeId → Type 0 where
  arrived : {id : ScopeId} → Leads scopes namespaces id [] id
  into :
      {id t : ScopeId} {rest : List ℕ} (scope : Scope) (ns n : ℕ) (next : ScopeId)
      → get_elem? scopes id ≡ some scope
      → Table.find_namespace scope ns ≡ some n
      → Namespaces.get_scope namespaces n ≡ ok next
      → Leads scopes namespaces next rest t
      → Leads scopes namespaces id (ns ∷ rest) t

-- The names before `ns` lead to a scope that does not bind it.
pub data Stuck (scopes : Scopes) (namespaces : Namespaces) (ns : ℕ)
    : ScopeId → List ℕ → Type 0 where
  unbound :
      {id : ScopeId} {rest : List ℕ} (scope : Scope)
      → get_elem? scopes id ≡ some scope
      → Table.find_namespace scope ns ≡ none
      → Stuck scopes namespaces ns id (ns ∷ rest)
  beyond :
      {id : ScopeId} {rest : List ℕ} (scope : Scope) (x n : ℕ) (next : ScopeId)
      → get_elem? scopes id ≡ some scope
      → Table.find_namespace scope x ≡ some n
      → Namespaces.get_scope namespaces n ≡ ok next
      → Stuck scopes namespaces ns next rest
      → Stuck scopes namespaces ns id (x ∷ rest)

-- The namespaces that scopes bind exist, and so do their scopes.
pub record Linked (scopes : Scopes) (namespaces : Namespaces) : Type 0 where
  pub bound :
      (id : ScopeId) (scope : Scope) (ns n : ℕ)
      → get_elem? scopes id ≡ some scope
      → Table.find_namespace scope ns ≡ some n
      → n < length namespaces
  pub scoped :
      (n : ℕ) (space : Namespaces.Namespace)
      → get_elem? namespaces n ≡ some space
      → space.scope_id < length scopes

module _ (scopes : Scopes) (namespaces : Namespaces) where
  abbrev Goes : ScopeId → List ℕ → Outcome (PathResult ScopeId) → Type 0
  Goes id path (ok (found t)) = Leads scopes namespaces id path t
  Goes id path (ok (namespace_not_found ns)) = Stuck scopes namespaces ns id path
  Goes id path panic = ⊥
  Goes id path out_of_fuel = ⊥

  -- The scope of a namespace that a scope binds.
  scope_of :
      (n : ℕ)
      → Linked scopes namespaces
      → n < length namespaces
      → (next : ScopeId) × (Namespaces.get_scope namespaces n ≡ ok next) × (next < length scopes)
  unfolding Namespaces.get_scope Namespaces.get
  scope_of n linked lt =
      let (space, at) = get_elem?-of_lt namespaces n lt in
      (space.scope_id, rw (Namespaces.get_scope, Namespaces.get, at) refl, linked.scoped n space at)

  into-Goes :
      (id : ScopeId) (rest : List ℕ) (scope : Scope) (ns n : ℕ) (next : ScopeId)
      (o : Outcome (PathResult ScopeId))
      → get_elem? scopes id ≡ some scope
      → Table.find_namespace scope ns ≡ some n
      → Namespaces.get_scope namespaces n ≡ ok next
      → Goes next rest o
      → Goes id (ns ∷ rest) o
  into-Goes id rest scope ns n next (ok (found t)) e b s g = into scope ns n next e b s g
  into-Goes id rest scope ns n next (ok (namespace_not_found x)) e b s g =
      beyond scope ns n next e b s g
  into-Goes id rest scope ns n next panic e b s g = g
  into-Goes id rest scope ns n next out_of_fuel e b s g = g

  traverse_rest-Goes :
      (path : List ℕ) (id : ScopeId)
      → Linked scopes namespaces
      → id < length scopes
      → Goes id path (traverse_rest scopes namespaces id path)
  unfolding traverse_rest get_scope
  traverse_rest-Goes [] id linked lt = arrived
  traverse_rest-Goes (ns ∷ rest) id linked lt =
      let (scope, at) = get_elem?-of_lt scopes id lt in
      go scope at (Option-cases (Table.find_namespace scope ns))
        (λ next lt'. traverse_rest-Goes rest next linked lt')
    where
      go :
          (scope : Scope)
          → get_elem? scopes id ≡ some scope
          → (Table.find_namespace scope ns ≡ none)
            ⊎ ((n : ℕ) × (Table.find_namespace scope ns ≡ some n))
          → ((next : ScopeId)
              → next < length scopes
              → Goes next rest (traverse_rest scopes namespaces next rest))
          → Goes id (ns ∷ rest) (traverse_rest scopes namespaces id (ns ∷ rest))
      go scope at (inl e) ih = rw (traverse_rest, get_scope, at, e) (unbound scope at e)
      go scope at (inr (n, e)) ih =
          let (next, s, lt') = scope_of n linked (linked.bound id scope ns n at e) in
          rw (traverse_rest, get_scope, at, e, s)
            (into-Goes id rest scope ns n next _ at e s (ih next lt'))

  -- The namespace that a lookup from a scope upwards finds exists.
  Binds-bound :
      (ns n : ℕ) (id : ScopeId)
      → Linked scopes namespaces
      → Binds (λ s. Table.find_namespace s ns) scopes n id
      → n < length namespaces
  Binds-bound ns n id linked (here scope e b) = linked.bound id scope ns n e b
  Binds-bound ns n id linked (above scope parent e b p rest) = Binds-bound ns n parent linked rest

  -- Where a path leads from a scope: its first name is the namespace bound nearest above.
  abbrev pub GoesUp : ScopeId → ℕ → List ℕ → Outcome (PathResult ScopeId) → Type 0
  GoesUp id first rest (ok (found t)) =
      (n : ℕ) × (next : ScopeId) × Binds (λ s. Table.find_namespace s first) scopes n id
      × (Namespaces.get_scope namespaces n ≡ ok next)
      × Leads scopes namespaces next rest t
  GoesUp id first rest (ok (namespace_not_found ns)) =
      ((ns ≡ first) × ((n : ℕ) → ¬ (Binds (λ s. Table.find_namespace s first) scopes n id)))
      ⊎ ((n : ℕ) × (next : ScopeId) × Binds (λ s. Table.find_namespace s first) scopes n id
          × (Namespaces.get_scope namespaces n ≡ ok next)
          × Stuck scopes namespaces ns next rest)
  GoesUp id first rest panic = ⊥
  GoesUp id first rest out_of_fuel = ⊥

  up-GoesUp :
      (id : ScopeId) (first n : ℕ) (next : ScopeId) (rest : List ℕ)
      (o : Outcome (PathResult ScopeId))
      → Binds (λ s. Table.find_namespace s first) scopes n id
      → Namespaces.get_scope namespaces n ≡ ok next
      → Goes next rest o
      → GoesUp id first rest o
  up-GoesUp id first n next rest (ok (found t)) b s g = (n, next, b, s, g)
  up-GoesUp id first n next rest (ok (namespace_not_found ns)) b s g = inr (n, next, b, s, g)
  up-GoesUp id first n next rest panic b s g = g
  up-GoesUp id first n next rest out_of_fuel b s g = g

  -- In a tree of scopes whose namespaces exist and have scopes in it, a path that is not empty is
  -- followed to its end or to the first name that is not bound: its first name is looked up from
  -- the scope upwards, each further one in the scope of the namespace before it, and there alone.
  pub traverse_namespace_chain-GoesUp :
      (id : ScopeId) (first : ℕ) (rest : List ℕ)
      → IsTree scopes
      → Linked scopes namespaces
      → id < length scopes
      → GoesUp id first rest (traverse_namespace_chain scopes namespaces id (first ∷ rest))
  unfolding traverse_namespace_chain
  traverse_namespace_chain-GoesUp id first rest tree linked lt =
      let (v, f, t, b, a) = lookups_nearest scopes id first tree lt in
      go (find_namespace scopes id first) b
    where
      go :
          (o : Outcome (Option ℕ))
          → Answers (λ s. Table.find_namespace s first) scopes id o
          → GoesUp id first rest (
              o >>= λ first_ns. elim first_ns [
                | none ↦ ok (namespace_not_found first)
                | some ns ↦ Namespaces.get_scope namespaces ns >>= λ next.
                    traverse_rest scopes namespaces next rest
              ])
      go (ok none) a = inl (refl, a)
      go (ok (some n)) b =
          let (next, s, lt') = scope_of n linked (Binds-bound first n id linked b) in
          rw s (up-GoesUp id first n next rest _ b s (traverse_rest-Goes rest next linked lt'))
      go panic a = absurd a
      go out_of_fuel a = absurd a
