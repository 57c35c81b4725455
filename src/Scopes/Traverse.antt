-- ===== src/Scopes/Traverse.antt =====
-- src/k1/typer/scopes.rs, `traverse_namespace_chain` and the lookups of names with a path. A
-- `NamespacedIdentifier` is the list of its namespaces and its name; an error is that of a namespace
-- that is not found.
use bfl.Outcome.{◌>>=◌, out_of_fuel, panic, ok, Outcome}
use bfl.Scopes.Table.{Scope, ScopeId}
use bfl.Namespaces.{Namespaces}
use bfl.Scopes.{
  find_namespace, find_variable, find_function, find_type, find_ability, get_scope, Scopes,
}
use bfl.Prelude.{[], some, none, ◌∷◌, Option, List, ℕ}
use bfl.Scopes.Table
use bfl.Namespaces

pub data PathResult {ℓ} (A : Type ℓ) : Type ℓ where
  found : A → PathResult A
  namespace_not_found : ℕ → PathResult A

module _ (scopes : Scopes) (namespaces : Namespaces) where
  -- The loop over the names behind the first: each is looked up in its scope alone.
  unfoldable pub traverse_rest : ScopeId → List ℕ → Outcome (PathResult ScopeId)
  unfolding get_scope
  traverse_rest cur_scope_id [] = ok (found cur_scope_id)
  traverse_rest cur_scope_id (ns ∷ rest) = elim (get_scope scopes cur_scope_id) [
    | none ↦ panic
    | some cur_scope ↦ elim (Table.find_namespace cur_scope ns) [
      | none ↦ ok (namespace_not_found ns)
      | some namespace_id ↦ elim (Namespaces.get_scope namespaces namespace_id) [
        | ok next ↦ traverse_rest next rest
        | panic ↦ panic
        | out_of_fuel ↦ out_of_fuel
      ]
    ]
  ]

  -- The first name is looked up in the scope and its parents.
  unfoldable pub traverse_namespace_chain : ScopeId → List ℕ → Outcome (PathResult ScopeId)
  unfolding traverse_rest
  traverse_namespace_chain scope_id [] = ok (found scope_id)
  traverse_namespace_chain scope_id (first ∷ rest) = do
    first_ns ← find_namespace scopes scope_id first
    elim first_ns [
      | none ↦ ok (namespace_not_found first)
      | some ns ↦ Namespaces.get_scope namespaces ns >>= λ next. traverse_rest next rest
    ]

  -- A name without a path is looked up from the scope upwards, one with a path in the scope that
  -- its path leads to, and there alone.
  unfoldable pub find_namespaced :
      (ScopeId → ℕ → Outcome (Option ℕ))
      → (Scope → ℕ → Option ℕ)
      → ScopeId
      → List ℕ
      → ℕ
      → Outcome (PathResult (Option ℕ))
  unfolding traverse_namespace_chain
  find_namespaced find look scope [] name = find scope name >>= λ r. ok (found r)
  find_namespaced find look scope (first ∷ rest) name = do
    target ← traverse_namespace_chain scope (first ∷ rest)
    elim target [
      | namespace_not_found ns ↦ ok (namespace_not_found ns)
      | found id ↦ elim (get_scope scopes id) [ none ↦ panic | some s ↦ ok (found (look s name)) ]
    ]

  unfoldable pub find_variable_namespaced : ScopeId → List ℕ → ℕ → Outcome (PathResult (Option ℕ))
  unfolding find_namespaced
  find_variable_namespaced = find_namespaced (find_variable scopes) Table.find_variable

  unfoldable pub find_function_namespaced : ScopeId → List ℕ → ℕ → Outcome (PathResult (Option ℕ))
  unfolding find_namespaced
  find_function_namespaced = find_namespaced (find_function scopes) Table.find_function

  unfoldable pub find_type_namespaced : ScopeId → List ℕ → ℕ → Outcome (PathResult (Option ℕ))
  unfolding find_namespaced
  find_type_namespaced = find_namespaced (find_type scopes) Table.find_type

  unfoldable pub find_ability_namespaced : ScopeId → List ℕ → ℕ → Outcome (PathResult (Option ℕ))
  unfolding find_namespaced
  find_ability_namespaced = find_namespaced (find_ability scopes) Table.find_ability
