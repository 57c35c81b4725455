-- ===== src/Tests/Scopes.antt =====
-- The theorems about src/k1/typer/scopes.rs and the namespaces of src/k1/typer.rs at a concrete
-- tree: a root, a function in it, and a block in that.
use mathlib.Core.Path.{subst}
use bfl.Scopes.Traverse.{traverse_namespace_chain}
use bfl.Scopes.Paths.{traverse_namespace_chain-GoesUp, GoesUp}
use bfl.Scopes.Names.{find_variable-add_variable}
use bfl.Scopes.Growth.{add_child_scope-IsChild, IsChild}
use bfl.Outcome.{ok}
use bfl.Namespaces.NameChain.{name_chain-NamesTo}
use bfl.Maps.{get, insert}
use bfl.Scopes.Chain.{lookups_nearest}
use bfl.Scopes.Ancestors.{scope_has_ancestor-Decides, Decides}
use bfl.Prelude.{
  length, ◌<◌, get_elem?, refl, zero, suc, ◌≡◌, ℕ, List, ◌∷◌, some, none, [], set, arith,
}
use bfl.Scopes
use bfl.Scopes.Table
use bfl.Scopes.Table.{ScopeId, Scope, ScopeType}
use bfl.Namespaces
use bfl.Namespaces.NameChain

abbrev empty : Scope
empty = record {
  variables = [];
  functions = [];
  namespaces = [];
  types = [];
  abilities = [];
  pending_type_defns = [];
  parent = none;
  children = [];
  scope_type = ScopeType.namespace;
  owner_id = none;
  name = none;
}

abbrev inner : Scope
inner = record empty { parent = some 0; scope_type = ScopeType.function_scope }

abbrev two : Scopes.Scopes
two = record empty { variables = (7, 70) ∷ []; children = 1 ∷ [] } ∷ inner ∷ []

two-IsTree : Scopes.Chain.IsTree two
two-IsTree zero parent scope e p = ground (arith, e, p)
two-IsTree (suc zero) parent scope e p = ground (arith, e, p)
two-IsTree (suc (suc id)) parent scope e p = ground (arith, e, p)

lookups_nearest_example :
    Scopes.Chain.Answers (λ s. Table.find_variable s 7) two 1 (Scopes.find_variable two 1 7)
    × Scopes.Chain.Answers (λ s. Table.find_function s 7) two 1 (Scopes.find_function two 1 7)
    × Scopes.Chain.Answers (λ s. Table.find_type s 7) two 1 (Scopes.find_type two 1 7)
    × Scopes.Chain.Answers (λ s. Table.find_namespace s 7) two 1 (Scopes.find_namespace two 1 7)
    × Scopes.Chain.Answers (λ s. Table.find_ability s 7) two 1 (Scopes.find_ability two 1 7)
lookups_nearest_example = lookups_nearest two 1 7 two-IsTree (omega arith)

scope_has_ancestor-Decides_example : Decides two 0 1 (Scopes.scope_has_ancestor two 1 0)
scope_has_ancestor-Decides_example = scope_has_ancestor-Decides two 0 1 two-IsTree (omega arith)

add_child_scope-IsChild_example :
    (r : Scopes.Scopes × ScopeId) × (Scopes.add_child_scope two 1 ScopeType.lexical_block none none
      ≡ ok r)
    × IsChild two r.0 1 r.1 inner
        (record (Table.make ScopeType.lexical_block none none) { parent = some 1 })
add_child_scope-IsChild_example =
    add_child_scope-IsChild two 1 inner ScopeType.lexical_block none none two-IsTree (omega arith)
      refl

-- The tree with a variable more in its second scope.
abbrev more : Scopes.Scopes
more = set two 1 (record inner { variables = (8, 80) ∷ [] })

find_variable-add_variable_example :
    (Scopes.find_variable more 1 8 ≡ ok (some 80))
    × (Scopes.find_variable more 1 7 ≡ Scopes.find_variable two 1 7)
    × (Scopes.find_function more 1 8 ≡ Scopes.find_function two 1 8)
    × (Scopes.find_type more 1 8 ≡ Scopes.find_type two 1 8)
unfolding Scopes.add_variable Scopes.modify Scopes.get_scope Table.add_variable insert
find_variable-add_variable_example =
    find_variable-add_variable two more 1 inner 8 80 refl refl 1 7 8 (omega arith)

abbrev root : Namespaces.Namespace
root = record {
  name = 3;
  scope_id = 0;
  namespace_type = Namespaces.NamespaceType.root;
  companion_type_id = none;
  parent_id = none;
}

abbrev spaces : Namespaces.Namespaces
spaces = root ∷ record root { name = 4; parent_id = some 0 } ∷ []

spaces-IsTree : NameChain.IsTree spaces
spaces-IsTree zero parent n e p = ground (arith, e, p)
spaces-IsTree (suc zero) parent n e p = ground (arith, e, p)
spaces-IsTree (suc (suc id)) parent n e p = ground (arith, e, p)

name_chain-NamesTo_example :
    (names : List ℕ) × (Namespaces.name_chain spaces 1 ≡ ok names)
    × NameChain.NamesTo spaces 1 names
name_chain-NamesTo_example = name_chain-NamesTo spaces 1 spaces-IsTree (omega arith)

abbrev grandchild : Namespaces.Namespace
grandchild = record root { parent_id = some 1 }

get-add_namespace_example :
    (Namespaces.get (Namespaces.add spaces grandchild).0 (Namespaces.add spaces grandchild).1
      ≡ some grandchild)
    × ((id : ℕ)
        → id < 2
        → Namespaces.get (Namespaces.add spaces grandchild).0 id ≡ Namespaces.get spaces id)
    × (NameChain.IsTree spaces
        → ((parent : ℕ) → grandchild.parent_id ≡ some parent → parent < 2)
        → NameChain.IsTree (Namespaces.add spaces grandchild).0)
get-add_namespace_example = NameChain.get-add_namespace spaces grandchild (omega arith)

-- A root scope that binds the namespace 4, whose scope is the second.
abbrev linked_scopes : Scopes.Scopes
linked_scopes = record empty { namespaces = (4, 1) ∷ []; children = 1 ∷ [] } ∷ inner ∷ []

abbrev linked_spaces : Namespaces.Namespaces
linked_spaces = root ∷ record root { name = 4; scope_id = 1; parent_id = some 0 } ∷ []

linked_scopes-IsTree : Scopes.Chain.IsTree linked_scopes
linked_scopes-IsTree zero parent scope e p = ground (arith, e, p)
linked_scopes-IsTree (suc zero) parent scope e p = ground (arith, e, p)
linked_scopes-IsTree (suc (suc id)) parent scope e p = ground (arith, e, p)

-- What the one entry answers.
entry-bound : (ns n : ℕ) → get ((4, 1) ∷ []) ns ≡ some n → n < 2
unfolding get
entry-bound ns n b = ground (arith, b)

linked-bound :
    (id : ScopeId) (scope : Scope) (ns n : ℕ)
    → get_elem? linked_scopes id ≡ some scope
    → Table.find_namespace scope ns ≡ some n
    → n < length linked_spaces
unfolding Table.find_namespace get
linked-bound zero scope ns n e b =
    let table : scope.namespaces ≡ (4, 1) ∷ [] = cc e in
    entry-bound ns n (subst (λ m. get m ns ≡ some n) table b)
linked-bound (suc zero) scope ns n e b =
    let table : scope.namespaces ≡ [] = cc e in absurd (cc (subst (λ m. get m ns ≡ some n) table b))
linked-bound (suc (suc id)) scope ns n e b = absurd (cc e)

linked-scoped :
    (n : ℕ) (space : Namespaces.Namespace)
    → get_elem? linked_spaces n ≡ some space
    → space.scope_id < length linked_scopes
linked-scoped zero space e = ground (arith, e)
linked-scoped (suc zero) space e = ground (arith, e)
linked-scoped (suc (suc n)) space e = absurd (cc e)

traverse_namespace_chain-GoesUp_example :
    GoesUp linked_scopes linked_spaces 1 4
      (5 ∷ [])
      (traverse_namespace_chain linked_scopes linked_spaces 1 (4 ∷ 5 ∷ []))
traverse_namespace_chain-GoesUp_example =
    traverse_namespace_chain-GoesUp linked_scopes linked_spaces 1 4 (5 ∷ []) linked_scopes-IsTree
      (record { bound = linked-bound; scoped = linked-scoped }) (omega arith)
