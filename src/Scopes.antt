-- ===== src/Scopes.antt =====
-- src/k1/typer/scopes.rs: the tree of scopes, in which names are bound and looked up. A `ScopeId` is
-- the index of a scope in the list; a read or write at another index panics.
pub mod Table
pub mod Chain
pub mod Growth
pub mod Ancestors
pub mod Traverse
pub mod Paths
pub mod Names
use bfl.Maps.{values}
use bfl.Outcome.{panic, ok, out_of_fuel, Outcome, ◌>>=◌}
use bfl.Scopes.Table
use bfl.Scopes.Table.{ScopeType, ScopeOwnerId, ScopeId, Scope}
use bfl.Prelude.{
  true, ◌==◌, if◌then◌else◌, false, zero, set, [], suc, ◌∷◌, u32, none, some, length, ◌++◌,
  get_elem?, Bool, Option, List, ℕ,
}

abbrev pub Scopes : Type 0
Scopes = List Scope

unfoldable pub add_root_scope : Scopes → Option ℕ → Scopes × ScopeId
add_root_scope scopes name = (scopes ++ Table.make ScopeType.namespace none name ∷ [], 0)

unfoldable pub get_scope : Scopes → ScopeId → Option Scope
get_scope scopes id = get_elem? scopes id

-- A change of the scope that `get_scope_mut` finds.
unfoldable pub modify : Scopes → ScopeId → (Scope → Scope) → Outcome Scopes
unfolding get_scope
modify scopes id change = elim (get_scope scopes id) [
  | none ↦ panic
  | some scope ↦ ok (set scopes id (change scope))
]

unfoldable pub add_child_scope :
    Scopes → ScopeId → ScopeType → Option ScopeOwnerId → Option ℕ → Outcome (Scopes × ScopeId)
unfolding modify
add_child_scope scopes parent_scope_id scope_type scope_owner_id name =
    let scope = record (Table.make scope_type scope_owner_id name) {
      parent = some parent_scope_id;
    } in
    let id = u32 (length scopes) in
    do
      added ←
          modify (scopes ++ scope ∷ []) parent_scope_id
            (λ parent. record parent { children = parent.children ++ id ∷ [] })
      ok (added, id)

unfoldable pub set_scope_owner_id : Scopes → ScopeId → ScopeOwnerId → Outcome Scopes
unfolding modify
set_scope_owner_id scopes id owner =
    modify scopes id (λ scope. record scope { owner_id = some owner })

-- The walk of `find_variable` and its kin: the scope itself, then its parents.
unfoldable pub find_up :
    {A : Type 0} → (Scope → Option A) → ℕ → Scopes → ScopeId → Outcome (Option A)
find_up look zero scopes id = out_of_fuel
find_up look (suc f) scopes id = elim (get_scope scopes id) [
  | none ↦ panic
  | some scope ↦ elim (look scope) [
    | some a ↦ ok (some a)
    | none ↦ elim scope.parent [ none ↦ ok none | some parent ↦ find_up look f scopes parent ]
  ]
]

-- Parents have smaller ids than their children, so a walk is no longer than the list.
module _ (scopes : Scopes) (id : ScopeId) (ident : ℕ) where
  unfoldable pub find_namespace : Outcome (Option ℕ)
  unfolding find_up get_scope
  find_namespace = find_up (λ s. Table.find_namespace s ident) (length scopes) scopes id

  unfoldable pub find_variable : Outcome (Option ℕ)
  unfolding find_up get_scope
  find_variable = find_up (λ s. Table.find_variable s ident) (length scopes) scopes id

  unfoldable pub find_function : Outcome (Option ℕ)
  unfolding find_up get_scope
  find_function = find_up (λ s. Table.find_function s ident) (length scopes) scopes id

  unfoldable pub find_type : Outcome (Option ℕ)
  unfolding find_up get_scope
  find_type = find_up (λ s. Table.find_type s ident) (length scopes) scopes id

  unfoldable pub find_ability : Outcome (Option ℕ)
  unfolding find_up get_scope
  find_ability = find_up (λ s. Table.find_ability s ident) (length scopes) scopes id

unfoldable pub add_variable : Scopes → ScopeId → ℕ → ℕ → Outcome Scopes
unfolding modify
add_variable scopes id ident variable_id =
    modify scopes id (λ scope. Table.add_variable scope ident variable_id)

-- A binding that reports whether it was made.
unfoldable pub try_add : Scopes → ScopeId → (Scope → Scope × Bool) → Outcome (Scopes × Bool)
try_add scopes id add = elim (get_scope scopes id) [
  | none ↦ panic
  | some scope ↦ ok (set scopes id (add scope).0, (add scope).1)
]

unfoldable pub add_function : Scopes → ScopeId → ℕ → ℕ → Outcome (Scopes × Bool)
unfolding try_add get_scope
add_function scopes id ident function_id =
    try_add scopes id (λ scope. Table.add_function scope ident function_id)

unfoldable pub add_type : Scopes → ScopeId → ℕ → ℕ → Outcome (Scopes × Bool)
unfolding try_add get_scope
add_type scopes id ident ty = try_add scopes id (λ scope. Table.add_type scope ident ty)

-- The definition and the scope that holds it.
unfoldable pub find_pending_loop : ℕ → Scopes → ScopeId → ℕ → Outcome (Option (ℕ × ScopeId))
find_pending_loop zero scopes id ident = out_of_fuel
find_pending_loop (suc f) scopes id ident = elim (get_scope scopes id) [
  | none ↦ panic
  | some scope ↦ elim (Table.find_pending_type_defn scope ident) [
    | some defn ↦ ok (some (defn, id))
    | none ↦ elim scope.parent [
      | none ↦ ok none
      | some parent ↦ find_pending_loop f scopes parent ident
    ]
  ]
]

unfoldable pub find_pending_type_defn : Scopes → ScopeId → ℕ → Outcome (Option (ℕ × ScopeId))
unfolding find_pending_loop get_scope
find_pending_type_defn scopes id ident = find_pending_loop (length scopes) scopes id ident

unfoldable pub remove_pending_loop : ℕ → Scopes → ScopeId → ℕ → Outcome (Scopes × Bool)
remove_pending_loop zero scopes id ident = out_of_fuel
remove_pending_loop (suc f) scopes id ident = elim (get_scope scopes id) [
  | none ↦ panic
  | some scope ↦
      let (scope', removed) = Table.remove_pending_type_defn scope ident in
      let up : Outcome (Scopes × Bool) = elim scope.parent [
        | none ↦ ok (set scopes id scope', false)
        | some parent ↦ remove_pending_loop f (set scopes id scope') parent ident
      ] in
      if removed then ok (set scopes id scope', true) else up
]

unfoldable pub remove_pending_type_defn : Scopes → ScopeId → ℕ → Outcome (Scopes × Bool)
unfolding remove_pending_loop get_scope
remove_pending_type_defn scopes id ident = remove_pending_loop (length scopes) scopes id ident

unfoldable pub ancestor_loop : ℕ → Scopes → ScopeId → ScopeId → Outcome Bool
ancestor_loop zero scopes id ancestor = out_of_fuel
ancestor_loop (suc f) scopes id ancestor = elim (get_scope scopes id) [
  | none ↦ panic
  | some scope ↦ elim scope.parent [
    | none ↦ ok false
    | some parent ↦
        let up = ancestor_loop f scopes parent ancestor in
        if parent == ancestor then ok true else up
  ]
]

unfoldable pub scope_has_ancestor : Scopes → ScopeId → ScopeId → Outcome Bool
unfolding ancestor_loop get_scope
scope_has_ancestor scopes id ancestor = ancestor_loop (length scopes) scopes id ancestor

-- The owner that is looked for, in the scope or the nearest parent that has one; where no parent
-- has, the program panics.
unfoldable pub nearest_loop : (ScopeOwnerId → Option ℕ) → ℕ → Scopes → ScopeId → Outcome ℕ
nearest_loop owns zero scopes id = out_of_fuel
nearest_loop owns (suc f) scopes id = elim (get_scope scopes id) [
  | none ↦ panic
  | some scope ↦ elim (Table.owned_by owns scope.owner_id) [
    | some owner ↦ ok owner
    | none ↦ elim scope.parent [ none ↦ panic | some parent ↦ nearest_loop owns f scopes parent ]
  ]
]

unfoldable pub nearest_parent_namespace : Scopes → ScopeId → Outcome ℕ
unfolding nearest_loop get_scope
nearest_parent_namespace scopes id = nearest_loop Table.as_namespace (length scopes) scopes id

unfoldable pub nearest_parent_function : Scopes → ScopeId → Outcome ℕ
unfolding nearest_loop get_scope
nearest_parent_function scopes id = nearest_loop Table.as_function (length scopes) scopes id

-- The definitions of each child in turn; in the program the order within a scope is that of a hash
-- map, here that of insertion.
unfoldable pub each_child : (ScopeId → Outcome (List ℕ)) → List ScopeId → Outcome (List ℕ)
each_child below [] = ok []
each_child below (child ∷ rest) = do
  child_pendings ← below child
  pendings ← each_child below rest
  ok (child_pendings ++ pendings)

unfoldable pub pendings_loop : ℕ → Scopes → ScopeId → Outcome (List ℕ)
unfolding each_child get_scope
pendings_loop zero scopes id = out_of_fuel
pendings_loop (suc f) scopes id = elim (get_scope scopes id) [
  | none ↦ panic
  | some scope ↦ do
    below ← each_child (λ child. pendings_loop f scopes child) scope.children
    ok (values scope.pending_type_defns ++ below)
]

unfoldable pub all_pending_type_defns_below : Scopes → ScopeId → Outcome (List ℕ)
unfolding pendings_loop
all_pending_type_defns_below scopes id = pendings_loop (length scopes) scopes id
