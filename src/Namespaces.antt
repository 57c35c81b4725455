-- ===== src/Namespaces.antt =====
-- src/k1/typer.rs, `Namespaces`: the namespaces of a program, each with its scope and its parent. A
-- `NamespaceId` is the index of a namespace in the list.
pub mod NameChain
use bfl.Outcome.{ok, panic, out_of_fuel, Outcome}
use bfl.Prelude.{
  zero, ◌+◌, ◌==◌, u32, some, [], if◌then◌else◌, suc, ◌∷◌, get_elem?, length, none, Option, ◌++◌,
  List, ℕ,
}

pub data NamespaceType : Type 0 where
  user ability root : NamespaceType

pub record Namespace : Type 0 where
  pub name : ℕ
  pub scope_id : ℕ
  pub namespace_type : NamespaceType
  pub companion_type_id : Option ℕ
  pub parent_id : Option ℕ

abbrev pub Namespaces : Type 0
Namespaces = List Namespace

-- `none` is the panic of an index out of bounds.
unfoldable pub get : Namespaces → ℕ → Option Namespace
get namespaces id = get_elem? namespaces id

unfoldable pub add : Namespaces → Namespace → Namespaces × ℕ
add namespaces namespace = (namespaces ++ namespace ∷ [], u32 (length namespaces))

-- The loop of `name_chain`, with the names found so far, from the root down.
unfoldable pub chain_loop : ℕ → Namespaces → ℕ → List ℕ → Outcome (List ℕ)
chain_loop zero namespaces id chain = out_of_fuel
chain_loop (suc f) namespaces id chain = elim (get namespaces id) [
  | none ↦ panic
  | some namespace ↦ elim namespace.parent_id [
    | none ↦ ok (namespace.name ∷ chain)
    | some parent_id ↦ chain_loop f namespaces parent_id (namespace.name ∷ chain)
  ]
]

unfoldable pub name_chain : Namespaces → ℕ → Outcome (List ℕ)
unfolding chain_loop get
name_chain namespaces id = chain_loop (length namespaces) namespaces id []

unfoldable pub get_scope : Namespaces → ℕ → Outcome ℕ
unfolding get
get_scope namespaces namespace_id = elim (get namespaces namespace_id) [
  | none ↦ panic
  | some namespace ↦ ok namespace.scope_id
]

-- `Iterator::position` from an index on.
unfoldable pub position_from : ℕ → ℕ → Namespaces → Option ℕ
position_from i scope_id [] = none
position_from i scope_id (namespace ∷ rest) =
    if namespace.scope_id == scope_id then some i else position_from (i + 1) scope_id rest

unfoldable pub namespace_for_scope : Namespaces → ℕ → Option ℕ
unfolding position_from
namespace_for_scope namespaces scope_id = position_from 0 scope_id namespaces
