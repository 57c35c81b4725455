-- ===== src/Scopes/Table.antt =====
-- src/k1/typer/scopes.rs, `Scope`: the names of one scope. Identifiers and the ids of variables,
-- functions, types and so on are numbers.
use bfl.Prelude.{true, false, none, if◌then◌else◌, some, Bool, [], List, ℕ, Option}
use bfl.Maps.{contains_key, remove, get, insert, HashMap}
use Prim.Native.String.{String}

pub data ScopeType : Type 0 where
  function_scope lexical_block namespace while_body if_body else_body for_expr : ScopeType
  match_arm type_defn ability_defn ability_impl : ScopeType

pub data ScopeOwnerId : Type 0 where
  ability : ℕ → ScopeOwnerId
  function : ℕ → ScopeOwnerId
  namespace : ℕ → ScopeOwnerId

abbrev pub ScopeId : Type 0
ScopeId = ℕ

unfoldable pub short_name : ScopeType → String
short_name function_scope = "fn"
short_name lexical_block = "block"
short_name namespace = "ns"
short_name while_body = "while"
short_name if_body = "if"
short_name else_body = "else"
short_name for_expr = "for"
short_name match_arm = "match_arm"
short_name type_defn = "type_defn"
short_name ability_defn = "ability_defn"
short_name ability_impl = "ability_impl"

pub record Scope : Type 0 where
  pub variables : HashMap ℕ
  pub functions : HashMap ℕ
  pub namespaces : HashMap ℕ
  pub types : HashMap ℕ
  pub abilities : HashMap ℕ
  pub pending_type_defns : HashMap ℕ
  pub parent : Option ScopeId
  pub children : List ScopeId
  pub scope_type : ScopeType
  pub owner_id : Option ScopeOwnerId
  pub name : Option ℕ

-- `ScopeOwnerId::expect_ability`; `none` is the panic.
unfoldable pub expect_ability : ScopeOwnerId → Option ℕ
expect_ability (ability a) = some a
expect_ability _ = none

abbrev pub as_namespace : ScopeOwnerId → Option ℕ
as_namespace (ScopeOwnerId.namespace ns) = some ns
as_namespace _ = none

abbrev pub as_function : ScopeOwnerId → Option ℕ
as_function (function fn_id) = some fn_id
as_function _ = none

abbrev pub owned_by : (ScopeOwnerId → Option ℕ) → Option ScopeOwnerId → Option ℕ
owned_by owns none = none
owned_by owns (some owner) = owns owner

unfoldable pub make : ScopeType → Option ScopeOwnerId → Option ℕ → Scope
make scope_type owner_id name = record {
  variables = [];
  functions = [];
  namespaces = [];
  types = [];
  abilities = [];
  pending_type_defns = [];
  parent = none;
  children = [];
  scope_type = scope_type;
  owner_id = owner_id;
  name = name;
}

-- A new binding takes the place of an old one of the same name.
unfoldable pub add_variable : Scope → ℕ → ℕ → Scope
add_variable s ident value = record s { variables = insert s.variables ident value }

unfoldable pub find_variable : Scope → ℕ → Option ℕ
find_variable s ident = get s.variables ident

unfoldable pub add_type : Scope → ℕ → ℕ → Scope × Bool
add_type s ident ty =
    if contains_key s.types ident
    then (s, false)
    else (record s { types = insert s.types ident ty }, true)

unfoldable pub find_type : Scope → ℕ → Option ℕ
find_type s ident = get s.types ident

unfoldable pub add_function : Scope → ℕ → ℕ → Scope × Bool
add_function s ident function_id =
    if contains_key s.functions ident
    then (s, false)
    else (record s { functions = insert s.functions ident function_id }, true)

unfoldable pub find_function : Scope → ℕ → Option ℕ
find_function s ident = get s.functions ident

unfoldable pub add_namespace : Scope → ℕ → ℕ → Scope × Bool
add_namespace s ident namespace_id =
    if contains_key s.namespaces ident
    then (s, false)
    else (record s { namespaces = insert s.namespaces ident namespace_id }, true)

unfoldable pub find_namespace : Scope → ℕ → Option ℕ
find_namespace s ident = get s.namespaces ident

unfoldable pub add_ability : Scope → ℕ → ℕ → Scope × Bool
add_ability s ident ability_id =
    if contains_key s.abilities ident
    then (s, false)
    else (record s { abilities = insert s.abilities ident ability_id }, true)

unfoldable pub find_ability : Scope → ℕ → Option ℕ
find_ability s ident = get s.abilities ident

unfoldable pub add_pending_type_defn : Scope → ℕ → ℕ → Scope × Bool
add_pending_type_defn s ident parsed_defn_id =
    if contains_key s.pending_type_defns ident
    then (s, false)
    else (record s { pending_type_defns = insert s.pending_type_defns ident parsed_defn_id }, true)

unfoldable pub find_pending_type_defn : Scope → ℕ → Option ℕ
find_pending_type_defn s ident = get s.pending_type_defns ident

-- The answer says whether there was such a definition.
unfoldable pub remove_pending_type_defn : Scope → ℕ → Scope × Bool
remove_pending_type_defn s ident = (
  record s { pending_type_defns = remove s.pending_type_defns ident },
  contains_key s.pending_type_defns ident,
)
