-- ===== src/Scopes/Growth.antt =====
-- src/k1/typer/scopes.rs: what adding scopes and names keeps, and what it changes.
use bfl.Outcome.{ok}
use native.Mathlib.Decide.{ℕ_discrete}
use bfl.Prelude.{
  refl, get_elem?-append_end, length-append, get_elem?-set_ne, length-set, inr, ap,
  get_elem?-append_lt, ◌∙◌, arith, inl, sym, u32, get_elem?-push, ◌≢◌, [], lt_of_get_elem?, ◌∷◌,
  get_elem?-set_self, ◌++◌, ℕ, ◌+◌, ◌<◌, set, Option, get_elem?, some, length, ◌≡◌,
}
use bfl.Scopes.Chain.{IsTree}
use bfl.Scopes.Table.{ScopeOwnerId, ScopeType, ScopeId, Scope}
use bfl.Scopes.{modify, get_scope, Scopes, add_child_scope}
use bfl.Scopes.Table

-- A scope may change its names: where its parent stays, the tree stays a tree.
set-IsTree :
    (scopes : Scopes) (id : ScopeId) (old new : Scope)
    → IsTree scopes
    → get_elem? scopes id ≡ some old
    → new.parent ≡ old.parent
    → IsTree (set scopes id new)
set-IsTree scopes id old new t e p i parent scope f q = elim (ℕ_discrete id i) [
  | yes same ↦
      let here : get_elem? (set scopes id new) id ≡ some new =
        get_elem?-set_self scopes id new (lt_of_get_elem? scopes id e) in
      let is_new : new ≡ scope = cc (here, rw (← same) at f) in
      rw (← same) (t id parent old e (sym p ∙ ap (λ (s : Scope). s.parent) is_new ∙ q))
  | no other ↦ t i parent scope (sym (get_elem?-set_ne scopes new other) ∙ f) q
]

push-IsTree :
    (scopes : Scopes) (scope : Scope)
    → IsTree scopes
    → ((parent : ScopeId) → scope.parent ≡ some parent → parent < length scopes)
    → IsTree (scopes ++ scope ∷ [])
push-IsTree scopes scope t p id parent s e q = elim (get_elem?-push scopes scope id e) [
  | inl old ↦ t id parent s old q
  | inr (last, same) ↦ rw last (p parent (rw same q))
]

pub modify-ok :
    (scopes : Scopes) (id : ScopeId) (s : Scope) (change : Scope → Scope)
    → get_elem? scopes id ≡ some s
    → modify scopes id change ≡ ok (set scopes id (change s))
unfolding modify get_scope
modify-ok scopes id s change e = rw (e, modify)

-- What a new child is, in full.
pub record IsChild (scopes scopes' : Scopes) (parent id : ScopeId) (p child : Scope) : Type 0 where
  pub id_is : id ≡ length scopes
  pub length_is : length scopes' ≡ length scopes + 1
  pub child_at : get_elem? scopes' id ≡ some child
  pub parent_at : get_elem? scopes' parent ≡ some (record p { children = p.children ++ id ∷ [] })
  pub others :
      (i : ScopeId) → i < length scopes → parent ≢ i → get_elem? scopes' i ≡ get_elem? scopes i
  pub tree : IsTree scopes'

-- In a tree of less than 2 ^ 32 scopes a child is the next scope, empty, under its parent; the parent lists it last; all else stays.
pub add_child_scope-IsChild :
    (scopes : Scopes) (parent : ScopeId) (p : Scope) (ty : ScopeType) (owner : Option ScopeOwnerId)
    (name : Option ℕ)
    → IsTree scopes
    → length scopes < 4294967296
    → get_elem? scopes parent ≡ some p
    → (r : Scopes × ScopeId) × (add_child_scope scopes parent ty owner name ≡ ok r)
      × IsChild scopes r.0 parent r.1 p (record (Table.make ty owner name) { parent = some parent })
unfolding add_child_scope
add_child_scope-IsChild scopes parent p ty owner name t fits e = (
  (set grown parent p', length scopes),
  rw (id_is, modify-ok grown parent p _ at_parent),
  record {
    id_is = refl;
    length_is = length-set grown parent p' ∙ length-append scopes (child ∷ []);
    child_at =
        get_elem?-set_ne grown p' (λ (q : parent ≡ length scopes). omega (arith, inside))
        ∙ get_elem?-append_end scopes child;
    parent_at = get_elem?-set_self grown parent p' (lt_of_get_elem? grown parent at_parent);
    others = λ i h n. get_elem?-set_ne grown p' n ∙ get_elem?-append_lt scopes (child ∷ []) i h;
    tree = set-IsTree grown parent p p' (push-IsTree scopes child t only_parent) at_parent refl;
  },
)
  where
    child : Scope
    child = record (Table.make ty owner name) { parent = some parent }

    grown : Scopes
    grown = scopes ++ child ∷ []

    p' : Scope
    p' = record p { children = p.children ++ length scopes ∷ [] }

    id_is : u32 (length scopes) ≡ length scopes
    id_is = omega arith

    inside : parent < length scopes
    inside = lt_of_get_elem? scopes parent e

    at_parent : get_elem? grown parent ≡ some p
    at_parent = get_elem?-append_lt scopes (child ∷ []) parent inside ∙ e

    only_parent : (q : ScopeId) → child.parent ≡ some q → q < length scopes
    only_parent q r = let same : parent ≡ q = cc r in rw (← same) inside
