-- ===== src/Scopes/Names.antt =====
-- src/k1/typer/scopes.rs, `add_variable` and `add_function`: what a lookup finds afterwards.
use mathlib.Core.Path.{subst}
use native.Mathlib.Decide.{ℕ_discrete}
use bfl.Maps.{get-insert}
use bfl.Scopes.Growth.{modify-ok}
use bfl.Outcome.{ok-injective, ok}
use bfl.Prelude.{
  refl, zero, get_elem?-set_ne, length, length-set, Option-cases, lt_of_get_elem?, ◌<◌,
  get_elem?-set_self, inr, inl, arith, ◌∙◌, ◌≢◌, ◌⊎◌, sym, none, suc, set, some, ◌≡◌, get_elem?, ℕ,
  Option,
}
use bfl.Scopes.Table.{Scope, ScopeId}
use bfl.Scopes.{find_type, find_function, find_variable, add_variable, get_scope, Scopes, find_up}
use bfl.Scopes.Table

-- A walk that looks for what a change leaves alone finds the same.
find_up-set :
    {A : Type 0} (look : Scope → Option A) (f : ℕ) (scopes : Scopes) (i : ScopeId) (old new : Scope)
    (id : ScopeId)
    → get_elem? scopes i ≡ some old
    → new.parent ≡ old.parent
    → look new ≡ look old
    → find_up look f (set scopes i new) id ≡ find_up look f scopes id
unfolding find_up get_scope
find_up-set look zero scopes i old new id e p l = refl
find_up-set {A} look (suc f) scopes i old new id e p l =
    go (ℕ_discrete i id) (λ q. find_up-set look f scopes i old new q e p l)
  where
    -- One round at a scope that looks the same and has the same parent.
    round :
        (a b : Scope)
        → get_elem? (set scopes i new) id ≡ some a
        → get_elem? scopes id ≡ some b
        → look a ≡ look b
        → a.parent ≡ b.parent
        → (b.parent ≡ none) ⊎ ((q : ScopeId) × (b.parent ≡ some q))
        → ((q : ScopeId) → find_up look f (set scopes i new) q ≡ find_up look f scopes q)
        → find_up look (suc f) (set scopes i new) id ≡ find_up look (suc f) scopes id
    round a b ga gb la pa (inl r) ih = ground (arith, ga, gb, la, pa, r)
    round a b ga gb la pa (inr (q, r)) ih = ground (arith, ga, gb, la, pa, r, ih q)

    go :
        Dec (i ≡ id)
        → ((q : ScopeId) → find_up look f (set scopes i new) q ≡ find_up look f scopes q)
        → find_up look (suc f) (set scopes i new) id ≡ find_up look (suc f) scopes id
    go (yes same) ih =
        let at = get_elem?-set_self scopes i new (lt_of_get_elem? scopes i e) in
        round new old (subst (λ j. get_elem? (set scopes i new) j ≡ some new) same at)
          (subst (λ j. get_elem? scopes j ≡ some old) same e) l p (Option-cases old.parent) ih
    go (no other) ih =
        let kept = get_elem?-set_ne scopes new other in
        elim (Option-cases (get_elem? scopes id)) [
          | inl gone ↦ ground (arith, kept, gone)
          | inr (b, there) ↦ round b b (kept ∙ there) there refl refl (Option-cases b.parent) ih
        ]

module _ (scopes scopes' : Scopes) (id : ScopeId) (s : Scope) (x v : ℕ)
    (e : get_elem? scopes id ≡ some s) (added : add_variable scopes id x v ≡ ok scopes') where
  set_is : scopes' ≡ set scopes id (Table.add_variable s x v)
  set_is = sym (
      ok-injective (
        sym (modify-ok scopes id s (λ t. Table.add_variable t x v) e)
        ∙ unfold add_variable in added))

  -- The new variable is found in its scope, in place of any of the same name; every other name of
  -- a variable, and every name of a function or type, is found where it was, from every scope.
  pub find_variable-add_variable :
      (i : ScopeId) (y z : ℕ)
      → y ≢ x
      → (find_variable scopes' id x ≡ ok (some v))
        × (find_variable scopes' i y ≡ find_variable scopes i y)
        × (find_function scopes' i z ≡ find_function scopes i z)
        × (find_type scopes' i z ≡ find_type scopes i z)
  unfolding find_variable find_function find_type Table.add_variable
  find_variable-add_variable i y z n =
      rw (set_is, length-set scopes id new)
        (
          new_found (length scopes) (lt_of_get_elem? scopes id e),
          find_up-set _ (length scopes) scopes id s new i e refl (other y n),
          find_up-set _ (length scopes) scopes id s new i e refl
              (unfold Table.find_function in refl),
          find_up-set _ (length scopes) scopes id s new i e refl (unfold Table.find_type in refl),
        )
    where
      new : Scope
      new = Table.add_variable s x v

      other : (y : ℕ) → y ≢ x → Table.find_variable new y ≡ Table.find_variable s y
      other y n =
          unfold Table.add_variable Table.find_variable in
          ground (arith, get-insert s.variables x y v)

      self : Table.find_variable new x ≡ some v
      self =
          unfold Table.add_variable Table.find_variable in
          ground (arith, get-insert s.variables x x v)

      new_found :
          (f : ℕ)
          → id < f
          → find_up (λ t. Table.find_variable t x) f (set scopes id new) id ≡ ok (some v)
      new_found zero h = absurd (omega arith)
      new_found (suc f) h =
          unfold find_up get_scope in
          rw (get_elem?-set_self scopes id new (lt_of_get_elem? scopes id e), self, find_up)
