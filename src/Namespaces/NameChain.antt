-- ===== src/Namespaces/NameChain.antt =====
-- src/k1/typer.rs, `Namespaces`: what `add` does to the namespaces, and `name_chain`, the names from
-- the root namespace down to a namespace.
use bfl.Outcome.{ok}
use bfl.Prelude.{
  get_elem?-append_lt, get_elem?-append_end, get_elem?-push, zero, Option-cases, get_elem?-of_lt,
  append_assoc, sym, inr, inl, append-nil, ◌⊎◌, ap, suc, ◌∙◌, arith, [], ◌∷◌, ◌++◌, none, length,
  some, ◌≡◌, get_elem?, ◌<◌, List, ℕ,
}
use bfl.Namespaces.{Namespace, get, add, chain_loop, name_chain, Namespaces}

-- Every parent has a smaller id than its child, as `add` gives them out.
abbrev pub IsTree : Namespaces → Type 0
IsTree namespaces =
    (id parent : ℕ) (namespace : Namespace)
    → get_elem? namespaces id ≡ some namespace
    → namespace.parent_id ≡ some parent
    → parent < id

-- The names on the way from the root to a namespace.
pub data NamesTo (namespaces : Namespaces) : ℕ → List ℕ → Type 0 where
  root :
      {id : ℕ} (namespace : Namespace)
      → get_elem? namespaces id ≡ some namespace
      → namespace.parent_id ≡ none
      → NamesTo namespaces id (namespace.name ∷ [])
  child :
      {id : ℕ} {names : List ℕ} (namespace : Namespace) (parent : ℕ)
      → get_elem? namespaces id ≡ some namespace
      → namespace.parent_id ≡ some parent
      → NamesTo namespaces parent names
      → NamesTo namespaces id (names ++ namespace.name ∷ [])

chain_loop-NamesTo :
    (f : ℕ) (namespaces : Namespaces) (id : ℕ) (chain : List ℕ)
    → IsTree namespaces
    → id < length namespaces
    → id < f
    → (names : List ℕ) × (chain_loop f namespaces id chain ≡ ok (names ++ chain))
      × NamesTo namespaces id names
unfolding chain_loop get
chain_loop-NamesTo zero namespaces id chain t h k = absurd (omega arith)
chain_loop-NamesTo (suc f) namespaces id chain t h k =
    let (namespace, e) = get_elem?-of_lt namespaces id h in
    go namespace e (Option-cases namespace.parent_id)
      (λ p. chain_loop-NamesTo f namespaces p (namespace.name ∷ chain) t)
  where
    go :
        (namespace : Namespace)
        → get_elem? namespaces id ≡ some namespace
        → (namespace.parent_id ≡ none) ⊎ ((p : ℕ) × (namespace.parent_id ≡ some p))
        → ((p : ℕ)
            → p < length namespaces
            → p < f
            → (names : List ℕ) × (chain_loop f namespaces p (namespace.name ∷ chain)
                ≡ ok (names ++ namespace.name ∷ chain))
              × NamesTo namespaces p names)
        → (names : List ℕ) × (chain_loop (suc f) namespaces id chain ≡ ok (names ++ chain))
          × NamesTo namespaces id names
    go namespace e (inl r) ih =
        (namespace.name ∷ [], rw (e, chain_loop, r), NamesTo.root namespace e r)
    go namespace e (inr (p, r)) ih =
        let less = t id p namespace e r in
        let (names, found, way) = ih p (omega arith) (omega arith) in
        (
          names ++ namespace.name ∷ [],
          rw (e, chain_loop, r)
              (found ∙ ap ok (sym (append_assoc names (namespace.name ∷ []) chain))),
          NamesTo.child namespace p e r way,
        )

-- In a tree the chain of a namespace in it is found, and holds the names on the way from the root down to it.
pub name_chain-NamesTo :
    (namespaces : Namespaces) (id : ℕ)
    → IsTree namespaces
    → id < length namespaces
    → (names : List ℕ) × (name_chain namespaces id ≡ ok names) × NamesTo namespaces id names
unfolding name_chain
name_chain-NamesTo namespaces id t h =
    let (names, found, way) = chain_loop-NamesTo (length namespaces) namespaces id [] t h h in
    (names, found ∙ ap ok (append-nil names), way)

add-IsTree :
    (namespaces : Namespaces) (namespace : Namespace)
    → IsTree namespaces
    → ((parent : ℕ) → namespace.parent_id ≡ some parent → parent < length namespaces)
    → IsTree (add namespaces namespace).0
unfolding add
add-IsTree namespaces namespace t p id parent n e q =
    elim (get_elem?-push namespaces namespace id e) [
      | inl old ↦ t id parent n old q
      | inr (last, same) ↦ rw last (p parent (rw same q))
    ]

-- In a list of less than 2 ^ 32 namespaces the id of a new namespace reads it back, and every id
-- that was given out reads what it read before. A tree stays one where the new namespace is a root
-- or its parent is there already.
pub get-add_namespace :
    (namespaces : Namespaces) (namespace : Namespace)
    → length namespaces < 4294967296
    → (get (add namespaces namespace).0 (add namespaces namespace).1 ≡ some namespace)
      × ((id : ℕ)
          → id < length namespaces
          → get (add namespaces namespace).0 id ≡ get namespaces id)
      × (IsTree namespaces
          → ((parent : ℕ) → namespace.parent_id ≡ some parent → parent < length namespaces)
          → IsTree (add namespaces namespace).0)
unfolding add get
get-add_namespace namespaces namespace h = (
  ap (get_elem? (namespaces ++ namespace ∷ [])) (omega (arith, h))
      ∙ get_elem?-append_end namespaces namespace,
  λ id lt. get_elem?-append_lt namespaces (namespace ∷ []) id lt,
  add-IsTree namespaces namespace,
)
