-- ===== src/Typ/Once.antt =====
-- src/k1/typer/types.rs, `add_type`: what the pool and the id are after a type is interned.
use mathlib.Core.Path.{subst}
use bfl.Outcome.{ok}
use bfl.Typ.Equal.{type_eq}
use bfl.Prelude.{
  append-nil, sym, u32, length-append, [], ap, ◌∷◌, ◌∙◌, ◌++◌, none, refl, arith, inl, inr,
  Option-cases, ◌+◌, true, length, ◌<◌, some, ◌≡◌, List, get_elem?,
}
use bfl.Typ.Intern.{rounds, add_type_ext, add_type}
use bfl.Typ
use bfl.Typ.Pool.{Types}
use bfl.Typ.Dedupe.{
  found_in-append, shape_eq-structural, intern-Pushes, Pushes, find_existing-structural,
  found_in-some, found_in, variants_of, is_structural,
}

-- Types are only added at the end, so that every id keeps its type.
unfoldable pub Keeps : List Typ.Ty → List Typ.Ty → Type 0
Keeps ts us = (added : List Typ.Ty) × (us ≡ ts ++ added)

-- The id is that of a type that `type_eq` takes for the same.
unfoldable pub Stands : Types → Typ.TypeId → Typ.Ty → Type 0
Stands pool id typ =
    (t : Typ.Ty) × (get_elem? pool.types id ≡ some t) × (type_eq (rounds pool) pool t typ ≡ ok true)

add_found :
    (pool : Types) (typ : Typ.Ty)
    → is_structural typ ≡ true
    → (id : Typ.TypeId) → found_in typ 0 pool.types ≡ some id
    → add_type pool typ ≡ ok (pool, id)
unfolding add_type add_type_ext
add_found pool typ h id e = rw (find_existing-structural pool typ 0 pool.types h, e) refl

found-Stands :
    (pool : Types) (typ : Typ.Ty)
    → is_structural typ ≡ true
    → length pool.types < 4294967296
    → (id : Typ.TypeId) → found_in typ 0 pool.types ≡ some id
    → Stands pool id typ
unfolding Stands rounds type_eq
found-Stands pool typ h b id e =
    let (k, t, at, there, same) = found_in-some typ 0 pool.types id e (omega (arith, b)) in
    let here : k ≡ id = omega (arith, at) in
    (
      t,
      subst (λ j. get_elem? pool.types j ≡ some t) here there,
      shape_eq-structural _ t typ h ∙ ap ok same,
    )

-- What `add_type` gives for a type that is not there yet.
Interns : Types → Typ.Ty → Type 0
Interns pool typ =
    (pool' : Types) × (id : Typ.TypeId) × (add_type pool typ ≡ ok (pool', id))
    × (add_type pool' typ ≡ ok (pool', id))
    × Keeps pool.types pool'.types
    × Stands pool' id typ

add_new :
    (pool : Types) (typ : Typ.Ty)
    → is_structural typ ≡ true
    → length pool.types + variants_of typ + 1 < 4294967296
    → found_in typ 0 pool.types ≡ none
    → Pushes pool typ
    → Interns pool typ
unfolding Interns Pushes
add_new pool typ h b e (front, last, id, pushed, at, before, same, len) = (
  pool',
  id,
  unfold add_type add_type_ext in rw (find_existing-structural pool typ 0 pool.types h, e) pushed,
  add_found pool' typ h id there,
  unfold Keeps in (front ++ last ∷ [], refl),
  found-Stands pool' typ h
      (omega (
        arith,
        b,
        len,
        length-append pool.types (front ++ last ∷ []),
        length-append front (last ∷ []),
      ))
      id there,
)
  where
    pool' : Types
    pool' = record pool { types = pool.types ++ (front ++ last ∷ []) }

    small : u32 (0 + length pool.types + length front) ≡ id
    small = omega (arith, b, at, len)

    there : found_in typ 0 pool'.types ≡ some id
    there =
        rw
          (
            found_in-append typ 0 pool.types (front ++ last ∷ []),
            e,
            found_in-append typ (0 + length pool.types) front (last ∷ []),
            before (0 + length pool.types),
          )
          (unfold found_in in rw same (ap some small))

-- Interning a type that is compared by shape returns, leaves every existing id alone, and gives the
-- id of an equal type; interning it again gives that id and changes nothing. The condition is that
-- the pool has less than 2 ^ 32 types, the new ones included.
pub add_type-interns :
    (pool : Types) (typ : Typ.Ty)
    → is_structural typ ≡ true
    → length pool.types + variants_of typ + 1 < 4294967296
    → (pool' : Types) × (id : Typ.TypeId) × (add_type pool typ ≡ ok (pool', id))
      × (add_type pool' typ ≡ ok (pool', id))
      × Keeps pool.types pool'.types
      × Stands pool' id typ
unfolding Interns
add_type-interns pool typ h b = elim (Option-cases (found_in typ 0 pool.types)) [
  | inr (id, e) ↦
      let returns = add_found pool typ h id e in
      (
        pool,
        id,
        returns,
        returns,
        unfold Keeps in ([], sym (append-nil pool.types)),
        found-Stands pool typ h (omega (arith, b)) id e,
      )
  | inl e ↦ add_new pool typ h b e (intern-Pushes pool typ h (omega (arith, b)))
]
