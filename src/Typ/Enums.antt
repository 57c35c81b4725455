-- ===== src/Typ/Enums.antt =====
-- src/k1/typer/types.rs, `add_type_ext` of an enum: the variants become types of their own, which
-- refer to the enum, as it to them.
use bfl.Typ.Dedupe.{length-link, length-map}
use mathlib.Core.Path.{subst}
use bfl.Outcome.{ok}
use bfl.Typ.Intern.{intern, add_type_ext, link_variant, link}
use bfl.Prelude.{
  get_elem?-append_end, ◌∙◌, ap, lt_of_get_elem?, u32, refl, sym, none, false, zero, [], arith, ◌<◌,
  suc, ◌++◌, ◌∷◌, ◌+◌, map, length, some, ◌≡◌, get_elem?, ℕ, List,
}
use bfl.Typ
use bfl.Typ.Pool
use bfl.Typ.Pool.{get_as_enum, Types}

get_elem?-link :
    (a b : Typ.TypeId) (vs : List Typ.TypedEnumVariant) (i : ℕ) (v : Typ.TypedEnumVariant)
    → get_elem? vs i ≡ some v
    → get_elem? (link a b vs) i ≡ some (link_variant a b v)
unfolding link
get_elem?-link a b [] i v e = cc e
get_elem?-link a b (w ∷ vs) zero v e = ground (arith, e)
get_elem?-link a b (w ∷ vs) (suc i) v e = get_elem?-link a b vs i v e

get_elem?-map :
    (vs : List Typ.TypedEnumVariant) (i : ℕ) (v : Typ.TypedEnumVariant) (rest : List Typ.Ty)
    → get_elem? vs i ≡ some v
    → get_elem? (map Typ.enum_variant vs ++ rest) i ≡ some (Typ.enum_variant v)
get_elem?-map [] i v rest e = cc e
get_elem?-map (w ∷ vs) zero v rest e = cc e
get_elem?-map (w ∷ vs) (suc i) v rest e = get_elem?-map vs i v rest e

get_elem?-after :
    (xs ys : List Typ.Ty) (k : ℕ) → get_elem? (xs ++ ys) (length xs + k) ≡ get_elem? ys k
get_elem?-after [] ys k = let here : k ≡ 0 + k = omega arith in sym (ap (get_elem? ys) here)
get_elem?-after (x ∷ xs) ys k =
    let next : suc (length xs + k) ≡ suc (length xs) + k = omega arith in
    subst (λ j. get_elem? (x ∷ xs ++ ys) j ≡ get_elem? ys k) next (get_elem?-after xs ys k)

get-direct :
    (pool : Types) (id : Typ.TypeId) (t : Typ.Ty)
    → get_elem? pool.types id ≡ some t
    → Pool.redirect t ≡ none
    → Pool.get pool id ≡ ok t
unfolding Pool.get Pool.get_loop Pool.get_no_follow
get-direct pool id t e direct = rw (Pool.get, Pool.get_loop, Pool.get_no_follow, e, direct) refl

get_as_enum-enum :
    (pool : Types) (id : Typ.TypeId) (e : Typ.TypedEnum)
    → get_elem? pool.types id ≡ some (Typ.enum e)
    → Pool.get_as_enum pool id ≡ ok (some (e, none))
unfolding Pool.get_as_enum
get_as_enum-enum pool id e there =
    rw (get-direct pool id (Typ.enum e) there (unfold Pool.redirect in refl)) refl

get_as_enum-variant :
    (pool : Types) (at : Typ.TypeId) (v : Typ.TypedEnumVariant) (id : Typ.TypeId)
    (e : Typ.TypedEnum)
    → v.enum_type_id ≡ id
    → get_elem? pool.types at ≡ some (Typ.enum_variant v)
    → get_elem? pool.types id ≡ some (Typ.enum e)
    → Pool.get_as_enum pool at ≡ ok (some (e, some v))
unfolding Pool.get_as_enum Typ.expect_enum
get_as_enum-variant pool at v id e owner there here =
    rw
      (
        get-direct pool at (Typ.enum_variant v) there (unfold Pool.redirect in refl),
        owner,
        get-direct pool id (Typ.enum e) here (unfold Pool.redirect in refl),
      )
      refl

-- An enum that is interned without a search, with its variants numbered in order, has its variants
-- for the types before it: `get_as_enum` of a variant's id gives the interned enum and the variant,
-- which holds its own id and the enum's, and is what the enum holds at its index; `get_as_enum` of
-- the enum's id gives the enum. The condition is that the pool stays below 2 ^ 32 types.
pub add_type_ext-enum :
    (pool : Types) (e : Typ.TypedEnum) (i : ℕ) (v : Typ.TypedEnumVariant)
    → get_elem? e.variants i ≡ some v
    → v.index ≡ i
    → length pool.types + length e.variants + 1 < 4294967296
    → (pool' : Types) × (id : Typ.TypeId) × (e' : Typ.TypedEnum) × (v' : Typ.TypedEnumVariant)
      × (add_type_ext pool (Typ.enum e) false ≡ ok (pool', id))
      × (v'.my_type_id ≡ length pool.types + i)
      × (v'.enum_type_id ≡ id)
      × (v'.payload ≡ v.payload)
      × (get_elem? e'.variants i ≡ some v')
      × (get_as_enum pool' v'.my_type_id ≡ ok (some (e', some v')))
      × (get_as_enum pool' id ≡ ok (some (e', none)))
add_type_ext-enum pool e i v at numbered b = (
  pool',
  id,
  e',
  v',
  unfold add_type_ext intern Pool.next_type_id in refl,
  mine,
  unfold link_variant in refl,
  unfold link_variant in refl,
  held,
  get_as_enum-variant pool' (v'.my_type_id) v' id e' (unfold link_variant in refl) variant_there
      enum_there,
  get_as_enum-enum pool' id e' enum_there,
)
  where
    next : Typ.TypeId
    next = u32 (length pool.types)

    id : Typ.TypeId
    id = u32 (next + length e.variants)

    e' : Typ.TypedEnum
    e' = record e { variants = link next id e.variants }

    v' : Typ.TypedEnumVariant
    v' = link_variant next id v

    pool' : Types
    pool' = record pool {
      types = pool.types ++ (map Typ.enum_variant (link next id e.variants) ++ Typ.enum e' ∷ []);
    }

    lt : i < length e.variants
    lt = lt_of_get_elem? e.variants i at

    mine : v'.my_type_id ≡ length pool.types + i
    mine = unfold link_variant in omega (arith, b, lt, numbered)

    held : get_elem? (link next id e.variants) i ≡ some v'
    held = get_elem?-link next id e.variants i v at

    variant_there : get_elem? pool'.types v'.my_type_id ≡ some (Typ.enum_variant v')
    variant_there =
        subst (λ j. get_elem? pool'.types j ≡ some (Typ.enum_variant v')) (sym mine)
          (get_elem?-after pool.types _ i
            ∙ get_elem?-map (link next id e.variants) i v' (Typ.enum e' ∷ []) held)

    last : id ≡ length pool.types + length (map Typ.enum_variant (link next id e.variants))
    last = omega (arith, b, length-map (link next id e.variants), length-link next id e.variants)

    enum_there : get_elem? pool'.types id ≡ some (Typ.enum e')
    enum_there =
        subst (λ j. get_elem? pool'.types j ≡ some (Typ.enum e')) (sym last)
          (get_elem?-after pool.types _ _
            ∙ get_elem?-append_end (map Typ.enum_variant (link next id e.variants)) (Typ.enum e'))
