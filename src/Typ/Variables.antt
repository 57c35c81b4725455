-- ===== src/Typ/Variables.antt =====
-- src/k1/typer/types.rs, `does_type_reference_type_variables`: whether a type variable or a generic
-- type stands anywhere in a type.
use mathlib.Core.Path.{subst}
use bfl.Outcome.{out_of_fuel, panic, ◌>>=◌, ok, Outcome}
use bfl.Prelude.{
  arith, ◌<◌, ◌≢◌, refl, sym, if◌then◌else◌, ◌++◌, zero, [], length, true, map, some, suc,
  get_elem?, false, ◌∷◌, Bool, none, ◌≡◌, List, ℕ, Option,
}
use bfl.Typ
use bfl.Typ.Pool
use bfl.Typ.Pool.{Types}

unfoldable pub payloads : List Typ.TypedEnumVariant → List Typ.TypeId
payloads [] = []
payloads (v ∷ vs) = elim v.payload [ none ↦ payloads vs | some payload ↦ payload ∷ payloads vs ]

-- The ids that the match goes into, in its order; `none` where it answers true at once.
unfoldable pub parts : Typ.Ty → Option (List Typ.TypeId)
unfolding payloads
parts (Typ.type_variable _) = none
parts (Typ.generic _) = none
parts (Typ.struct struc) = some (map (λ (field : Typ.StructTypeField). field.type_id) struc.fields)
parts (Typ.reference refer) = some (refer.inner_type ∷ [])
parts (Typ.enum e) = some (payloads e.variants)
parts (Typ.enum_variant ev) = some (payloads (ev ∷ []))
parts (Typ.opaque_alias opaque) = some (opaque.aliasee ∷ [])
parts (Typ.function_type fun) =
    some (map (λ (param : Typ.FnArgType). param.type_id) fun.params ++ fun.return_type ∷ [])
parts _ = some []

-- The same with the first test: an instance of a generic type is judged by its arguments.
unfoldable pub mentioned : Types → Typ.TypeId → Outcome (Option (List Typ.TypeId))
unfolding parts Pool.get_generic_instance_info Pool.get_no_follow
mentioned pool type_id = do
  instance_info ← Pool.get_generic_instance_info pool type_id
  elim instance_info [
    | some spec_info ↦ ok (some spec_info.param_values)
    | none ↦ do t ← Pool.get_no_follow pool type_id; ok (parts t)
  ]

-- `Iterator::any`, and the loops that return at the first hit.
unfoldable pub any_of : (Typ.TypeId → Outcome Bool) → List Typ.TypeId → Outcome Bool
any_of look [] = ok false
any_of look (id ∷ ids) =
    let later = any_of look ids in do hit ← look id; if hit then ok true else later

unfoldable pub variables_loop : ℕ → Types → Typ.TypeId → Outcome Bool
unfolding any_of
variables_loop zero pool type_id = out_of_fuel
variables_loop (suc f) pool type_id = do
  ids ← mentioned pool type_id
  elim ids [ none ↦ ok true | some below ↦ any_of (λ id. variables_loop f pool id) below ]

unfoldable pub does_type_reference_type_variables : Types → Typ.TypeId → Outcome Bool
unfolding variables_loop mentioned
does_type_reference_type_variables pool type_id =
    variables_loop (suc (length pool.types)) pool type_id

-- A type variable or generic type is met on some way down, by the ids that the match goes into.
pub data Met (pool : Types) : Typ.TypeId → Type 0 where
  here : {id : Typ.TypeId} → mentioned pool id ≡ ok none → Met pool id
  below :
      {id : Typ.TypeId} (ids : List Typ.TypeId) (k : ℕ) (j : Typ.TypeId)
      → mentioned pool id ≡ ok (some ids)
      → get_elem? ids k ≡ some j
      → Met pool j
      → Met pool id

module _ (pool : Types) where
  abbrev pub Found : Typ.TypeId → Outcome Bool → Type 0
  Found id (ok true) = Met pool id
  Found id (ok false) = ¬ (Met pool id)
  Found id panic = Unit
  Found id out_of_fuel = Unit

  abbrev AnyFound : List Typ.TypeId → Outcome Bool → Type 0
  AnyFound ids (ok true) = (k : ℕ) × (j : Typ.TypeId) × (get_elem? ids k ≡ some j) × Met pool j
  AnyFound ids (ok false) = (k : ℕ) (j : Typ.TypeId) → get_elem? ids k ≡ some j → ¬ (Met pool j)
  AnyFound ids panic = Unit
  AnyFound ids out_of_fuel = Unit

  any_of-AnyFound :
      (look : Typ.TypeId → Outcome Bool) (ids : List Typ.TypeId)
      → ((id : Typ.TypeId) → Found id (look id))
      → AnyFound ids (any_of look ids)
  unfolding any_of
  any_of-AnyFound look [] h = λ k j e. absurd (cc e)
  any_of-AnyFound look (id ∷ ids) h =
      go (look id) (h id) (any_of look ids) (any_of-AnyFound look ids h)
    where
      go :
          (first : Outcome Bool)
          → Found id first
          → (later : Outcome Bool) → AnyFound ids later
          → AnyFound (id ∷ ids) (first >>= (λ hit. if hit then ok true else later))
      go (ok true) m later a = (0, id, refl, m)
      go (ok false) m (ok true) (k, j, e, n) = (suc k, j, e, n)
      go (ok false) m (ok false) a = λ k j e. none_at k j e
        where
          none_at : (k : ℕ) (j : Typ.TypeId) → get_elem? (id ∷ ids) k ≡ some j → ¬ (Met pool j)
          none_at zero j e n = m (subst (Met pool) (cc e) n)
          none_at (suc k) j e n = a k j e n
      go (ok false) m panic a = tt
      go (ok false) m out_of_fuel a = tt
      go panic m later a = tt
      go out_of_fuel m later a = tt

  variables_loop-Found : (f : ℕ) (id : Typ.TypeId) → Found id (variables_loop f pool id)
  unfolding variables_loop
  variables_loop-Found zero id = tt
  variables_loop-Found (suc f) id = go (mentioned pool id) refl (variables_loop-Found f)
    where
      among :
          (ids : List Typ.TypeId) (o : Outcome Bool)
          → mentioned pool id ≡ ok (some ids)
          → AnyFound ids o
          → Found id o
      among ids (ok true) e (k, j, at, m) = below ids k j e at m
      among ids (ok false) e a = none_below
        where
          none_below : ¬ (Met pool id)
          none_below (here e') = cc (e, e')
          none_below (below ids' k j e' at m) = a k j (rw (sym (same e')) at) m
            where
              same : mentioned pool id ≡ ok (some ids') → ids' ≡ ids
              same e' = cc (e, e')
      among ids panic e a = tt
      among ids out_of_fuel e a = tt

      go :
          (r : Outcome (Option (List Typ.TypeId)))
          → mentioned pool id ≡ r
          → ((j : Typ.TypeId) → Found j (variables_loop f pool j))
          → Found id (
              r >>= (λ ids. elim ids [
                | none ↦ ok true
                | some ids ↦ any_of (λ j. variables_loop f pool j) ids
              ]))
      go (ok none) e ih = here e
      go (ok (some ids)) e ih =
          among ids _ e (any_of-AnyFound (λ j. variables_loop f pool j) ids ih)
      go panic e ih = tt
      go out_of_fuel e ih = tt

  -- Types are built from types with smaller ids, and no read of the pool goes round in a circle.
  pub record Descends : Type 0 where
    pub smaller :
        (id : Typ.TypeId) (ids : List Typ.TypeId) (k : ℕ) (j : Typ.TypeId)
        → mentioned pool id ≡ ok (some ids)
        → get_elem? ids k ≡ some j
        → j < id
    pub reads : (id : Typ.TypeId) → mentioned pool id ≢ out_of_fuel

  any_of-returns :
      (look : Typ.TypeId → Outcome Bool) (ids : List Typ.TypeId)
      → ((k : ℕ) (j : Typ.TypeId) → get_elem? ids k ≡ some j → look j ≢ out_of_fuel)
      → any_of look ids ≢ out_of_fuel
  unfolding any_of
  any_of-returns look [] h = λ e. cc e
  any_of-returns look (id ∷ ids) h =
      go (look id) (h 0 id refl) (any_of look ids)
        (any_of-returns look ids (λ k j e. h (suc k) j e))
    where
      go :
          (first : Outcome Bool)
          → first ≢ out_of_fuel
          → (later : Outcome Bool) → later ≢ out_of_fuel
          → (first >>= (λ hit. if hit then ok true else later)) ≢ out_of_fuel
      go (ok true) n later m = λ e. cc e
      go (ok false) n later m = m
      go panic n later m = λ e. cc e
      go out_of_fuel n later m = n

  variables_loop-returns :
      (f : ℕ) (id : Typ.TypeId) → Descends → id < f → variables_loop f pool id ≢ out_of_fuel
  unfolding variables_loop
  variables_loop-returns zero id s h = absurd (omega arith)
  variables_loop-returns (suc f) id s h =
      go (mentioned pool id) refl (λ j lt. variables_loop-returns f j s (omega (arith, h, lt)))
    where
      go :
          (r : Outcome (Option (List Typ.TypeId)))
          → mentioned pool id ≡ r
          → ((j : Typ.TypeId) → j < id → variables_loop f pool j ≢ out_of_fuel)
          → (r >>= (λ ids. elim ids [
            | none ↦ ok true
            | some ids ↦ any_of (λ j. variables_loop f pool j) ids
          ]))
            ≢ out_of_fuel
      go (ok none) e ih = λ e. cc e
      go (ok (some ids)) e ih =
          any_of-returns (λ j. variables_loop f pool j) ids
            (λ k j at. ih j (s.smaller id ids k j e at))
      go panic e ih = λ e. cc e
      go out_of_fuel e ih = absurd (s.reads id e)

  -- The search from a type of a pool that descends returns, and answers whether it meets one.
  pub does_type_reference_type_variables-Found :
      (id : Typ.TypeId)
      → Descends
      → id < length pool.types
      → (does_type_reference_type_variables pool id ≢ out_of_fuel)
        × Found id (does_type_reference_type_variables pool id)
  unfolding does_type_reference_type_variables
  does_type_reference_type_variables-Found id s h = (
    variables_loop-returns (suc (length pool.types)) id s (omega (arith, h)),
    variables_loop-Found (suc (length pool.types)) id,
  )
