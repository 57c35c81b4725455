-- ===== src/Typ/Mentions/Search.antt =====
-- src/k1/typer/types.rs, `does_type_reference_type_variables`: the search decides whether a type
-- mentions a type variable.
use mathlib.Core.Path.{subst}
use bfl.Outcome.{ok-injective, panic, ok, out_of_fuel, Outcome}
use bfl.Prelude.{
  sym, refl, false, In, inr, ◌⊎◌, true, ap, some, inl, get_elem?-In, none, length, Bool, Option,
  ◌≡◌, ◌≢◌, ◌<◌, List,
}
use bfl.Typ.Variables.{
  does_type_reference_type_variables-Found, parts, below, Descends, Found,
  does_type_reference_type_variables, here, Met, mentioned,
}
use bfl.Typ.Mentions.{
  parts-PartOf, some-injective, PartOf-parts, component, argument, parts-IsVariable,
  IsVariable-parts, In-of_get_elem?, IsVariable, through, variable, Mentions, Part,
}
use bfl.Typ.Pool.{Types}
use bfl.Typ
use bfl.Typ.Pool

module _ (pool : Types) where
  -- What the first test of the search says of a type, and the match behind it.
  mentioned-cases :
      (id : Typ.TypeId) (r : Option (List Typ.TypeId))
      → mentioned pool id ≡ ok r
      → ((info : Typ.GenericInstanceInfo) × (Pool.get_generic_instance_info pool id
            ≡ ok (some info))
          × (some info.param_values ≡ r))
        ⊎ ((Pool.get_generic_instance_info pool id ≡ ok none)
            × (t : Typ.Ty) × (Pool.get_no_follow pool id ≡ ok t)
            × (parts t ≡ r))
  unfolding mentioned
  mentioned-cases id r e = go (Pool.get_generic_instance_info pool id) refl
    where
      go :
          (o : Outcome (Option Typ.GenericInstanceInfo))
          → Pool.get_generic_instance_info pool id ≡ o
          → ((info : Typ.GenericInstanceInfo) × (Pool.get_generic_instance_info pool id
                ≡ ok (some info))
              × (some info.param_values ≡ r))
            ⊎ ((Pool.get_generic_instance_info pool id ≡ ok none)
                × (t : Typ.Ty) × (Pool.get_no_follow pool id ≡ ok t)
                × (parts t ≡ r))
      go (ok (some info)) g = inl (info, g, ok-injective (rw (mentioned, g) at e))
      go (ok none) g = read (Pool.get_no_follow pool id) refl
        where
          read :
              (o : Outcome Typ.Ty)
              → Pool.get_no_follow pool id ≡ o
              → ((info : Typ.GenericInstanceInfo) × (Pool.get_generic_instance_info pool id
                    ≡ ok (some info))
                  × (some info.param_values ≡ r))
                ⊎ ((Pool.get_generic_instance_info pool id ≡ ok none)
                    × (t : Typ.Ty) × (Pool.get_no_follow pool id ≡ ok t)
                    × (parts t ≡ r))
          read (ok t) h = inr (g, t, h, ok-injective (rw (mentioned, g, h) at e))
          read panic h = let bad : panic ≡ ok r = rw (mentioned, g, h) at e in absurd (cc bad)
          read out_of_fuel h =
              let bad : out_of_fuel ≡ ok r = rw (mentioned, g, h) at e in absurd (cc bad)
      go panic g = let bad : panic ≡ ok r = rw (mentioned, g) at e in absurd (cc bad)
      go out_of_fuel g = let bad : out_of_fuel ≡ ok r = rw (mentioned, g) at e in absurd (cc bad)

  mentioned-Part :
      (id : Typ.TypeId) (ids : List Typ.TypeId) (j : Typ.TypeId)
      → mentioned pool id ≡ ok (some ids)
      → In j ids
      → Part pool id j
  mentioned-Part id ids j e i = elim (mentioned-cases id (some ids) e) [
    | inl (info, g, same) ↦ argument info g (subst (In j) (sym (some-injective same)) i)
    | inr (g, t, h, q) ↦ component t g h (parts-PartOf t ids j q i)
  ]

  Part-mentioned :
      (id j : Typ.TypeId)
      → Part pool id j
      → (ids : List Typ.TypeId) × (mentioned pool id ≡ ok (some ids)) × In j ids
  unfolding mentioned
  Part-mentioned id j (argument info g i) = (info.param_values, rw (mentioned, g) refl, i)
  Part-mentioned id j (component t g h p) =
      let (ids, q, i) = PartOf-parts t j p in (ids, rw (mentioned, g, h) (ap ok q), i)

  variable-mentioned :
      (id : Typ.TypeId) (t : Typ.Ty)
      → Pool.get_generic_instance_info pool id ≡ ok none
      → Pool.get_no_follow pool id ≡ ok t
      → IsVariable t
      → mentioned pool id ≡ ok none
  unfolding mentioned
  variable-mentioned id t g h v = rw (mentioned, g, h) (ap ok (IsVariable-parts t v))

  Met-Mentions : {id : Typ.TypeId} → Met pool id → Mentions pool id
  Met-Mentions {id = id} (here e) = elim (mentioned-cases id none e) [
    | inl (info, g, same) ↦ absurd (cc same)
    | inr (g, t, h, q) ↦ variable t g h (parts-IsVariable t q)
  ]
  Met-Mentions {id = id} (below ids k j e at m) =
      through j (mentioned-Part id ids j e (In-of_get_elem? j ids k at)) (Met-Mentions m)

  Mentions-Met : {id : Typ.TypeId} → Mentions pool id → Met pool id
  Mentions-Met {id = id} (variable t g h v) = here (variable-mentioned id t g h v)
  Mentions-Met {id = id} (through j p m) =
      let (ids, e, i) = Part-mentioned id j p in
      let (k, at) = get_elem?-In j ids i in below ids k j e at (Mentions-Met m)

  -- Types are built from types with smaller ids, and no read of the pool goes round in a circle.
  pub record Settled : Type 0 where
    pub smaller : (id j : Typ.TypeId) → Part pool id j → j < id
    pub reads : (id : Typ.TypeId) → mentioned pool id ≢ out_of_fuel

  abbrev pub Answers : Typ.TypeId → Outcome Bool → Type 0
  Answers id (ok true) = Mentions pool id
  Answers id (ok false) = ¬ (Mentions pool id)
  Answers id panic = Unit
  Answers id out_of_fuel = Unit

  Found-Answers : (id : Typ.TypeId) (o : Outcome Bool) → Found pool id o → Answers id o
  Found-Answers id (ok true) m = Met-Mentions m
  Found-Answers id (ok false) n = λ m. n (Mentions-Met m)
  Found-Answers id panic f = tt
  Found-Answers id out_of_fuel f = tt

  -- In a pool whose types are built from types with smaller ids and whose reads end, the search for
  -- a type variable from a type of the pool returns, and where it answers, it answers true exactly
  -- where a type variable or a generic type is reached: through the arguments of an instance, and
  -- otherwise through the fields of a struct, the payloads of an enum or a variant, the parameters
  -- and the result of a function, the type behind a reference and the one behind an alias.
  pub does_type_reference_type_variables-Answers :
      (id : Typ.TypeId)
      → Settled
      → id < length pool.types
      → (does_type_reference_type_variables pool id ≢ out_of_fuel)
        × Answers id (does_type_reference_type_variables pool id)
  does_type_reference_type_variables-Answers id s h =
      let lower : Descends pool = record {
        smaller =
            λ i ids k j e at. s.smaller i j (mentioned-Part i ids j e (In-of_get_elem? j ids k at));
        reads = s.reads;
      } in
      let (returns, found) = does_type_reference_type_variables-Found pool id lower h in
      (returns, Found-Answers id _ found)
