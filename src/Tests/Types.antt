-- ===== src/Tests/Types.antt =====
-- The theorems about src/k1/typer/types.rs at a concrete pool.
use mathlib.Core.Path.{subst}
use bfl.Typ.Mentions.Search.{does_type_reference_type_variables-Answers, Answers}
use bfl.Typ.Mentions.{PartOf, component, argument, Part}
use bfl.Typ.Variables.{mentioned, does_type_reference_type_variables}
use bfl.Typ.Enums.{add_type_ext-enum}
use bfl.Typ.Dedupe.{variants_of, is_structural}
use bfl.Outcome.{ok-injective, out_of_fuel, ok}
use bfl.Prelude.{
  sym, ◌<◌, zero, suc, ◌≢◌, refl, arith, get_elem?, ◌+◌, length, ◌≡◌, [], none, false, some, ◌∷◌,
}
use bfl.Typ.Intern.{add_type, add_type_ext}
use bfl.Typ
use bfl.Typ.Pool
use bfl.Typ.Pool.{get_as_enum, Types}
use bfl.Typ.Once.{add_type-interns, Keeps, Stands}

abbrev pool : Types
pool = record {
  types = Typ.integer Typ.u8 ∷ Typ.integer Typ.u16 ∷ [];
  type_defn_mapping = [];
  placeholder_mapping = [];
}

abbrev red : Typ.TypedEnumVariant
red = record { enum_type_id = 0; my_type_id = 0; name = 5; index = 0; payload = some 1 }

abbrev color : Typ.TypedEnum
color = record {
  variants = red ∷ record red { name = 6; index = 1; payload = none } ∷ [];
  type_defn_info = none;
  generic_instance_info = none;
  ast_node = Typ.type_expression 0;
}

add_type-interns_example :
    (pool' : Types) × (id : Typ.TypeId) × (add_type pool (Typ.enum color) ≡ ok (pool', id))
    × (add_type pool' (Typ.enum color) ≡ ok (pool', id))
    × Keeps pool.types pool'.types
    × Stands pool' id (Typ.enum color)
add_type-interns_example =
    add_type-interns pool (Typ.enum color) (unfold is_structural in refl)
      (unfold variants_of in omega arith)

add_type_ext-enum_example :
    (pool' : Types) × (id : Typ.TypeId) × (e' : Typ.TypedEnum) × (v' : Typ.TypedEnumVariant)
    × (add_type_ext pool (Typ.enum color) false ≡ ok (pool', id))
    × (v'.my_type_id ≡ length pool.types + 0)
    × (v'.enum_type_id ≡ id)
    × (v'.payload ≡ red.payload)
    × (get_elem? e'.variants 0 ≡ some v')
    × (get_as_enum pool' v'.my_type_id ≡ ok (some (e', some v')))
    × (get_as_enum pool' id ≡ ok (some (e', none)))
add_type_ext-enum_example = add_type_ext-enum pool color 0 red refl refl (omega arith)

abbrev generic_pool : Types
generic_pool = record pool {
  types =
      Typ.type_variable (record { name = 1; scope_id = 0; ability_impls = []; span = 0 })
      ∷ Typ.reference (record { inner_type = 0 })
      ∷ [];
}

generic_pool-reads : (id : Typ.TypeId) → mentioned generic_pool id ≢ out_of_fuel
unfolding mentioned Pool.get_generic_instance_info Pool.of_owner Pool.get Pool.get_loop
    Pool.get_no_follow Pool.redirect Typ.as_enum_variant Pool.own_instance_info
generic_pool-reads zero = λ e. cc e
generic_pool-reads (suc zero) = λ e. cc e
generic_pool-reads (suc (suc id)) = λ e. cc e

generic_pool-smaller : (id j : Typ.TypeId) → Part generic_pool id j → j < id
unfolding mentioned Pool.get_generic_instance_info Pool.of_owner Pool.get Pool.get_loop
    Pool.get_no_follow Pool.redirect Typ.as_enum_variant Pool.own_instance_info
generic_pool-smaller zero j (argument info g i) = absurd (cc g)
generic_pool-smaller zero j (component t g h p) =
    let same : Typ.type_variable (record { name = 1; scope_id = 0; ability_impls = []; span = 0 })
        ≡ t =
      ok-injective h in
    absurd (subst (PartOf j) (sym same) p)
generic_pool-smaller (suc zero) j (argument info g i) = absurd (cc g)
generic_pool-smaller (suc zero) j (component t g h p) =
    let same : Typ.reference (record { inner_type = 0 }) ≡ t = ok-injective h in
    let inner : 0 ≡ j = subst (PartOf j) (sym same) p in omega (arith, inner)
generic_pool-smaller (suc (suc id)) j (argument info g i) = absurd (cc g)
generic_pool-smaller (suc (suc id)) j (component t g h p) = absurd (cc g)

does_type_reference_type_variables-Answers_example :
    (does_type_reference_type_variables generic_pool 1 ≢ out_of_fuel)
    × Answers generic_pool 1 (does_type_reference_type_variables generic_pool 1)
does_type_reference_type_variables-Answers_example =
    does_type_reference_type_variables-Answers generic_pool 1
      (record { smaller = generic_pool-smaller; reads = generic_pool-reads }) (omega arith)
