-- ===== src/Typ/Pool.antt =====
-- src/k1/typer/types.rs, `Types`: the pool and its reads. A read out of bounds panics. The program's
-- recursions that follow ids have no bound: one that visits more types than the pool has comes back
-- to a type it is at, and recurses for ever; the model's is cut off there.
use bfl.Outcome.{panic, ok, unwrap, out_of_fuel, ◌>>=◌, Outcome}
use bfl.Prelude.{zero, get_elem?, suc, not, length, List, some, none, Bool, u32, Option, ℕ}
use bfl.Typ
use bfl.Maps

pub record Types : Type 0 where
  pub types : List Typ.Ty
  pub type_defn_mapping : Maps.HashMap Typ.TypeId
  pub placeholder_mapping : Maps.HashMap Typ.TypeId

unfoldable pub next_type_id : Types → Typ.TypeId
next_type_id pool = u32 (length pool.types)

unfoldable pub get_no_follow : Types → Typ.TypeId → Outcome Typ.Ty
get_no_follow pool type_id = unwrap (get_elem? pool.types type_id)

-- The arm of `get` for a recursive reference.
unfoldable pub redirect : Typ.Ty → Option Typ.TypeId
redirect (Typ.recursive_reference rr) = some rr.root_type_id
redirect _ = none

unfoldable pub get_loop : ℕ → Types → Typ.TypeId → Outcome Typ.Ty
get_loop zero pool type_id = out_of_fuel
get_loop (suc f) pool type_id = elim (get_no_follow pool type_id) [
  | ok t ↦ elim (redirect t) [ none ↦ ok t | some root ↦ get_loop f pool root ]
  | panic ↦ panic
  | out_of_fuel ↦ out_of_fuel
]

unfoldable pub get : Types → Typ.TypeId → Outcome Typ.Ty
unfolding get_loop get_no_follow redirect
get pool type_id = get_loop (suc (length pool.types)) pool type_id

-- The enum, and the variant where the id is one.
unfoldable pub get_as_enum :
    Types → Typ.TypeId → Outcome (Option (Typ.TypedEnum × Option Typ.TypedEnumVariant))
unfolding get Typ.expect_enum
get_as_enum pool type_id = do
  t ← get pool type_id
  elim t [
    | Typ.enum e ↦ ok (some (e, none))
    | Typ.enum_variant ev ↦ do
      owner ← get pool ev.enum_type_id
      e ← Typ.expect_enum owner
      ok (some (e, some ev))
    | _ ↦ ok none
  ]

-- `get_generic_instance_info` and `get_defn_info` ask a variant's enum.
unfoldable pub of_owner :
    {A : Type 0} → (Typ.Ty → Option A) → ℕ → Types → Typ.TypeId → Outcome (Option A)
of_owner own zero pool type_id = out_of_fuel
of_owner own (suc f) pool type_id = do
  t ← get pool type_id
  elim (Typ.as_enum_variant t) [ none ↦ ok (own t) | some ev ↦ of_owner own f pool ev.enum_type_id ]

unfoldable pub own_instance_info : Typ.Ty → Option Typ.GenericInstanceInfo
own_instance_info (Typ.enum e) = e.generic_instance_info
own_instance_info (Typ.struct s) = s.generic_instance_info
own_instance_info _ = none

unfoldable pub get_generic_instance_info :
    Types → Typ.TypeId → Outcome (Option Typ.GenericInstanceInfo)
unfolding of_owner get Typ.as_enum_variant own_instance_info
get_generic_instance_info pool = of_owner own_instance_info (suc (length pool.types)) pool

unfoldable pub own_defn_info : Typ.Ty → Option Typ.TypeDefnInfo
own_defn_info (Typ.enum e) = e.type_defn_info
own_defn_info (Typ.struct s) = s.type_defn_info
own_defn_info (Typ.unit info) = some info
own_defn_info (Typ.char info) = some info
own_defn_info (Typ.float f) = some f.defn_info
own_defn_info (Typ.bool info) = some info
own_defn_info (Typ.pointer info) = some info
own_defn_info (Typ.never info) = some info
own_defn_info (Typ.opaque_alias opaque) = some opaque.type_defn_info
own_defn_info (Typ.generic gen) = some gen.type_defn_info
own_defn_info (Typ.function_type f) = f.defn_info
own_defn_info _ = none

unfoldable pub get_defn_info : Types → Typ.TypeId → Outcome (Option Typ.TypeDefnInfo)
unfolding of_owner get Typ.as_enum_variant own_defn_info
get_defn_info pool = of_owner own_defn_info (suc (length pool.types)) pool

unfoldable pub get_type_id_dereferenced : Types → Typ.TypeId → Outcome Typ.TypeId
unfolding get Typ.as_reference
get_type_id_dereferenced pool type_id = do
  t ← get pool type_id
  elim (Typ.as_reference t) [ none ↦ ok type_id | some r ↦ ok r.inner_type ]

unfoldable pub get_type_dereferenced : Types → Typ.TypeId → Outcome Typ.Ty
unfolding get Typ.as_reference
get_type_dereferenced pool type_id = do
  t ← get pool type_id
  elim (Typ.as_reference t) [ none ↦ ok t | some r ↦ get pool r.inner_type ]

unfoldable pub add_type_defn_mapping : Types → ℕ → Typ.TypeId → Types × Bool
add_type_defn_mapping pool type_defn_id type_id = (
  record pool { type_defn_mapping = Maps.insert pool.type_defn_mapping type_defn_id type_id },
  not (Maps.contains_key pool.type_defn_mapping type_defn_id),
)

unfoldable pub find_type_defn_mapping : Types → ℕ → Option Typ.TypeId
find_type_defn_mapping pool type_defn_id = Maps.get pool.type_defn_mapping type_defn_id
