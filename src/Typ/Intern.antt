-- ===== src/Typ/Intern.antt =====
-- src/k1/typer/types.rs, `add_type_ext` and `add_type`: a type is looked for among the existing
-- ones, and pushed where there is none.
use bfl.Outcome.{panic, ok, ◌>>=◌, Outcome}
use bfl.Prelude.{
  if◌then◌else◌, [], ◌∷◌, false, [], ◌∷◌, some, ◌++◌, ◌*◌, none, ◌+◌, length, true, Option, suc,
  u32, map, Bool, ℕ, List,
}
use bfl.Typ
use bfl.Typ.Pool
use bfl.Typ.Pool.{Types}
use bfl.Typ.Equal.{type_eq}

-- More rounds of `type_eq` than there are pairs of types come back to a pair.
unfoldable pub rounds : Types → ℕ
rounds pool = suc (suc (length pool.types * length pool.types))

-- The search of `add_type_ext`, from an index on.
unfoldable pub find_existing : Types → Typ.Ty → ℕ → List Typ.Ty → Outcome (Option Typ.TypeId)
find_existing pool typ i [] = ok none
find_existing pool typ i (existing_type ∷ rest) =
    let later = find_existing pool typ (suc i) rest in
    do
      same ← type_eq (rounds pool) pool existing_type typ
      if same then ok (some (u32 i)) else later

-- The variants with their own id and the enum's.
unfoldable pub link_variant : Typ.TypeId → Typ.TypeId → Typ.TypedEnumVariant → Typ.TypedEnumVariant
link_variant next_type_id enum_type_id v = record v {
  my_type_id = u32 (next_type_id + v.index);
  enum_type_id = enum_type_id;
}

unfoldable pub link :
    Typ.TypeId → Typ.TypeId → List Typ.TypedEnumVariant → List Typ.TypedEnumVariant
unfolding link_variant
link next_type_id enum_type_id [] = []
link next_type_id enum_type_id (v ∷ vs) =
    link_variant next_type_id enum_type_id v ∷ link next_type_id enum_type_id vs

-- What is pushed after the search.
unfoldable pub intern : Types → Typ.Ty → Outcome (Types × Typ.TypeId)
unfolding link Pool.next_type_id
intern pool (Typ.enum e) =
    let next_type_id = Pool.next_type_id pool in
    let enum_type_id = u32 (next_type_id + length e.variants) in
    let variants = link next_type_id enum_type_id e.variants in
    ok (
      record pool {
        types =
            pool.types
            ++ (map Typ.enum_variant variants ++ Typ.enum (record e { variants = variants }) ∷ []);
      },
      enum_type_id,
    )
intern pool (Typ.enum_variant ev) = panic
intern pool typ = ok (record pool { types = pool.types ++ typ ∷ [] }, Pool.next_type_id pool)

unfoldable pub add_type_ext : Types → Typ.Ty → Bool → Outcome (Types × Typ.TypeId)
unfolding find_existing intern
add_type_ext pool typ false = intern pool typ
add_type_ext pool typ true = do
  found ← find_existing pool typ 0 pool.types
  elim found [ none ↦ intern pool typ | some existing_type_id ↦ ok (pool, existing_type_id) ]

unfoldable pub add_type : Types → Typ.Ty → Outcome (Types × Typ.TypeId)
unfolding add_type_ext
add_type pool typ = add_type_ext pool typ true
