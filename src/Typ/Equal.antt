-- ===== src/Typ/Equal.antt =====
-- src/k1/typer/types.rs, `type_eq`: which types the pool takes for the same.
use bfl.Outcome.{◌>>=◌, out_of_fuel, ok, Outcome}
use bfl.Prelude.{
  ◌==◌, true, false, suc, Bool, ℕ, Option, List, none, some, [], ◌∷◌, if◌then◌else◌, ◌&&◌, ◌||◌,
  length, is_some, zero,
}
use bfl.Typ
use bfl.Typ.Pool
use bfl.Typ.Pool.{Types}

unfoldable pub option_eq : Option ℕ → Option ℕ → Bool
option_eq none none = true
option_eq (some a) (some b) = a == b
option_eq _ _ = false

-- The loops over fields and variants; lists of different lengths are told apart before.
unfoldable pub fields_eq : List Typ.StructTypeField → List Typ.StructTypeField → Bool
fields_eq [] [] = true
fields_eq (f1 ∷ fs1) (f2 ∷ fs2) =
    if f1.name == f2.name && f1.type_id == f2.type_id then fields_eq fs1 fs2 else false
fields_eq _ _ = false

unfoldable pub variants_eq : List Typ.TypedEnumVariant → List Typ.TypedEnumVariant → Bool
unfolding option_eq
variants_eq [] [] = true
variants_eq (v1 ∷ vs1) (v2 ∷ vs2) =
    if v1.name == v2.name && option_eq v1.payload v2.payload then variants_eq vs1 vs2 else false
variants_eq _ _ = false

-- `zip` and `all`
unfoldable pub params_eq :
    (Typ.TypeId → Typ.TypeId → Outcome Bool)
    → List Typ.FnArgType
    → List Typ.FnArgType
    → Outcome Bool
params_eq id_eq (p1 ∷ ps1) (p2 ∷ ps2) = do
  same ← id_eq p1.type_id p2.type_id
  if same then params_eq id_eq ps1 ps2 else ok false
params_eq id_eq _ _ = ok true

-- `type_eq`, with the comparison `type_id_eq` that a function's types take.
unfoldable pub shape_eq : (Typ.TypeId → Typ.TypeId → Outcome Bool) → Typ.Ty → Typ.Ty → Outcome Bool
shape_eq id_eq (Typ.unit _) (Typ.unit _) = ok true
shape_eq id_eq (Typ.char _) (Typ.char _) = ok true
shape_eq id_eq (Typ.integer int1) (Typ.integer int2) = ok (Typ.type_id int1 == Typ.type_id int2)
shape_eq id_eq (Typ.bool _) (Typ.bool _) = ok true
shape_eq id_eq (Typ.struct r1) (Typ.struct r2) =
    if Typ.is_named r1 || Typ.is_named r2
    then ok false
    else if length r1.fields == length r2.fields
    then ok (fields_eq r1.fields r2.fields)
    else ok false
shape_eq id_eq (Typ.reference r1) (Typ.reference r2) = ok (r1.inner_type == r2.inner_type)
shape_eq id_eq (Typ.type_variable t1) (Typ.type_variable t2) =
    ok (t1.name == t2.name && t1.scope_id == t2.scope_id)
shape_eq id_eq (Typ.enum e1) (Typ.enum e2) =
    if is_some e1.type_defn_info || is_some e2.type_defn_info
    then ok false
    else if length e1.variants == length e2.variants
    then ok (variants_eq e1.variants e2.variants)
    else ok false
shape_eq id_eq (Typ.function_type f1) (Typ.function_type f2) = do
  same ← id_eq f1.return_type f2.return_type
  if same && length f1.params == length f2.params
      then params_eq id_eq f1.params f2.params
      else ok false
shape_eq id_eq _ _ = ok false

unfoldable pub type_eq : ℕ → Types → Typ.Ty → Typ.Ty → Outcome Bool
type_eq zero pool type1 type2 = out_of_fuel
type_eq (suc f) pool type1 type2 =
    shape_eq
      (λ id1 id2. Pool.get pool id1 >>= (λ t1. Pool.get pool id2 >>= (λ t2. type_eq f pool t1 t2)))
      type1 type2
