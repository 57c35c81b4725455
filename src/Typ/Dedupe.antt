-- ===== src/Typ/Dedupe.antt =====
-- src/k1/typer/types.rs, `add_type`: a type that the pool compares by its shape is interned once.
use mathlib.Core.Path.{subst}
use bfl.Outcome.{panic, ok, Outcome}
use bfl.Typ.Intern.{intern, rounds, link, find_existing}
use bfl.Prelude.{
  ◌∙◌, inr, inl, Bool-cases, get_elem?, u32, ◌<◌, map, if◌then◌else◌, suc, ap, sym, [], is_some,
  ◌+◌, refl, ◌∷◌, ◌++◌, some, false, arith, none, not, List, ◌≡◌, Option, length, true, Bool, ℕ,
}
use bfl.Typ.Equal.{type_eq, variants_eq, fields_eq, option_eq, shape_eq}
use bfl.Typ
use bfl.Typ.Pool
use bfl.Typ.Pool.{Types}

-- The types compared by shape alone, that is all but functions, named structs and enums, and those
-- that are never equal.
unfoldable pub is_structural : Typ.Ty → Bool
unfolding Typ.is_named
is_structural (Typ.unit _) = true
is_structural (Typ.char _) = true
is_structural (Typ.integer _) = true
is_structural (Typ.bool _) = true
is_structural (Typ.reference _) = true
is_structural (Typ.type_variable _) = true
is_structural (Typ.struct s) = not (Typ.is_named s)
is_structural (Typ.enum e) = not (is_some e.type_defn_info)
is_structural _ = false

-- How many types `intern` pushes before the type itself.
unfoldable pub variants_of : Typ.Ty → ℕ
variants_of (Typ.enum e) = length e.variants
variants_of _ = 0

abbrev is_ok_true : Outcome Bool → Bool
is_ok_true (ok b) = b
is_ok_true _ = false

unfoldable pub eqt : Typ.Ty → Typ.Ty → Bool
unfolding shape_eq
eqt t typ = is_ok_true (shape_eq (λ _ _. panic) t typ)

-- The comparison with such a type follows no id.
pub shape_eq-structural :
    (id_eq : Typ.TypeId → Typ.TypeId → Outcome Bool) (t typ : Typ.Ty)
    → is_structural typ ≡ true
    → shape_eq id_eq t typ ≡ ok (eqt t typ)
unfolding is_structural shape_eq eqt
shape_eq-structural id_eq (Typ.unit _) typ h = ground (arith, h)
shape_eq-structural id_eq _ typ h = ground (arith, h)

fields_eq_refl : (fs : List Typ.StructTypeField) → fields_eq fs fs ≡ true
unfolding fields_eq
fields_eq_refl [] = refl
fields_eq_refl (f ∷ fs) = ground (arith, fields_eq_refl fs)

option_eq_refl : (o : Option ℕ) → option_eq o o ≡ true
unfolding option_eq
option_eq_refl none = refl
option_eq_refl (some a) = ground arith

variants_eq-link :
    (a b : Typ.TypeId) (vs : List Typ.TypedEnumVariant) → variants_eq (link a b vs) vs ≡ true
unfolding variants_eq link
variants_eq-link a b [] = refl
variants_eq-link a b (v ∷ vs) = ground (arith, variants_eq-link a b vs, option_eq_refl v.payload)

pub length-link :
    (a b : Typ.TypeId) (vs : List Typ.TypedEnumVariant) → length (link a b vs) ≡ length vs
unfolding link
length-link a b [] = refl
length-link a b (v ∷ vs) = omega (arith, length-link a b vs)

variants_eq_refl : (vs : List Typ.TypedEnumVariant) → variants_eq vs vs ≡ true
unfolding variants_eq
variants_eq_refl [] = refl
variants_eq_refl (v ∷ vs) = ground (arith, variants_eq_refl vs, option_eq_refl v.payload)

eqt_refl : (typ : Typ.Ty) → is_structural typ ≡ true → eqt typ typ ≡ true
unfolding is_structural eqt shape_eq
eqt_refl (Typ.struct s) h = ground (arith, h, fields_eq_refl s.fields)
eqt_refl (Typ.enum e) h = ground (arith, h, variants_eq_refl e.variants)
eqt_refl (Typ.unit _) h = refl
eqt_refl _ h = ground (arith, h)

-- What the loop finds.
unfoldable pub found_in : Typ.Ty → ℕ → List Typ.Ty → Option Typ.TypeId
found_in typ i [] = none
found_in typ i (t ∷ ts) = if eqt t typ then some (u32 i) else found_in typ (suc i) ts

pub find_existing-structural :
    (pool : Types) (typ : Typ.Ty) (i : ℕ) (ts : List Typ.Ty)
    → is_structural typ ≡ true
    → find_existing pool typ i ts ≡ ok (found_in typ i ts)
unfolding find_existing found_in type_eq eqt rounds
find_existing-structural pool typ i [] h = refl
find_existing-structural pool typ i (t ∷ ts) h =
    rw (shape_eq-structural _ t typ h, find_existing-structural pool typ (suc i) ts h)
      (ground arith)

pub found_in-append :
    (typ : Typ.Ty) (i : ℕ) (xs ys : List Typ.Ty)
    → found_in typ i (xs ++ ys)
      ≡ elim (found_in typ i xs) [ none ↦ found_in typ (i + length xs) ys | some id ↦ some id ]
unfolding found_in
found_in-append typ i [] ys =
    let here : i + 0 ≡ i = omega arith in sym (ap (λ j. found_in typ j ys) here)
found_in-append typ i (x ∷ xs) ys =
    let further : suc i + length xs ≡ i + suc (length xs) = omega arith in
    subst
      (λ j.
        found_in typ i (x ∷ xs ++ ys)
        ≡ elim (found_in typ i (x ∷ xs)) [ none ↦ found_in typ j ys | some id ↦ some id ])
      further (ground (arith, found_in-append typ (suc i) xs ys))

-- A search that finds a type gives the id of one that is equal.
pub found_in-some :
    (typ : Typ.Ty) (i : ℕ) (ts : List Typ.Ty) (id : Typ.TypeId)
    → found_in typ i ts ≡ some id
    → i + length ts < 4294967296
    → (k : ℕ) × (t : Typ.Ty) × (id ≡ i + k) × (get_elem? ts k ≡ some t) × (eqt t typ ≡ true)
unfolding found_in
found_in-some typ i [] id e h = cc e
found_in-some typ i (t ∷ ts) id e h = elim (Bool-cases (eqt t typ)) [
  | inl same ↦ (0, t, found same e, refl, same)
  | inr other ↦
      let (k, u, p, q, r) = found_in-some typ (suc i) ts id (rw other at e) (omega (arith, h)) in
      (suc k, u, omega (arith, p), q, r)
]
  where
    found : eqt t typ ≡ true → found_in typ i (t ∷ ts) ≡ some id → id ≡ i + 0
    found same e = let here : u32 i ≡ id = cc (rw same at e) in omega (arith, h, here)

-- Variants are no enums.
found_in-variants :
    (e : Typ.TypedEnum) (i : ℕ) (vs : List Typ.TypedEnumVariant)
    → found_in (Typ.enum e) i (map Typ.enum_variant vs) ≡ none
unfolding found_in eqt shape_eq
found_in-variants e i [] = refl
found_in-variants e i (v ∷ vs) = found_in-variants e (suc i) vs

-- What is pushed ends in an equal type, which has the id, and has none before.
unfoldable pub Pushes : Types → Typ.Ty → Type 0
Pushes pool typ =
    (front : List Typ.Ty) × (last : Typ.Ty) × (id : Typ.TypeId) × (intern pool typ
      ≡ ok (record pool { types = pool.types ++ (front ++ last ∷ []) }, id))
    × (id ≡ length pool.types + length front)
    × ((i : ℕ) → found_in typ i front ≡ none)
    × (eqt last typ ≡ true)
    × (length front ≡ variants_of typ)

linked : Types → Typ.TypedEnum → List Typ.TypedEnumVariant
linked pool e =
    link (Pool.next_type_id pool) (u32 (Pool.next_type_id pool + length e.variants)) e.variants

pub length-map : (vs : List Typ.TypedEnumVariant) → length (map Typ.enum_variant vs) ≡ length vs
length-map [] = refl
length-map (v ∷ vs) = omega (arith, length-map vs)

length-linked :
    (pool : Types) (e : Typ.TypedEnum)
    → length (map Typ.enum_variant (linked pool e)) ≡ length e.variants
unfolding linked
length-linked pool e = length-map (linked pool e) ∙ length-link _ _ e.variants

eqt-linked :
    (pool : Types) (e : Typ.TypedEnum)
    → is_structural (Typ.enum e) ≡ true
    → eqt (Typ.enum (record e { variants = linked pool e })) (Typ.enum e) ≡ true
unfolding linked is_structural eqt shape_eq
eqt-linked pool e h = ground (
  arith,
  h,
  variants_eq-link (Pool.next_type_id pool) (u32 (Pool.next_type_id pool + length e.variants))
      e.variants,
  length-link (Pool.next_type_id pool) (u32 (Pool.next_type_id pool + length e.variants))
      e.variants,
)

-- A type that is no enum is pushed by itself.
alone :
    (pool : Types) (typ : Typ.Ty)
    → is_structural typ ≡ true
    → length pool.types < 4294967296
    → intern pool typ ≡ ok (record pool { types = pool.types ++ typ ∷ [] }, Pool.next_type_id pool)
    → variants_of typ ≡ 0
    → Pushes pool typ
unfolding Pushes found_in Pool.next_type_id
alone pool typ h b e none_of =
    ([], typ, Pool.next_type_id pool, e, omega (arith, b), λ i. refl, eqt_refl typ h, sym none_of)

pub intern-Pushes :
    (pool : Types) (typ : Typ.Ty)
    → is_structural typ ≡ true
    → length pool.types + variants_of typ < 4294967296
    → Pushes pool typ
unfolding intern variants_of is_structural
intern-Pushes pool (Typ.enum e) h b =
    unfold Pushes linked Pool.next_type_id in
    (
      map Typ.enum_variant (linked pool e),
      Typ.enum (record e { variants = linked pool e }),
      u32 (Pool.next_type_id pool + length e.variants),
      refl,
      omega (arith, b, length-linked pool e),
      λ i. found_in-variants e i (linked pool e),
      eqt-linked pool e h,
      length-linked pool e,
    )
intern-Pushes pool (Typ.float x) h b = absurd (cc h)
intern-Pushes pool (Typ.pointer x) h b = absurd (cc h)
intern-Pushes pool (Typ.enum_variant x) h b = absurd (cc h)
intern-Pushes pool (Typ.never x) h b = absurd (cc h)
intern-Pushes pool (Typ.opaque_alias x) h b = absurd (cc h)
intern-Pushes pool (Typ.generic x) h b = absurd (cc h)
intern-Pushes pool (Typ.function_type x) h b = absurd (cc h)
intern-Pushes pool (Typ.recursive_reference x) h b = absurd (cc h)
intern-Pushes pool (Typ.unit x) h b = alone pool (Typ.unit x) h (omega (arith, b)) refl refl
intern-Pushes pool (Typ.char x) h b = alone pool (Typ.char x) h (omega (arith, b)) refl refl
intern-Pushes pool (Typ.integer x) h b = alone pool (Typ.integer x) h (omega (arith, b)) refl refl
intern-Pushes pool (Typ.bool x) h b = alone pool (Typ.bool x) h (omega (arith, b)) refl refl
intern-Pushes pool (Typ.reference x) h b =
    alone pool (Typ.reference x) h (omega (arith, b)) refl refl
intern-Pushes pool (Typ.type_variable x) h b =
    alone pool (Typ.type_variable x) h (omega (arith, b)) refl refl
intern-Pushes pool (Typ.struct x) h b = alone pool (Typ.struct x) h (omega (arith, b)) refl refl
