-- ===== src/Typ/Mentions.antt =====
-- src/k1/typer/types.rs, `does_type_reference_type_variables`: what it is to mention a type variable,
-- told from the forms of the types alone.
pub mod Search
use mathlib.Core.Path.{subst}
use bfl.Outcome.{ok-injective, out_of_fuel, panic, Outcome, ok}
use bfl.Typ.Variables.{
  does_type_reference_type_variables-Found, Descends, does_type_reference_type_variables, below,
  Found, here, Met, mentioned, parts, payloads,
}
use bfl.Typ.Pool.{Types}
use bfl.Prelude.{
  In-append_cases, In-append_right, false, In-append_left, zero, ◌++◌, true, In-map, suc, sym,
  get_elem?-In, Bool, length, get_elem?, ◌≢◌, Option, ◌<◌, ℕ, refl, Option-cases, [], ◌∙◌, ap, inr,
  inl, none, ◌⊎◌, ◌∷◌, some, map, ◌≡◌, List, In,
}
use bfl.Typ
use bfl.Typ.Pool

-- The types that a type of each form is made of.
abbrev pub PartOf : Typ.TypeId → Typ.Ty → Type 0
PartOf j (Typ.struct struc) =
    (field : Typ.StructTypeField) × In field struc.fields × (field.type_id ≡ j)
PartOf j (Typ.reference refer) = refer.inner_type ≡ j
PartOf j (Typ.enum e) =
    (variant : Typ.TypedEnumVariant) × In variant e.variants × (variant.payload ≡ some j)
PartOf j (Typ.enum_variant ev) = ev.payload ≡ some j
PartOf j (Typ.opaque_alias opaque) = opaque.aliasee ≡ j
PartOf j (Typ.function_type fun) =
    ((param : Typ.FnArgType) × In param fun.params × (param.type_id ≡ j)) ⊎ (fun.return_type ≡ j)
PartOf j _ = ⊥

abbrev pub IsVariable : Typ.Ty → Type 0
IsVariable (Typ.type_variable _) = Unit
IsVariable (Typ.generic _) = Unit
IsVariable _ = ⊥

-- An instance of a generic type is judged by its arguments, any other type by its parts.
pub data Part (pool : Types) (id j : Typ.TypeId) : Type 0 where
  argument :
      (info : Typ.GenericInstanceInfo)
      → Pool.get_generic_instance_info pool id ≡ ok (some info)
      → In j info.param_values
      → Part pool id j
  component :
      (t : Typ.Ty)
      → Pool.get_generic_instance_info pool id ≡ ok none
      → Pool.get_no_follow pool id ≡ ok t
      → PartOf j t
      → Part pool id j

-- A type variable or a generic type, no instance of one, stands in the type.
pub data Mentions (pool : Types) : Typ.TypeId → Type 0 where
  variable :
      {id : Typ.TypeId} (t : Typ.Ty)
      → Pool.get_generic_instance_info pool id ≡ ok none
      → Pool.get_no_follow pool id ≡ ok t
      → IsVariable t
      → Mentions pool id
  through : {id : Typ.TypeId} (j : Typ.TypeId) → Part pool id j → Mentions pool j → Mentions pool id

In-of_map :
    {A : Type 0} (f : A → Typ.TypeId) (j : Typ.TypeId) (xs : List A)
    → In j (map f xs)
    → (x : A) × In x xs × (f x ≡ j)
In-of_map f j [] h = absurd h
In-of_map f j (x ∷ xs) (inl e) = (x, inl refl, e)
In-of_map f j (x ∷ xs) (inr h) = let (y, i, e) = In-of_map f j xs h in (y, inr i, e)

In-of_payloads :
    (j : Typ.TypeId) (vs : List Typ.TypedEnumVariant)
    → In j (payloads vs)
    → (v : Typ.TypedEnumVariant) × In v vs × (v.payload ≡ some j)
unfolding payloads
In-of_payloads j [] h = absurd h
In-of_payloads j (v ∷ vs) h = go (Option-cases v.payload) (In-of_payloads j vs)
  where
    go :
        (v.payload ≡ none) ⊎ ((p : Typ.TypeId) × (v.payload ≡ some p))
        → (In j (payloads vs) → (w : Typ.TypedEnumVariant) × In w vs × (w.payload ≡ some j))
        → (w : Typ.TypedEnumVariant) × In w (v ∷ vs) × (w.payload ≡ some j)
    go (inl e) ih = let (w, i, q) = ih (rw (payloads, e) at h) in (w, inr i, q)
    go (inr (p, e)) ih =
        let split : (p ≡ j) ⊎ In j (payloads vs) = rw (payloads, e) at h in
        elim split [
          | inl same ↦ (v, inl refl, e ∙ ap some same)
          | inr later ↦ let (w, i, q) = ih later in (w, inr i, q)
        ]

payloads-In :
    (j : Typ.TypeId) (v : Typ.TypedEnumVariant) (vs : List Typ.TypedEnumVariant)
    → In v vs
    → v.payload ≡ some j
    → In j (payloads vs)
unfolding payloads
payloads-In j v [] h e = absurd h
payloads-In j v (w ∷ vs) (inl same) e =
    let has : w.payload ≡ some j = ap (λ (x : Typ.TypedEnumVariant). x.payload) same ∙ e in
    rw (payloads, has) (inl refl)
payloads-In j v (w ∷ vs) (inr h) e =
    let later = payloads-In j v vs h e in
    elim (Option-cases w.payload) [
      | inl q ↦ rw (payloads, q) later
      | inr (p, q) ↦ rw (payloads, q) (inr later)
    ]

pub some-injective : {A : Type 0} {a b : A} → some a ≡ some b → a ≡ b
some-injective e = cc e

pub In-of_get_elem? :
    (j : Typ.TypeId) (ids : List Typ.TypeId) (k : ℕ) → get_elem? ids k ≡ some j → In j ids
In-of_get_elem? j [] k e = absurd (cc e)
In-of_get_elem? j (i ∷ ids) zero e = inl (some-injective e)
In-of_get_elem? j (i ∷ ids) (suc k) e = inr (In-of_get_elem? j ids k e)

alone : {A : Type 0} (a b : A) → In b (a ∷ []) → a ≡ b
alone a b (inl e) = e
alone a b (inr h) = absurd h

pub parts-PartOf :
    (t : Typ.Ty) (ids : List Typ.TypeId) (j : Typ.TypeId)
    → parts t ≡ some ids
    → In j ids
    → PartOf j t
unfolding parts
parts-PartOf (Typ.struct struc) ids j e i =
    In-of_map (λ (field : Typ.StructTypeField). field.type_id) j struc.fields
      (subst (In j) (sym (some-injective e)) i)
parts-PartOf (Typ.reference refer) ids j e i =
    alone refer.inner_type j (subst (In j) (sym (some-injective e)) i)
parts-PartOf (Typ.enum en) ids j e i =
    In-of_payloads j en.variants (subst (In j) (sym (some-injective e)) i)
parts-PartOf (Typ.enum_variant ev) ids j e i =
    let (v, stands, has) = In-of_payloads j (ev ∷ []) (subst (In j) (sym (some-injective e)) i) in
    ap (λ (x : Typ.TypedEnumVariant). x.payload) (alone ev v stands) ∙ has
parts-PartOf (Typ.opaque_alias opaque) ids j e i =
    alone opaque.aliasee j (subst (In j) (sym (some-injective e)) i)
parts-PartOf (Typ.function_type fun) ids j e i =
    elim (In-append_cases j (map (λ (param : Typ.FnArgType). param.type_id) fun.params)
      (fun.return_type ∷ []) (subst (In j) (sym (some-injective e)) i)) [
        | inl h ↦ inl (In-of_map (λ (param : Typ.FnArgType). param.type_id) j fun.params h)
        | inr h ↦ inr (alone fun.return_type j h)
      ]
parts-PartOf (Typ.type_variable _) ids j e i = absurd (cc e)
parts-PartOf (Typ.generic _) ids j e i = absurd (cc e)
parts-PartOf _ ids j e i = subst (In j) (sym (some-injective e)) i

pub PartOf-parts :
    (t : Typ.Ty) (j : Typ.TypeId)
    → PartOf j t
    → (ids : List Typ.TypeId) × (parts t ≡ some ids) × In j ids
unfolding parts
PartOf-parts (Typ.struct struc) j (field, i, e) = (
  map (λ (f : Typ.StructTypeField). f.type_id) struc.fields,
  refl,
  subst (λ k. In k (map (λ (f : Typ.StructTypeField). f.type_id) struc.fields)) e
      (In-map (λ (f : Typ.StructTypeField). f.type_id) field struc.fields i),
)
PartOf-parts (Typ.reference refer) j e = (refer.inner_type ∷ [], refl, inl e)
PartOf-parts (Typ.enum en) j (v, i, e) =
    (payloads en.variants, refl, payloads-In j v en.variants i e)
PartOf-parts (Typ.enum_variant ev) j e =
    (payloads (ev ∷ []), refl, payloads-In j ev (ev ∷ []) (inl refl) e)
PartOf-parts (Typ.opaque_alias opaque) j e = (opaque.aliasee ∷ [], refl, inl e)
PartOf-parts (Typ.function_type fun) j (inl (param, i, e)) =
    let ids = map (λ (p : Typ.FnArgType). p.type_id) fun.params in
    (
      ids ++ fun.return_type ∷ [],
      refl,
      In-append_left j ids (fun.return_type ∷ [])
          (subst (λ k. In k ids) e (In-map (λ (p : Typ.FnArgType). p.type_id) param fun.params i)),
    )
PartOf-parts (Typ.function_type fun) j (inr e) =
    let ids = map (λ (p : Typ.FnArgType). p.type_id) fun.params in
    (ids ++ fun.return_type ∷ [], refl, In-append_right j ids (fun.return_type ∷ []) (inl e))
PartOf-parts _ j h = absurd h

pub IsVariable-parts : (t : Typ.Ty) → IsVariable t → parts t ≡ none
unfolding parts
IsVariable-parts (Typ.type_variable _) h = refl
IsVariable-parts (Typ.generic _) h = refl
IsVariable-parts _ h = absurd h

pub parts-IsVariable : (t : Typ.Ty) → parts t ≡ none → IsVariable t
unfolding parts
parts-IsVariable (Typ.type_variable _) e = tt
parts-IsVariable (Typ.generic _) e = tt
parts-IsVariable _ e = absurd (cc e)
