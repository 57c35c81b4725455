-- ===== src/Patterns/Product.antt =====
-- src/k1/typer.rs, `generate_constructors_for_type`: the cross product of the fields of a struct.
use mathlib.Core.Path.{subst}
use bfl.Outcome.{ok-injective, >>=-value, ok, ◌>>=◌, Outcome}
use bfl.Patterns.Check.{all_field_ctors, push_all, push_each, push_end, cross}
use bfl.Prelude.{
  In-map, map, In-append_right, sym, In-append_left, inr, [], inl, refl, ap, In, ◌∷◌, ℕ, List, ◌≡◌,
}
use bfl.Patterns
use bfl.Patterns.{PatternConstructor, CtorFields}
use bfl.Patterns.Values
use bfl.Patterns.Values.{
  Value, ValueFields, Covers, CoverFields, HaveTypes, PlainFields, HasType, Plain,
}
use bfl.Patterns.Variants.{Some}
use bfl.Typ
use bfl.Typ.Pool.{Types}

-- For each field a shape among its shapes that stands for its value.
abbrev Choice : List (List (ℕ × PatternConstructor)) → ValueFields → Type 0
Choice [] Values.end = Unit
Choice [] (Values.field n v vs) = ⊥
Choice (l ∷ ls) Values.end = ⊥
Choice (l ∷ ls) (Values.field n v vs) =
    (c : PatternConstructor) × In (n, c) l × Covers c v × Choice ls vs

abbrev append_values : ValueFields → ValueFields → ValueFields
append_values Values.end vs = vs
append_values (Values.field n v us) vs = Values.field n v (append_values us vs)

CoverFields-push_end :
    (cs : CtorFields) (us : ValueFields) (n : ℕ) (c : PatternConstructor) (v : Value)
    → CoverFields cs us
    → Covers c v
    → CoverFields (push_end cs n c) (append_values us (Values.field n v Values.end))
unfolding push_end
CoverFields-push_end Patterns.end Values.end n c v h g = (refl, g, tt)
CoverFields-push_end Patterns.end (Values.field m u us) n c v h g = absurd h
CoverFields-push_end (Patterns.field m d cs) Values.end n c v h g = absurd h
CoverFields-push_end (Patterns.field m d cs) (Values.field k u us) n c v h g =
    (h.0, h.1, CoverFields-push_end cs us n c v h.2 g)

append_values_assoc :
    (us : ValueFields) (n : ℕ) (v : Value) (vs : ValueFields)
    → append_values (append_values us (Values.field n v Values.end)) vs
      ≡ append_values us (Values.field n v vs)
append_values_assoc Values.end n v vs = refl
append_values_assoc (Values.field m u us) n v vs =
    ap (Values.field m u) (append_values_assoc us n v vs)

In-push_each :
    (acc : CtorFields) (n : ℕ) (c : PatternConstructor) (l : List (ℕ × PatternConstructor))
    → In (n, c) l
    → In (Patterns.struct (push_end acc n c)) (push_each (Patterns.struct acc) l)
unfolding push_each
In-push_each acc n c [] h = absurd h
In-push_each acc n c ((m, d) ∷ l) (inl e) =
    inl (ap (λ (x : ℕ × PatternConstructor). Patterns.struct (push_end acc x.0 x.1)) e)
In-push_each acc n c ((m, d) ∷ l) (inr h) = inr (In-push_each acc n c l h)

In-push_all :
    (acc : CtorFields) (n : ℕ) (c : PatternConstructor) (l : List (ℕ × PatternConstructor))
    (result : List PatternConstructor)
    → In (Patterns.struct acc) result
    → In (n, c) l
    → In (Patterns.struct (push_end acc n c)) (push_all result l)
unfolding push_all
In-push_all acc n c l [] h g = absurd h
In-push_all acc n c l (r ∷ result) (inl e) g =
    In-append_left _ (push_each r l) (push_all result l) (
      subst (λ x. In (Patterns.struct (push_end acc n c)) (push_each x l)) (sym e)
        (In-push_each acc n c l g))
In-push_all acc n c l (r ∷ result) (inr h) g =
    In-append_right _ (push_each r l) (push_all result l) (In-push_all acc n c l result h g)

append_end : (us : ValueFields) → append_values us Values.end ≡ us
append_end Values.end = refl
append_end (Values.field n v us) = ap (Values.field n v) (append_end us)

cross-Some :
    (all : List (List (ℕ × PatternConstructor))) (result : List PatternConstructor)
    (acc : CtorFields) (us vs : ValueFields)
    → In (Patterns.struct acc) result
    → CoverFields acc us
    → Choice all vs
    → Some (cross all result) (Values.struct (append_values us vs))
unfolding cross
cross-Some [] result acc us Values.end h g ch =
    (Patterns.struct acc, h, subst (CoverFields acc) (sym (append_end us)) g)
cross-Some [] result acc us (Values.field n v vs) h g ch = absurd ch
cross-Some (l ∷ all) result acc us Values.end h g ch = absurd ch
cross-Some (l ∷ all) result acc us (Values.field n v vs) h g (c, here, covers, ch) =
    subst (λ x. Some (cross all (push_all result l)) (Values.struct x))
      (append_values_assoc us n v vs)
      (cross-Some all (push_all result l) (push_end acc n c)
        (append_values us (Values.field n v Values.end)) vs (In-push_all acc n c l result h here)
        (CoverFields-push_end acc us n c v g covers) ch)

module _ (pool : Types) (look : Typ.TypeId → Outcome (List PatternConstructor)) where
  all_field_ctors-Choice :
      (fs : List Typ.StructTypeField) (vs : ValueFields)
      (all : List (List (ℕ × PatternConstructor)))
      → all_field_ctors look fs ≡ ok all
      → HaveTypes pool vs fs
      → PlainFields vs
      → ((id : Typ.TypeId) (v : Value) (cs : List PatternConstructor)
          → look id ≡ ok cs
          → HasType pool v id
          → Plain v
          → Some cs v)
      → Choice all vs
  unfolding all_field_ctors
  all_field_ctors-Choice [] Values.end all e h p ih =
      subst (λ x. Choice x Values.end) (ok-injective e) tt
  all_field_ctors-Choice [] (Values.field n v vs) all e h p ih = absurd h
  all_field_ctors-Choice (f ∷ fs) Values.end all e h p ih = absurd h
  all_field_ctors-Choice (f ∷ fs) (Values.field n v vs) all e h p ih =
      let (cs, e1, e2) =
        >>=-value (look f.type_id)
          (λ cs. all_field_ctors look fs >>= λ rest. ok (map (λ c. (f.name, c)) cs ∷ rest)) e in
      let (rest, e3, e4) =
        >>=-value (all_field_ctors look fs) (λ rest. ok (map (λ c. (f.name, c)) cs ∷ rest)) e2 in
      let (c, here, covers) = ih f.type_id v cs e1 h.1 p.0 in
      subst (λ x. Choice x (Values.field n v vs)) (ok-injective e4)
        (
          c,
          subst (λ x. In {A = ℕ × PatternConstructor} (x, c) (map (λ c. (f.name, c)) cs)) (sym h.0)
              (In-map (λ c. (f.name, c)) c cs here),
          covers,
          all_field_ctors-Choice fs vs rest e3 h.2 p.1 ih,
        )

  -- The shapes of a struct stand for all its values where those of its fields do.
  pub struct-Some :
      (fs : List Typ.StructTypeField) (vs : ValueFields) (cs : List PatternConstructor)
      → (all_field_ctors look fs >>= λ ctors. ok (cross ctors (Patterns.struct Patterns.end ∷ [])))
        ≡ ok cs
      → HaveTypes pool vs fs
      → PlainFields vs
      → ((id : Typ.TypeId) (v : Value) (cs : List PatternConstructor)
          → look id ≡ ok cs
          → HasType pool v id
          → Plain v
          → Some cs v)
      → Some cs (Values.struct vs)
  struct-Some fs vs cs e h p ih =
      let (all, e1, e2) =
        >>=-value (all_field_ctors look fs)
          (λ ctors. ok (cross ctors (Patterns.struct Patterns.end ∷ []))) e in
      subst (λ x. Some x (Values.struct vs)) (ok-injective e2)
        (cross-Some all (Patterns.struct Patterns.end ∷ []) Patterns.end Values.end vs (inl refl) tt
          (all_field_ctors-Choice fs vs all e1 h p ih))
