-- ===== src/Patterns/Variants.antt =====
-- src/k1/typer.rs, `generate_constructors_for_type`: the shapes of the variants of an enum.
use mathlib.Core.Path.{subst}
use bfl.Patterns.Check.{variant_ctors}
use bfl.Outcome.{◌>>=◌, ok-injective, >>=-value, ok, Outcome}
use bfl.Prelude.{
  Option-cases, inr, refl, refl, refl, refl, refl, refl, refl, refl, refl, refl, refl, refl, refl,
  refl, refl, refl, refl, refl, refl, zero, refl, [], In-map, In-append_right, refl, refl, suc, sym,
  ◌∙◌, refl, In-append_left, inl, refl, ap, map, ◌⊎◌, some, refl, none, refl, ◌++◌, get_elem?, refl,
  refl, ◌∷◌, ◌≡◌, refl, In, ℕ, List, refl,
}
use bfl.Patterns
use bfl.Patterns.{PatternConstructor, CtorFields}
use bfl.Patterns.Values.{Value, Covers}
use bfl.Typ

-- One of the shapes stands for the value.
abbrev pub Some : List PatternConstructor → Value → Type 0
Some cs v = (c : PatternConstructor) × In c cs × Covers c v

module _ (look : Typ.TypeId → Outcome (List PatternConstructor)) where
  -- The shapes of a list of variants are those of the first and those of the rest.
  record Splits (w : Typ.TypedEnumVariant) (ws : List Typ.TypedEnumVariant)
      (cs : List PatternConstructor) : Type 0 where
    front : List PatternConstructor
    rest : List PatternConstructor
    rest_is : variant_ctors look ws ≡ ok rest
    all_is : front ++ rest ≡ cs
    tag : w.payload ≡ none → In (Patterns.enum w.name) front
    tagged :
        (p : Typ.TypeId)
        → w.payload ≡ some p
        → (inner : List PatternConstructor) × (look p ≡ ok inner)
          × (map (Patterns.enum_with w.name) inner ≡ front)

  variant_ctors-Splits :
      (w : Typ.TypedEnumVariant) (ws : List Typ.TypedEnumVariant) (cs : List PatternConstructor)
      → variant_ctors look (w ∷ ws) ≡ ok cs
      → Splits w ws cs
  unfolding variant_ctors
  variant_ctors-Splits w ws cs e = go (Option-cases w.payload)
    where
      go : (w.payload ≡ none) ⊎ ((p : Typ.TypeId) × (w.payload ≡ some p)) → Splits w ws cs
      go (inl q) =
          let (rest, e1, e2) =
            >>=-value (variant_ctors look ws) (λ rest. ok (Patterns.enum w.name ∷ rest))
              (rw q at e) in
          record {
            front = Patterns.enum w.name ∷ [];
            rest = rest;
            rest_is = e1;
            all_is = ok-injective e2;
            tag = λ _. inl refl;
            tagged = λ p q'. cc (q, q');
          }
      go (inr (p, q)) =
          let (inner, e1, e2) =
            >>=-value (look p)
              (λ inner. variant_ctors look ws >>= λ rest.
                ok (map (Patterns.enum_with w.name) inner ++ rest))
              (rw q at e) in
          let (rest, e3, e4) =
            >>=-value (variant_ctors look ws)
              (λ rest. ok (map (Patterns.enum_with w.name) inner ++ rest)) e2 in
          record {
            front = map (Patterns.enum_with w.name) inner;
            rest = rest;
            rest_is = e3;
            all_is = ok-injective e4;
            tag = λ q'. cc (q, q');
            tagged = λ p' q'. (inner, subst (λ x. look x ≡ ok inner) (cc (q, q')) e1, refl);
          }

  pub variant_tag :
      (ws : List Typ.TypedEnumVariant) (cs : List PatternConstructor) (k : ℕ)
      (v : Typ.TypedEnumVariant)
      → variant_ctors look ws ≡ ok cs
      → get_elem? ws k ≡ some v
      → v.payload ≡ none
      → In (Patterns.enum v.name) cs
  variant_tag [] cs k v e at p = cc at
  variant_tag (w ∷ ws) cs zero v e at p =
      let s = variant_ctors-Splits w ws cs e in
      let same : w ≡ v = cc at in
      subst (In (Patterns.enum v.name)) s.all_is (
        In-append_left _ s.front s.rest (
          subst (λ x. In (Patterns.enum x.name) s.front) same
            (s.tag (ap (λ x. x.payload) same ∙ p))))
  variant_tag (w ∷ ws) cs (suc k) v e at p =
      let s = variant_ctors-Splits w ws cs e in
      subst (In (Patterns.enum v.name)) s.all_is
        (In-append_right _ s.front s.rest (variant_tag ws s.rest k v s.rest_is at p))

  pub variant_payload :
      (ws : List Typ.TypedEnumVariant) (cs : List PatternConstructor) (k : ℕ)
      (v : Typ.TypedEnumVariant) (p : Typ.TypeId) (x : Value)
      → variant_ctors look ws ≡ ok cs
      → get_elem? ws k ≡ some v
      → v.payload ≡ some p
      → ((inner : List PatternConstructor) → look p ≡ ok inner → Some inner x)
      → (c : PatternConstructor) × In (Patterns.enum_with v.name c) cs × Covers c x
  variant_payload [] cs k v p x e at pay some_ = cc at
  variant_payload (w ∷ ws) cs zero v p x e at pay some_ =
      let s = variant_ctors-Splits w ws cs e in
      let same : w ≡ v = cc at in
      let (inner, looked, front_is) = s.tagged p (ap (λ y. y.payload) same ∙ pay) in
      let (c, here, covers) = some_ inner looked in
      (
        c,
        subst (In (Patterns.enum_with v.name c)) s.all_is (
            In-append_left _ s.front s.rest (
              subst (In (Patterns.enum_with v.name c)) front_is (
                subst
                  (λ y. In (Patterns.enum_with v.name c) (map (Patterns.enum_with y.name) inner))
                  (sym same) (In-map (Patterns.enum_with v.name) c inner here)))),
        covers,
      )
  variant_payload (w ∷ ws) cs (suc k) v p x e at pay some_ =
      let s = variant_ctors-Splits w ws cs e in
      let (c, here, covers) = variant_payload ws s.rest k v p x s.rest_is at pay some_ in
      (
        c,
        subst (In (Patterns.enum_with v.name c)) s.all_is (In-append_right _ s.front s.rest here),
        covers,
      )
