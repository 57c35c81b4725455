-- ===== src/Patterns/Cover.antt =====
-- src/k1/typer.rs, `pattern_matches`: a pattern that takes a shape takes its values.
use mathlib.Core.Path.{subst}
use bfl.Outcome.{out_of_fuel, ◌>>=◌, panic, Outcome, ok}
use bfl.Prelude.{
  ==_iff, ◌∙◌, Option-cases, sym, none, if◌then◌else◌, ◌≢◌, Bool, refl, Bool-cases, inr, inl, arith,
  false, ◌⊎◌, ◌==◌, true, some, ◌≡◌, ℕ,
}
use bfl.Patterns
use bfl.Patterns.{TypedPattern, PatternFields, PatternConstructor, CtorFields}
use bfl.Patterns.Match.{pattern_matches, find_ctor, fields_match}
use bfl.Patterns.Values

false-≢-true : ok false ≢ ok true
false-≢-true e = cc e

panic-≢-ok : {b : Bool} → panic ≢ ok b
panic-≢-ok e = cc e

-- A field of the shape covers the value's field of that name.
CoverFields-find :
    (cs : CtorFields) (vs : Values.ValueFields) (name : ℕ) (c : PatternConstructor)
    → Values.CoverFields cs vs
    → find_ctor cs name ≡ some c
    → (v : Values.Value) × (Values.find_value vs name ≡ some v) × Values.Covers c v
unfolding find_ctor
CoverFields-find Patterns.end vs name c h e = cc e
CoverFields-find (Patterns.field n d cs) Values.end name c h e = absurd h
CoverFields-find (Patterns.field n d cs) (Values.field m v vs) name c h e =
    go (Bool-cases (n == name)) (CoverFields-find cs vs name c h.2)
  where
    go :
        ((n == name) ≡ true) ⊎ ((n == name) ≡ false)
        → (find_ctor cs name ≡ some c
            → (v : Values.Value) × (Values.find_value vs name ≡ some v) × Values.Covers c v)
        → (w : Values.Value) × (Values.find_value (Values.field m v vs) name ≡ some w)
          × Values.Covers c w
    go (inl q) ih =
        let same : d ≡ c = cc (rw q at e) in
        (v, rw⁻¹ h.0 (rw q refl), subst (λ x. Values.Covers x v) same h.1)
    go (inr q) ih = let (w, f, covers) = ih (rw q at e) in (w, rw⁻¹ h.0 (rw q f), covers)

tag_and_payload :
    (n m tag : ℕ) (o : Outcome Bool) (P : Type 0)
    → (if n == tag then o else ok false) ≡ ok true
    → n ≡ m
    → (o ≡ ok true → P)
    → (m ≡ tag) × P
tag_and_payload n m tag o P e same then_ = elim (Bool-cases (n == tag)) [
  | inl q ↦ (sym same ∙ (==_iff n tag).0 q, then_ (rw q at e))
  | inr q ↦ absurd (false-≢-true (rw q at e))
]

-- One round of the loop over the fields of a pattern.
take_field :
    (cs : CtorFields) (vs : Values.ValueFields) (name : ℕ)
    (matches : PatternConstructor → Outcome Bool) (rest : Outcome Bool) (P : Values.Value → Type 0)
    (Q : Type 0)
    → (elim (find_ctor cs name) [
      | none ↦ panic
      | some c ↦ matches c >>= λ b. elim b [ true ↦ rest | false ↦ ok false ]
    ])
      ≡ ok true
    → Values.CoverFields cs vs
    → ((c : PatternConstructor) (v : Values.Value) → matches c ≡ ok true → Values.Covers c v → P v)
    → (rest ≡ ok true → Q)
    → (v : Values.Value) × (Values.find_value vs name ≡ some v) × P v × Q
take_field cs vs name matches rest P Q e h here later = go (Option-cases (find_ctor cs name))
  where
    hit :
        (o : Outcome Bool)
        → (o >>= λ b. elim b [ true ↦ rest | false ↦ ok false ]) ≡ ok true
        → (o ≡ ok true) × (rest ≡ ok true)
    hit (ok true) q = (refl, q)
    hit (ok false) q = absurd (false-≢-true q)
    hit panic q = absurd (cc q)
    hit out_of_fuel q = absurd (cc q)

    go :
        (find_ctor cs name ≡ none) ⊎ ((c : PatternConstructor) × (find_ctor cs name ≡ some c))
        → (v : Values.Value) × (Values.find_value vs name ≡ some v) × P v × Q
    go (inl q) = absurd (panic-≢-ok (rw q at e))
    go (inr (c, q)) =
        let (took, others) = hit (matches c) (rw q at e) in
        let (v, found, covers) = CoverFields-find cs vs name c h q in
        (v, found, here c v took covers, later others)

mutual
  unfolding pattern_matches

  matches-Takes :
      (p : TypedPattern) (c : PatternConstructor) (v : Values.Value)
      → pattern_matches p c ≡ ok true
      → Values.Covers c v
      → Values.Takes p v
  matches-Takes (Patterns.wildcard _) c v e h = tt
  matches-Takes (Patterns.variable _ _) c v e h = tt
  matches-Takes (Patterns.literal_unit _) Patterns.unit Values.unit e h = tt
  matches-Takes (Patterns.literal_bool true _) Patterns.bool_true (Values.bool true) e h = refl
  matches-Takes (Patterns.literal_bool false _) Patterns.bool_false (Values.bool false) e h = refl
  matches-Takes (Patterns.enum_pattern head) (Patterns.enum n) (Values.enum m) e h =
      ground (arith, e, h)
  matches-Takes (Patterns.enum_pattern_with head p) (Patterns.enum_with n c) (Values.enum_with m v)
        e h =
      tag_and_payload n m head.variant_tag_name (pattern_matches p c) (Values.Takes p v) e h.0
        (λ e'. matches-Takes p c v e' h.1)
  matches-Takes (Patterns.struct_pattern _ ps _) (Patterns.struct cs) (Values.struct vs) e h =
      fields_match-TakeFields ps cs vs e h
  matches-Takes _ _ _ e h = ground (arith, e, h)

  fields_match-TakeFields :
      (ps : PatternFields) (cs : CtorFields) (vs : Values.ValueFields)
      → fields_match ps cs ≡ ok true
      → Values.CoverFields cs vs
      → Values.TakeFields ps vs
  fields_match-TakeFields Patterns.end_pattern cs vs e h = tt
  fields_match-TakeFields (Patterns.field_pattern head p ps) cs vs e h =
      take_field cs vs head.name (λ c. pattern_matches p c) (fields_match ps cs)
        (λ v. Values.Takes p v) (Values.TakeFields ps vs) e h
        (λ c v e' h'. matches-Takes p c v e' h') (λ e'. fields_match-TakeFields ps cs vs e' h)

-- A pattern that takes a shape takes every value that the shape stands for.
pub pattern_matches-Takes :
    (p : TypedPattern) (c : PatternConstructor) (v : Values.Value)
    → pattern_matches p c ≡ ok true
    → Values.Covers c v
    → Values.Takes p v
pattern_matches-Takes p c v = matches-Takes p c v
