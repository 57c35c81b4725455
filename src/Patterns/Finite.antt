-- ===== src/Patterns/Finite.antt =====
-- src/k1/typer.rs, the exhaustiveness check: where it returns.
use bfl.Patterns.Match.{find_ctor, fields_match, pattern_matches}
use bfl.Outcome.{
  unwrap-returns, unwrap, panic, panic-returns, ◌>>=◌, ok-returns, >>=-returns, out_of_fuel, ok,
  Outcome,
}
use bfl.Patterns.Check.{
  position, useless, accepted, unhandled, zeros, bump, check_exhaustive, trial_loop,
  generate_constructors_for_type, judge, first_match, ctors_of, all_field_ctors, variant_ctors,
  generate_loop,
}
use bfl.Prelude.{
  get_elem?, length, if◌then◌else◌, Bool, zero, Bool-cases, false, ◌⊎◌, ◌++◌, true, [], refl, inr,
  none, ◌==◌, Option, inl, suc, ◌∷◌, arith, map, ◌≢◌, some, In, ◌<◌, ℕ, ◌≡◌, List,
}
use bfl.Patterns
use bfl.Patterns.{
  is_innumerable_literal, TypedPattern, PatternFields, PatternConstructor, CtorFields,
}
use bfl.Typ
use bfl.Typ.Pool
use bfl.Typ.Pool.{Types}
use bfl.Typ.Variables.{parts, payloads}

module _ (look : Typ.TypeId → Outcome (List PatternConstructor)) where
  variant_ctors-returns :
      (vs : List Typ.TypedEnumVariant)
      → ((p : Typ.TypeId) → In p (payloads vs) → look p ≢ out_of_fuel)
      → variant_ctors look vs ≢ out_of_fuel
  unfolding variant_ctors payloads
  variant_ctors-returns [] h = λ e. cc e
  variant_ctors-returns (v ∷ vs) h = go v.payload h (λ h'. variant_ctors-returns vs h')
    where
      go :
          (o : Option Typ.TypeId)
          → ((p : Typ.TypeId)
              → In p (elim o [ none ↦ payloads vs | some payload ↦ payload ∷ payloads vs ])
              → look p ≢ out_of_fuel)
          → (((p : Typ.TypeId) → In p (payloads vs) → look p ≢ out_of_fuel)
              → variant_ctors look vs ≢ out_of_fuel)
          → (elim o [
            | none ↦ variant_ctors look vs >>= λ rest. ok (Patterns.enum v.name ∷ rest)
            | some payload ↦ look payload >>= λ inner.
                variant_ctors look vs >>= λ rest. ok (map (Patterns.enum_with v.name) inner ++ rest)
          ])
            ≢ out_of_fuel
      go none h ih = >>=-returns (variant_ctors look vs) _ (ih h) (λ rest. ok-returns _)
      go (some p) h ih = >>=-returns (look p) _ (h p (inl refl)) (λ inner.
          >>=-returns (variant_ctors look vs) _ (ih (λ q i. h q (inr i))) (λ rest. ok-returns _))

  all_field_ctors-returns :
      (fs : List Typ.StructTypeField)
      → ((p : Typ.TypeId)
          → In p (map (λ (f : Typ.StructTypeField). f.type_id) fs)
          → look p ≢ out_of_fuel)
      → all_field_ctors look fs ≢ out_of_fuel
  unfolding all_field_ctors
  all_field_ctors-returns [] h = λ e. cc e
  all_field_ctors-returns (f ∷ fs) h =
      >>=-returns (look f.type_id) _ (h f.type_id (inl refl)) (λ cs.
        >>=-returns (all_field_ctors look fs) _ (all_field_ctors-returns fs (λ q i. h q (inr i)))
          (λ rest. ok-returns _))

  ctors_of-returns :
      (t : Typ.Ty)
      → ((ids : List Typ.TypeId) (p : Typ.TypeId)
          → parts t ≡ some ids
          → In p ids
          → look p ≢ out_of_fuel)
      → ctors_of look t ≢ out_of_fuel
  unfolding ctors_of parts
  ctors_of-returns (Typ.enum e) h =
      variant_ctors-returns e.variants (λ p i. h (payloads e.variants) p refl i)
  ctors_of-returns (Typ.struct s) h =
      >>=-returns (all_field_ctors look s.fields) _
        (all_field_ctors-returns s.fields
          (λ p i. h (map (λ (f : Typ.StructTypeField). f.type_id) s.fields) p refl i))
        (λ cs. ok-returns _)
  ctors_of-returns (Typ.unit _) h = ok-returns _
  ctors_of-returns _ h = ok-returns _

-- Types are built from types with smaller ids, and recursive references do not go round in a circle.
pub record Founded (pool : Types) : Type 0 where
  pub smaller :
      (id : Typ.TypeId) (t : Typ.Ty) (ids : List Typ.TypeId) (p : Typ.TypeId)
      → Pool.get pool id ≡ ok t
      → parts t ≡ some ids
      → In p ids
      → p < id
  pub reads : (id : Typ.TypeId) → Pool.get pool id ≢ out_of_fuel

module _ (pool : Types) (founded : Founded pool) where
  generate_loop-returns : (f : ℕ) (id : Typ.TypeId) → id < f → generate_loop f pool id ≢ out_of_fuel
  unfolding generate_loop
  generate_loop-returns zero id h = absurd (omega arith)
  generate_loop-returns (suc f) id h =
      go (Pool.get pool id) refl (Bool-cases (id == Typ.string_type_id))
        (λ p lt. generate_loop-returns f p (omega (arith, h, lt)))
    where
      go :
          (o : Outcome Typ.Ty)
          → Pool.get pool id ≡ o
          → ((id == Typ.string_type_id) ≡ true) ⊎ ((id == Typ.string_type_id) ≡ false)
          → ((p : Typ.TypeId) → p < id → generate_loop f pool p ≢ out_of_fuel)
          → generate_loop (suc f) pool id ≢ out_of_fuel
      go o g (inl q) ih = rw (generate_loop, q) (ok-returns _)
      go (ok t) g (inr q) ih =
          rw (generate_loop, q, g)
            (ctors_of-returns (λ p. generate_loop f pool p) t
              (λ ids p parts_are i. ih p (founded.smaller id t ids p g parts_are i)))
      go panic g (inr q) ih = rw (generate_loop, q, g) panic-returns
      go out_of_fuel g (inr q) ih = absurd (founded.reads id g)

  trials_return :
      (id : Typ.TypeId)
      → id < length pool.types
      → generate_constructors_for_type pool id ≢ out_of_fuel
  unfolding generate_constructors_for_type
  trials_return id h = generate_loop-returns (suc (length pool.types)) id (omega (arith, h))

if-returns :
    (b : Bool) (x y : Outcome Bool)
    → x ≢ out_of_fuel
    → y ≢ out_of_fuel
    → (if b then x else y) ≢ out_of_fuel
if-returns true x y h g = h
if-returns false x y h g = g

branch-returns {ℓ} :
    {A : Type ℓ} (x y : Outcome A)
    → x ≢ out_of_fuel
    → y ≢ out_of_fuel
    → (b : Bool) → (elim b as (λ _. Outcome A) [ true ↦ x | false ↦ y ]) ≢ out_of_fuel
branch-returns x y h g true = h
branch-returns x y h g false = g

field-returns :
    (o : Option PatternConstructor) (matches : PatternConstructor → Outcome Bool)
    (rest : Outcome Bool)
    → ((c : PatternConstructor) → matches c ≢ out_of_fuel)
    → rest ≢ out_of_fuel
    → (elim o [
      | none ↦ panic
      | some c ↦ matches c >>= λ b. elim b [ true ↦ rest | false ↦ ok false ]
    ])
      ≢ out_of_fuel
field-returns none matches rest h g = panic-returns
field-returns (some c) matches rest h g =
    >>=-returns (matches c) _ (h c) (branch-returns rest (ok false) g (ok-returns _))

mutual
  unfolding pattern_matches

  matches-returns : (p : TypedPattern) (c : PatternConstructor) → pattern_matches p c ≢ out_of_fuel
  matches-returns (Patterns.enum_pattern_with head p) (Patterns.enum_with n c) =
      if-returns (n == head.variant_tag_name) (pattern_matches p c) (ok false) (matches-returns p c)
        (ok-returns _)
  matches-returns (Patterns.struct_pattern _ ps _) (Patterns.struct cs) = fields-return ps cs
  matches-returns (Patterns.wildcard _) c = ok-returns _
  matches-returns (Patterns.literal_unit _) Patterns.unit = ok-returns _
  matches-returns (Patterns.literal_bool true _) Patterns.bool_true = ok-returns _
  matches-returns (Patterns.literal_bool false _) Patterns.bool_false = ok-returns _
  matches-returns (Patterns.enum_pattern head) (Patterns.enum n) = ok-returns _
  matches-returns _ _ = ok-returns _

  fields-return : (ps : PatternFields) (cs : CtorFields) → fields_match ps cs ≢ out_of_fuel
  fields-return Patterns.end_pattern cs = ok-returns _
  fields-return (Patterns.field_pattern head p ps) cs =
      field-returns (find_ctor cs head.name) (λ c. pattern_matches p c) (fields_match ps cs)
        (λ c. matches-returns p c) (fields-return ps cs)

first_match-returns :
    (i : ℕ) (patterns : List TypedPattern) (c : PatternConstructor)
    → first_match i patterns c ≢ out_of_fuel
unfolding first_match
first_match-returns i [] c = ok-returns _
first_match-returns i (p ∷ patterns) c = >>=-returns (pattern_matches p c) _ (matches-returns p c) (
    branch-returns (ok (some i)) (first_match (suc i) patterns c) (ok-returns _)
      (first_match-returns (suc i) patterns c))

trial_loop-returns :
    (patterns : List TypedPattern) (trials : List PatternConstructor) (scores : List ℕ)
    → trial_loop patterns trials scores ≢ out_of_fuel
unfolding trial_loop
trial_loop-returns patterns [] scores = ok-returns _
trial_loop-returns patterns (t ∷ trials) scores =
    >>=-returns (first_match 0 patterns t) _ (first_match-returns 0 patterns t)
      (go (λ scores'. trial_loop-returns patterns trials scores'))
  where
    go :
        ((scores' : List ℕ) → trial_loop patterns trials scores' ≢ out_of_fuel)
        → (taken : Option ℕ)
        → ◌≢◌ {A = Outcome (List Bool × List ℕ)}
            (elim taken as (λ _. Outcome (List Bool × List ℕ)) [
              | some index ↦
                  trial_loop patterns trials (bump scores index) >>= λ r. ok (false ∷ r.0, r.1)
              | none ↦ trial_loop patterns trials scores >>= λ r. ok (true ∷ r.0, r.1)
            ])
            out_of_fuel
    go ih none = >>=-returns (trial_loop patterns trials scores) _ (ih scores) (λ r. ok-returns _)
    go ih (some i) =
        >>=-returns (trial_loop patterns trials (bump scores i)) _ (ih (bump scores i))
          (λ r. ok-returns _)

judge-returns :
    (patterns : List TypedPattern) (trials : List PatternConstructor) (r : List Bool × List ℕ)
    → judge patterns trials r ≢ out_of_fuel
unfolding judge
judge-returns patterns trials (alives, scores) =
    go (position (λ alive. alive) alives) (position (λ score. score == 0) scores)
  where
    go :
        (a s : Option ℕ)
        → (elim a [
          | some alive_index ↦
              unwrap (get_elem? trials alive_index) >>= λ trial. ok (unhandled trial)
          | none ↦ elim s [
            | none ↦ ok accepted
            | some useless_index ↦ unwrap (get_elem? patterns useless_index) >>= λ p.
                ok (if is_innumerable_literal p then accepted else useless p)
          ]
        ])
          ≢ out_of_fuel
    go (some i) s =
        >>=-returns (unwrap (get_elem? trials i)) _ (unwrap-returns (get_elem? trials i))
          (λ t. ok-returns _)
    go none none = ok-returns _
    go none (some i) =
        >>=-returns (unwrap (get_elem? patterns i)) _ (unwrap-returns (get_elem? patterns i))
          (λ p. ok-returns _)

-- In a pool whose types are built from types with smaller ids, the check of a match on one of its
-- types returns.
pub check_exhaustive-returns :
    (pool : Types) (id : Typ.TypeId) (patterns : List TypedPattern)
    → Founded pool
    → id < length pool.types
    → check_exhaustive pool id patterns ≢ out_of_fuel
unfolding check_exhaustive
check_exhaustive-returns pool id patterns founded h =
    >>=-returns (generate_constructors_for_type pool id) _ (trials_return pool founded id h)
      (λ trials.
        >>=-returns (trial_loop patterns trials (zeros patterns)) _
          (trial_loop-returns patterns trials (zeros patterns))
          (λ r. judge-returns patterns trials r))
