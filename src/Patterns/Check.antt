-- ===== src/Patterns/Check.antt =====
-- src/k1/typer.rs, `generate_constructors_for_type` and the exhaustiveness check of a match.
use bfl.Outcome.{unwrap, ok, ◌>>=◌, out_of_fuel, Outcome}
use bfl.Prelude.{
  ◌==◌, get_elem?, true, zero, ◌++◌, none, length, [], if◌then◌else◌, false, map, Option, suc, ◌∷◌,
  some, List, ℕ, Bool,
}
use bfl.Patterns.{TypedPattern, PatternConstructor, CtorFields, is_innumerable_literal}
use bfl.Patterns
use bfl.Patterns.Match.{pattern_matches}
use bfl.Typ
use bfl.Typ.Pool
use bfl.Typ.Pool.{Types}

unfoldable pub push_end : CtorFields → ℕ → PatternConstructor → CtorFields
push_end Patterns.end name ctor = Patterns.field name ctor Patterns.end
push_end (Patterns.field n c cs) name ctor = Patterns.field n c (push_end cs name ctor)

-- The inner loop: each constructor of the field is pushed on the fields of `ctor`.
unfoldable pub push_each :
    PatternConstructor → List (ℕ × PatternConstructor) → List PatternConstructor
unfolding push_end
push_each (Patterns.struct fields) [] = []
push_each (Patterns.struct fields) ((name, field_ctor) ∷ rest) =
    Patterns.struct (push_end fields name field_ctor) ∷ push_each (Patterns.struct fields) rest
push_each _ _ = []

unfoldable pub push_all :
    List PatternConstructor → List (ℕ × PatternConstructor) → List PatternConstructor
unfolding push_each
push_all [] field_ctors = []
push_all (ctor ∷ result) field_ctors = push_each ctor field_ctors ++ push_all result field_ctors

-- The cross product of all field combinations.
unfoldable pub cross :
    List (List (ℕ × PatternConstructor)) → List PatternConstructor → List PatternConstructor
unfolding push_all
cross [] result = result
cross (field_ctors ∷ rest) result = cross rest (push_all result field_ctors)

unfoldable pub variant_ctors :
    (Typ.TypeId → Outcome (List PatternConstructor))
    → List Typ.TypedEnumVariant
    → Outcome (List PatternConstructor)
variant_ctors look [] = ok []
variant_ctors look (v ∷ variants) = elim v.payload [
  | none ↦ variant_ctors look variants >>= λ rest. ok (Patterns.enum v.name ∷ rest)
  | some payload ↦ look payload >>= λ inner.
      variant_ctors look variants >>= λ rest. ok (map (Patterns.enum_with v.name) inner ++ rest)
]

unfoldable pub all_field_ctors :
    (Typ.TypeId → Outcome (List PatternConstructor))
    → List Typ.StructTypeField
    → Outcome (List (List (ℕ × PatternConstructor)))
all_field_ctors look [] = ok []
all_field_ctors look (f ∷ fields) = look f.type_id >>= λ ctors.
    all_field_ctors look fields >>= λ rest. ok (map (λ ctor. (f.name, ctor)) ctors ∷ rest)

-- The match on the type, with the recursive call `look`.
unfoldable pub ctors_of :
    (Typ.TypeId → Outcome (List PatternConstructor)) → Typ.Ty → Outcome (List PatternConstructor)
unfolding variant_ctors all_field_ctors cross
ctors_of look (Typ.unit _) = ok (Patterns.unit ∷ [])
ctors_of look (Typ.char _) = ok (Patterns.char ∷ [])
ctors_of look (Typ.type_variable _) = ok (Patterns.type_variable ∷ [])
ctors_of look (Typ.integer _) = ok (Patterns.int ∷ [])
ctors_of look (Typ.bool _) = ok (Patterns.bool_false ∷ Patterns.bool_true ∷ [])
ctors_of look (Typ.enum enum_type) = variant_ctors look enum_type.variants
ctors_of look (Typ.struct struc) = all_field_ctors look struc.fields >>= λ ctors.
    ok (cross ctors (Patterns.struct Patterns.end ∷ []))
ctors_of look _ = ok []

unfoldable pub generate_loop : ℕ → Types → Typ.TypeId → Outcome (List PatternConstructor)
unfolding ctors_of
generate_loop zero pool type_id = out_of_fuel
generate_loop (suc f) pool type_id =
    if type_id == Typ.string_type_id
    then ok (Patterns.string ∷ [])
    else Pool.get pool type_id >>= λ t. ctors_of (λ id. generate_loop f pool id) t

-- A path through more types than the pool has comes back to one, and the program does not return.
unfoldable pub generate_constructors_for_type :
    Types → Typ.TypeId → Outcome (List PatternConstructor)
unfolding generate_loop
generate_constructors_for_type pool type_id = generate_loop (suc (length pool.types)) pool type_id

-- The inner loop over the cases: the index of the first pattern that takes the shape.
unfoldable pub first_match : ℕ → List TypedPattern → PatternConstructor → Outcome (Option ℕ)
first_match index [] trial = ok none
first_match index (p ∷ patterns) trial = pattern_matches p trial >>= λ matches. elim matches [
  | true ↦ ok (some index)
  | false ↦ first_match (suc index) patterns trial
]

abbrev pub bump : List ℕ → ℕ → List ℕ
bump [] i = []
bump (n ∷ scores) zero = suc n ∷ scores
bump (n ∷ scores) (suc i) = n ∷ bump scores i

-- The outer loop: which shapes are left alive, and how many each pattern took.
unfoldable pub trial_loop :
    List TypedPattern → List PatternConstructor → List ℕ → Outcome (List Bool × List ℕ)
unfolding first_match
trial_loop patterns [] scores = ok ([], scores)
trial_loop patterns (trial ∷ trials) scores = first_match 0 patterns trial >>= λ taken. elim taken [
  | some index ↦ trial_loop patterns trials (bump scores index) >>= λ r. ok (false ∷ r.0, r.1)
  | none ↦ trial_loop patterns trials scores >>= λ r. ok (true ∷ r.0, r.1)
]

-- `Iterator::position`
unfoldable pub position {ℓ} : {A : Type ℓ} → (A → Bool) → List A → Option ℕ
position p [] = none
position p (a ∷ rest) =
    let later : Option ℕ = elim (position p rest) [ none ↦ none | some i ↦ some (suc i) ] in
    if p a then some 0 else later

pub data Verdict : Type 0 where
  accepted : Verdict
  unhandled : PatternConstructor → Verdict
  useless : TypedPattern → Verdict

-- Only the first pattern with no score is reported on, and not if it is an innumerable literal.
unfoldable pub judge :
    List TypedPattern → List PatternConstructor → List Bool × List ℕ → Outcome Verdict
unfolding position
judge patterns trials (alives, scores) = elim (position (λ alive. alive) alives) [
  | some alive_index ↦ unwrap (get_elem? trials alive_index) >>= λ trial. ok (unhandled trial)
  | none ↦ elim (position (λ score. score == 0) scores) [
    | none ↦ ok accepted
    | some useless_index ↦ unwrap (get_elem? patterns useless_index) >>= λ p.
        ok (if is_innumerable_literal p then accepted else useless p)
  ]
]

unfoldable pub zeros : List TypedPattern → List ℕ
zeros [] = []
zeros (p ∷ patterns) = 0 ∷ zeros patterns

unfoldable pub check_exhaustive : Types → Typ.TypeId → List TypedPattern → Outcome Verdict
unfolding generate_constructors_for_type trial_loop judge zeros
check_exhaustive pool type_id patterns = generate_constructors_for_type pool type_id >>= λ trials.
    trial_loop patterns trials (zeros patterns) >>= λ r. judge patterns trials r
