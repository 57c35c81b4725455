-- ===== src/Patterns/Safe.antt =====
-- src/k1/typer.rs, the exhaustiveness check: a match that it accepts has a case for each value whose
-- parts it can take apart.
use mathlib.Core.Path.{subst}
use bfl.Outcome.{unwrap, ◌>>=◌, >>=-value, ok-injective, ok}
use bfl.Patterns.Match.{pattern_matches}
use bfl.Prelude.{
  get_elem?-In, length, ap, get_elem?, Option-cases, Option, ◌∙◌, refl, false, zero, inr, ==_iff,
  sym, inl, ◌==◌, [], ◌∷◌, Bool-cases, some, none, suc, true, ◌≢◌, ◌≡◌, Bool, ℕ, In, List,
}
use bfl.Patterns.Check.{
  zeros, bump, generate_constructors_for_type, accepted, judge, check_exhaustive, unhandled,
  ctors_of, position, trial_loop, first_match, generate_loop,
}
use bfl.Patterns
use bfl.Patterns.{PatternConstructor, TypedPattern}
use bfl.Patterns.Values
use bfl.Patterns.Values.{Value, HasType, Plain, Covers, Takes}
use bfl.Patterns.Variants.{Some, variant_tag, variant_payload}
use bfl.Patterns.Product.{struct-Some}
use bfl.Patterns.Cover.{pattern_matches-Takes}
use bfl.Typ
use bfl.Typ.Pool
use bfl.Typ.Pool.{Types}

module _ (pool : Types) where
  -- A type other than the string's is looked at in the pool.
  opened :
      (f : ℕ) (id : Typ.TypeId) (t : Typ.Ty) (cs : List PatternConstructor)
      → id ≢ Typ.string_type_id
      → Pool.get pool id ≡ ok t
      → generate_loop (suc f) pool id ≡ ok cs
      → ctors_of (λ j. generate_loop f pool j) t ≡ ok cs
  unfolding generate_loop
  opened f id t cs n g e = elim (Bool-cases (id == Typ.string_type_id)) [
    | inl q ↦ absurd (n ((==_iff id Typ.string_type_id).0 q))
    | inr q ↦ rw g at (rw q at e)
  ]

  generate_loop-Some :
      (f : ℕ) (id : Typ.TypeId) (v : Value) (cs : List PatternConstructor)
      → generate_loop f pool id ≡ ok cs
      → HasType pool v id
      → Plain v
      → Some cs v
  unfolding generate_loop ctors_of
  generate_loop-Some zero id v cs e h p = cc e
  generate_loop-Some (suc f) id (Values.string s) cs e h p =
      let made : generate_loop (suc f) pool id ≡ ok (Patterns.string ∷ []) = rw h refl in
      (Patterns.string, subst (In Patterns.string) (ok-injective (sym made ∙ e)) (inl refl), tt)
  generate_loop-Some (suc f) id Values.unit cs e (n, i, g) p = (
    Patterns.unit,
    subst (In Patterns.unit) (ok-injective (opened f id _ cs n g e)) (inl refl),
    tt,
  )
  generate_loop-Some (suc f) id (Values.char c) cs e (n, i, g) p = (
    Patterns.char,
    subst (In Patterns.char) (ok-injective (opened f id _ cs n g e)) (inl refl),
    tt,
  )
  generate_loop-Some (suc f) id (Values.int k) cs e (n, i, g) p =
      (Patterns.int, subst (In Patterns.int) (ok-injective (opened f id _ cs n g e)) (inl refl), tt)
  generate_loop-Some (suc f) id (Values.opaque x) cs e (n, i, g) p = (
    Patterns.type_variable,
    subst (In Patterns.type_variable) (ok-injective (opened f id _ cs n g e)) (inl refl),
    tt,
  )
  generate_loop-Some (suc f) id (Values.bool false) cs e (n, i, g) p = (
    Patterns.bool_false,
    subst (In Patterns.bool_false) (ok-injective (opened f id _ cs n g e)) (inl refl),
    tt,
  )
  generate_loop-Some (suc f) id (Values.bool true) cs e (n, i, g) p = (
    Patterns.bool_true,
    subst (In Patterns.bool_true) (ok-injective (opened f id _ cs n g e)) (inr (inl refl)),
    tt,
  )
  generate_loop-Some (suc f) id (Values.other x) cs e h p = absurd p
  generate_loop-Some (suc f) id (Values.struct vs) cs e (n, s, g, have) p =
      struct-Some pool (λ j. generate_loop f pool j) s.fields vs cs (opened f id _ cs n g e) have p
        (λ j v ds e' h' p'. generate_loop-Some f j v ds e' h' p')
  generate_loop-Some (suc f) id (Values.enum m) cs e (n, en, g, k, w, at, named, pay) p = (
    Patterns.enum w.name,
    variant_tag (λ j. generate_loop f pool j) en.variants cs k w (opened f id _ cs n g e) at pay,
    named,
  )
  generate_loop-Some (suc f) id (Values.enum_with m v) cs e (n, en, g, k, w, at, named, q, pay, h)
        p =
      let (c, here, covers) =
        variant_payload (λ j. generate_loop f pool j) en.variants cs k w q v
          (opened f id _ cs n g e) at pay
          (λ inner looked. generate_loop-Some f q v inner looked h p) in
      (Patterns.enum_with w.name c, here, (named, covers))

-- One of the patterns takes the shape.
abbrev pub Taken : List TypedPattern → PatternConstructor → Type 0
Taken patterns c = (p : TypedPattern) × In p patterns × (pattern_matches p c ≡ ok true)

first_match-Taken :
    (i j : ℕ) (patterns : List TypedPattern) (c : PatternConstructor)
    → first_match i patterns c ≡ ok (some j)
    → Taken patterns c
unfolding first_match
first_match-Taken i j [] c e = cc e
first_match-Taken i j (p ∷ patterns) c e =
    let (b, matched, later) =
      >>=-value (pattern_matches p c)
        (λ b. elim b [ true ↦ ok (some i) | false ↦ first_match (suc i) patterns c ]) e in
    go b matched later (λ e'. first_match-Taken (suc i) j patterns c e')
  where
    go :
        (b : Bool)
        → pattern_matches p c ≡ ok b
        → (elim b [ true ↦ ok (some i) | false ↦ first_match (suc i) patterns c ]) ≡ ok (some j)
        → (first_match (suc i) patterns c ≡ ok (some j) → Taken patterns c)
        → Taken (p ∷ patterns) c
    go true m l ih = (p, inl refl, m)
    go false m l ih = let (q, here, took) = ih l in (q, inr here, took)

some-≢-none : {i : ℕ} → some i ≢ none
some-≢-none e = cc e

tail_dead :
    (o : Option ℕ)
    → (elim o as (λ _. Option ℕ) [ none ↦ none | some i ↦ some (suc i) ]) ≡ none
    → o ≡ none
tail_dead none e = refl
tail_dead (some i) e = cc e

unhandled-≢-accepted : (c : PatternConstructor) → unhandled c ≢ accepted
unhandled-≢-accepted c e = cc e

pub trial_loop-Taken :
    (patterns : List TypedPattern) (trials : List PatternConstructor) (scores : List ℕ)
    (r : List Bool × List ℕ) (c : PatternConstructor)
    → trial_loop patterns trials scores ≡ ok r
    → position (λ alive. alive) r.0 ≡ none
    → In c trials
    → Taken patterns c
unfolding trial_loop position
trial_loop-Taken patterns [] scores r c e dead h = absurd h
trial_loop-Taken patterns (t ∷ trials) scores r c e dead h =
    let (taken, first, later) =
      >>=-value (first_match 0 patterns t)
        (λ taken. elim taken [
          | some index ↦
              trial_loop patterns trials (bump scores index) >>= λ r. ok (false ∷ r.0, r.1)
          | none ↦ trial_loop patterns trials scores >>= λ r. ok (true ∷ r.0, r.1)
        ])
        e in
    go taken first later h
      (λ scores' r' e' dead' h'. trial_loop-Taken patterns trials scores' r' c e' dead' h')
  where
    go :
        (taken : Option ℕ)
        → first_match 0 patterns t ≡ ok taken
        → (elim taken [
          | some index ↦
              trial_loop patterns trials (bump scores index) >>= λ r. ok (false ∷ r.0, r.1)
          | none ↦ trial_loop patterns trials scores >>= λ r. ok (true ∷ r.0, r.1)
        ])
          ≡ ok r
        → In c (t ∷ trials)
        → ((scores' : List ℕ) (r' : List Bool × List ℕ)
            → trial_loop patterns trials scores' ≡ ok r'
            → position (λ alive. alive) r'.0 ≡ none
            → In c trials
            → Taken patterns c)
        → Taken patterns c
    go none first later h ih =
        let (r', e1, e2) =
          >>=-value (trial_loop patterns trials scores) (λ r. ok (true ∷ r.0, r.1)) later in
        let alive : true ∷ r'.0 ≡ r.0 = ap (λ x. x.0) (ok-injective e2) in
        absurd (some-≢-none (subst (λ x. position (λ alive. alive) x ≡ none) (sym alive) dead))
    go (some i) first later (inl same) ih =
        subst (Taken patterns) same (first_match-Taken 0 i patterns t first)
    go (some i) first later (inr h) ih =
        let (r', e1, e2) =
          >>=-value (trial_loop patterns trials (bump scores i)) (λ r. ok (false ∷ r.0, r.1))
            later in
        let alive : false ∷ r'.0 ≡ r.0 = ap (λ x. x.0) (ok-injective e2) in
        ih (bump scores i) r' e1
          (tail_dead (position (λ alive. alive) r'.0)
            (subst (λ x. position (λ alive. alive) x ≡ none) (sym alive) dead))
          h

pub judge-accepted :
    (patterns : List TypedPattern) (trials : List PatternConstructor) (r : List Bool × List ℕ)
    → judge patterns trials r ≡ ok accepted
    → position (λ alive. alive) r.0 ≡ none
unfolding judge
judge-accepted patterns trials (alives, scores) e =
    elim (Option-cases (position (λ alive. alive) alives)) [
      | inl q ↦ q
      | inr (i, q) ↦
          let (c, e1, e2) =
            >>=-value (unwrap (get_elem? trials i)) (λ c. ok (unhandled c)) (rw (judge, q) at e) in
          absurd (unhandled-≢-accepted c (ok-injective e2))
    ]

-- A match that the check accepts has a case for every value of the type whose parts the check can
-- take apart.
pub check_exhaustive-Takes :
    (pool : Types) (id : Typ.TypeId) (patterns : List TypedPattern) (v : Value)
    → check_exhaustive pool id patterns ≡ ok accepted
    → HasType pool v id
    → Plain v
    → (k : ℕ) × (p : TypedPattern) × (get_elem? patterns k ≡ some p) × Takes p v
unfolding check_exhaustive generate_constructors_for_type
check_exhaustive-Takes pool id patterns v e h plain =
    let (trials, e1, e2) =
      >>=-value (generate_constructors_for_type pool id)
        (λ trials. trial_loop patterns trials (zeros patterns) >>= λ r. judge patterns trials r)
        e in
    let (r, e3, e4) =
      >>=-value (trial_loop patterns trials (zeros patterns)) (λ r. judge patterns trials r) e2 in
    let (c, here, covers) =
      generate_loop-Some pool (suc (length pool.types)) id v trials e1 h plain in
    let (p, among, took) =
      trial_loop-Taken patterns trials (zeros patterns) r c e3 (judge-accepted patterns trials r e4)
        here in
    let (k, at) = get_elem?-In p patterns among in
    (k, p, at, pattern_matches-Takes p c v took covers)
