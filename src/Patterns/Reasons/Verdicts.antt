-- ===== src/Patterns/Reasons/Verdicts.antt =====
-- src/k1/typer.rs, the exhaustiveness check: each verdict has its reason.
use bfl.Patterns.Safe.{Taken, trial_loop-Taken}
use bfl.Patterns.Reasons.Loop.{trial_loop-zero, trial_loop-Untaken}
use mathlib.Core.Path.{subst}
use bfl.Patterns.Reasons.{first_match-TakenBefore, position-at, Justified}
use bfl.Patterns.{is_innumerable_literal, PatternConstructor, TypedPattern}
use bfl.Outcome.{◌>>=◌, >>=-value, ok-injective, ok, unwrap}
use bfl.Prelude.{
  Bool-cases, In, ==_iff, ◌∙◌, Option-cases, inl, if◌then◌else◌, inr, get_elem?, ◌⊎◌, ◌==◌, none,
  ap, some, ℕ, Bool, ◌≡◌, Option, List,
}
use bfl.Patterns.Check.{
  useless, accepted, unhandled, position, judge, zeros, trial_loop, generate_constructors_for_type,
  Verdict, check_exhaustive,
}
use bfl.Typ
use bfl.Typ.Pool.{Types}

unwrap-value : {A : Type 0} {a : A} (o : Option A) → unwrap o ≡ ok a → o ≡ some a
unwrap-value none e = absurd (cc e)
unwrap-value (some b) e = ap some (ok-injective e)

-- The verdict, from what the loop over the shapes has found.
module _ (patterns : List TypedPattern) (trials : List PatternConstructor) (r : List Bool × List ℕ)
    (found : trial_loop patterns trials (zeros patterns) ≡ ok r) where
  unhandled-Justified :
      (i : ℕ) (v : Verdict)
      → position (λ alive. alive) r.0 ≡ some i
      → judge patterns trials r ≡ ok v
      → Justified patterns trials v
  unfolding judge
  unhandled-Justified i v q e =
      let (c, e1, e2) =
        >>=-value (unwrap (get_elem? trials i)) (λ c. ok (unhandled c)) (rw (judge, q) at e) in
      let (a, at, is_true) = position-at (λ alive. alive) r.0 i q in
      subst (Justified patterns trials) (ok-injective e2) (
        trial_loop-Untaken patterns trials (zeros patterns) r i c found (at ∙ ap some is_true)
          (unwrap-value (get_elem? trials i) e1))

  useless-Justified :
      (k : ℕ) (v : Verdict)
      → position (λ alive. alive) r.0 ≡ none
      → position (λ score. score == 0) r.1 ≡ some k
      → judge patterns trials r ≡ ok v
      → Justified patterns trials v
  unfolding judge
  useless-Justified k v q z e =
      let (p, e1, e2) =
        >>=-value (unwrap (get_elem? patterns k))
          (λ p. ok (if is_innumerable_literal p then accepted else useless p))
          (rw (judge, q, z) at e) in
      let (n, at, is_zero) = position-at (λ score. score == 0) r.1 k z in
      let stands = unwrap-value (get_elem? patterns k) e1 in
      let (_, never) =
        trial_loop-zero patterns trials (zeros patterns) r k found
          (at ∙ ap some ((==_iff n 0).0 is_zero)) in
      let taken : (c : PatternConstructor) → In c trials → Taken patterns c =
        λ c h. trial_loop-Taken patterns trials (zeros patterns) r c found q h in
      elim (Bool-cases (is_innumerable_literal p)) [
        | inl literal ↦
            let verdict : ok accepted ≡ ok v = rw literal at e2 in
            subst (Justified patterns trials) (ok-injective verdict) taken
        | inr plain ↦
            let verdict : ok (useless p) ≡ ok v = rw plain at e2 in
            subst (Justified patterns trials) (ok-injective verdict) (
              taken,
              plain,
              k,
              stands,
              λ c h t.
                  let (o, first, other) = never c h in
                  first_match-TakenBefore patterns c o k p first other stands t,
            )
      ]

  judge-Justified : (v : Verdict) → judge patterns trials r ≡ ok v → Justified patterns trials v
  unfolding judge
  judge-Justified v e =
      go (Option-cases (position (λ alive. alive) r.0))
        (Option-cases (position (λ score. score == 0) r.1))
    where
      go :
          (position (λ alive. alive) r.0 ≡ none)
            ⊎ ((i : ℕ) × (position (λ alive. alive) r.0 ≡ some i))
          → (position (λ score. score == 0) r.1 ≡ none)
            ⊎ ((k : ℕ) × (position (λ score. score == 0) r.1 ≡ some k))
          → Justified patterns trials v
      go (inr (i, q)) _ = unhandled-Justified i v q e
      go (inl q) (inr (k, z)) = useless-Justified k v q z e
      go (inl q) (inl z) =
          let verdict : ok accepted ≡ ok v = rw (judge, q, z) at e in
          subst (Justified patterns trials) (ok-injective verdict)
            (λ c h. trial_loop-Taken patterns trials (zeros patterns) r c found q h)

-- The verdict of the check is about the shapes that are made for the type. An unhandled shape is one
-- of them and no pattern takes it. Where the match is accepted, and where a pattern is useless, each
-- of them is taken by some pattern. A useless pattern stands in the match, is no innumerable literal,
-- and each shape that it takes is taken by a pattern in front of it.
pub check_exhaustive-Justified :
    (pool : Types) (id : Typ.TypeId) (patterns : List TypedPattern) (v : Verdict)
    → check_exhaustive pool id patterns ≡ ok v
    → (trials : List PatternConstructor) × (generate_constructors_for_type pool id ≡ ok trials)
      × Justified patterns trials v
unfolding check_exhaustive
check_exhaustive-Justified pool id patterns v e =
    let (trials, e1, e2) =
      >>=-value (generate_constructors_for_type pool id)
        (λ trials. trial_loop patterns trials (zeros patterns) >>= λ r. judge patterns trials r)
        e in
    let (r, e3, e4) =
      >>=-value (trial_loop patterns trials (zeros patterns)) (λ r. judge patterns trials r) e2 in
    (trials, e1, judge-Justified patterns trials r e3 v e4)
