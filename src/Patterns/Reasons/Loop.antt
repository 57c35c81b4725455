-- ===== src/Patterns/Reasons/Loop.antt =====
-- src/k1/typer.rs, the exhaustiveness check: the loop over the shapes, its list of those left alive
-- and its scores.
use mathlib.Core.Path.{subst}
use bfl.Patterns.Reasons.{bump-zero, first_match-Searched, Untaken}
use bfl.Outcome.{ok-injective, >>=-value, ◌>>=◌, ok}
use bfl.Patterns.{PatternConstructor, TypedPattern}
use bfl.Patterns.Check.{first_match, bump, trial_loop}
use bfl.Prelude.{
  zero, [], inr, suc, ◌∙◌, inl, sym, ap, none, ◌≢◌, true, In, get_elem?, false, some, ◌∷◌, ◌≡◌,
  Option, Bool, ℕ, List,
}

-- What a round of the loop over the shapes does with what the search in it answers.
abbrev Goes :
    List TypedPattern → List PatternConstructor → List ℕ → Option ℕ → List Bool × List ℕ → Type 0
Goes patterns trials scores (some i) r =
    (r' : List Bool × List ℕ) × (trial_loop patterns trials (bump scores i) ≡ ok r')
    × (r.0 ≡ false ∷ r'.0)
    × (r.1 ≡ r'.1)
Goes patterns trials scores none r =
    (r' : List Bool × List ℕ) × (trial_loop patterns trials scores ≡ ok r')
    × (r.0 ≡ true ∷ r'.0)
    × (r.1 ≡ r'.1)

trial_loop-Goes :
    (patterns : List TypedPattern) (t : PatternConstructor) (trials : List PatternConstructor)
    (scores : List ℕ) (r : List Bool × List ℕ)
    → trial_loop patterns (t ∷ trials) scores ≡ ok r
    → (taken : Option ℕ) × (first_match 0 patterns t ≡ ok taken)
      × Goes patterns trials scores taken r
unfolding trial_loop
trial_loop-Goes patterns t trials scores r e =
    let (taken, first, later) =
      >>=-value (first_match 0 patterns t)
        (λ taken. elim taken [
          | some index ↦
              trial_loop patterns trials (bump scores index) >>= λ r. ok (false ∷ r.0, r.1)
          | none ↦ trial_loop patterns trials scores >>= λ r. ok (true ∷ r.0, r.1)
        ])
        e in
    (taken, first, go taken later)
  where
    go :
        (taken : Option ℕ)
        → (elim taken [
          | some index ↦
              trial_loop patterns trials (bump scores index) >>= λ r. ok (false ∷ r.0, r.1)
          | none ↦ trial_loop patterns trials scores >>= λ r. ok (true ∷ r.0, r.1)
        ])
          ≡ ok r
        → Goes patterns trials scores taken r
    go none later =
        let (r', e1, e2) =
          >>=-value (trial_loop patterns trials scores) (λ r. ok (true ∷ r.0, r.1)) later in
        (r', e1, sym (ap (λ x. x.0) (ok-injective e2)), sym (ap (λ x. x.1) (ok-injective e2)))
    go (some i) later =
        let (r', e1, e2) =
          >>=-value (trial_loop patterns trials (bump scores i)) (λ r. ok (false ∷ r.0, r.1))
            later in
        (r', e1, sym (ap (λ x. x.0) (ok-injective e2)), sym (ap (λ x. x.1) (ok-injective e2)))

-- A shape that is left alive is taken by no pattern.
pub trial_loop-Untaken :
    (patterns : List TypedPattern) (trials : List PatternConstructor) (scores : List ℕ)
    (r : List Bool × List ℕ) (k : ℕ) (c : PatternConstructor)
    → trial_loop patterns trials scores ≡ ok r
    → get_elem? r.0 k ≡ some true
    → get_elem? trials k ≡ some c
    → In c trials × Untaken patterns c
trial_loop-Untaken patterns [] scores r k c e alive at = absurd (cc at)
trial_loop-Untaken patterns (t ∷ trials) scores r k c e alive at =
    let (taken, first, goes) = trial_loop-Goes patterns t trials scores r e in
    go taken first goes k at alive (λ s r' j. trial_loop-Untaken patterns trials s r' j c)
  where
    go :
        (taken : Option ℕ)
        → first_match 0 patterns t ≡ ok taken
        → Goes patterns trials scores taken r
        → (j : ℕ) → get_elem? (t ∷ trials) j ≡ some c
        → get_elem? r.0 j ≡ some true
        → ((s : List ℕ) (r' : List Bool × List ℕ) (i : ℕ)
            → trial_loop patterns trials s ≡ ok r'
            → get_elem? r'.0 i ≡ some true
            → get_elem? trials i ≡ some c
            → In c trials × Untaken patterns c)
        → In c (t ∷ trials) × Untaken patterns c
    go none first (r', e1, a, b) zero at alive ih =
        let same : t ≡ c = cc at in
        (inl same, subst (Untaken patterns) same (first_match-Searched 0 patterns t none first))
    go (some i) first (r', e1, a, b) zero at alive ih =
        let bad : some false ≡ some true = ap (λ x. get_elem? x 0) (sym a) ∙ alive in
        absurd (cc bad)
    go none first (r', e1, a, b) (suc j) at alive ih =
        let (here, u) = ih scores r' j e1 (ap (λ x. get_elem? x (suc j)) (sym a) ∙ alive) at in
        (inr here, u)
    go (some i) first (r', e1, a, b) (suc j) at alive ih =
        let (here, u) =
          ih (bump scores i) r' j e1 (ap (λ x. get_elem? x (suc j)) (sym a) ∙ alive) at in
        (inr here, u)

-- A pattern with no score is the first one for no shape.
pub trial_loop-zero :
    (patterns : List TypedPattern) (trials : List PatternConstructor) (scores : List ℕ)
    (r : List Bool × List ℕ) (k : ℕ)
    → trial_loop patterns trials scores ≡ ok r
    → get_elem? r.1 k ≡ some 0
    → (get_elem? scores k ≡ some 0)
      × ((c : PatternConstructor)
          → In c trials
          → (taken : Option ℕ) × (first_match 0 patterns c ≡ ok taken) × (taken ≢ some k))
unfolding trial_loop
trial_loop-zero patterns [] scores r k e z =
    (ap (λ x. get_elem? x.1 k) (ok-injective e) ∙ z, λ c h. absurd h)
trial_loop-zero patterns (t ∷ trials) scores r k e z =
    let (taken, first, goes) = trial_loop-Goes patterns t trials scores r e in
    go taken first goes (λ s r'. trial_loop-zero patterns trials s r' k)
  where
    Never : PatternConstructor → Type 0
    Never c = (taken : Option ℕ) × (first_match 0 patterns c ≡ ok taken) × (taken ≢ some k)

    go :
        (taken : Option ℕ)
        → first_match 0 patterns t ≡ ok taken
        → Goes patterns trials scores taken r
        → ((s : List ℕ) (r' : List Bool × List ℕ)
            → trial_loop patterns trials s ≡ ok r'
            → get_elem? r'.1 k ≡ some 0
            → (get_elem? s k ≡ some 0) × ((c : PatternConstructor) → In c trials → Never c))
        → (get_elem? scores k ≡ some 0) × ((c : PatternConstructor) → In c (t ∷ trials) → Never c)
    go none first (r', e1, a, b) ih =
        let (before, never) = ih scores r' e1 (ap (λ x. get_elem? x k) (sym b) ∙ z) in
        (
          before,
          λ c h. elim h [
            | inl same ↦ subst Never same (none, first, λ bad. cc bad)
            | inr later ↦ never c later
          ],
        )
    go (some i) first (r', e1, a, b) ih =
        let (bumped, never) = ih (bump scores i) r' e1 (ap (λ x. get_elem? x k) (sym b) ∙ z) in
        let (before, other) = bump-zero scores i k bumped in
        (
          before,
          λ c h. elim h [
            | inl same ↦ subst Never same (some i, first, λ bad. other (cc bad))
            | inr later ↦ never c later
          ],
        )
