-- ===== src/Patterns/Reasons.antt =====
-- src/k1/typer.rs, the exhaustiveness check: what a verdict says, and the search for a
-- pattern that takes a shape.
pub mod Loop
pub mod Verdicts
use mathlib.Core.Path.{subst}
use bfl.Patterns.Safe.{trial_loop-Taken, Taken}
use bfl.Outcome.{unwrap, ◌>>=◌, >>=-value, ok-injective, ok}
use bfl.Patterns.Match.{pattern_matches}
use bfl.Patterns.Check.{
  judge, generate_constructors_for_type, check_exhaustive, zeros, trial_loop, position, bump,
  accepted, useless, unhandled, Verdict, first_match,
}
use bfl.Prelude.{
  Bool-cases, Option-cases, ==_iff, if◌then◌else◌, ◌==◌, sym, ◌∙◌, ap, inl, inr, ◌≢◌, ◌⊎◌, refl,
  zero, [], arith, suc, Bool, ◌∷◌, none, true, false, ◌+◌, ◌≡◌, In, some, ◌<◌, get_elem?, Option, ℕ,
  List,
}
use bfl.Patterns
use bfl.Patterns.{is_innumerable_literal, PatternConstructor, TypedPattern}
use bfl.Typ
use bfl.Typ.Pool.{Types}

-- No pattern takes the shape.
abbrev pub Untaken : List TypedPattern → PatternConstructor → Type 0
Untaken patterns c =
    (k : ℕ) (p : TypedPattern) → get_elem? patterns k ≡ some p → pattern_matches p c ≡ ok false

-- A pattern in front of the one at `k` takes the shape.
abbrev pub TakenBefore : ℕ → List TypedPattern → PatternConstructor → Type 0
TakenBefore k patterns c =
    (j : ℕ) × (q : TypedPattern) × (j < k)
    × (get_elem? patterns j ≡ some q)
    × (pattern_matches q c ≡ ok true)

-- What a verdict says of the patterns and the shapes of the type.
abbrev pub Justified : List TypedPattern → List PatternConstructor → Verdict → Type 0
Justified patterns trials accepted = (c : PatternConstructor) → In c trials → Taken patterns c
Justified patterns trials (unhandled c) = In c trials × Untaken patterns c
Justified patterns trials (useless p) =
    ((c : PatternConstructor) → In c trials → Taken patterns c)
    × (is_innumerable_literal p ≡ false)
    × (k : ℕ) × (get_elem? patterns k ≡ some p)
    × ((c : PatternConstructor)
        → In c trials
        → pattern_matches p c ≡ ok true
        → TakenBefore k patterns c)

-- The first pattern that takes the shape stands `d` places on.
pub record First (patterns : List TypedPattern) (c : PatternConstructor) (d : ℕ) : Type 0 where
  pub pattern_at : TypedPattern
  pub stands : get_elem? patterns d ≡ some pattern_at
  pub takes : pattern_matches pattern_at c ≡ ok true
  pub before :
      (k : ℕ) (p : TypedPattern)
      → k < d
      → get_elem? patterns k ≡ some p
      → pattern_matches p c ≡ ok false

-- What a search for the first pattern answers.
abbrev pub Searched : ℕ → List TypedPattern → PatternConstructor → Option ℕ → Type 0
Searched i patterns c none = Untaken patterns c
Searched i patterns c (some j) = (d : ℕ) × (j ≡ d + i) × First patterns c d

pub first_match-Searched :
    (i : ℕ) (patterns : List TypedPattern) (c : PatternConstructor) (o : Option ℕ)
    → first_match i patterns c ≡ ok o
    → Searched i patterns c o
unfolding first_match
first_match-Searched i [] c o e =
    subst (Searched i [] c) (ok-injective e) (λ k p at. absurd (cc at))
first_match-Searched i (p ∷ patterns) c o e =
    let (b, matched, later) =
      >>=-value (pattern_matches p c)
        (λ b. elim b [ true ↦ ok (some i) | false ↦ first_match (suc i) patterns c ]) e in
    go b matched later (first_match-Searched (suc i) patterns c o)
  where
    go :
        (b : Bool)
        → pattern_matches p c ≡ ok b
        → (elim b [ true ↦ ok (some i) | false ↦ first_match (suc i) patterns c ]) ≡ ok o
        → (first_match (suc i) patterns c ≡ ok o → Searched (suc i) patterns c o)
        → Searched i (p ∷ patterns) c o
    go true m l ih = subst (Searched i (p ∷ patterns) c) (ok-injective l) (
      0,
      omega arith,
      record {
        pattern_at = p;
        stands = refl;
        takes = m;
        before = λ k q lt at. absurd (omega (arith, lt));
      },
    )
    go false m l ih = behind o (ih l)
      where
        head_or :
            (below : ℕ → Type 0)
            → ((k : ℕ) (q : TypedPattern)
                → below k
                → get_elem? patterns k ≡ some q
                → pattern_matches q c ≡ ok false)
            → (k : ℕ) (q : TypedPattern) → ((j : ℕ) → k ≡ suc j → below j)
            → get_elem? (p ∷ patterns) k ≡ some q
            → pattern_matches q c ≡ ok false
        head_or below h zero q lower at =
            let same : p ≡ q = cc at in subst (λ x. pattern_matches x c ≡ ok false) same m
        head_or below h (suc k) q lower at = h k q (lower k refl) at

        behind : (a : Option ℕ) → Searched (suc i) patterns c a → Searched i (p ∷ patterns) c a
        behind none u = λ k q at. head_or (λ j. Unit) (λ j x t s. u j x s) k q (λ j s. tt) at
        behind (some j) (d, sum, f) = (
          suc d,
          omega (arith, sum),
          record {
            pattern_at = f.pattern_at;
            stands = f.stands;
            takes = f.takes;
            before = λ k q lt at.
                head_or (λ j. j < d) (λ j x t s. f.before j x t s) k q (λ j s. omega (arith, s, lt))
                  at;
          },
        )

three_ways : (d k : ℕ) → (d < k) ⊎ ((d ≡ k) ⊎ (k < d))
three_ways zero zero = inr (inl refl)
three_ways zero (suc k) = inl (omega arith)
three_ways (suc d) zero = inr (inr (omega arith))
three_ways (suc d) (suc k) = elim (three_ways d k) [
  | inl lt ↦ inl (omega (arith, lt))
  | inr (inl same) ↦ inr (inl (ap suc same))
  | inr (inr gt) ↦ inr (inr (omega (arith, gt)))
]

-- A pattern that is not the first for a shape that it takes stands behind the first.
pub first_match-TakenBefore :
    (patterns : List TypedPattern) (c : PatternConstructor) (o : Option ℕ) (k : ℕ)
    (p : TypedPattern)
    → first_match 0 patterns c ≡ ok o
    → o ≢ some k
    → get_elem? patterns k ≡ some p
    → pattern_matches p c ≡ ok true
    → TakenBefore k patterns c
first_match-TakenBefore patterns c none k p e n at t =
    let refused = first_match-Searched 0 patterns c none e k p at in absurd (cc (refused, t))
first_match-TakenBefore patterns c (some j) k p e n at t =
    let (d, sum, f) = first_match-Searched 0 patterns c (some j) e in
    let place : j ≡ d = omega (arith, sum) in
    elim (three_ways d k) [
      | inl lt ↦ (d, f.pattern_at, lt, f.stands, f.takes)
      | inr (inl same) ↦ absurd (n (ap some (place ∙ same)))
      | inr (inr gt) ↦ let refused = f.before k p gt at in absurd (cc (refused, t))
    ]

-- A score that is zero behind a bump was so before, and is another.
pub bump-zero :
    (scores : List ℕ) (i k : ℕ)
    → get_elem? (bump scores i) k ≡ some 0
    → (get_elem? scores k ≡ some 0) × (i ≢ k)
bump-zero [] i k e = absurd (cc e)
bump-zero (n ∷ scores) zero zero e = let bad : suc n ≡ 0 = cc e in absurd (omega (arith, bad))
bump-zero (n ∷ scores) zero (suc k) e = (e, λ h. omega (arith, h))
bump-zero (n ∷ scores) (suc i) zero e = (e, λ h. omega (arith, h))
bump-zero (n ∷ scores) (suc i) (suc k) e =
    let (before, other) = bump-zero scores i k e in (before, λ h. other (omega (arith, h)))

pub position-at :
    {A : Type 0} (p : A → Bool) (xs : List A) (i : ℕ)
    → position p xs ≡ some i
    → (a : A) × (get_elem? xs i ≡ some a) × (p a ≡ true)
unfolding position
position-at p [] i e = absurd (cc e)
position-at {A = A} p (x ∷ xs) i e =
    go (Bool-cases (p x)) (Option-cases (position p xs)) (position-at p xs)
  where
    go :
        (p x ≡ true) ⊎ (p x ≡ false)
        → (position p xs ≡ none) ⊎ ((j : ℕ) × (position p xs ≡ some j))
        → ((j : ℕ) → position p xs ≡ some j → (a : A) × (get_elem? xs j ≡ some a) × (p a ≡ true))
        → (a : A) × (get_elem? (x ∷ xs) i ≡ some a) × (p a ≡ true)
    go (inl q) _ ih =
        let first : some 0 ≡ some i = rw (position, q) at e in
        let same : 0 ≡ i = cc first in
        subst (λ k. (a : A) × (get_elem? (x ∷ xs) k ≡ some a) × (p a ≡ true)) same (x, refl, q)
    go (inr q) (inl r) ih = let bad : none ≡ some i = rw (position, q, r) at e in absurd (cc bad)
    go (inr q) (inr (j, r)) ih =
        let later : some (suc j) ≡ some i = rw (position, q, r) at e in
        let same : suc j ≡ i = cc later in
        subst (λ k. (a : A) × (get_elem? (x ∷ xs) k ≡ some a) × (p a ≡ true)) same (ih j r)
