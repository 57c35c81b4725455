-- ===== src/Tests/Patterns.antt =====
-- The theorems about the match patterns of src/k1/typer.rs at a concrete enum: a variant with a
-- Boolean and one without a payload.
use bfl.Patterns.Reasons.Verdicts.{check_exhaustive-Justified}
use bfl.Patterns.Reasons.{Justified}
use mathlib.Core.Path.{subst}
use bfl.Patterns.Match.{pattern_matches}
use bfl.Patterns.Safe.{check_exhaustive-Takes}
use bfl.Outcome.{ok-injective, ok, out_of_fuel}
use bfl.Typ.Variables.{parts}
use bfl.Prelude.{
  ◌++◌, ap, ◌∙◌, sym, inr, inl, refl, zero, ◌<◌, arith, In, suc, false, ◌≡◌, get_elem?, [], true, ℕ,
  ◌≢◌, ◌∷◌, some, none, List,
}
use bfl.Patterns.Check.{
  useless, zeros, position, judge, first_match, trial_loop, variant_ctors, ctors_of, unhandled,
  generate_loop, generate_constructors_for_type, check_exhaustive,
}
use bfl.Patterns
use bfl.Patterns.{TypedPattern, EnumPatternHead}
use bfl.Patterns.Values
use bfl.Typ
use bfl.Typ.Pool
use bfl.Typ.Pool.{Types}
use bfl.Patterns.Finite.{check_exhaustive-returns}

abbrev info : Typ.TypeDefnInfo
info = record { name = 0; scope = 0; companion_namespace = none; ast_id = Typ.type_expression 0 }

abbrev flagged : Typ.TypedEnumVariant
flagged = record { enum_type_id = 1; my_type_id = 2; name = 5; index = 0; payload = some 0 }

abbrev bare : Typ.TypedEnumVariant
bare = record { enum_type_id = 1; my_type_id = 3; name = 6; index = 1; payload = none }

abbrev choice : Typ.TypedEnum
choice = record {
  variants = flagged ∷ bare ∷ [];
  type_defn_info = none;
  generic_instance_info = none;
  ast_node = Typ.type_expression 0;
}

abbrev pool : Types
pool = record {
  types = Typ.bool info ∷ Typ.enum choice ∷ Typ.reference (record { inner_type = 0 }) ∷ [];
  type_defn_mapping = [];
  placeholder_mapping = [];
}

abbrev head : ℕ → ℕ → EnumPatternHead
head tag index = record {
  enum_type_id = 1;
  variant_tag_name = tag;
  variant_index = index;
  span = 0;
}

abbrev cases : List TypedPattern
cases =
    Patterns.enum_pattern_with (head 5 0) (Patterns.literal_bool true 0)
    ∷ Patterns.enum_pattern_with (head 5 0) (Patterns.wildcard 0)
    ∷ Patterns.enum_pattern (head 6 1)
    ∷ []

check : Unit {0}
unfolding check_exhaustive generate_constructors_for_type generate_loop ctors_of variant_ctors
    trial_loop first_match judge position zeros pattern_matches Pool.get Pool.get_loop
    Pool.get_no_follow Pool.redirect
check = tt

missing_case :
    check_exhaustive pool 1 (Patterns.enum_pattern (head 6 1) ∷ [])
    ≡ ok (unhandled (Patterns.enum_with 5 Patterns.bool_false))
unfolding check
missing_case = refl

check_exhaustive-Takes_example :
    (k : ℕ) × (p : TypedPattern) × (get_elem? cases k ≡ some p)
    × Values.Takes p (Values.enum_with 5 (Values.bool false))
unfolding check
check_exhaustive-Takes_example =
    check_exhaustive-Takes pool 1 cases (Values.enum_with 5 (Values.bool false)) refl
      (omega arith, choice, refl, 0, flagged, refl, refl, 0, refl, (omega arith, info, refl)) tt

abbrev with_useless : List TypedPattern
with_useless = cases ++ Patterns.wildcard 7 ∷ []

check_exhaustive-Justified_example :
    (trials : List Patterns.PatternConstructor) × (generate_constructors_for_type pool 1
      ≡ ok trials)
    × Justified with_useless trials (useless (Patterns.wildcard 7))
unfolding check Patterns.is_innumerable_literal
check_exhaustive-Justified_example =
    check_exhaustive-Justified pool 1 with_useless (useless (Patterns.wildcard 7)) refl

pool-reads : (id : Typ.TypeId) → Pool.get pool id ≢ out_of_fuel
unfolding check
pool-reads zero = λ e. cc e
pool-reads (suc zero) = λ e. cc e
pool-reads (suc (suc zero)) = λ e. cc e
pool-reads (suc (suc (suc id))) = λ e. cc e

some-injective : {a b : List Typ.TypeId} → some a ≡ some b → a ≡ b
some-injective e = cc e

zero_only : (p : Typ.TypeId) → In p (0 ∷ []) → p < 1
zero_only p (inl e) = omega (arith, e)
zero_only p (inr h) = absurd h

among :
    (t u : Typ.Ty) (ids ks : List Typ.TypeId) (p : Typ.TypeId)
    → ok u ≡ ok t
    → parts t ≡ some ids
    → parts u ≡ some ks
    → In p ids
    → In p ks
among t u ids ks p g e e' i =
    let same : u ≡ t = ok-injective g in
    let lists : ids ≡ ks = some-injective (sym e ∙ ap parts (sym same) ∙ e') in subst (In p) lists i

pool-smaller :
    (id : Typ.TypeId) (t : Typ.Ty) (ids : List Typ.TypeId) (p : Typ.TypeId)
    → Pool.get pool id ≡ ok t
    → parts t ≡ some ids
    → In p ids
    → p < id
unfolding check parts
pool-smaller zero t ids p g e i = absurd (among t (Typ.bool info) ids [] p g e refl i)
pool-smaller (suc zero) t ids p g e i =
    zero_only p (among t (Typ.enum choice) ids (0 ∷ []) p g e refl i)
pool-smaller (suc (suc zero)) t ids p g e i =
    let small : p < 1 =
      zero_only p (among t (Typ.reference (record { inner_type = 0 })) ids (0 ∷ []) p g e refl i) in
    omega (arith, small)
pool-smaller (suc (suc (suc id))) t ids p g e i = absurd (cc g)

check_exhaustive-returns_example : check_exhaustive pool 1 cases ≢ out_of_fuel
check_exhaustive-returns_example =
    check_exhaustive-returns pool 1 cases (record { smaller = pool-smaller; reads = pool-reads })
      (omega arith)
