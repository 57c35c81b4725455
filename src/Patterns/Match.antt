-- ===== src/Patterns/Match.antt =====
-- src/k1/typer.rs, `pattern_matches`: whether a pattern takes every value of a shape.
use bfl.Outcome.{◌>>=◌, panic, ok, Outcome}
use bfl.Prelude.{some, false, ◌==◌, if◌then◌else◌, true, none, Option, Bool, ℕ}
use bfl.Patterns.{TypedPattern, PatternFields, PatternConstructor, CtorFields}
use bfl.Patterns

unfoldable pub find_ctor : CtorFields → ℕ → Option PatternConstructor
find_ctor Patterns.end name = none
find_ctor (Patterns.field n c cs) name = if n == name then some c else find_ctor cs name

unfoldable mutual
  unfolding find_ctor

  pub pattern_matches : TypedPattern → PatternConstructor → Outcome Bool
  pattern_matches (Patterns.wildcard _) ctor = ok true
  pattern_matches (Patterns.variable _ _) ctor = ok true
  pattern_matches (Patterns.literal_unit _) Patterns.unit = ok true
  pattern_matches (Patterns.literal_bool true _) Patterns.bool_true = ok true
  pattern_matches (Patterns.literal_bool false _) Patterns.bool_false = ok true
  pattern_matches (Patterns.enum_pattern head) (Patterns.enum variant_name) =
      ok (variant_name == head.variant_tag_name)
  pattern_matches (Patterns.enum_pattern_with head payload)
        (Patterns.enum_with variant_name inner) =
      let deeper = pattern_matches payload inner in
      if variant_name == head.variant_tag_name then deeper else ok false
  pattern_matches (Patterns.struct_pattern _ fields _) (Patterns.struct ctors) =
      fields_match fields ctors
  pattern_matches _ _ = ok false

  -- The loop over the fields of the pattern; a field that the struct has not panics.
  pub fields_match : PatternFields → CtorFields → Outcome Bool
  fields_match Patterns.end_pattern ctors = ok true
  fields_match (Patterns.field_pattern head pattern_ rest) ctors =
      elim (find_ctor ctors head.name) [
        | none ↦ panic
        | some ctor ↦ pattern_matches pattern_ ctor >>= λ matches. elim matches [
          | true ↦ fields_match rest ctors
          | false ↦ ok false
        ]
      ]
