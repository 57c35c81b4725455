-- ===== src/Syntax/Pools.antt =====
-- src/k1/parse.rs, `ParsedExpressionPool`, `ParsedTypeExpressionPool` and `ParsedPatternPool`. An
-- index out of bounds is `none`, a panic of the program.
use bfl.Span.{SpanId}
use bfl.Prelude.{length, u32, some, [], none, ◌∷◌, get_elem?, List, Option, ◌++◌}
use bfl.Maps
use bfl.Maps.{HashMap}
use bfl.Syntax.{
  ParsedExpression, ParsedExpressionId, ParsedTypeExpressionId, ParsedPatternId, expression_span,
}
use bfl.Syntax.Types.{ParsedTypeExpression, ParsedPattern}

pub record ParsedExpressionPool : Type 0 where
  pub expressions : List ParsedExpression
  pub type_hints : HashMap ParsedTypeExpressionId

unfoldable pub add_type_hint :
    ParsedExpressionPool → ParsedExpressionId → ParsedTypeExpressionId → ParsedExpressionPool
add_type_hint p id ty = record p { type_hints = Maps.insert p.type_hints id ty }

unfoldable pub get_type_hint :
    ParsedExpressionPool → ParsedExpressionId → Option ParsedTypeExpressionId
get_type_hint p id = Maps.get p.type_hints id

unfoldable pub add_expression :
    ParsedExpressionPool → ParsedExpression → ParsedExpressionPool × ParsedExpressionId
add_expression p e =
    (record p { expressions = p.expressions ++ e ∷ [] }, u32 (length p.expressions))

unfoldable pub get_expression : ParsedExpressionPool → ParsedExpressionId → Option ParsedExpression
get_expression p id = get_elem? p.expressions id

unfoldable pub get_span : ParsedExpressionPool → ParsedExpressionId → Option SpanId
unfolding get_expression expression_span
get_span p id = elim (get_expression p id) [ none ↦ none | some e ↦ some (expression_span e) ]

pub record ParsedTypeExpressionPool : Type 0 where
  pub type_expressions : List ParsedTypeExpression

unfoldable pub add_type_expression :
    ParsedTypeExpressionPool
    → ParsedTypeExpression
    → ParsedTypeExpressionPool × ParsedTypeExpressionId
add_type_expression p e =
    (record { type_expressions = p.type_expressions ++ e ∷ [] }, u32 (length p.type_expressions))

unfoldable pub get_type_expression :
    ParsedTypeExpressionPool → ParsedTypeExpressionId → Option ParsedTypeExpression
get_type_expression p id = get_elem? p.type_expressions id

pub record ParsedPatternPool : Type 0 where
  pub patterns : List ParsedPattern

unfoldable pub add_pattern : ParsedPatternPool → ParsedPattern → ParsedPatternPool × ParsedPatternId
add_pattern p e = (record { patterns = p.patterns ++ e ∷ [] }, u32 (length p.patterns))

unfoldable pub get_pattern : ParsedPatternPool → ParsedPatternId → Option ParsedPattern
get_pattern p id = get_elem? p.patterns id
