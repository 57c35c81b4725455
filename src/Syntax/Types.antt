-- ===== src/Syntax/Types.antt =====
-- src/k1/parse.rs, the parsed patterns, the parsed type expressions and their parts.
use bfl.Span.{SpanId}
use bfl.Prelude.{Option, List, Bool, ℕ}
use bfl.Syntax.{
  Identifier, ParsedExpressionId, ParsedTypeExpressionId, ParsedPatternId, NamespacedIdentifier,
  NamedTypeArg,
}

pub record ParsedStructPattern : Type 0 where
  pub fields : List (Identifier × ParsedPatternId)
  pub span : SpanId

pub record ParsedEnumPattern : Type 0 where
  pub variant_tag : Identifier
  pub payload_pattern : Option ParsedPatternId
  pub span : SpanId

pub data ParsedPattern : Type 0 where
  literal : ParsedExpressionId → ParsedPattern
  variable : Identifier → SpanId → ParsedPattern
  struct : ParsedStructPattern → ParsedPattern
  enum : ParsedEnumPattern → ParsedPattern
  wildcard : SpanId → ParsedPattern

pub record StructTypeField : Type 0 where
  pub name : Identifier
  pub ty : ParsedTypeExpressionId

pub record StructType : Type 0 where
  pub fields : List StructTypeField
  pub span : SpanId

pub record TypeApplication : Type 0 where
  pub base_name : NamespacedIdentifier
  pub params : List NamedTypeArg
  pub span : SpanId

pub record ParsedOptional : Type 0 where
  pub base : ParsedTypeExpressionId
  pub span : SpanId

pub record ParsedReference : Type 0 where
  pub base : ParsedTypeExpressionId
  pub span : SpanId

pub record ParsedEnumVariant : Type 0 where
  pub tag_name : Identifier
  pub payload_expression : Option ParsedTypeExpressionId
  pub span : SpanId

pub record ParsedEnumType : Type 0 where
  pub variants : List ParsedEnumVariant
  pub span : SpanId

pub record ParsedDotMemberAccess : Type 0 where
  pub base : ParsedTypeExpressionId
  pub member_name : Identifier
  pub span : SpanId

pub data NumericWidth : Type 0 where
  b8 b16 b32 b64 : NumericWidth

unfoldable pub bit_width : NumericWidth → ℕ
bit_width b8 = 8
bit_width b16 = 16
bit_width b32 = 32
bit_width b64 = 64

pub record ParsedNumericType : Type 0 where
  pub width : NumericWidth
  pub signed : Bool
  pub span : SpanId

pub data ParsedTypeExpression : Type 0 where
  builtin : SpanId → ParsedTypeExpression
  integer : ParsedNumericType → ParsedTypeExpression
  struct_type : StructType → ParsedTypeExpression
  type_application : TypeApplication → ParsedTypeExpression
  optional : ParsedOptional → ParsedTypeExpression
  reference : ParsedReference → ParsedTypeExpression
  enum_type : ParsedEnumType → ParsedTypeExpression
  dot_member_access : ParsedDotMemberAccess → ParsedTypeExpression

-- `ParsedTypeExpression::get_span`
unfoldable pub type_expression_span : ParsedTypeExpression → SpanId
type_expression_span (builtin span) = span
type_expression_span (integer t) = t.span
type_expression_span (struct_type t) = t.span
type_expression_span (type_application t) = t.span
type_expression_span (optional t) = t.span
type_expression_span (reference t) = t.span
type_expression_span (enum_type t) = t.span
type_expression_span (dot_member_access t) = t.span
