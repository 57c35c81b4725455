-- ===== src/Syntax.antt =====
-- src/k1/parse.rs, the parsed program: expressions, patterns and statements. Expressions, patterns
-- and type expressions refer to each other by their ids in the pools of the module; an id is a
-- number, a text is a list of code points.
pub mod Types
pub mod Pools
pub mod Definitions
pub mod Program
pub mod Store
pub mod Lines
use bfl.Span.{SpanId}
use bfl.Prelude.{none, some, false, true, [], Bool, ℕ, List, Option}
use bfl.TokenKind
use bfl.BinaryOp.{BinaryOpKind}

abbrev pub Identifier : Type 0
Identifier = ℕ

abbrev pub ParsedExpressionId : Type 0
ParsedExpressionId = ℕ

abbrev pub ParsedTypeExpressionId : Type 0
ParsedTypeExpressionId = ℕ

abbrev pub ParsedPatternId : Type 0
ParsedPatternId = ℕ

pub record ParsedNumericLiteral : Type 0 where
  pub text : List ℕ
  pub span : SpanId

pub data Literal : Type 0 where
  unit : SpanId → Literal
  char : ℕ → SpanId → Literal
  numeric : ParsedNumericLiteral → Literal
  bool : Bool → SpanId → Literal
  string : List ℕ → SpanId → Literal

-- `Literal::get_span`
unfoldable pub literal_span : Literal → SpanId
literal_span (unit span) = span
literal_span (char c span) = span
literal_span (numeric i) = i.span
literal_span (bool b span) = span
literal_span (string s span) = span

pub record NamespacedIdentifier : Type 0 where
  pub namespaces : List Identifier
  pub name : Identifier
  pub span : SpanId

unfoldable pub naked : Identifier → SpanId → NamespacedIdentifier
naked name span = record { namespaces = []; name = name; span = span }

pub record FnCallArg : Type 0 where
  pub name : Option Identifier
  pub value : ParsedExpressionId

pub record NamedTypeArg : Type 0 where
  pub name : Option Identifier
  pub type_expr : ParsedTypeExpressionId

pub record FnCall : Type 0 where
  pub name : NamespacedIdentifier
  pub type_args : List NamedTypeArg
  pub args : List FnCallArg
  pub span : SpanId
  pub is_method : Bool

pub record ValDef : Type 0 where
  pub name : Identifier
  pub type_expr : Option ParsedTypeExpressionId
  pub value : ParsedExpressionId
  pub is_mutable : Bool
  pub span : SpanId

pub record BinaryOp : Type 0 where
  pub op_kind : BinaryOpKind
  pub lhs : ParsedExpressionId
  pub rhs : ParsedExpressionId
  pub span : SpanId

pub data ParsedUnaryOpKind : Type 0 where
  boolean_negation reference dereference : ParsedUnaryOpKind

-- `ParsedUnaryOpKind::from_tokenkind`
unfoldable pub unary_from_tokenkind : TokenKind.TokenKind → Option ParsedUnaryOpKind
unary_from_tokenkind TokenKind.keyword_not = some boolean_negation
unary_from_tokenkind TokenKind.ampersand = some reference
unary_from_tokenkind TokenKind.asterisk = some dereference
unary_from_tokenkind _ = none

pub record UnaryOp : Type 0 where
  pub op_kind : ParsedUnaryOpKind
  pub expr : ParsedExpressionId
  pub span : SpanId

pub record Variable : Type 0 where
  pub name : NamespacedIdentifier

pub record FieldAccess : Type 0 where
  pub base : ParsedExpressionId
  pub target : Identifier
  pub type_args : List NamedTypeArg
  pub span : SpanId

pub record StructField : Type 0 where
  pub name : Identifier
  pub expr : ParsedExpressionId

pub record Struct : Type 0 where
  pub fields : List StructField
  pub span : SpanId

pub record ArrayExpr : Type 0 where
  pub elements : List ParsedExpressionId
  pub span : SpanId

pub record OptionalGet : Type 0 where
  pub base : ParsedExpressionId
  pub span : SpanId

pub record AnonEnumVariant : Type 0 where
  pub name : Identifier
  pub span : SpanId

pub record ParsedEnumConstructor : Type 0 where
  pub variant_name : Identifier
  pub payload : ParsedExpressionId
  pub span : SpanId

pub record ParsedIsExpression : Type 0 where
  pub target_expression : ParsedExpressionId
  pub pattern_ : ParsedPatternId
  pub span : SpanId

pub record ParsedMatchCase : Type 0 where
  pub pattern_ : ParsedPatternId
  pub expression : ParsedExpressionId

pub record ParsedMatchExpression : Type 0 where
  pub target_expression : ParsedExpressionId
  pub cases : List ParsedMatchCase
  pub span : SpanId

pub record ParsedAsCast : Type 0 where
  pub base_expr : ParsedExpressionId
  pub dest_type : ParsedTypeExpressionId
  pub span : SpanId

pub record IfExpr : Type 0 where
  pub cond : ParsedExpressionId
  pub cons : ParsedExpressionId
  pub alt : Option ParsedExpressionId
  pub span : SpanId

pub record Assignment : Type 0 where
  pub lhs : ParsedExpressionId
  pub rhs : ParsedExpressionId
  pub span : SpanId

-- `WhileStmt` is the last constructor's arguments, its condition, block and span.
mutual
  pub data Block : Type 0 where
    block : Stmts → SpanId → Block

  pub data Stmts : Type 0 where
    end : Stmts
    stmt : ParsedStmt → Stmts → Stmts

  pub data ParsedStmt : Type 0 where
    val_def : ValDef → ParsedStmt
    assignment : Assignment → ParsedStmt
    lone_expression : ParsedExpressionId → ParsedStmt
    while_stmt : ParsedExpressionId → Block → SpanId → ParsedStmt

unfoldable pub block_span : Block → SpanId
block_span (block stmts span) = span

pub data ForExprType : Type 0 where
  yield do_ : ForExprType

pub record ForExpr : Type 0 where
  pub iterable_expr : ParsedExpressionId
  pub binding : Option Identifier
  pub body_block : Block
  pub expr_type : ForExprType
  pub span : SpanId

pub data ParsedExpression : Type 0 where
  binary_op : BinaryOp → ParsedExpression
  unary_op : UnaryOp → ParsedExpression
  literal : Literal → ParsedExpression
  fn_call : FnCall → ParsedExpression
  variable : Variable → ParsedExpression
  field_access : FieldAccess → ParsedExpression
  block_expr : Block → ParsedExpression
  if_expr : IfExpr → ParsedExpression
  struct : Struct → ParsedExpression
  array : ArrayExpr → ParsedExpression
  optional_get : OptionalGet → ParsedExpression
  for_expr : ForExpr → ParsedExpression
  anon_enum_variant : AnonEnumVariant → ParsedExpression
  enum_constructor : ParsedEnumConstructor → ParsedExpression
  is_expr : ParsedIsExpression → ParsedExpression
  match_expr : ParsedMatchExpression → ParsedExpression
  as_cast : ParsedAsCast → ParsedExpression

-- `ParsedExpression::get_span`
unfoldable pub expression_span : ParsedExpression → SpanId
unfolding literal_span block_span
expression_span (binary_op op) = op.span
expression_span (unary_op op) = op.span
expression_span (literal lit) = literal_span lit
expression_span (fn_call call) = call.span
expression_span (variable var) = var.name.span
expression_span (field_access acc) = acc.span
expression_span (block_expr b) = block_span b
expression_span (if_expr e) = e.span
expression_span (struct struc) = struc.span
expression_span (array e) = e.span
expression_span (optional_get e) = e.span
expression_span (for_expr e) = e.span
expression_span (anon_enum_variant e) = e.span
expression_span (enum_constructor e) = e.span
expression_span (is_expr e) = e.span
expression_span (match_expr e) = e.span
expression_span (as_cast e) = e.span

-- `ParsedExpression::is_assignable`
unfoldable pub is_assignable : ParsedExpression → Bool
is_assignable (variable _) = true
is_assignable (field_access _) = true
is_assignable _ = false
