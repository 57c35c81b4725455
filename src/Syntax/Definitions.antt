-- ===== src/Syntax/Definitions.antt =====
-- src/k1/parse.rs, the definitions of a program, and the flags of a type definition.
use bfl.Span.{SpanId}
use bfl.Prelude.{refl, ◌==◌, true, not, if◌then◌else◌, false, ◌≡◌, ℕ, Bool, List, Option}
use Prim.Native.Nat.{bit_and, bit_or}
use bfl.Syntax.{Identifier, ParsedExpressionId, ParsedTypeExpressionId, NamespacedIdentifier, Block}

pub data ParsedId : Type 0 where
  function type_defn namespace ability ability_impl constant : ℕ → ParsedId
  expression type_expression pattern_ : ℕ → ParsedId

unfoldable pub is_definition : ParsedId → Bool
is_definition (expression _) = false
is_definition (type_expression _) = false
is_definition (pattern_ _) = false
is_definition _ = true

-- `Linkage` of src/k1/typer.rs
pub data Linkage : Type 0 where
  standard external intrinsic : Linkage

pub record ParsedTypeConstraint : Type 0 where
  pub param_name : Identifier
  pub ability_name : NamespacedIdentifier
  pub span : SpanId

pub record ParsedTypeParamDefn : Type 0 where
  pub ident : Identifier
  pub span : SpanId
  pub constraints : List ParsedTypeConstraint

pub record FnArgDef : Type 0 where
  pub name : Identifier
  pub ty : ParsedTypeExpressionId
  pub span : SpanId

pub record ParsedFunction : Type 0 where
  pub name : Identifier
  pub type_args : List ParsedTypeParamDefn
  pub args : List FnArgDef
  pub ret_type : Option ParsedTypeExpressionId
  pub block : Option Block
  pub span : SpanId
  pub linkage : Linkage
  pub id : ℕ

pub record ParsedConstant : Type 0 where
  pub name : Identifier
  pub ty : ParsedTypeExpressionId
  pub value_expr : ParsedExpressionId
  pub span : SpanId
  pub id : ℕ

abbrev pub ParsedTypeDefnFlags : Type 0
ParsedTypeDefnFlags = ℕ

unfoldable pub set_alias : ParsedTypeDefnFlags → ParsedTypeDefnFlags
set_alias flags = bit_or flags 1

unfoldable pub set_opaque : ParsedTypeDefnFlags → ParsedTypeDefnFlags
set_opaque flags = bit_or flags 2

unfoldable pub new_flags : Bool → Bool → ParsedTypeDefnFlags
unfolding set_alias set_opaque
new_flags alias opaque =
    let s = if alias then set_alias 0 else 0 in if opaque then set_opaque s else s

unfoldable pub is_alias : ParsedTypeDefnFlags → Bool
is_alias flags = not (bit_and flags 1 == 0)

unfoldable pub is_opaque : ParsedTypeDefnFlags → Bool
is_opaque flags = not (bit_and flags 2 == 0)

pub record ParsedTypeDefn : Type 0 where
  pub name : Identifier
  pub value_expr : ParsedTypeExpressionId
  pub type_params : List ParsedTypeParamDefn
  pub span : SpanId
  pub id : ℕ
  pub flags : ParsedTypeDefnFlags

pub record ParsedAbility : Type 0 where
  pub name : Identifier
  pub functions : List ℕ
  pub span : SpanId
  pub id : ℕ

pub record ParsedAbilityImplementation : Type 0 where
  pub ability_name : Identifier
  pub target_type : ParsedTypeExpressionId
  pub functions : List ℕ
  pub id : ℕ
  pub auto : Bool
  pub span : SpanId

pub record ParsedNamespace : Type 0 where
  pub name : Identifier
  pub definitions : List ParsedId
  pub id : ℕ
  pub span : SpanId

-- The flags of a type definition read back what they were made from.
pub is_alias-new_flags :
    (alias opaque : Bool)
    → (is_alias (new_flags alias opaque) ≡ alias) × (is_opaque (new_flags alias opaque) ≡ opaque)
unfolding is_alias is_opaque new_flags set_alias set_opaque
is_alias-new_flags true true = (refl, refl)
is_alias-new_flags true false = (refl, refl)
is_alias-new_flags false true = (refl, refl)
is_alias-new_flags false false = (refl, refl)
