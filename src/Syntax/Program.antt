-- ===== src/Syntax/Program.antt =====
-- src/k1/parse.rs, `ParsedModule`, the sources of a program and `ParseError`. The identifiers are
-- those of an interner of strings, whose state is a parameter.
use bfl.Prelude.{
  zero, leb, ◌-◌, ◌∷◌, ltb, [], ◌+◌, suc, none, length, u32, if◌then◌else◌, some, ◌++◌, List, ℕ,
  Option,
}
use bfl.Span.{SpanId, Spans}
use bfl.Token.{Token}
use bfl.TokenKind.{TokenKind}
use bfl.Syntax.{Identifier, ParsedTypeExpressionId, ParsedPatternId}
use bfl.Syntax.Types
use bfl.Syntax.Definitions
use bfl.Syntax.Pools

-- `start_char` and `line_index` are `u32`.
pub record Line : Type 0 where
  pub start_char : ℕ
  pub line_index : ℕ
  pub content : List ℕ

pub record Source : Type 0 where
  pub file_id : ℕ
  pub directory : List ℕ
  pub filename : List ℕ
  pub content : List ℕ
  pub lines : List Line

-- `char::len_utf8`
unfoldable pub len_utf8 : ℕ → ℕ
len_utf8 c = if ltb c 0x80 then 1 else if ltb c 0x800 then 2 else if ltb c 0x10000 then 3 else 4

-- A slice of a text from a byte on, or up to a byte; `none` is the panic of an index that is out of
-- bounds or inside a character.
unfoldable pub from_byte : ℕ → List ℕ → Option (List ℕ)
unfolding len_utf8
from_byte zero text = some text
from_byte (suc n) [] = none
from_byte (suc n) (c ∷ text) =
    let rest = from_byte (suc n - len_utf8 c) text in
    if leb (len_utf8 c) (suc n) then rest else none

unfoldable pub to_byte : ℕ → List ℕ → Option (List ℕ)
unfolding len_utf8
to_byte zero text = some []
to_byte (suc n) [] = none
to_byte (suc n) (c ∷ text) =
    let rest = to_byte (suc n - len_utf8 c) text in
    if leb (len_utf8 c) (suc n) then elim rest [ none ↦ none | some t ↦ some (c ∷ t) ] else none

-- `Source::get_content`
unfoldable pub get_content : Source → ℕ → ℕ → Option (List ℕ)
unfolding from_byte to_byte
get_content s start len = elim (to_byte (u32 (start + len)) s.content) [
  | none ↦ none
  | some text ↦ from_byte start text
]

abbrev pub Sources : Type 0
Sources = List Source

-- `Sources::insert`
unfoldable pub insert_source : Sources → Source → Sources
insert_source sources source = sources ++ record source { file_id = u32 (length sources) } ∷ []

-- What a `ParseError` expects: a token, a text, or the items between delimiters.
pub data Expected : Type 0 where
  token : TokenKind → Expected
  text : List ℕ → Expected
  separated : List ℕ → TokenKind → TokenKind → Expected

pub data ParseError : Type 0 where
  error : Expected → Token → ParseError
  error_cause : Expected → Token → ParseError → ParseError

pub record ParsedModule (Identifiers : Type 0) : Type 0 where
  pub name : List ℕ
  pub name_id : Identifier
  pub spans : Spans
  pub functions : List Definitions.ParsedFunction
  pub constants : List Definitions.ParsedConstant
  pub type_defns : List Definitions.ParsedTypeDefn
  pub namespaces : List Definitions.ParsedNamespace
  pub abilities : List Definitions.ParsedAbility
  pub ability_impls : List Definitions.ParsedAbilityImplementation
  pub sources : Sources
  pub identifiers : Identifiers
  pub expressions : Pools.ParsedExpressionPool
  pub type_expressions : Pools.ParsedTypeExpressionPool
  pub patterns : Pools.ParsedPatternPool
  pub errors : List ParseError

module _ {I : Type 0} where
  unfoldable pub get_pattern_span : ParsedModule I → ParsedPatternId → Option SpanId
  unfolding Pools.get_pattern Pools.get_span
  get_pattern_span m id = elim (Pools.get_pattern m.patterns id) [
    | none ↦ none
    | some p ↦ elim p [
      | Types.literal literal_id ↦ Pools.get_span m.expressions literal_id
      | Types.enum e ↦ some e.span
      | Types.variable v span ↦ some span
      | Types.struct s ↦ some s.span
      | Types.wildcard span ↦ some span
    ]
  ]

  unfoldable pub get_type_expression_span : ParsedModule I → ParsedTypeExpressionId → Option SpanId
  unfolding Pools.get_type_expression Types.type_expression_span
  get_type_expression_span m id = elim (Pools.get_type_expression m.type_expressions id) [
    | none ↦ none
    | some t ↦ some (Types.type_expression_span t)
  ]
