-- ===== src/Tests/Parser.antt =====
-- The theorems about the parser of src/k1/parse.rs at a concrete text: a sum of a product, with an
-- operand that is a name.
mod Bracket
mod Root
use bfl.Parser.Precedence.Group.{binary_operators-group, group}
use bfl.Parser.Precedence.Trees.{Tree, leaf, Denotes, node}
use bfl.Parser.Postfix.Bracket.{parse_expression_with_postfix_ops-bracket}
use bfl.Lexer.Chars.{ascii_tables}
use bfl.Parser.Literals.{parse_literal}
use bfl.Parser.Text.{token_text, token_chars, Env}
use bfl.Syntax.Definitions.{is_alias-new_flags}
use bfl.Parser.Precedence.Ends.{binary_operators-returns}
use bfl.Parser.Precedence.Build.{Adds, Adds-refl, exprs}
use bfl.Parser.Delimited.Explained.{eat_delimited-Explained, Explained, MovesOn}
use mathlib.Core.Path.{subst}
use bfl.Parser.Tokens.{eat_token-cases}
use bfl.Parser.Precedence.Operators.{
  Operands, no_operators, operation, binary_operators-ByPrecedence, ByPrecedence, Extends,
}
use bfl.Prelude.{
  list_eq, ℕ, false, true, append-nil, sym, arith, ◌++◌, ap, codes, map, ◌≢◌, ◌≤◌, refl, ◌⊎◌, some,
  inr, ◌∷◌, none, inl, List, ◌≡◌, Option, [],
}
use bfl.TokenKind
use bfl.Token
use bfl.Token.{Token}
use bfl.Span
use bfl.BinaryOp
use bfl.Syntax
use bfl.Syntax.{ParsedExpression, ParsedExpressionId}
use bfl.Syntax.Pools
use bfl.Syntax.Definitions
use bfl.Syntax.Program
use bfl.Syntax.Program.{ParsedModule}
use bfl.Parser.{out_of_fuel, Parser, ParseResult, parsed}
use bfl.Parser
use bfl.Parser.Precedence
use bfl.Parser.Knot
use bfl.Parser.Literals
use bfl.Parser.Postfix.{parse_expression_with_postfix_ops, postfix_loop}
use bfl.Parser.TypeExpressions.{expect_type_expression}
use bfl.Parser.Precedence.{binary_operators}
use bfl.Parser.Delimited.{eat_delimited}

abbrev token_of : TokenKind.TokenKind → Token
token_of kind = record { span = 0; kind = kind; flags = 0 }

abbrev pub program : List ParsedExpression → ParsedModule (Unit {0})
program es = record {
  name = [];
  name_id = 0;
  spans = record { spans = Span.no_span ∷ [] };
  functions = [];
  constants = [];
  type_defns = [];
  namespaces = [];
  abilities = [];
  ability_impls = [];
  sources = [];
  identifiers = tt;
  expressions = record { expressions = es; type_hints = [] };
  type_expressions = record { type_expressions = [] };
  patterns = record { patterns = [] };
  errors = [];
}

abbrev name : ParsedExpression
name = Syntax.variable (record { name = record { namespaces = []; name = 0; span = 0 } })

abbrev parser : List Token → List ParsedExpression → Parser (Unit {0})
parser tokens es = record {
  tokens = record { cursor = 0; tokens = tokens };
  file_id = 0;
  program = program es;
}

-- An operand that is a name, as `parse_base_expression` reads one.
unfoldable read_name : Parser (Unit {0}) → ParseResult (Unit {0}) (Option ParsedExpressionId)
unfolding Parser.eat_token Parser.add_expression
read_name p =
    let (found, q) = Parser.eat_token p TokenKind.ident in
    let (r, id) = Parser.add_expression q name in
    elim found [ none ↦ parsed none q | some t ↦ parsed (some id) r ]

read_name-cases :
    (p : Parser (Unit {0}))
    → (read_name p ≡ parsed none p)
      ⊎ (read_name p
          ≡ parsed
              (some (Parser.add_expression (Parser.advance p) name).1)
              (Parser.add_expression (Parser.advance p) name).0)
unfolding read_name
read_name-cases p = elim (eat_token-cases p TokenKind.ident) [
  | inl (here, e) ↦ inr (rw (read_name, e, e) refl)
  | inr (away, e) ↦ inl (rw (read_name, e, e) refl)
]

read_name-Extends : Extends read_name
unfolding Parser.advance Parser.add_expression
read_name-Extends o p q e = elim (read_name-cases p) [
  | inl h ↦
      let same : p ≡ q = cc (h, e) in
      subst (λ r. (more : List ParsedExpression) × (exprs r ≡ exprs p ++ more)) same
        ([], sym (append-nil (exprs p)))
  | inr h ↦
      let same : (Parser.add_expression (Parser.advance p) name).0 ≡ q = cc (h, e) in
      subst (λ r. (more : List ParsedExpression) × (exprs r ≡ exprs p ++ more)) same
        (name ∷ [], refl)
]

read_name-keeps :
    (p q : Parser (Unit {0})) (o : Option ParsedExpressionId)
    → read_name p ≡ parsed o q
    → (q.tokens.tokens ≡ p.tokens.tokens) × (p.tokens.cursor ≤ q.tokens.cursor)
unfolding Parser.advance Parser.add_expression Token.advance
read_name-keeps p q o e = elim (read_name-cases p) [
  | inl h ↦
      let same : p ≡ q = cc (h, e) in
      (ap (λ r. r.tokens.tokens) (sym same), omega (arith, ap (λ r. r.tokens.cursor) same))
  | inr h ↦
      let same : (Parser.add_expression (Parser.advance p) name).0 ≡ q = cc (h, e) in
      (ap (λ r. r.tokens.tokens) (sym same), omega (arith, ap (λ r. r.tokens.cursor) same))
]

read_name-returns : (p : Parser (Unit {0})) → read_name p ≢ out_of_fuel
read_name-returns p = elim (read_name-cases p) [
  | inl h ↦ rw h (λ e. cc e)
  | inr h ↦ rw h (λ e. cc e)
]

read_name-MovesOn : MovesOn read_name
read_name-MovesOn = record {
  keeps = λ {p} {q} {a} e. read_name-keeps p q a e;
  returns = read_name-returns;
}

-- `+ b * c - d`, behind the operand `a`
abbrev start : Parser (Unit {0})
start =
    parser
      (map token_of (
        TokenKind.plus ∷ TokenKind.ident ∷ TokenKind.asterisk ∷ TokenKind.ident ∷ TokenKind.minus
        ∷ TokenKind.ident ∷ TokenKind.eof ∷ []))
      (name ∷ [])

abbrev state_of : ParseResult (Unit {0}) ParsedExpressionId → Parser (Unit {0})
state_of (parsed a q) = q
state_of _ = start

unfoldable grouped : Parser (Unit {0})
unfolding binary_operators
grouped = state_of (binary_operators read_name 0 start)

run : Unit {0}
unfolding grouped binary_operators Precedence.operator_loop Precedence.reduce_stack
    Precedence.reduce Precedence.build_stack Precedence.build_rest Precedence.build read_name
    Parser.eat_token Parser.add_expression Parser.expect Parser.peek Parser.advance
    Parser.extend_expr_span Parser.get_expression_span Parser.extend_span Token.peek Token.peek_n
    Token.advance Span.extend Span.get Span.add Span.extended Span.end Pools.add_expression
    Pools.get_span Pools.get_expression Syntax.expression_span BinaryOp.precedence
    BinaryOp.from_tokenkind TokenKind.kind_eq TokenKind.discriminant
run = tt

binary_operators-ByPrecedence_example : ByPrecedence read_name start 0 6 grouped
unfolding run
binary_operators-ByPrecedence_example =
    binary_operators-ByPrecedence read_name read_name-Extends 0 6 start grouped refl (omega arith)

-- `a + (b * c) - d`
abbrev whole : Tree
whole =
    node BinaryOp.subtract (node BinaryOp.add (leaf 0) (node BinaryOp.multiply (leaf 1) (leaf 2)))
      (leaf 4)

group_test :
    group (leaf 0) ((BinaryOp.add, 1) ∷ (BinaryOp.multiply, 2) ∷ (BinaryOp.subtract, 4) ∷ [])
    ≡ whole
group_test = refl

binary_operators-group_example :
    (chain : List (BinaryOp.BinaryOpKind × ParsedExpressionId)) × (last : Parser (Unit {0}))
    × Operands read_name start chain last
    × (BinaryOp.from_tokenkind (Parser.peek last).kind ≡ none)
    × Adds last grouped
    × Denotes (exprs grouped) 6 (group (leaf 0) chain)
unfolding run
binary_operators-group_example =
    binary_operators-group read_name read_name-Extends 0 6 start grouped refl (omega arith)

binary_operators-returns_example : binary_operators read_name 0 start ≢ out_of_fuel
binary_operators-returns_example = binary_operators-returns read_name 0 start (λ chain q op read k.
    (read_name-returns (Parser.advance q), λ r a e. read_name-keeps (Parser.advance q) r a e))

-- `a, b, )`
abbrev listed : Parser (Unit {0})
listed =
    parser
      (map token_of (
        TokenKind.ident ∷ TokenKind.comma ∷ TokenKind.ident ∷ TokenKind.comma
        ∷ TokenKind.close_paren ∷ []))
      []

comma_real : TokenKind.comma ≢ TokenKind.eof
comma_real e = cc e

eat_delimited-Explained_example :
    Explained
      (codes "Names")
      TokenKind.comma
      TokenKind.close_paren
      read_name
      listed
      (Parser.peek listed).span
      (eat_delimited (codes "Names") TokenKind.comma TokenKind.close_paren read_name listed)
eat_delimited-Explained_example =
    eat_delimited-Explained (codes "Names") TokenKind.comma TokenKind.close_paren read_name
      read_name-MovesOn comma_real listed

is_alias-new_flags_example :
    (Definitions.is_alias (Definitions.new_flags true false) ≡ true)
    × (Definitions.is_opaque (Definitions.new_flags true false) ≡ false)
is_alias-new_flags_example = is_alias-new_flags true false
