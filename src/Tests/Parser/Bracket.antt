-- ===== src/Tests/Parser/Bracket.antt =====
-- The postfix operators of src/k1/parse.rs at a text with an open bracket behind a literal.
use bfl.Parser.Postfix.Bracket.{parse_expression_with_postfix_ops-bracket}
use bfl.Parser.Literals.{parse_literal}
use bfl.Parser.Text.{token_text, token_chars, Env}
use bfl.Prelude.{refl, list_eq, false, codes, none, [], ◌≡◌, ◌∷◌, Option, ℕ}
use bfl.TokenKind
use bfl.Token
use bfl.Token.{Token}
use bfl.Span
use bfl.Syntax.{ParsedExpressionId}
use bfl.Syntax.Pools
use bfl.Syntax.Program
use bfl.Parser.{out_of_fuel, Parser, ParseResult, parsed}
use bfl.Parser
use bfl.Parser.Knot
use bfl.Parser.Literals
use bfl.Parser.TypeExpressions.{expect_type_expression}
use bfl.Parser.Postfix.{postfix_loop, parse_expression_with_postfix_ops}
use bfl.Lexer.Chars.{ascii_tables}
use bfl.Tests.Parser.{program}

-- The interner knows no name, and letters and digits are those of ASCII.
abbrev pub env : Env (Unit {0})
env = record {
  get_or_intern = λ state text. (0, state);
  resolve = λ state id. none;
  tables = ascii_tables;
  is_lowercase = λ c. false;
}

abbrev at_span : ℕ → TokenKind.TokenKind → Token
at_span id kind = record { span = id; kind = kind; flags = 0 }

-- `1[`
abbrev indexed : Parser (Unit {0})
indexed = record {
  tokens = record {
    cursor = 0;
    tokens =
        at_span 1 TokenKind.ident ∷ at_span 2 TokenKind.open_bracket ∷ at_span 0 TokenKind.eof ∷ [];
  };
  file_id = 0;
  program = record (program []) {
    spans = record {
      spans =
          Span.no_span
          ∷ record { file_id = 0; start = 0; len = 1 }
          ∷ record { file_id = 0; start = 1; len = 1 }
          ∷ [];
    };
    sources =
        record { file_id = 0; directory = []; filename = []; content = codes "1["; lines = [] }
        ∷ [];
  };
}

abbrev base : Parser (Unit {0}) → ParseResult (Unit {0}) (Option ParsedExpressionId)
base = parse_literal ascii_tables

abbrev option_state : ParseResult (Unit {0}) (Option ParsedExpressionId) → Parser (Unit {0})
option_state (parsed a q) = q
option_state _ = indexed

unfoldable behind_one : Parser (Unit {0})
unfolding parse_literal
behind_one = option_state (base indexed)

literals : Unit {0}
unfolding behind_one parse_literal Token.peek_two Token.peek_n Token.peek Token.advance Parser.peek
    Parser.advance TokenKind.kind_eq TokenKind.discriminant Literals.word_literal token_chars
    token_text Span.get Program.get_content Program.to_byte Program.from_byte Program.len_utf8
    Literals.add_literal Parser.add_expression Pools.add_expression list_eq
literals = tt

-- The parsers of types and of inner expressions are those of two levels.
parse_expression_with_postfix_ops-bracket_example :
    ((f : ℕ)
      → postfix_loop env
          (expect_type_expression env (Knot.parsers env 2).type_expression)
          (Knot.parsers env 2).expression
          f
          0
          behind_one
        ≡ out_of_fuel)
    × (parse_expression_with_postfix_ops env
          (expect_type_expression env (Knot.parsers env 2).type_expression)
          (Knot.parsers env 2).expression
          base
          indexed
        ≡ out_of_fuel)
unfolding literals
parse_expression_with_postfix_ops-bracket_example =
    parse_expression_with_postfix_ops-bracket env
      (expect_type_expression env (Knot.parsers env 2).type_expression)
      (Knot.parsers env 2).expression base 0 indexed behind_one refl refl
