-- ===== src/Tests/Parser/Root.antt =====
-- `parse_module` of src/k1/parse.rs at a file with no tokens.
use bfl.Prelude.{refl, []}
use bfl.Token
use bfl.TokenKind
use bfl.Syntax.Store
use bfl.Parser.{Parser, ParseResult, parsed}
use bfl.Parser
use bfl.Parser.Knot
use bfl.Parser.Tokens.{At}
use bfl.Parser.Root
use bfl.Parser.Root.{parse_module-end, parse_module}
use bfl.Parser.Modules
use bfl.Parser.Definitions
use bfl.Tests.Parser.{program}
use bfl.Tests.Parser.Bracket.{env}

abbrev empty_file : Parser (Unit {0})
empty_file = record {
  tokens = record { cursor = 0; tokens = [] };
  file_id = 0;
  program = program [];
}

abbrev unit_state : ParseResult (Unit {0}) (Unit {0}) → Parser (Unit {0})
unit_state (parsed a q) = q
unit_state _ = empty_file

unfoldable parsed_file : Parser (Unit {0})
unfolding parse_module
parsed_file = unit_state (parse_module env (Knot.parsers env 2) empty_file)

run_file : Unit {0}
unfolding parsed_file parse_module Root.root_namespace Root.first_loop Root.finish
    Root.extend_namespace Modules.definitions_loop Modules.parse_definition Modules.parse_namespace
    Modules.or_else Modules.parse_type_defn Modules.parse_ability_defn Modules.parse_ability_impl
    Definitions.parse_const Definitions.parse_function Parser.eat_token Parser.peek Parser.advance
    Token.peek Token.peek_n TokenKind.kind_eq TokenKind.discriminant Store.add_namespace
run_file = tt

parse_module-end_example : At parsed_file TokenKind.eof
unfolding run_file
parse_module-end_example = parse_module-end env (Knot.parsers env 2) empty_file parsed_file refl
