-- ===== src/Lib.antt =====
-- bfl: the front end of a compiler for the language k1.
--
-- The program reads a text into tokens (src/k1/lex.rs), parses them (src/k1/parse.rs), and checks
-- and specialises what it parsed (src/k1/typer.rs, src/k1/typer/scopes.rs, src/k1/typer/types.rs);
-- the code generator works on the checked program. Tokens refer to spans by their ids in a pool;
-- names are looked up in a tree of scopes, the scopes of a path through the namespaces; types are
-- interned in a pool and referred to by their ids.
--
-- The modules, and the code that they are about:
--   * Prelude, Maps, Outcome: shared names, list and number lemmas; `HashMap` as an association list
--     that holds a key once; results of code that can panic.
--   * TokenKind: `TokenKind` of src/k1/lex.rs, with `get_repr`, `from_char`, `token_from_str` and the
--     tests on kinds.
--   * Span, Token: `Span`, `Spans`, `Token` and `TokenIter` of src/k1/lex.rs.
--   * Lexer: `Lexer` of src/k1/lex.rs; Lexer/Cursor is the reader, Lexer/Chars the tests on
--     characters; `step` is one round of the loop of `eat_token`, `char_loop` its inner loop, and
--     `run_loop` the loop of `run`. The other modules below it hold proofs.
--   * Scopes: src/k1/typer/scopes.rs; Scopes/Table is `Scope`, Scopes is `Scopes`, Scopes/Traverse
--     has the lookups of names with a path.
--   * Namespaces: `Namespaces` of src/k1/typer.rs.
--   * Typ: src/k1/typer/types.rs; Typ has the data, Typ/Pool the reads of `Types`, Typ/Equal
--     `type_eq`, Typ/Intern `add_type_ext`, Typ/Variables `does_type_reference_type_variables`, and
--     Typ/Mentions what it is to mention a type variable.
--   * Patterns: the match patterns of src/k1/typer.rs; Patterns/Check has
--     `generate_constructors_for_type` and the exhaustiveness check, Patterns/Match `pattern_matches`,
--     Patterns/Values what a pattern and a shape mean, Patterns/Reasons what a verdict says.
--     The other modules below it hold proofs.
--   * Syntax: the parsed program of src/k1/parse.rs; Syntax has expressions and statements,
--     Syntax/Types patterns and type expressions, Syntax/Definitions the definitions, Syntax/Pools the
--     pools, Syntax/Program `ParsedModule`, the sources and `ParseError`, Syntax/Store the definitions
--     by their ids, Syntax/Lines the lines of a source.
--   * Parser: `Parser` of src/k1/parse.rs, its results and steps on tokens and spans.
--     Parser/Delimited is `eat_delimited`, Parser/Precedence `parse_expression`, Parser/Postfix
--     `parse_expression_with_postfix_ops` and the arguments of calls, Parser/Base
--     `parse_base_expression`, Parser/Literals `parse_literal`, Parser/Patterns `expect_pattern`,
--     Parser/TypeExpressions type expressions and names, Parser/Statements statements and blocks,
--     Parser/Definitions constants and functions, Parser/Modules the other definitions, Parser/Root
--     `parse_module`, Parser/Text the text of tokens. Each takes the parsers that it calls as
--     arguments; Parser/Knot gives them to each other. Parser/Precedence/Group is a reference for the
--     grouping by precedence. The other modules below it hold proofs.
--   * BinaryOp: `BinaryOpKind` of src/k1/typer.rs.
--   * Tests: test inputs of the program run in the model, and theorems at concrete inputs.
--
-- Texts are lists of code points, positions count characters and wrap around at 2 ^ 32, as a `u32`;
-- ids and identifiers are numbers, an id is cast to 32 bits where the program casts it. An index out
-- of bounds panics. The tables of `char::is_alphabetic` and `char::is_numeric` are a parameter
-- (`UnicodeTables`), known on ASCII only.
--
-- Loops take fuel. `run` has one round more than there are characters, since each round but the last
-- takes one; in a literal that the text does not close it goes on at the end of the text, and the
-- program does not return. A walk to the root of the scopes or namespaces has one round for each
-- scope: in a tree, where a parent's id is below its child's, that is enough. A walk along the ids
-- of types that is longer than the pool, or a comparison that is deeper than there are pairs of
-- types, has come back to where it was; the program then recurses for ever, or until its stack ends.
--
-- The shapes of a type are built along a path of types that is no longer than the pool.
--
-- The loops of the parser have one round more than there are tokens, since each round but the last
-- takes one; the loop over postfix operators does not at an open bracket, and the program does not
-- return there. Parser/Knot counts the levels of nesting: past the levels given, `out_of_fuel` says
-- that the model was cut off.
--
-- The interner of strings and the character classes of Rust are parameters of the parser (`Env`).
--
-- Not modelled: `lex_text`, which hands the tokens of the lexer to the parser; the type checker
-- beyond names, types and patterns; the code generator; logging; the texts of error messages, but for
-- what the parser expected.
pub mod Prelude
pub mod Maps
pub mod TokenKind
pub mod Span
pub mod Token
pub mod Lexer
pub mod Outcome
pub mod Namespaces
pub mod Scopes
pub mod BinaryOp
pub mod Typ
pub mod Patterns
pub mod Syntax
pub mod Parser
pub mod Tests
