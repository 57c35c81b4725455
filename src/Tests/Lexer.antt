-- ===== src/Tests/Lexer.antt =====
-- The tests of src/k1/lex.rs, and the theorems about the lexer at concrete texts.
use bfl.Lexer.Extent.Call.{eat_token-Post}
use bfl.Lexer.Consumes.{eat_token-consumes}
use bfl.Lexer.Words.{eat_token-word, eat_token-word_symbol}
use bfl.Lexer.Extent.{Post}
use bfl.Lexer.Returns.{Finished, run-returns}
use bfl.Lexer.Extent.Order.{run-Appends, Appends}
use bfl.Lexer.Literals.{eat_token-comment, eat_token-unclosed, Returns}
use bfl.Prelude.{arith, ◌<◌, length, some, Option, ℕ, ◌≡◌, refl, List, [], ◌∷◌, map, codes}
use bfl.TokenKind.{
  keyword_or, TokenKind, ident, keyword_val, equals, open_paren, close_paren, line_comment, colon,
  semicolon, from_char, token_from_str, kind_eq,
}
use bfl.Span
use bfl.Span.{Span, Spans}
use bfl.Token
use bfl.Lexer.Chars.{ascii_tables, is_whitespace, is_ident_char, is_ident_or_num_start}
use bfl.Lexer.Cursor.{Lexer, make, next, advance, peek, peek_two}
use bfl.Lexer.{
  break_with, eat_token, eat_loop, emit_ident, emit, step_symbol, step_text, step_string,
  step_comment, step_char, Outcome, ok, error, out_of_fuel, run, step, char_loop,
}
use Prim.Native.String.{String}

program : Unit {0}
unfolding Span.new Span.add Span.get Span.end Token.new make run step step_char step_comment emit
    emit_ident step_string step_text step_symbol char_loop next advance peek peek_two is_whitespace
    is_ident_char is_ident_or_num_start from_char token_from_str kind_eq
program = tt

abbrev kinds_of : Outcome (Lexer × List Token.Token) → List TokenKind
kinds_of (ok (l, ts)) = map (λ t. t.kind) ts
kinds_of (error e) = []
kinds_of out_of_fuel = []

abbrev spans_of : Outcome (Lexer × List Token.Token) → List (ℕ × ℕ)
spans_of (ok (l, ts)) = go l.spans.spans
  where
    go : List Span → List (ℕ × ℕ)
    go [] = []
    go (s ∷ ss) = (s.start, s.len) ∷ go ss
spans_of (error e) = []
spans_of out_of_fuel = []

abbrev lex : String → Outcome (Lexer × List Token.Token)
lex s = run ascii_tables (make (codes s) Span.new 0)

case1 :
    kinds_of (lex "val x = println(4)")
    ≡ keyword_val ∷ ident ∷ equals ∷ ident ∷ open_paren ∷ ident ∷ close_paren ∷ []
unfolding program
case1 = refl

minus_int : spans_of (lex "- 43") ≡ (0, 0) ∷ (0, 1) ∷ (2, 2) ∷ []
unfolding program
minus_int = refl

line_comment_test :
    kinds_of
      (lex "// Hello, world\n   val foo: int = 74;\n // <test harness> expected output\n   //\n   ")
    ≡ line_comment ∷ keyword_val ∷ ident ∷ colon ∷ ident ∷ equals ∷ ident ∷ semicolon ∷ line_comment
      ∷ line_comment ∷ []
unfolding program
line_comment_test = refl

-- An empty comment takes the next line with it.
empty_comment : kinds_of (lex "//\nval x = 1\nfoo") ≡ line_comment ∷ ident ∷ []
unfolding program
empty_comment = refl

abbrev start_at : String → Lexer
start_at s = make (codes s) Span.new 0

abbrev result_of : Outcome (Lexer × List Token.Token) → Lexer × List Token.Token
result_of (ok r) = r
result_of _ = (start_at "", [])

-- The lexer and the tokens after "- 43".
abbrev minus_run : Lexer × List Token.Token
minus_run = result_of (lex "- 43")

run-Appends_example : Appends 0 (start_at "- 43") minus_run.0 [] minus_run.1
unfolding program
run-Appends_example =
    run-Appends ascii_tables (start_at "- 43") minus_run.0 minus_run.1 (omega arith) refl

run-returns_example : Finished (lex "a-1")
unfolding program
run-returns_example =
    run-returns ascii_tables (start_at "a-1")
      ((omega arith, omega arith), ((omega arith, omega arith), ((omega arith, omega arith), tt)))

abbrev first_of : Outcome (Lexer × Option Token.Token) → Lexer × Token.Token
first_of (ok (l, some t)) = (l, t)
first_of _ = (start_at "", Token.eof_token)

abbrev first_run : Lexer × Token.Token
first_run = first_of (eat_token ascii_tables 9 (start_at "ab+"))

eat_token-consumes_example : length first_run.0.content < length (start_at "ab+").content
unfolding program eat_token eat_loop
eat_token-consumes_example =
    eat_token-consumes ascii_tables 9 (start_at "ab+") first_run.0 first_run.1 refl

eat_token-Post_example :
    Post 0 99 (start_at "ab+").spans 0 (break_with first_run.0 (some first_run.1))
unfolding program eat_token eat_loop
eat_token-Post_example =
    eat_token-Post ascii_tables 9 99 (start_at "ab+") first_run.0 (some first_run.1) (omega arith)
      (omega arith) refl

eat_token-word_example :
    Returns (eat_token ascii_tables 9 (start_at "or x")) keyword_or (codes " x")
unfolding program
eat_token-word_example =
    eat_token-word ascii_tables 9 (start_at "or x") b'o' (codes "r") b' ' (codes "x") (omega arith)
      (
        (refl, refl, refl, omega arith, omega arith, omega arith),
        ((refl, refl, refl, omega arith, omega arith, omega arith), tt),
      )
      (refl, (refl, tt)) refl refl (omega arith) (omega arith) refl

eat_token-word_symbol_example :
    Returns (eat_token ascii_tables 9 (start_at "or(x")) ident (codes "(x")
unfolding program
eat_token-word_symbol_example =
    eat_token-word_symbol ascii_tables 9 (start_at "or(x") b'o' (codes "r") b'(' open_paren
      (codes "x") (omega arith)
      (
        (refl, refl, refl, omega arith, omega arith, omega arith),
        ((refl, refl, refl, omega arith, omega arith, omega arith), tt),
      )
      (refl, (refl, tt)) refl (omega arith) refl

eat_token-comment_example :
    Returns (eat_token ascii_tables 9 (start_at "//\nab\nc")) line_comment (codes "\nc")
unfolding program
eat_token-comment_example =
    eat_token-comment ascii_tables 9 (start_at "//\nab\nc") b'\n' (codes "ab") (codes "c")
      (omega arith) (omega arith)
      ((omega arith, omega arith, omega arith), ((omega arith, omega arith, omega arith), tt)) refl

eat_token-unclosed_example : eat_token ascii_tables 9 (start_at "\"a") ≡ out_of_fuel
unfolding program
eat_token-unclosed_example =
    eat_token-unclosed ascii_tables 9 (start_at "\"a") (codes "a")
      ((omega arith, omega arith, omega arith), tt) (omega arith, tt) refl
