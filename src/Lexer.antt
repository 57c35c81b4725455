-- ===== src/Lexer.antt =====
-- src/k1/lex.rs, `Lexer`: the character loop that turns a source text into tokens.
-- A character is its code point and the text is the list of characters not yet read (`Chars`).
-- `eat_loop` is the loop of `eat_token`, one round to a unit of fuel; `step` is its body.
pub mod Chars
pub mod Cursor
pub mod Progress
pub mod Consumes
pub mod Returns
pub mod Extent
pub mod Words
pub mod Literals
use bfl.Prelude.{
  ℕ, zero, suc, ◌+◌, ◌*◌, Bool, true, false, ◌&&◌, ◌||◌, List, [], ◌∷◌, ◌++◌, Option, none, some,
  ◌==◌, if◌then◌else◌, u32, sub32, is_empty, list_eq, length,
}
use bfl.TokenKind.{
  TokenKind, kind_eq, from_char, token_from_str, ident, string, char, line_comment, slash, equals,
  equals_equals, bang, bang_equals, open_angle, close_angle, less_than_equal, greater_than_equal,
  single_quote,
}
use bfl.Span
use bfl.Span.{SpanId, Spans}
use bfl.Token
use bfl.Token.{Token}
use bfl.Lexer.Chars.{UnicodeTables, is_whitespace, is_ident_char, is_ident_or_num_start}
use bfl.Lexer.Cursor.{Lexer, next, advance, peek, peek_two}

pub data Reason : Type 0 where
  newline_in_string double_underscore : Reason

pub record LexError : Type 0 where
  pub msg : Reason
  pub line_index : ℕ

-- The local variables of `eat_token`.
pub record Scan : Type 0 where
  pub tok_buf : List ℕ
  pub tok_len : ℕ
  pub is_line_comment : Bool
  pub line_comment_start : ℕ
  pub is_string : Bool
  pub peeked_whitespace : Bool

-- What one round of the loop does: go round again, break with a result, return an error, or
-- enter the inner loop of a character literal whose opening quote stands at a position.
pub data Step : Type 0 where
  again : Lexer → Scan → Step
  break_with : Lexer → Option Token → Step
  fail : LexError → Step
  char_literal : Lexer → ℕ → Step

err : Lexer → Reason → LexError
err l why = record { msg = why; line_index = l.line_index }

-- `add_span`
add_span : Lexer → ℕ → ℕ → Lexer × SpanId
add_span l start len =
    let (pool, id) = Span.add l.spans (record { start = start; len = len; file_id = l.file_id }) in
    (record l { spans = pool }, id)

-- The closure `make_token`.
unfoldable pub make_token : Lexer → Bool → TokenKind → ℕ → ℕ → Lexer × Token
unfolding add_span
make_token l peeked_whitespace kind start len =
    let (l', span) = add_span l start len in (l', Token.new kind span peeked_whitespace)

unfoldable pub emit : Lexer → Scan → TokenKind → ℕ → ℕ → Step
unfolding make_token
emit l s kind start len =
    let (l', tok) = make_token l s.peeked_whitespace kind start len in break_with l' (some tok)

push : Scan → ℕ → Scan
push s c = record s { tok_len = u32 (s.tok_len + 1); tok_buf = s.tok_buf ++ c ∷ [] }

unfoldable pub step_comment : Lexer → Scan → ℕ → Step
step_comment l s c =
    if c == b'\n' || c == 0
    then emit l s line_comment s.line_comment_start (sub32 (sub32 l.pos s.line_comment_start) 1)
    else again (advance l) s

unfoldable pub step_string : Lexer → Scan → ℕ → Step
unfolding push err
step_string l s c =
    if c == 34
    then emit (advance l) s string (sub32 l.pos s.tok_len) s.tok_len
    else if c == b'\n'
    then fail (err l newline_in_string)
    else again (advance l) (push s c)

unfoldable pub emit_ident : Lexer → Scan → TokenKind → Step
unfolding emit
emit_ident l s kind = emit l s kind (sub32 l.pos s.tok_len) s.tok_len

-- The rest of the round, behind the test for a single-character token.
module _ (tables : UnicodeTables) where
  unfoldable pub step_text : Lexer → Scan → ℕ → Step
  unfolding push err
  step_text l s c =
      if is_whitespace c && not_empty
      then elim word [ some k ↦ emit_ident l s k | none ↦ emit_ident l s ident ]
      else if (is_empty s.tok_buf && is_ident_or_num_start tables c) || is_ident_char tables c
      then (if list_eq s.tok_buf (b'_' ∷ []) && c == b'_'
          then fail (err l double_underscore)
          else again (advance l) (push s c))
      else elim word [ some k ↦ emit_ident l s k | none ↦ again (advance l) s ]
    where
      not_empty : Bool
      not_empty = if is_empty s.tok_buf then false else true

      word : Option TokenKind
      word = token_from_str s.tok_buf

  -- The round at a character `c` that is the token `k` by itself. After `//` the round is not
  -- over: it goes on behind the test, with `c` still the first slash.
  unfoldable pub step_symbol : Lexer → Scan → ℕ → TokenKind → Step
  step_symbol l s c k =
      if is_empty s.tok_buf
      then (if kind_eq k single_quote
          then char_literal (advance l) n
          else if kind_eq k equals && follows b'='
          then emit after_two s equals_equals n 2
          else if kind_eq k bang && follows b'='
          then emit after_two s bang_equals n 2
          else if kind_eq k open_angle && follows b'='
          then emit after_two s less_than_equal n 2
          else if kind_eq k close_angle && follows b'='
          then emit after_two s greater_than_equal n 2
          else if kind_eq k slash && follows b'/'
          then step_text after_two (record s { is_line_comment = true; line_comment_start = n }) c
          else emit (advance l) s k n 1)
      else emit_ident l s ident
    where
      n : ℕ
      n = l.pos

      after_two : Lexer
      after_two = advance (advance l)

      follows : ℕ → Bool
      follows d = (peek_two l).1 == d

  -- The round at a character `c` outside comments and strings.
  unfoldable pub step_char : Lexer → Scan → ℕ → Option TokenKind → Step
  step_char l s c (some k) = step_symbol l s c k
  step_char l s c none = step_text l s c

  -- One round of the loop.
  unfoldable pub step : Lexer → Scan → Step
  step l s =
      let c = peek l in
      if s.is_line_comment
      then step_comment l s c
      else if s.is_string
      then step_string l s c
      else if c == 34
      then again (advance l) (record s { is_string = true })
      else if c == 0
      then (if is_empty s.tok_buf then break_with l none else emit_ident l s ident)
      else step_char l s c (from_char c)

-- A result of the lexer; `out_of_fuel` has no counterpart in the program.
pub data Outcome (A : Type 0) : Type 0 where
  ok : A → Outcome A
  error : LexError → Outcome A
  out_of_fuel : Outcome A

-- The loop `loop { let c = self.next(); len += 1; if c == '\'' { break } }` of a literal.
unfoldable pub char_loop : ℕ → Lexer → Bool → ℕ → ℕ → Outcome (Lexer × Option Token)
unfolding make_token
char_loop zero l ws n len = out_of_fuel
char_loop (suc f) l ws n len =
    let (c, l') = next l in
    let len' = u32 (len + 1) in
    let more = char_loop f l' ws n len' in
    let (l'', tok) = make_token l' ws char n len' in if c == 39 then ok (l'', some tok) else more

module _ (tables : UnicodeTables) where
  unfoldable pub eat_loop : ℕ → Lexer → Scan → Outcome (Lexer × Option Token)
  eat_loop zero l s = out_of_fuel
  eat_loop (suc f) l s = elim (step tables l s) [
    | again l' s' ↦ eat_loop f l' s'
    | break_with l' t ↦ ok (l', t)
    | fail e ↦ error e
    | char_literal l' n ↦ char_loop (suc f) l' s.peeked_whitespace n 1
  ]

  -- The variables at the start of `eat_token`.
  abbrev pub start : Lexer → Scan
  start l = record {
    tok_buf = [];
    tok_len = 0;
    is_line_comment = false;
    line_comment_start = 0;
    is_string = false;
    peeked_whitespace = is_whitespace (peek l);
  }

  unfoldable pub eat_token : ℕ → Lexer → Outcome (Lexer × Option Token)
  unfolding eat_loop
  eat_token f l = eat_loop f l (start l)

  -- The loop of `run`, over the tokens found so far; each call of `eat_token` has `g` rounds.
  unfoldable pub run_loop : ℕ → ℕ → Lexer → List Token → Outcome (Lexer × List Token)
  run_loop zero g l tokens = out_of_fuel
  run_loop (suc f) g l tokens = elim (eat_token g l) [
    | ok (l', none) ↦ ok (l', tokens)
    | ok (l', some tok) ↦ run_loop f g l' (tokens ++ tok ∷ [])
    | error e ↦ error e
    | out_of_fuel ↦ out_of_fuel
  ]

  -- `run`, with a call and a round for each character left and one more.
  unfoldable pub run : Lexer → Outcome (Lexer × List Token)
  unfolding run_loop eat_token
  run l = run_loop (length l.content + 1) (length l.content + 1) l []
