-- ===== src/Lexer/Cursor.antt =====
-- src/k1/lex.rs, the state of `Lexer` and its reads: `next`, `peek`, `peek_two`, `advance`, `make`.
use bfl.Prelude.{ℕ, ◌+◌, ◌&&◌, List, [], ◌∷◌, ◌==◌, if◌then◌else◌, u32}
use bfl.Span.{Spans}

pub record Lexer : Type 0 where
  pub file_id : ℕ
  pub content : List ℕ
  pub spans : Spans
  pub line_index : ℕ
  pub pos : ℕ

unfoldable pub make : List ℕ → Spans → ℕ → Lexer
make input spans file_id = record {
  file_id = file_id;
  content = input;
  spans = spans;
  line_index = 0;
  pos = 0;
}

-- The next character of an iterator, `EOF_CHAR` at its end.
abbrev pub first : List ℕ → ℕ
first [] = 0
first (c ∷ cs) = c

abbrev pub rest : List ℕ → List ℕ
rest [] = []
rest (c ∷ cs) = cs

unfoldable pub peek : Lexer → ℕ
peek l = first l.content

unfoldable pub peek_two : Lexer → ℕ × ℕ
peek_two l = (first l.content, first (rest l.content))

-- A line feed counts a line; one behind a carriage return is read with it, and counts none.
unfoldable pub next : Lexer → ℕ × Lexer
next l =
    let c = first l.content in
    let cs = rest l.content in
    let crlf = c == b'\r' && first cs == b'\n' in
    (
      c,
      record l {
        content = if crlf then rest cs else cs;
        line_index = if c == b'\n' then u32 (l.line_index + 1) else l.line_index;
        pos = if crlf then u32 (u32 (l.pos + 1) + 1) else u32 (l.pos + 1);
      },
    )

unfoldable pub advance : Lexer → Lexer
unfolding next
advance l = (next l).1
