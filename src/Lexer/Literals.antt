-- ===== src/Lexer/Literals.antt =====
-- src/k1/lex.rs: line comments and string literals, over whole texts.
use bfl.Lexer.Progress.{eat_loop_hangs}
use bfl.TokenKind.{token_from_str, slash, kind_eq, from_char, line_comment, TokenKind}
use bfl.Token
use bfl.Token.{Token}
use bfl.Lexer.Cursor.{peek_two, Lexer, peek, advance}
use bfl.Prelude.{
  ap, refl, sub32, ◌∙◌, [], zero, suc, some, arith, ◌++◌, true, ◌<◌, ◌+◌, ◌∷◌, false, Option,
  length, ◌≡◌, ◌≢◌, All, ℕ, List,
}
use bfl.Lexer.Chars.{is_whitespace, is_ident_or_num_start, is_ident_char, UnicodeTables}
use bfl.Lexer.{
  step_text, step_symbol, push, step_comment, step_string, make_token, break_with, step_char, again,
  start, step, emit, ok, out_of_fuel, eat_token, Scan, eat_loop, Outcome,
}

-- A text of one line: no end of line, and no NUL, which the lexer takes for the end of the text.
abbrev pub OneLine : List ℕ → Type 0
OneLine = All (λ c. (c ≢ b'\n') × (c ≢ b'\r') × (c ≢ 0))

pub content-advance :
    (l : Lexer) (c : ℕ) (cs : List ℕ) → c ≢ b'\r' → l.content ≡ c ∷ cs → (advance l).content ≡ cs
unfolding advance
content-advance l c cs h e = rw e (ground arith)

pub peek-cons : (l : Lexer) (c : ℕ) (cs : List ℕ) → l.content ≡ c ∷ cs → peek l ≡ c
unfolding peek
peek-cons l c cs e = rw e

-- A call that returns a token of a kind, with `rest` left to read.
pub record Returns (o : Outcome (Lexer × Option Token)) (kind : TokenKind) (rest : List ℕ)
    : Type 0 where
  pub after : Lexer
  pub token : Token
  pub returns : o ≡ ok (after, some token)
  pub kind_is : token.kind ≡ kind
  pub left : after.content ≡ rest

module _ (tables : UnicodeTables) where
  pub eat_loop-again :
      (f : ℕ) (l : Lexer) (s : Scan) (l' : Lexer) (s' : Scan)
      → step tables l s ≡ again l' s'
      → eat_loop tables (suc f) l s ≡ eat_loop tables f l' s'
  unfolding eat_loop
  eat_loop-again f l s l' s' e = rw (e, eat_loop)

  pub eat_loop-break :
      (f : ℕ) (l : Lexer) (s : Scan) (l' : Lexer) (t : Option Token)
      → step tables l s ≡ break_with l' t
      → eat_loop tables (suc f) l s ≡ ok (l', t)
  unfolding eat_loop
  eat_loop-break f l s l' t e = rw (e, eat_loop)

  pub Returns-again :
      {kind : TokenKind} {rest : List ℕ} (f : ℕ) (l : Lexer) (s : Scan) (l' : Lexer) (s' : Scan)
      → step tables l s ≡ again l' s'
      → Returns (eat_loop tables f l' s') kind rest
      → Returns (eat_loop tables (suc f) l s) kind rest
  Returns-again f l s l' s' e r = record {
    after = r.after;
    token = r.token;
    returns = eat_loop-again f l s l' s' e ∙ r.returns;
    kind_is = r.kind_is;
    left = r.left;
  }

  -- A round that emits a token at `m`.
  pub Returns-emit :
      (f : ℕ) (l m : Lexer) (s : Scan) (kind : TokenKind) (start len : ℕ) (rest : List ℕ)
      → m.content ≡ rest
      → step tables l s ≡ emit m s kind start len
      → Returns (eat_loop tables (suc f) l s) kind rest
  unfolding emit make_token Token.new
  Returns-emit f l m s kind start len rest c e = record {
    after = (make_token m s.peeked_whitespace kind start len).0;
    token = (make_token m s.peeked_whitespace kind start len).1;
    returns = eat_loop-break f l s _ _ e;
    kind_is = refl;
    left = c;
  }

  step_comment_end :
      (l : Lexer) (s : Scan)
      → s.is_line_comment ≡ true
      → peek l ≡ b'\n'
      → step tables l s
        ≡ emit l s line_comment s.line_comment_start (sub32 (sub32 l.pos s.line_comment_start) 1)
  unfolding step step_comment
  step_comment_end l s t e = ground arith

  step_comment_more :
      (l : Lexer) (s : Scan)
      → s.is_line_comment ≡ true
      → peek l ≢ b'\n'
      → peek l ≢ 0
      → step tables l s ≡ again (advance l) s
  unfolding step step_comment
  step_comment_more l s t e h = ground arith

  step_string_more :
      (l : Lexer) (s : Scan)
      → s.is_line_comment ≡ false
      → s.is_string ≡ true
      → peek l ≢ b'\n'
      → peek l ≢ 34
      → step tables l s ≡ again (advance l) (push s (peek l))
  unfolding step step_string
  step_string_more l s c t e h = ground arith

  comment_loop :
      (f : ℕ) (l : Lexer) (s : Scan) (body rest : List ℕ)
      → length body < f
      → OneLine body
      → s.is_line_comment ≡ true
      → l.content ≡ body ++ b'\n' ∷ rest
      → Returns (eat_loop tables f l s) line_comment (b'\n' ∷ rest)
  comment_loop zero l s body rest h o t e = absurd (omega arith)
  comment_loop (suc f) l s [] rest h o t e =
      Returns-emit f l l s line_comment s.line_comment_start
        (sub32 (sub32 l.pos s.line_comment_start) 1) _ e
        (step_comment_end l s t (peek-cons l _ _ e))
  comment_loop (suc f) l s (c ∷ body) rest h ((n, r, z), o) t e =
      let c_is = peek-cons l c _ e in
      Returns-again f l s (advance l) s (step_comment_more l s t (rw c_is n) (rw c_is z))
        (comment_loop f (advance l) s body rest (omega arith) o t (content-advance l c _ r e))

  string_loop_hangs :
      (f : ℕ) (l : Lexer) (s : Scan) (body : List ℕ)
      → OneLine body
      → All (λ c. c ≢ 34) body
      → s.is_line_comment ≡ false
      → s.is_string ≡ true
      → l.content ≡ body
      → eat_loop tables f l s ≡ out_of_fuel
  string_loop_hangs f l s [] o q c t e = eat_loop_hangs tables f l s e c t
  string_loop_hangs zero l s (x ∷ body) o q c t e = unfold eat_loop in refl
  string_loop_hangs (suc f) l s (x ∷ body) ((n, r, z), o) (q, qs) c t e =
      let x_is = peek-cons l x _ e in
      eat_loop-again f l s (advance l) (push s (peek l))
        (step_string_more l s c t (rw x_is n) (rw x_is q))
      ∙ string_loop_hangs f (advance l) (push s (peek l)) body o qs (unfold push in c)
          (unfold push in t) (content-advance l x _ r e)

  pub step-step_char :
      (l : Lexer) (s : Scan) (c : ℕ)
      → s.is_line_comment ≡ false
      → s.is_string ≡ false
      → peek l ≡ c
      → c ≢ 34
      → c ≢ 0
      → step tables l s ≡ step_char tables l s c (from_char c)
  unfolding step
  step-step_char l s c t u e h k = ground arith

  slash_text :
      (m : Lexer) (s : Scan) → s.tok_buf ≡ [] → step_text tables m s b'/' ≡ again (advance m) s
  unfolding step_text is_ident_char is_ident_or_num_start is_whitespace token_from_str
  slash_text m s e = rw e (
      ground (
        arith,
        tables.alphabetic_ascii b'/' (omega arith),
        tables.numeric_ascii b'/' (omega arith),
      ))

  slash_symbol :
      (l : Lexer) (s : Scan)
      → s.tok_buf ≡ []
      → (peek_two l).1 ≡ b'/'
      → step_symbol tables l s b'/' slash
        ≡ step_text tables
            (advance (advance l))
            (record s { is_line_comment = true; line_comment_start = l.pos })
            b'/'
  unfolding step_symbol kind_eq
  slash_symbol l s e h = ground arith

  from_char_slash : from_char b'/' ≡ some slash
  unfolding from_char
  from_char_slash = refl

  step_slashes :
      (l : Lexer) (rest : List ℕ)
      → l.content ≡ b'/' ∷ b'/' ∷ rest
      → step tables l (start tables l)
        ≡ again
            (advance (advance (advance l)))
            (record (start tables l) { is_line_comment = true; line_comment_start = l.pos })
  step_slashes l rest e =
      step-step_char l (start tables l) b'/' refl refl (peek-cons l _ _ e) (omega arith)
        (omega arith)
      ∙ ap (step_char tables l (start tables l) b'/') from_char_slash
      ∙ unfold step_char in
        slash_symbol l (start tables l) refl (unfold peek_two in rw e)
        ∙ slash_text (advance (advance l)) _ refl

  -- A comment begins with two slashes and the character behind them, whatever that is except a
  -- carriage return, and runs from there up to the next end of line, where no carriage return and
  -- no NUL stands before that: an empty comment takes the next line with it. There is fuel for it.
  pub eat_token-comment :
      (f : ℕ) (l : Lexer) (x : ℕ) (body rest : List ℕ)
      → length body + 1 < f
      → x ≢ b'\r'
      → OneLine body
      → l.content ≡ b'/' ∷ b'/' ∷ x ∷ (body ++ b'\n' ∷ rest)
      → Returns (eat_token tables f l) line_comment (b'\n' ∷ rest)
  unfolding eat_token
  eat_token-comment zero l x body rest h n o e = absurd (omega arith)
  eat_token-comment (suc f) l x body rest h n o e =
      let e1 = content-advance l b'/' _ (omega arith) e in
      let e2 = content-advance (advance l) b'/' _ (omega arith) e1 in
      let e3 = content-advance (advance (advance l)) x _ n e2 in
      Returns-again f l (start tables l) (advance (advance (advance l)))
        (record (start tables l) { is_line_comment = true; line_comment_start = l.pos })
        (step_slashes l (x ∷ (body ++ b'\n' ∷ rest)) e)
        (comment_loop f (advance (advance (advance l))) _ body rest (omega arith) o refl e3)

  step_quote :
      (l : Lexer)
      → peek l ≡ 34
      → step tables l (start tables l)
        ≡ again (advance l) (record (start tables l) { is_string = true })
  unfolding step
  step_quote l e = ground arith

  -- A string literal that the text does not close, in a last line with no carriage return and no
  -- NUL, is read for ever.
  pub eat_token-unclosed :
      (f : ℕ) (l : Lexer) (body : List ℕ)
      → OneLine body
      → All (λ c. c ≢ 34) body
      → l.content ≡ 34 ∷ body
      → eat_token tables f l ≡ out_of_fuel
  unfolding eat_token
  eat_token-unclosed zero l body o q e = unfold eat_loop in refl
  eat_token-unclosed (suc f) l body o q e =
      eat_loop-again f l (start tables l) (advance l) (record (start tables l) { is_string = true })
        (step_quote l (peek-cons l 34 body e))
      ∙ string_loop_hangs f (advance l) _ body o q refl refl
          (content-advance l 34 body (omega arith) e)
