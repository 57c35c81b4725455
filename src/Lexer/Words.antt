-- ===== src/Lexer/Words.antt =====
-- src/k1/lex.rs: words, in front of white space and in front of a character that is a token.
use mathlib.Core.Path.{subst}
use bfl.Lexer.Literals.{
  content-advance, Returns-again, peek-cons, Returns-emit, Returns, step-step_char,
}
use bfl.Lexer.{
  start, eat_loop, step_symbol, eat_token, emit_ident, step_text, step_char, push, again, step,
  Scan,
}
use bfl.TokenKind.{ident, from_char, token_from_str, TokenKind}
use bfl.Lexer.Cursor.{first, advance, peek, Lexer}
use bfl.Lexer.Chars.{is_whitespace, is_ident_char, UnicodeTables}
use bfl.Prelude.{
  zero, append_assoc, sub32, append-nil, refl, suc, ◌+◌, All, ◌<◌, ap, length, is_empty, ◌∙◌, arith,
  ◌++◌, ◌≢◌, ◌==◌, some, false, ◌&&◌, none, [], true, ◌≡◌, list_eq, ◌∷◌, ℕ, List,
}

-- A character that goes on a word, and nothing else.
abbrev pub WordChar : UnicodeTables → ℕ → Type 0
WordChar tables c =
    (is_ident_char tables c ≡ true)
    × (from_char c ≡ none)
    × (is_whitespace c ≡ false)
    × (c ≢ 34)
    × (c ≢ 0)
    × (c ≢ b'\r')

-- The second of two underscores at the start of a word is refused: `w` goes on `u` with none.
abbrev pub NoDunder : List ℕ → List ℕ → Type 0
NoDunder u [] = Unit
NoDunder u (c ∷ w) = ((list_eq u (b'_' ∷ []) && c == b'_') ≡ false) × NoDunder (u ++ c ∷ []) w

-- The kind of a word in front of white space.
abbrev pub word_kind : List ℕ → TokenKind
word_kind w = elim (token_from_str w) [ none ↦ ident | some k ↦ k ]

module _ (tables : UnicodeTables) where
  peek-first : (l : Lexer) (cs : List ℕ) → l.content ≡ cs → peek l ≡ first cs
  unfolding peek
  peek-first l cs e = rw e

  step_word :
      (l : Lexer) (s : Scan) (c : ℕ)
      → WordChar tables c
      → (list_eq s.tok_buf (b'_' ∷ []) && c == b'_') ≡ false
      → s.is_line_comment ≡ false
      → s.is_string ≡ false
      → peek l ≡ c
      → step tables l s ≡ again (advance l) (push s c)
  step_word l s c (i, n, w, q, z, r) d t u e =
      step-step_char tables l s c t u e q z ∙ ap (step_char tables l s c) n ∙ text
    where
      text : step_char tables l s c none ≡ again (advance l) (push s c)
      text = unfold step_char step_text in ground arith

  -- What ends a word: white space, a character that is a token, or the end of the text.
  data Ends : ℕ → (List ℕ → TokenKind) → Type 0 where
    space :
        (c : ℕ) → is_whitespace c ≡ true → from_char c ≡ none → c ≢ 34 → c ≢ 0 → Ends c word_kind
    symbol : (c : ℕ) (k : TokenKind) → from_char c ≡ some k → c ≢ 34 → c ≢ 0 → Ends c (λ _. ident)
    finish : Ends 0 (λ _. ident)

  step_end :
      (l : Lexer) (s : Scan) (c : ℕ) (kind : List ℕ → TokenKind)
      → Ends c kind
      → is_empty s.tok_buf ≡ false
      → s.is_line_comment ≡ false
      → s.is_string ≡ false
      → peek l ≡ c
      → step tables l s ≡ emit_ident l s (kind s.tok_buf)
  step_end l s c kind (space d w n q z) b t u e =
      step-step_char tables l s c t u e q z ∙ ap (step_char tables l s c) n ∙ text
    where
      text : step_char tables l s c none ≡ emit_ident l s (word_kind s.tok_buf)
      text = unfold step_char step_text in ground arith
  step_end l s c kind (symbol d k f q z) b t u e =
      step-step_char tables l s c t u e q z
      ∙ ap (step_char tables l s c) f
      ∙ unfold step_char step_symbol in ground arith
  step_end l s c kind finish b t u e = unfold step in ground arith

  word_loop :
      (f : ℕ) (l : Lexer) (s : Scan) (w rest : List ℕ) (c : ℕ) (kind : List ℕ → TokenKind)
      → length w < f
      → All (WordChar tables) w
      → NoDunder s.tok_buf w
      → Ends c kind
      → is_empty (s.tok_buf ++ w) ≡ false
      → s.is_line_comment ≡ false
      → s.is_string ≡ false
      → first rest ≡ c
      → l.content ≡ w ++ rest
      → Returns (eat_loop tables f l s) (kind (s.tok_buf ++ w)) rest
  unfolding push
  word_loop zero l s w rest c kind h ws d en b t u p e = absurd (omega arith)
  word_loop (suc f) l s [] rest c kind h ws d en b t u p e =
      let buf = append-nil s.tok_buf in
      rw buf (
        Returns-emit tables f l l s (kind s.tok_buf) (sub32 l.pos s.tok_len) s.tok_len rest e
          (unfold emit_ident in step_end l s c kind en (rw buf at b) t u (peek-first l rest e ∙ p)))
  word_loop (suc f) l s (x ∷ w) rest c kind h (wc, ws) (d, ds) en b t u p e =
      let x_is = peek-cons l x _ e in
      let grown = append_assoc s.tok_buf (x ∷ []) w in
      Returns-again tables f l s (advance l) (push s x) (step_word l s x wc d t u x_is) (
        subst (λ v. Returns (eat_loop tables f (advance l) (push s x)) (kind v) rest) grown
          (word_loop f (advance l) (push s x) w rest c kind (omega arith) ws ds en
            (ap is_empty grown ∙ b) t u p (content-advance l x _ wc.5 e)))

  -- A word that does not begin with two underscores, of word characters that are no tokens by
  -- themselves, in front of white space is its keyword, or an identifier if it is none, and the
  -- white space is left to read; there is fuel for it.
  pub eat_token-word :
      (f : ℕ) (l : Lexer) (x : ℕ) (w : List ℕ) (c : ℕ) (rest : List ℕ)
      → length w + 1 < f
      → All (WordChar tables) (x ∷ w)
      → NoDunder [] (x ∷ w)
      → is_whitespace c ≡ true
      → from_char c ≡ none
      → c ≢ 34
      → c ≢ 0
      → l.content ≡ x ∷ (w ++ c ∷ rest)
      → Returns (eat_token tables f l) (word_kind (x ∷ w)) (c ∷ rest)
  unfolding eat_token
  eat_token-word f l x w c rest h ws d sp n q z e =
      word_loop f l (start tables l) (x ∷ w) (c ∷ rest) c word_kind (omega arith) ws d
        (space c sp n q z) refl refl refl refl e

  from_char_zero : from_char 0 ≡ none
  unfolding from_char
  from_char_zero = refl

  -- A word that does not begin with two underscores, of word characters that are no tokens by
  -- themselves, in front of a character other than a double quote that is a token by itself is an
  -- identifier, a keyword too, and the character is left to read; there is fuel for it.
  pub eat_token-word_symbol :
      (f : ℕ) (l : Lexer) (x : ℕ) (w : List ℕ) (c : ℕ) (k : TokenKind) (rest : List ℕ)
      → length w + 1 < f
      → All (WordChar tables) (x ∷ w)
      → NoDunder [] (x ∷ w)
      → from_char c ≡ some k
      → c ≢ 34
      → l.content ≡ x ∷ (w ++ c ∷ rest)
      → Returns (eat_token tables f l) ident (c ∷ rest)
  unfolding eat_token
  eat_token-word_symbol f l x w c k rest h ws d n q e =
      word_loop f l (start tables l) (x ∷ w) (c ∷ rest) c (λ _. ident) (omega arith) ws d
        (symbol c k n q (λ z. cc (ap from_char z, n, from_char_zero))) refl refl refl refl e
