-- ===== src/Lexer/Extent/Call.antt =====
-- src/k1/lex.rs: the span of the token that a call of `eat_token` returns.
use mathlib.Core.Path.{subst}
use bfl.Lexer.Progress.{eat_loop_hangs, char_loop_hangs}
use bfl.TokenKind.{char, from_char, ident, TokenKind}
use bfl.Lexer.Extent.{
  room, make_token-Spanned, advance-Moves, Moves, emit_ident-Post, length_of_peek, step_string-Post,
  advance-push-Inv, step_comment-Post, advance-Inv, step_text-Post, step_symbol-Post, Post, CharInv,
  Inv,
}
use bfl.Token.{Token}
use bfl.Lexer.Cursor.{next, advance, peek, Lexer}
use bfl.Lexer.{
  char_literal, fail, Outcome, break_with, start, again, Step, eat_token, eat_loop, ok, Scan, step,
  step_char, char_loop,
}
use bfl.Lexer.Chars.{UnicodeTables}
use bfl.Span.{Spans}
use bfl.Prelude.{
  refl, ◌≤◌, ◌∙◌, u32, ◌∷◌, List, ◌⊎◌, arith, [], zero, none, inr, List-cases, inl, suc, true, some,
  length, false, ◌≡◌, Option, Bool, ◌<◌, ◌+◌, ℕ,
}

ok-injective :
    {a b : Lexer × Option Token} → ◌≡◌ {A = Outcome (Lexer × Option Token)} (ok a) (ok b) → a ≡ b
ok-injective e = cc e

module _ (p0 M : ℕ) (base : Spans) (file : ℕ) (bound : M + 8 < 4294967296) where
  char_loop-Post :
      (f : ℕ) (l : Lexer) (ws : Bool) (n len : ℕ) (l' : Lexer) (t : Option Token)
      → CharInv p0 M base file l n len
      → char_loop f l ws n len ≡ ok (l', t)
      → Post p0 M base file (break_with l' t)
  unfolding char_loop
  char_loop-Post zero l ws n len l' t i e = cc
  char_loop-Post (suc f) l ws n len l' t i e =
      go (List-cases l.content) (char_loop-Post f (next l).1 ws n (u32 (len + 1)) l' t)
    where
      go :
          (l.content ≡ []) ⊎ ((c : ℕ) × (cs : List ℕ) × (l.content ≡ c ∷ cs))
          → (CharInv p0 M base file (next l).1 n (u32 (len + 1))
              → char_loop f (next l).1 ws n (u32 (len + 1)) ≡ ok (l', t)
              → Post p0 M base file (break_with l' t))
          → Post p0 M base file (break_with l' t)
      go (inl nil) ih = cc (char_loop_hangs (suc f) l ws n len nil, e)
      go (inr (c, cs, full)) ih =
          let m : Moves l (next l).1 =
            unfold advance in advance-Moves l (omega (arith, i.room_le)) in
          let r = m.room_lt (rw full (omega arith)) in
          let i' : CharInv p0 M base file (next l).1 n (u32 (len + 1)) = record {
            behind = i.behind;
            within = omega (arith, m.forward, i.within, i.room_le);
            room_le = omega (arith, i.room_le);
            same_spans = m.same_spans ∙ i.same_spans;
            same_file = m.same_file ∙ i.same_file;
          } in
          let spanned =
            make_token-Spanned p0 M base file (next l).1 ws char n (u32 (len + 1)) i'.same_spans
              i'.same_file i'.room_le i.behind i'.within in
          ground (arith, ih i', spanned)

  module _ (tables : UnicodeTables) where
    step_char-Post :
        (l : Lexer) (s : Scan) (c : ℕ) (o : Option TokenKind)
        → Inv p0 M base file l s
        → 0 < length l.content
        → Post p0 M base file (step_char tables l s c o)
    unfolding step_char
    step_char-Post l s c (some k) i h = step_symbol-Post p0 M base file bound tables l s c k i h
    step_char-Post l s c none i h =
        step_text-Post p0 M base file bound tables l s c i
          (advance-Inv p0 M base file bound l s i h)
          (advance-push-Inv p0 M base file bound l s c i h)

    -- A string opens.
    string-Inv :
        (l : Lexer) (s : Scan)
        → Inv p0 M base file l s
        → Inv p0 M base file l (record s { is_string = true })
    string-Inv l s i = record {
      behind = i.behind;
      comment_start = i.comment_start;
      comment_open = i.comment_open;
      room_le = i.room_le;
      same_spans = i.same_spans;
      same_file = i.same_file;
    }

    step-Post :
        (l : Lexer) (s : Scan)
        → Inv p0 M base file l s
        → (s.is_line_comment ≡ false → s.is_string ≡ true → 0 < length l.content)
        → Post p0 M base file (step tables l s)
    unfolding step
    step-Post l s i h = ground (
      arith,
      length_of_peek l,
      step_comment-Post p0 M base file bound l s i,
      λ (left : 0 < length l.content). step_string-Post p0 M base file bound l s (peek l) i left,
      emit_ident-Post p0 M base file bound l s ident i,
      λ (left : 0 < length l.content).
          string-Inv (advance l) s (advance-Inv p0 M base file bound l s i left),
      step_char-Post l s (peek l) (from_char (peek l)) i,
    )

    eat_loop-Post :
        (f : ℕ) (l : Lexer) (s : Scan) (l' : Lexer) (t : Option Token)
        → Inv p0 M base file l s
        → eat_loop tables f l s ≡ ok (l', t)
        → Post p0 M base file (break_with l' t)
    unfolding eat_loop
    eat_loop-Post zero l s l' t i e = cc
    eat_loop-Post (suc f) l s l' t i e =
        go (step tables l s) refl (at_end (List-cases l.content)) (eat_loop-Post f)
      where
        -- At the end of the text an open string hangs, so the call would not return.
        at_end :
            (l.content ≡ []) ⊎ ((c : ℕ) × (cs : List ℕ) × (l.content ≡ c ∷ cs))
            → s.is_line_comment ≡ false
            → s.is_string ≡ true
            → 0 < length l.content
        at_end (inl nil) c u = absurd (cc (eat_loop_hangs tables (suc f) l s nil c u, e))
        at_end (inr (c, cs, full)) _ _ = rw full (omega arith)

        go :
            (st : Step)
            → step tables l s ≡ st
            → (s.is_line_comment ≡ false → s.is_string ≡ true → 0 < length l.content)
            → ((m : Lexer) (s' : Scan) (l' : Lexer) (t : Option Token)
                → Inv p0 M base file m s'
                → eat_loop tables f m s' ≡ ok (l', t)
                → Post p0 M base file (break_with l' t))
            → Post p0 M base file (break_with l' t)
        go (again m s') q left ih =
            ih m s' l' t (rw q at (step-Post l s i left)) (rw (q, eat_loop) at e)
        go (break_with m u) q left ih =
            let done : ◌≡◌ {A = Outcome (Lexer × Option Token)} (ok (m, u)) (ok (l', t)) =
              rw (q, eat_loop) at e in
            let spanned : Post p0 M base file (break_with m u) = rw q at (step-Post l s i left) in
            subst (λ (r : Lexer × Option Token). Post p0 M base file (break_with r.0 r.1))
              (ok-injective done) spanned
        go (fail r) q left ih = cc (rw (q, eat_loop) at e)
        go (char_literal m p) q left ih =
            char_loop-Post (suc f) m s.peeked_whitespace p 1 l' t (rw q at (step-Post l s i left))
              (rw (q, eat_loop) at e)

-- What a call of `eat_token` that returns leaves, where positions fit 32 bits: with a token, its new span, which begins no earlier than the
-- call and ends no later than the text that the call has read; without, the pool as it was.
pub eat_token-Post :
    (tables : UnicodeTables) (f M : ℕ) (l l' : Lexer) (t : Option Token)
    → room l ≤ M
    → M + 8 < 4294967296
    → eat_token tables f l ≡ ok (l', t)
    → Post l.pos M l.spans l.file_id (break_with l' t)
unfolding eat_token
eat_token-Post tables f M l l' t r b =
    eat_loop-Post l.pos M l.spans l.file_id b tables f l (start tables l) l' t (record {
      behind = omega arith;
      comment_start = λ h. cc h;
      comment_open = λ h. cc h;
      room_le = r;
      same_spans = refl;
      same_file = refl;
    })
