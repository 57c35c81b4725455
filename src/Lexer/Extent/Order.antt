-- ===== src/Lexer/Extent/Order.antt =====
-- src/k1/lex.rs: the spans of a file stand in the order of its text and do not overlap.
use bfl.Lexer.Extent.Call.{eat_token-Post}
use bfl.Lexer.Extent.{Spanned, room}
use bfl.Span.{Spans, Span}
use bfl.Token.{Token}
use bfl.Lexer.{out_of_fuel, error, eat_token, Outcome, ok, run_loop, run}
use bfl.Lexer.Cursor.{Lexer}
use bfl.Prelude.{
  none, zero, refl, some, append_assoc, append-nil, Option, length-append, sym, ap, length, suc,
  ◌∙◌, ◌*◌, ◌<◌, [], arith, ◌++◌, u32, ◌≤◌, ◌∷◌, ◌+◌, ◌≡◌, List, ℕ,
}
use bfl.Lexer.Chars.{UnicodeTables}
use mathlib.Core.Path.{subst}

-- The spans lie behind `p` in order, each behind the end of the one before it.
abbrev pub InOrder : ℕ → List Span → Type 0
InOrder p [] = Unit
InOrder p (s ∷ ss) = (p ≤ s.start) × InOrder (s.start + s.len) ss

-- The tokens are numbered from `k`.
abbrev pub Numbered : ℕ → List Token → Type 0
Numbered k [] = Unit
Numbered k (t ∷ ts) = (t.span ≡ u32 k) × Numbered (suc k) ts

InOrder-le : (p q : ℕ) (ss : List Span) → p ≤ q → InOrder q ss → InOrder p ss
InOrder-le p q [] h o = tt
InOrder-le p q (s ∷ ss) h o = (omega (arith, o.0), o.1)

-- What a run appends: tokens, and a span for each in the pool, in order.
pub record Appends (p : ℕ) (l l' : Lexer) (ts ts' : List Token) : Type 0 where
  pub new_tokens : List Token
  pub new_spans : List Span
  pub tokens_eq : ts' ≡ ts ++ new_tokens
  pub spans_eq : l'.spans.spans ≡ l.spans.spans ++ new_spans
  pub one_each : length new_spans ≡ length new_tokens
  pub numbered : Numbered (length l.spans.spans) new_tokens
  pub in_order : InOrder p new_spans

Appends-cons :
    (p M : ℕ) (l m l' : Lexer) (ts ts' : List Token) (t : Token)
    → Spanned p M l.spans l.file_id m t
    → Appends m.pos m l' (ts ++ t ∷ []) ts'
    → Appends p l l' ts ts'
Appends-cons p M l m l' ts ts' t s a = record {
  new_tokens = t ∷ a.new_tokens;
  new_spans = s.span ∷ a.new_spans;
  tokens_eq = a.tokens_eq ∙ append_assoc ts (t ∷ []) a.new_tokens;
  spans_eq =
      a.spans_eq
      ∙ ap (λ (x : List Span). x ++ a.new_spans) s.pool
      ∙ append_assoc l.spans.spans (s.span ∷ []) a.new_spans;
  one_each = ap suc a.one_each;
  numbered = (s.id, subst (λ k. Numbered k a.new_tokens) counted a.numbered);
  in_order = (s.starts, InOrder-le _ m.pos a.new_spans s.ends a.in_order);
}
  where
    counted : length m.spans.spans ≡ suc (length l.spans.spans)
    counted =
        omega (arith, ap (length {A = Span}) s.pool, length-append l.spans.spans (s.span ∷ []))

Appends-nil :
    (l l' : Lexer) (ts ts' : List Token) → l'.spans ≡ l.spans → ts' ≡ ts → Appends l.pos l l' ts ts'
Appends-nil l l' ts ts' p e = record {
  new_tokens = [];
  new_spans = [];
  tokens_eq = e ∙ sym (append-nil ts);
  spans_eq = ap (λ (x : Spans). x.spans) p ∙ sym (append-nil l.spans.spans);
  one_each = refl;
  numbered = tt;
  in_order = tt;
}

module _ (tables : UnicodeTables) where
  run_loop-Appends :
      (f g M : ℕ) (l l' : Lexer) (ts ts' : List Token)
      → room l ≤ M
      → M + 8 < 4294967296
      → run_loop tables f g l ts ≡ ok (l', ts')
      → Appends l.pos l l' ts ts'
  unfolding run_loop
  run_loop-Appends zero g M l l' ts ts' r b e = cc
  run_loop-Appends (suc f) g M l l' ts ts' r b e =
      go (eat_token tables g l) refl (run_loop-Appends f g M)
    where
      go :
          (o : Outcome (Lexer × Option Token))
          → eat_token tables g l ≡ o
          → ((m m' : Lexer) (us us' : List Token)
              → room m ≤ M
              → M + 8 < 4294967296
              → run_loop tables f g m us ≡ ok (m', us')
              → Appends m.pos m m' us us')
          → Appends l.pos l l' ts ts'
      go (ok (m, some t)) q ih =
          let s = eat_token-Post tables g M l m (some t) r b q in
          Appends-cons l.pos M l m l' ts ts' t s
            (ih m l' (ts ++ t ∷ []) ts' s.room_le b (rw (q, run_loop) at e))
      go (ok (m, none)) q ih =
          let kept = eat_token-Post tables g M l m none r b q in
          let done : ◌≡◌ {A = Outcome (Lexer × List Token)} (ok (m, ts)) (ok (l', ts')) =
            rw (q, run_loop) at e in
          Appends-nil l l' ts ts' (cc (done, kept)) (cc done)
      go (error x) q ih = cc (rw (q, run_loop) at e)
      go out_of_fuel q ih = cc (rw (q, run_loop) at e)

  -- The tokens of a run that returns, over a text whose positions fit 32 bits: each has a span of
  -- its own, and the spans follow one another in the text without overlapping.
  pub run-Appends :
      (l l' : Lexer) (ts : List Token)
      → l.pos + 4 * length l.content + 8 < 4294967296
      → run tables l ≡ ok (l', ts)
      → Appends l.pos l l' [] ts
  unfolding run
  run-Appends l l' ts b e =
      run_loop-Appends (length l.content + 1) (length l.content + 1) (room l) l l' [] ts
        (omega arith) b e
