-- ===== src/Lexer/Consumes.antt =====
-- src/k1/lex.rs: a token takes at least one character of the text, and no token gives any back.
use bfl.TokenKind.{from_char, TokenKind, token_from_str}
use bfl.Token.{Token}
use bfl.Lexer.Progress.{
  peek_nil, length-advance_lt, step-Waits, step-Shrinks, length-advance, Shrinks,
}
use bfl.Prelude.{
  refl, List-cases, inl, none, ◌<◌, zero, inr, some, ◌+◌, ◌∷◌, u32, List, ◌⊎◌, arith, [], ◌≡◌,
  Option, suc, ◌≤◌, Bool, length, ℕ,
}
use bfl.Lexer.{
  emit_ident, emit, Outcome, start, char_literal, step_symbol, fail, break_with, step_text,
  eat_loop, eat_token, again, step_char, ok, Step, step, Scan, char_loop,
}
use bfl.Lexer.Chars.{UnicodeTables}
use bfl.Lexer.Cursor.{peek, advance, next, Lexer}

length-next : (l : Lexer) → length (next l).1.content ≤ length l.content
length-next l = unfold advance in length-advance l

char_loop-consumes :
    (f : ℕ) (l : Lexer) (ws : Bool) (n len : ℕ) {l' : Lexer} {t : Option Token}
    → char_loop f l ws n len ≡ ok (l', t)
    → length l'.content ≤ length l.content
unfolding char_loop
char_loop-consumes zero l ws n len e = cc
char_loop-consumes (suc f) l ws n len {l'} {t} e =
    ground
      (arith, length-next l, char_loop-consumes f (next l).1 ws n (u32 (len + 1)) {l' = l'} {t = t})

-- A round leaves no more than `n` characters.
abbrev NoMore : ℕ → Step → Type 0
NoMore n (again l' s') = length l'.content ≤ n
NoMore n (break_with l' t) = length l'.content ≤ n
NoMore n (fail e) = Unit
NoMore n (char_literal l' p) = length l'.content ≤ n

module _ (tables : UnicodeTables) where
  -- A round leaves no more text than it found, also at the end.
  step-le : (l : Lexer) (s : Scan) → NoMore (length l.content) (step tables l s)
  step-le l s = go (step tables l s) refl (List-cases l.content)
    where
      go :
          (st : Step)
          → step tables l s ≡ st
          → (l.content ≡ []) ⊎ ((c : ℕ) × (cs : List ℕ) × (l.content ≡ c ∷ cs))
          → NoMore (length l.content) (step tables l s)
      go st e (inr (c, cs, full)) =
          let fewer = rw e at (step-Shrinks tables l s (rw full (omega arith))) in
          rw e (weaken st fewer)
        where
          weaken : (st : Step) → Shrinks (length l.content) st → NoMore (length l.content) st
          weaken (again l' s') h = omega arith
          weaken (break_with l' t) h = omega arith
          weaken (fail r) h = tt
          weaken (char_literal l' p) h = omega arith
      go (again l' s') e (inl nil) =
          let w = rw e at (step-Waits tables l s nil) in rw (e, w.4) (omega arith)
      go (break_with l' t) e (inl nil) =
          let w = rw e at (step-Waits tables l s nil) in rw (e, w.0) (omega arith)
      go (fail r) e (inl nil) = rw e tt
      go (char_literal l' p) e (inl nil) = absurd (rw e at (step-Waits tables l s nil))

  eat_loop-consumes :
      (f : ℕ) (l : Lexer) (s : Scan) (l' : Lexer) (t : Option Token)
      → eat_loop tables f l s ≡ ok (l', t)
      → length l'.content ≤ length l.content
  unfolding eat_loop
  eat_loop-consumes zero l s l' t e = cc
  eat_loop-consumes (suc f) l s l' t e =
      go (step tables l s) refl (step-le l s) (eat_loop-consumes f)
    where
      go :
          (st : Step)
          → step tables l s ≡ st
          → NoMore (length l.content) (step tables l s)
          → ((m : Lexer) (s' : Scan) (l' : Lexer) (t : Option Token)
              → eat_loop tables f m s' ≡ ok (l', t)
              → length l'.content ≤ length m.content)
          → length l'.content ≤ length l.content
      go (again m s') q w ih =
          let w' = rw q at w in omega (arith, ih m s' l' t (rw (q, eat_loop) at e))
      go (break_with m o) q w ih =
          let left : length m.content ≤ length l.content = rw q at w in
          let same : ◌≡◌ {A = Outcome (Lexer × Option Token)} (ok (m, o)) (ok (l', t)) =
            rw (q, eat_loop) at e in
          ground arith
      go (fail r) q w ih = cc (rw (q, eat_loop) at e)
      go (char_literal m p) q w ih =
          let w' = rw q at w in
          omega
            (arith, char_loop-consumes (suc f) m s.peeked_whitespace p 1 (rw (q, eat_loop) at e))

  -- The first round of a call ends with a token only behind a character that it has read.
  abbrev Reads : ℕ → Step → Type 0
  Reads n (again l' s') = Unit
  Reads n (break_with l' none) = Unit
  Reads n (break_with l' (some t)) = length l'.content < n
  Reads n (fail e) = Unit
  Reads n (char_literal l' p) = Unit

  start-Reads :
      (l : Lexer) → 0 < length l.content → Reads (length l.content) (step tables l (start tables l))
  unfolding step step_char step_text step_symbol token_from_str emit emit_ident
  start-Reads l h = ground (
    arith,
    length-advance_lt l,
    length-advance (advance l),
    char-Reads (peek l) (from_char (peek l)),
  )
    where
      char-Reads :
          (c : ℕ) (o : Option TokenKind)
          → Reads (length l.content) (step_char tables l (start tables l) c o)
      char-Reads c (some k) = ground (arith, length-advance_lt l h, length-advance (advance l))
      char-Reads c none = ground arith

  start_nil : (l : Lexer) → l.content ≡ [] → step tables l (start tables l) ≡ break_with l none
  unfolding step emit emit_ident
  start_nil l h = ground (arith, peek_nil l h)

  -- A token takes at least one character.
  pub eat_token-consumes :
      (f : ℕ) (l l' : Lexer) (t : Token)
      → eat_token tables f l ≡ ok (l', some t)
      → length l'.content < length l.content
  unfolding eat_token
  eat_token-consumes zero l l' t e = cc
  eat_token-consumes (suc f) l l' t e =
      go (step tables l (start tables l)) refl (List-cases l.content)
    where
      go :
          (st : Step)
          → step tables l (start tables l) ≡ st
          → (l.content ≡ []) ⊎ ((c : ℕ) × (cs : List ℕ) × (l.content ≡ c ∷ cs))
          → length l'.content < length l.content
      go (again m s') q (inl nil) = cc (rw q at (step-Waits tables l (start tables l) nil)).1
      go (again m s') q (inr (c, cs, full)) =
          let fewer = rw q at (step-Shrinks tables l (start tables l) (rw full (omega arith))) in
          omega (arith, eat_loop-consumes f m s' l' (some t) (rw (q, eat_loop) at e))
      go (break_with m o) q (inl nil) =
          let ended : step tables l (start tables l) ≡ break_with l none = start_nil l nil in
          cc (ended, rw (q, eat_loop) at e)
      go (break_with m o) q (inr (c, cs, full)) =
          let first : ok (m, o) ≡ ok (l', some t) = rw (q, eat_loop) at e in
          let read : Reads (length l.content) (break_with m o) =
            rw q at (start-Reads l (rw full (omega arith))) in
          ground arith
      go (fail r) q _ = cc (rw (q, eat_loop) at e)
      go (char_literal m p) q (inl nil) =
          absurd (rw q at (step-Waits tables l (start tables l) nil))
      go (char_literal m p) q (inr (c, cs, full)) =
          let fewer = rw q at (step-Shrinks tables l (start tables l) (rw full (omega arith))) in
          omega (
            arith,
            char_loop-consumes (suc f) m (start tables l).peeked_whitespace p 1
                (rw (q, eat_loop) at e),
          )
