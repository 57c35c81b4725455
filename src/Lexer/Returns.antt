-- ===== src/Lexer/Returns.antt =====
-- src/k1/lex.rs: on a text with no quotes the lexer returns, with an error or at the end of the text.
use bfl.Lexer.Consumes.{eat_token-consumes}
use bfl.Token.{Token}
use bfl.Lexer.Progress.{step-Shrinks, step-Waits}
use bfl.TokenKind.Spelling.{get_repr-from_char, kind_eq_iff}
use bfl.TokenKind.{get_repr, single_quote, kind_eq, from_char, TokenKind}
use bfl.Lexer.Cursor.{peek, advance, first, Lexer, rest}
use bfl.Lexer.Chars.{UnicodeTables}
use bfl.Lexer.{
  emit_ident, emit, run, run_loop, start, eat_token, out_of_fuel, char_literal, fail, error, ok,
  break_with, step_comment, Scan, eat_loop, step_char, Outcome, step_text, again, step_symbol, step,
  Step,
}
use bfl.Prelude.{
  ap, ◌++◌, ◌+◌, refl, zero, List-cases, inr, inl, Bool-cases, ◌∷◌, ◌⊎◌, [], true, none, suc, ◌<◌,
  some, length, false, ◌≡◌, Option, arith, ◌≢◌, All, ℕ, List,
}

-- A text with no string and no character literal.
abbrev pub Quoteless : List ℕ → Type 0
Quoteless = All (λ c. (c ≢ 34) × (c ≢ 39))

-- Without a token the reader stands at the end of the text or at a NUL.
abbrev Ended : Lexer → Option Token → Type 0
Ended l none = peek l ≡ 0
Ended l (some t) = Unit

-- What a round keeps of a text with no quotes.
abbrev Keeps : Step → Type 0
Keeps (again l' s') = Quoteless l'.content × (s'.is_string ≡ false)
Keeps (break_with l' t) = Quoteless l'.content × Ended l' t
Keeps (fail e) = Unit
Keeps (char_literal l' p) = ⊥

Quoteless-rest : (cs : List ℕ) → Quoteless cs → Quoteless (rest cs)
Quoteless-rest [] q = q
Quoteless-rest (c ∷ cs) q = q.1

Quoteless-advance : (l : Lexer) → Quoteless l.content → Quoteless (advance l).content
unfolding advance
Quoteless-advance l q = ground (
  arith,
  Quoteless-rest l.content q,
  Quoteless-rest (rest l.content) (Quoteless-rest l.content q),
)

peek-ne-quote : (l : Lexer) → Quoteless l.content → (peek l ≢ 34) × (peek l ≢ 39)
unfolding peek
peek-ne-quote l q =
    elim l.content as (λ cs. Quoteless cs → (first cs ≢ 34) × (first cs ≢ 39)) [
      | [] ↦ λ _. (omega arith, omega arith)
      | c ∷ cs ↦ λ h. h.0
    ]
      q

from_char-ne-single_quote :
    (c : ℕ) (k : TokenKind) → c ≢ 39 → from_char c ≡ some k → kind_eq k single_quote ≡ false
from_char-ne-single_quote c k h e = elim (Bool-cases (kind_eq k single_quote)) [
  | inl q ↦
      let spelled = rw ((kind_eq_iff k single_quote).0 q) at (get_repr-from_char c e) in
      absurd (h (unfold get_repr in ground (arith, spelled)))
  | inr n ↦ n
]

-- A run has returned, and has not left off in front of a character.
abbrev pub Finished : {A : Type 0} → Outcome (Lexer × A) → Type 0
Finished (ok (l', ts)) = (l'.content ≡ []) ⊎ ((behind : List ℕ) × (l'.content ≡ 0 ∷ behind))
Finished (error e) = Unit
Finished out_of_fuel = ⊥

first-zero : (cs : List ℕ) → first cs ≡ 0 → (cs ≡ []) ⊎ ((behind : List ℕ) × (cs ≡ 0 ∷ behind))
first-zero [] e = inl refl
first-zero (c ∷ cs) e = inr (cs, ap (λ d. d ∷ cs) e)

module _ (tables : UnicodeTables) where
  step_text-Keeps :
      (l : Lexer) (s : Scan) (c : ℕ)
      → Quoteless l.content
      → s.is_string ≡ false
      → Keeps (step_text tables l s c)
  unfolding step_text emit emit_ident
  step_text-Keeps l s c q t = ground (arith, Quoteless-advance l q)

  step_symbol-Keeps :
      (l : Lexer) (s : Scan) (c : ℕ) (k : TokenKind)
      → Quoteless l.content
      → s.is_string ≡ false
      → kind_eq k single_quote ≡ false
      → Keeps (step_symbol tables l s c k)
  unfolding step_symbol emit emit_ident
  step_symbol-Keeps l s c k q t n =
      let q1 = Quoteless-advance l q in
      let q2 = Quoteless-advance (advance l) q1 in
      ground (
        arith,
        step_text-Keeps (advance (advance l))
            (record s { is_line_comment = true; line_comment_start = l.pos }) c q2 t,
      )

  step_char-Keeps :
      (l : Lexer) (s : Scan) (c : ℕ) (o : Option TokenKind)
      → Quoteless l.content
      → s.is_string ≡ false
      → c ≢ 39
      → from_char c ≡ o
      → Keeps (step_char tables l s c o)
  unfolding step_char emit emit_ident
  step_char-Keeps l s c (some k) q t n e =
      step_symbol-Keeps l s c k q t (from_char-ne-single_quote c k n e)
  step_char-Keeps l s c none q t n e = step_text-Keeps l s c q t

  step-Keeps :
      (l : Lexer) (s : Scan) → Quoteless l.content → s.is_string ≡ false → Keeps (step tables l s)
  unfolding step step_comment emit emit_ident
  step-Keeps l s q t = ground (
    arith,
    Quoteless-advance l q,
    peek-ne-quote l q,
    step_char-Keeps l s (peek l) (from_char (peek l)) q t (peek-ne-quote l q).1 refl,
  )

  -- What a call of `eat_token` leaves of the text.
  abbrev Leaves : Outcome (Lexer × Option Token) → Type 0
  Leaves (ok (l', t)) = Quoteless l'.content × Ended l' t
  Leaves (error e) = Unit
  Leaves out_of_fuel = ⊥

  eat_loop-Leaves :
      (f : ℕ) (l : Lexer) (s : Scan)
      → length l.content < f
      → Quoteless l.content
      → s.is_string ≡ false
      → Leaves (eat_loop tables f l s)
  unfolding eat_loop
  eat_loop-Leaves zero l s h q t = absurd (omega arith)
  eat_loop-Leaves (suc f) l s h q t =
      go (step tables l s) refl (step-Keeps l s q t) (List-cases l.content) (eat_loop-Leaves f)
    where
      go :
          (st : Step)
          → step tables l s ≡ st
          → Keeps st
          → (l.content ≡ []) ⊎ ((c : ℕ) × (cs : List ℕ) × (l.content ≡ c ∷ cs))
          → ((l' : Lexer) (s' : Scan)
              → length l'.content < f
              → Quoteless l'.content
              → s'.is_string ≡ false
              → Leaves (eat_loop tables f l' s'))
          → Leaves (eat_loop tables (suc f) l s)
      go (again l' s') e k (inl nil) ih = absurd (cc (t, (rw e at (step-Waits tables l s nil)).1))
      go (again l' s') e k (inr (c, cs, full)) ih =
          let fewer = rw e at (step-Shrinks tables l s (rw full (omega arith))) in
          rw (e, eat_loop) (ih l' s' (omega arith) k.0 k.1)
      go (break_with l' o) e k _ ih = rw (e, eat_loop) k
      go (fail r) e k _ ih = rw (e, eat_loop) tt
      go (char_literal l' p) e k _ ih = absurd k

  -- On a text with no quotes `eat_token` returns, and so does every later call.
  pub eat_token-returns :
      (f : ℕ) (l : Lexer)
      → length l.content < f
      → Quoteless l.content
      → Leaves (eat_token tables f l)
  unfolding eat_token
  eat_token-returns f l h q = eat_loop-Leaves f l (start tables l) h q refl

  run_loop-returns :
      (f g : ℕ) (l : Lexer) (ts : List Token)
      → length l.content < f
      → length l.content < g
      → Quoteless l.content
      → Finished (run_loop tables f g l ts)
  unfolding run_loop peek
  run_loop-returns zero g l ts h k q = absurd (omega arith)
  run_loop-returns (suc f) g l ts h k q =
      go (eat_token tables g l) refl (eat_token-returns g l k q) (run_loop-returns f g)
    where
      go :
          (r : Outcome (Lexer × Option Token))
          → eat_token tables g l ≡ r
          → Leaves r
          → ((l' : Lexer) (ts' : List Token)
              → length l'.content < f
              → length l'.content < g
              → Quoteless l'.content
              → Finished (run_loop tables f g l' ts'))
          → Finished (run_loop tables (suc f) g l ts)
      go (ok (l', some t)) e v ih =
          let fewer = eat_token-consumes tables g l l' t e in
          rw (e, run_loop) (ih l' (ts ++ t ∷ []) (omega arith) (omega arith) v.0)
      go (ok (l', none)) e v ih = rw (e, run_loop) (first-zero l'.content v.1)
      go (error r) e v ih = rw (e, run_loop) tt
      go out_of_fuel e v ih = absurd v

  -- On a text with no single or double quotes a run returns, in no more rounds than there are
  -- characters and one: with an error, or with tokens where nothing is left to read but a NUL
  -- and what stands behind it.
  pub run-returns : (l : Lexer) → Quoteless l.content → Finished (run tables l)
  unfolding run
  run-returns l q =
      run_loop-returns (length l.content + 1) (length l.content + 1) l [] (omega arith)
        (omega arith) q
